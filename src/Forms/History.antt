-- ===== src/Forms/History.antt =====
-- The versions of a form are its history.
use mathlib.Core.Path.{subst}
use mathlib.Core.List.{append-nil}
use abcd_yi.Prelude.{
  length-append, ℕ, suc, ◌+◌, ◌≡◌, refl, sym, ap, ◌∙◌, arith, ◌==◌, ==_iff, String, true, false,
  none, some, List, [], ◌∷◌, ◌++◌, length, inl, inr, Bool-cases, if◌then◌else◌,
}
use abcd_yi.Prelude.Table.{Table, find, put, select-put_new, find-put}
use abcd_yi.Forms.Rows.{Form, Version, FormStore, Fields}
use abcd_yi.Forms.Service.{latest, versions_of, current_of, next_version, or_no_version}

-- Versions that are numbered from i on.
abbrev pub CountsFrom : ℕ → List Version → Type 0
CountsFrom i [] = Unit
CountsFrom i (v ∷ vs) = (v.version_number ≡ i) × CountsFrom (suc i) vs

CountsFrom-append :
    (i : ℕ) (l : List Version) (v : Version)
    → CountsFrom i l
    → v.version_number ≡ i + length l
    → CountsFrom i (l ++ v ∷ [])
CountsFrom-append i [] v c h = (omega arith, tt)
CountsFrom-append i (w ∷ ws) v (e, c) h = (e, CountsFrom-append (suc i) ws v c (omega arith))

-- The newest of them is the last one.
latest-append :
    (i : ℕ) (l : List Version) (v : Version)
    → CountsFrom i (l ++ v ∷ [])
    → (latest (l ++ v ∷ []) ≡ some v) × (v.version_number ≡ i + length l)
unfolding latest
latest-append i [] v c = (refl, omega arith)
latest-append i (w ∷ ws) v (e, c) =
    let (l, n) = latest-append (suc i) ws v c in (rw l (ground arith), omega arith)

latest_number :
    (form_id i : ℕ) (l : List Version)
    → CountsFrom (suc i) l
    → (or_no_version form_id (latest l)).version_number
      ≡ (if length l == 0 then 0 else i + length l)
unfolding latest
latest_number form_id i [] c = refl
latest_number form_id i (w ∷ ws) (e, c) = ground (arith, latest_number form_id (suc i) ws c)

-- Every form's versions are numbered from 1 on, in the order in which they were stored, and the form
-- names their number as its current version. A version belongs to a form that is there.
pub record IsVersioned (s : FormStore) : Type 0 where
  pub numbered : (id : ℕ) → CountsFrom 1 (versions_of id s)
  pub current :
      (id : ℕ) (f : Form) → find id s.forms ≡ some f → f.current_version ≡ length (versions_of id s)
  pub owned : (id : ℕ) → find id s.forms ≡ none → versions_of id s ≡ []

-- A new version behind the others of its form.
module _ (s : FormStore) (inv : IsVersioned s) (version_id : ℕ) (f : Form) (v : Version)
    (fresh : find version_id s.versions ≡ none) where
  abbrev pub added : FormStore
  added = record s {
    versions = put version_id v s.versions;
    forms = put v.form_id (record f { current_version = v.version_number }) s.forms;
  }

  versions_of-added :
      (id : ℕ) → versions_of id added ≡ versions_of id s ++ (if v.form_id == id then v ∷ [] else [])
  versions_of-added id =
      select-put_new (λ (w : Version). w.form_id == id) version_id v s.versions fresh

  same_form :
      (id : ℕ) → (v.form_id == id) ≡ true → versions_of id added ≡ versions_of v.form_id s ++ v ∷ []
  same_form id e =
      let k : v.form_id ≡ id = (==_iff v.form_id id).0 e in
      versions_of-added id ∙ rw e (ap (λ (n : ℕ). versions_of n s ++ v ∷ []) (sym k))

  other_form : (id : ℕ) → (v.form_id == id) ≡ false → versions_of id added ≡ versions_of id s
  other_form id e = versions_of-added id ∙ rw e (append-nil (versions_of id s))

  pub added-IsVersioned :
      v.version_number ≡ length (versions_of v.form_id s) + 1 → IsVersioned added
  added-IsVersioned next = record {
    numbered = λ id. elim (Bool-cases (v.form_id == id)) [
      | inl e ↦
          subst (CountsFrom 1) (sym (same_form id e))
            (CountsFrom-append 1 (versions_of v.form_id s) v (inv.numbered v.form_id) (omega arith))
      | inr e ↦ subst (CountsFrom 1) (sym (other_form id e)) (inv.numbered id)
    ];
    current = λ id g h. elim (Bool-cases (v.form_id == id)) [
      | inl e ↦
          let found : some (record f { current_version = v.version_number }) ≡ some g =
            sym (find-put v.form_id id _ s.forms ∙ rw e refl) ∙ h in
          let g_is : v.version_number ≡ g.current_version = ground arith in
          sym g_is
          ∙ next
          ∙ sym (ap length (same_form id e) ∙ length-append (versions_of v.form_id s) (v ∷ []))
      | inr e ↦
          let found : find id s.forms ≡ some g =
            sym (find-put v.form_id id _ s.forms ∙ rw e refl) ∙ h in
          inv.current id g found ∙ ap length (sym (other_form id e))
    ];
    owned = λ id h. elim (Bool-cases (v.form_id == id)) [
      | inl e ↦
          let found : find id added.forms ≡ some (record f { current_version = v.version_number }) =
            find-put v.form_id id (record f { current_version = v.version_number }) s.forms
            ∙ rw e refl in
          absurd (ground arith)
      | inr e ↦
          let absent : find id s.forms ≡ none =
            sym (find-put v.form_id id _ s.forms ∙ rw e refl) ∙ h in
          other_form id e ∙ inv.owned id absent
    ];
  }

  pub latest-added :
      v.version_number ≡ length (versions_of v.form_id s) + 1
      → latest (versions_of v.form_id added) ≡ some v
  latest-added next =
      let whole =
        CountsFrom-append 1 (versions_of v.form_id s) v (inv.numbered v.form_id) (omega arith) in
      ap latest (same_form v.form_id ((==_iff v.form_id v.form_id).1 refl))
      ∙ (latest-append 1 (versions_of v.form_id s) v whole).0

-- The version behind the newest one has the next number.
pub next_number :
    (s : FormStore) (form_id user_id : ℕ) (updates : Fields) (confirmed : List String)
    → IsVersioned s
    → (next_version form_id (current_of form_id s) user_id updates confirmed).version_number
      ≡ length (versions_of form_id s) + 1
next_number s form_id user_id updates confirmed inv =
    ground (arith, latest_number form_id 0 (versions_of form_id s) (inv.numbered form_id))

-- Events and questions are no part of it.
pub kept-IsVersioned :
    {s t : FormStore} → IsVersioned s → t.versions ≡ s.versions → t.forms ≡ s.forms → IsVersioned t
kept-IsVersioned {s} {t} inv v f =
    subst
      (λ (p : Table Version × Table Form). IsVersioned (record t { versions = p.0; forms = p.1 }))
      (λ i. (sym v i, sym f i))
      (record { numbered = inv.numbered; current = inv.current; owned = inv.owned })
