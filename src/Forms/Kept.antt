-- ===== src/Forms/Kept.antt =====
-- What holds of the forms after any sequence of calls.
use mathlib.Core.Path.{subst}
use mathlib.Core.List.{append-nil}
use abcd_yi.Prelude.{
  ℕ, ◌≡◌, refl, sym, ap, ◌∙◌, arith, ◌==◌, ==_iff, String, true, false, Option, none, some, List,
  inl, inr, Bool-cases,
}
use abcd_yi.Prelude.Table.{Table, find, put, select, find-put, select-put_new}
use abcd_yi.Forms.Rows.{Form, Version, FormStore, Fields}
use abcd_yi.Forms.Service.{
  versions_of, update_form_fields, lock_form, add_clarification_question,
  create_dynamic_form_from_inquiry,
}
use abcd_yi.Forms.History.{IsVersioned, kept-IsVersioned}
use abcd_yi.Forms.Calls.{
  next, update_cases, update-IsVersioned, first, new_form, create_cases, create-IsVersioned,
  lock_cases, lock-IsVersioned, question_keeps,
}

-- One call; the rows that it adds have new ids.
pub data Step (s t : FormStore) : Type 0 where
  created :
      (now form_id version_id project_id inquiry_id : ℕ) (extracted : Option Fields)
      (tenant_id user_id : ℕ)
      → find form_id s.forms ≡ none
      → find version_id s.versions ≡ none
      → (create_dynamic_form_from_inquiry now form_id version_id project_id inquiry_id extracted
          tenant_id user_id s).1
        ≡ t
      → Step s t
  updated :
      (now form_id version_id user_id tenant_id : ℕ) (updates : Fields) (confirmed : List String)
      → find version_id s.versions ≡ none
      → (update_form_fields now form_id version_id user_id tenant_id updates confirmed s).1 ≡ t
      → Step s t
  locked : (form_id : ℕ) → (lock_form form_id s).1 ≡ t → Step s t
  asked :
      (form_id question_id : ℕ) (text : String) (field : Option String)
      → (add_clarification_question form_id question_id text field s).1 ≡ t
      → Step s t

pub data Steps (s : FormStore) : FormStore → Type 0 where
  here : Steps s s
  next_call : {t u : FormStore} → Steps s t → Step t u → Steps s u

Step-IsVersioned : {s t : FormStore} → Step s t → IsVersioned s → IsVersioned t
Step-IsVersioned {s} (created now f v p i x n u unused fresh e) inv =
    subst IsVersioned e (create-IsVersioned now f v p i x n u s inv unused fresh)
Step-IsVersioned {s} (updated now f v u n d c fresh e) inv =
    subst IsVersioned e (update-IsVersioned now f v u n d c s inv fresh)
Step-IsVersioned {s} (locked f e) inv = subst IsVersioned e (lock-IsVersioned f s inv)
Step-IsVersioned {s} (asked f q x k e) inv =
    let (v, g) = question_keeps f s q x k in subst IsVersioned e (kept-IsVersioned inv v g)

-- Whatever calls are made, the versions of every form stay numbered from 1 on, in the order in which
-- they were stored, and every form names the number of its newest one.
pub Steps-IsVersioned : {s t : FormStore} → Steps s t → IsVersioned s → IsVersioned t
Steps-IsVersioned here inv = inv
Steps-IsVersioned (next_call r c) inv = Step-IsVersioned c (Steps-IsVersioned r inv)

-- A form with its versions, as it stands in two stores.
abbrev pub SameForm : ℕ → FormStore → FormStore → Type 0
SameForm id s t = (find id t.forms ≡ find id s.forms) × (versions_of id t ≡ versions_of id s)

-- A new version of another form, and a write to another form's row.
other_form :
    (s t : FormStore) (id form_id version_id : ℕ) (g : Form) (v : Version)
    → (form_id == id) ≡ false
    → find version_id s.versions ≡ none
    → v.form_id ≡ form_id
    → t.versions ≡ put version_id v s.versions
    → t.forms ≡ put form_id g s.forms
    → SameForm id s t
other_form s t id form_id version_id g v other fresh own ev ef = (
  ap (find id) ef ∙ find-put form_id id g s.forms ∙ rw other refl,
  ap (λ (vs : Table Version). select (λ (w : Version). w.form_id == id) vs) ev
      ∙ select-put_new (λ (w : Version). w.form_id == id) version_id v s.versions fresh
      ∙ rw (own, other) (append-nil (versions_of id s)),
)

module _ {s : FormStore} (id : ℕ) (f : Form) (found : find id s.forms ≡ some f)
    (is_locked : f.is_locked ≡ true) where
  Step-SameForm : {t : FormStore} → Step s t → SameForm id s t
  Step-SameForm {t} (created now i v p q x n u unused fresh e) =
      elim (create_cases now i v p q x n u s) [
        | inl same ↦ subst (SameForm id s) (sym same ∙ e) (refl, refl)
        | inr (ev, ef) ↦
            let other : (i == id) ≡ false = elim (Bool-cases (i == id)) [
              | inl h ↦
                  let k : i ≡ id = (==_iff i id).0 h in
                  let gone : some f ≡ none =
                    sym found ∙ sym (ap (λ (n : ℕ). find n s.forms) k) ∙ unused in
                  absurd (ground arith)
              | inr h ↦ h
            ] in
            subst (SameForm id s) e (
              other_form s (create_dynamic_form_from_inquiry now i v p q x n u s).1 id i v
                (new_form now i v p q x n u s) (first now i v p q x n u s) other fresh refl ev ef)
      ]
  Step-SameForm {t} (updated now i v u n d c fresh e) = elim (update_cases now i v u n d c s) [
    | inl same ↦ subst (SameForm id s) (sym same ∙ e) (refl, refl)
    | inr (g, there, open_form, ev, ef) ↦
        let other : (i == id) ≡ false = elim (Bool-cases (i == id)) [
          | inl h ↦
              let k : i ≡ id = (==_iff i id).0 h in
              let same : some f ≡ some g =
                sym found ∙ sym (ap (λ (n : ℕ). find n s.forms) k) ∙ there in
              let same_lock : f.is_locked ≡ g.is_locked = ground arith in
              let no : true ≡ false = sym is_locked ∙ same_lock ∙ open_form in cc
          | inr h ↦ h
        ] in
        subst (SameForm id s) e (
          other_form s (update_form_fields now i v u n d c s).1 id i v
            (record g { current_version = (next now i v u n d c s).version_number })
            (next now i v u n d c s) other fresh refl ev ef)
  ]
  Step-SameForm {t} (locked i e) = elim (lock_cases i s) [
    | inl same ↦ subst (SameForm id s) (sym same ∙ e) (refl, refl)
    | inr (g, there, k) ↦ subst (SameForm id s) (sym k ∙ e) (relocked g i there, refl)
  ]
    where
      relocked :
          (g : Form) (i : ℕ)
          → find i s.forms ≡ some g
          → find id (put i (record g { is_locked = true }) s.forms) ≡ find id s.forms
      relocked g i there =
          find-put i id (record g { is_locked = true }) s.forms ∙ elim (Bool-cases (i == id)) [
            | inl h ↦
                let k : i ≡ id = (==_iff i id).0 h in
                let same : some f ≡ some g =
                  sym found ∙ sym (ap (λ (n : ℕ). find n s.forms) k) ∙ there in
                let stays : some (record g { is_locked = true }) ≡ some f = ground arith in
                rw h (stays ∙ sym found)
            | inr h ↦ rw h refl
          ]
  Step-SameForm {t} (asked i q x k e) =
      let (ev, ef) = question_keeps i s q x k in
      subst (SameForm id s) e (
        ap (find id) ef,
        ap (λ (vs : Table Version). select (λ (w : Version). w.form_id == id) vs) ev,
      )

-- A locked form stays as it is, with its versions, whatever calls are made.
pub Steps-locked :
    {s t : FormStore} (id : ℕ) (f : Form)
    → find id s.forms ≡ some f
    → f.is_locked ≡ true
    → Steps s t
    → SameForm id s t
Steps-locked id f found l here = (refl, refl)
Steps-locked id f found l (next_call r c) =
    let (ef, ev) = Steps-locked id f found l r in
    let (gf, gv) = Step-SameForm id f (ef ∙ found) l c in (gf ∙ ef, gv ∙ ev)
