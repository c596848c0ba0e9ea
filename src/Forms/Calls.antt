-- ===== src/Forms/Calls.antt =====
-- Sequences of calls on the forms.
use mathlib.Core.Path.{subst}
use abcd_yi.Prelude.{
  ℕ, ◌+◌, ◌≡◌, sym, ap, ◌∙◌, arith, ◌==◌, ==_iff, String, true, false, Option, none, some, List, [],
  length, any, is_some, ◌⊎◌, inl, inr, Bool-cases, Option-cases, if◌then◌else◌,
}
use abcd_yi.Prelude.Exec.{ok, ◌>>=◌}
use abcd_yi.Prelude.Table.{find, put, find-put, matches}
use abcd_yi.Forms.Rows.{Form, Version, FormStore, Fields}
use abcd_yi.Forms.Service.{
  versions_of, current_of, next_version, update_unlocked, update_form_fields, lock_form,
  add_clarification_question, create_form, create_dynamic_form_from_inquiry,
}
use abcd_yi.Forms.Extraction.{read_extraction, first_fields}
use abcd_yi.Forms.History.{IsVersioned, added-IsVersioned, next_number, kept-IsVersioned}

module _ (now form_id version_id user_id tenant_id : ℕ) (updates : Fields) (confirmed : List String)
    (s : FormStore) where
  abbrev pub next : Version
  next = next_version form_id (current_of form_id s) user_id updates confirmed

  -- What an update of a form that is not locked returns and leaves.
  pub update_open :
      (f : Form)
      → find form_id s.forms ≡ some f
      → f.is_locked ≡ false
      → ((update_form_fields now form_id version_id user_id tenant_id updates confirmed s).0
          ≡ ok (some next))
        × ((update_form_fields now form_id version_id user_id tenant_id updates confirmed
              s).1.versions
            ≡ put version_id next s.versions)
        × ((update_form_fields now form_id version_id user_id tenant_id updates confirmed s).1.forms
            ≡ put form_id (record f { current_version = next.version_number }) s.forms)
  unfolding update_form_fields update_unlocked ◌>>=◌
  update_open f e l = (ground arith, ground arith, ground arith)

  -- What an update leaves: the store as it was, or one version more of a form that is not locked.
  pub update_cases :
      ((update_form_fields now form_id version_id user_id tenant_id updates confirmed s).1 ≡ s)
      ⊎ ((f : Form) × (find form_id s.forms ≡ some f)
          × (f.is_locked ≡ false)
          × ((update_form_fields now form_id version_id user_id tenant_id updates confirmed
                s).1.versions
              ≡ put version_id next s.versions)
          × ((update_form_fields now form_id version_id user_id tenant_id updates confirmed
                s).1.forms
              ≡ put form_id (record f { current_version = next.version_number }) s.forms))
  unfolding update_form_fields ◌>>=◌
  update_cases = elim (Option-cases (find form_id s.forms)) [
    | inl e ↦ inl (rw (e, update_form_fields, ◌>>=◌))
    | inr (f, e) ↦ elim (Bool-cases f.is_locked) [
      | inl l ↦ inl (ground arith)
      | inr l ↦ let (_, v, g) = update_open f e l in inr (f, e, l, v, g)
    ]
  ]

  pub update-IsVersioned :
      IsVersioned s
      → find version_id s.versions ≡ none
      → IsVersioned
          (update_form_fields now form_id version_id user_id tenant_id updates confirmed s).1
  update-IsVersioned inv fresh = elim update_cases [
    | inl e ↦ subst IsVersioned (sym e) inv
    | inr (f, found, _, v, g) ↦
        kept-IsVersioned
          (added-IsVersioned s inv version_id f next fresh
            (next_number s form_id user_id updates confirmed inv))
          v g
  ]

module _ (now form_id version_id project_id inquiry_id : ℕ) (extracted : Option Fields)
    (tenant_id user_id : ℕ) (s : FormStore) where
  abbrev pub first : Version
  first = record {
    form_id = form_id;
    version_number = 1;
    fields = first_fields (read_extraction extracted);
    ai_generated_fields = (read_extraction extracted).ai_generated;
    human_confirmed_fields = [];
    missing_fields = (read_extraction extracted).missing;
    created_by = some user_id;
  }

  abbrev pub new_form : Form
  new_form = record { project_id = project_id; current_version = 1; is_locked = false }

  pub create_cases :
      ((create_dynamic_form_from_inquiry now form_id version_id project_id inquiry_id extracted
          tenant_id user_id s).1
        ≡ s)
      ⊎ (((create_dynamic_form_from_inquiry now form_id version_id project_id inquiry_id extracted
              tenant_id user_id s).1.versions
            ≡ put version_id first s.versions)
          × ((create_dynamic_form_from_inquiry now form_id version_id project_id inquiry_id
                extracted tenant_id user_id s).1.forms
              ≡ put form_id new_form s.forms))
  unfolding create_dynamic_form_from_inquiry create_form ◌>>=◌
  create_cases = elim (Bool-cases (is_some (find inquiry_id s.inquiries))) [
    | inl e ↦
        elim (Bool-cases
          (any (λ _. true) (matches (λ (f : Form). f.project_id == project_id) s.forms))) [
            | inl o ↦ inl (ground arith)
            | inr o ↦ inr (ground arith, ground arith)
          ]
    | inr e ↦ inl (ground arith)
  ]

  pub create-IsVersioned :
      IsVersioned s
      → find form_id s.forms ≡ none
      → find version_id s.versions ≡ none
      → IsVersioned
          (create_dynamic_form_from_inquiry now form_id version_id project_id inquiry_id extracted
            tenant_id user_id s).1
  create-IsVersioned inv unused fresh = elim create_cases [
    | inl e ↦ subst IsVersioned (sym e) inv
    | inr (v, g) ↦
        let empty = inv.owned form_id unused in
        kept-IsVersioned
          (added-IsVersioned s inv version_id new_form first fresh
            (sym (ap (λ (l : List Version). length l + 1) empty)))
          v g
  ]

module _ (form_id : ℕ) (s : FormStore) where
  pub lock_cases :
      ((lock_form form_id s).1 ≡ s)
      ⊎ ((f : Form) × (find form_id s.forms ≡ some f)
          × ((lock_form form_id s).1
              ≡ record s { forms = put form_id (record f { is_locked = true }) s.forms }))
  unfolding lock_form ◌>>=◌
  lock_cases = elim (Option-cases (find form_id s.forms)) [
    | inl e ↦ inl (rw (e, lock_form, ◌>>=◌))
    | inr (f, e) ↦ inr (f, e, rw (e, lock_form, ◌>>=◌))
  ]

  pub lock-IsVersioned : IsVersioned s → IsVersioned (lock_form form_id s).1
  lock-IsVersioned inv = elim lock_cases [
    | inl e ↦ subst IsVersioned (sym e) inv
    | inr (f, found, e) ↦ subst IsVersioned (sym e) (record {
      numbered = inv.numbered;
      current = λ id g h.
          current_locked f found id g
            (sym (find-put form_id id (record f { is_locked = true }) s.forms) ∙ h);
      owned = λ id h.
          owned_locked f id (sym (find-put form_id id (record f { is_locked = true }) s.forms) ∙ h);
    })
  ]
    where
      current_locked :
          (f : Form)
          → find form_id s.forms ≡ some f
          → (id : ℕ) (g : Form)
          → (if form_id == id then some (record f { is_locked = true }) else find id s.forms)
            ≡ some g
          → g.current_version ≡ length (versions_of id s)
      current_locked f found id g h = elim (Bool-cases (form_id == id)) [
        | inl e ↦
            let k : form_id ≡ id = (==_iff form_id id).0 e in
            let same : some (record f { is_locked = true }) ≡ some g = rw e at h in
            let number : f.current_version ≡ g.current_version = ground arith in
            sym number ∙ inv.current form_id f found ∙ ap (λ (n : ℕ). length (versions_of n s)) k
        | inr e ↦ inv.current id g (rw e at h)
      ]

      owned_locked :
          (f : Form) (id : ℕ)
          → (if form_id == id then some (record f { is_locked = true }) else find id s.forms) ≡ none
          → versions_of id s ≡ []
      owned_locked f id h = elim (Bool-cases (form_id == id)) [
        | inl e ↦
            let same : some (record f { is_locked = true }) ≡ none = rw e at h in
            absurd (ground arith)
        | inr e ↦ inv.owned id (rw e at h)
      ]

  pub question_keeps :
      (question_id : ℕ) (text : String) (field : Option String)
      → ((add_clarification_question form_id question_id text field s).1.versions ≡ s.versions)
        × ((add_clarification_question form_id question_id text field s).1.forms ≡ s.forms)
  unfolding add_clarification_question ◌>>=◌
  question_keeps question_id text field = elim (Option-cases (find form_id s.forms)) [
    | inl e ↦ (rw (e, ◌>>=◌), rw (e, ◌>>=◌))
    | inr (f, e) ↦ elim (Bool-cases f.is_locked) [
      | inl l ↦ (ground arith, ground arith)
      | inr l ↦ (ground arith, ground arith)
    ]
  ]
