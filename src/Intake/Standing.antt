-- ===== src/Intake/Standing.antt =====
-- What may have become of the drafts of the sales agent: src/aivan/execution/rfq_execution.py and
-- src/aivan/execution/approval_state.py.
use abcd_yi.Prelude.{
  ℕ, String, true, false, inl, inr, some, Bool-cases, [], ◌∷◌, is_some, str_eq, eq_iff, ◌==◌, ◌≡◌,
  refl, sym, ◌∙◌, arith,
}
use abcd_yi.Prelude.Sorting.{All}
use abcd_yi.Prelude.Table.{Table, find, put, update}
use abcd_yi.Drafts.{Draft, Texts, validate_draft_send_policy, mark_sent, sent_draft}
use abcd_yi.Intake.Projects.{supersede_customer_quote_drafts, is_stale_quote}

-- A draft is for the operator, or it waits, or it was taken back, or it was approved at some time and is
-- allowed by the channel policy, or the policy stopped it.
pub data IsGuarded (t : Texts) (d : Draft) : Type 0 where
  for_operator : d.target_role ≡ "user" → IsGuarded t d
  waiting : d.status ≡ "pending_approval" → IsGuarded t d
  taken_back : d.status ≡ "superseded" → IsGuarded t d
  turned_down : d.status ≡ "rejected" → IsGuarded t d
  granted : d.status ≡ "approved" → is_some d.approved_at ≡ true → IsGuarded t d
  let_out :
      d.status ≡ "sent"
      → is_some d.approved_at ≡ true
      → validate_draft_send_policy t d ≡ true
      → IsGuarded t d
  tried :
      d.status ≡ "send_failed"
      → is_some d.approved_at ≡ true
      → validate_draft_send_policy t d ≡ true
      → IsGuarded t d
  stopped : d.status ≡ "send_failed" → validate_draft_send_policy t d ≡ false → IsGuarded t d

abbrev pub AreGuarded : Texts → Table Draft → Type 0
AreGuarded t l = All (λ (row : ℕ × Draft). IsGuarded t row.1) l

-- Two different texts are not both the status.
pub clash : {s : String} (a c : String) → s ≡ a → s ≡ c → str_eq a c ≡ false → ⊥
clash a c e f h =
    let same : str_eq a c ≡ true = (eq_iff a c).1 (sym e ∙ f) in
    let no : true ≡ false = sym same ∙ h in cc

module _ (t : Texts) where
  pub put-AreGuarded :
      (id : ℕ) (d : Draft) (l : Table Draft)
      → IsGuarded t d
      → AreGuarded t l
      → AreGuarded t (put id d l)
  unfolding put
  put-AreGuarded id d [] g a = (g, tt)
  put-AreGuarded id d ((k, q) ∷ l) g (h, a) = elim (Bool-cases (k == id)) [
    | inl e ↦ rw e (g, a)
    | inr e ↦ rw e (h, put-AreGuarded id d l g a)
  ]

  pub find-IsGuarded :
      (id : ℕ) (d : Draft) (l : Table Draft) → find id l ≡ some d → AreGuarded t l → IsGuarded t d
  unfolding find
  find-IsGuarded id d [] f a = cc
  find-IsGuarded id d ((k, q) ∷ l) f (h, a) = elim (Bool-cases (k == id)) [
    | inl e ↦
        let same : some q ≡ some d = rw (e, find) at f in
        let eq : q ≡ d = ground arith in rw (← eq) h
    | inr e ↦ find-IsGuarded id d l (rw (e, find) at f) a
  ]

  pub supersede-AreGuarded :
      (project : ℕ) (l : Table Draft)
      → AreGuarded t l
      → AreGuarded t (supersede_customer_quote_drafts project l)
  unfolding supersede_customer_quote_drafts update
  supersede-AreGuarded project [] a = tt
  supersede-AreGuarded project ((k, d) ∷ l) (h, a) = elim (Bool-cases (is_stale_quote project d)) [
    | inl e ↦ rw e (taken_back refl, supersede-AreGuarded project l a)
    | inr e ↦ rw e (h, supersede-AreGuarded project l a)
  ]

  -- A draft for the operator may be marked as sent.
  pub mark_sent-AreGuarded :
      (now id : ℕ) (d : Draft) (l : Table Draft)
      → find id l ≡ some d
      → d.target_role ≡ "user"
      → AreGuarded t l
      → AreGuarded t (mark_sent now id l)
  unfolding mark_sent
  mark_sent-AreGuarded now id d l f u a =
      let e : mark_sent now id l ≡ put id (sent_draft now d) l = ground arith in
      rw e (put-AreGuarded id (sent_draft now d) l (for_operator u) a)
