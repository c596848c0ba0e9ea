-- ===== src/Intake/Others.antt =====
-- The actions that do not ask for the approval of inquiries, and the parts of a result that does:
-- src/aivan/execution/safety.py and rfq_execution.py.
use abcd_yi.Prelude.{
  ℕ, suc, String, Bool, true, false, not, inl, inr, some, Bool-cases, List, [], ◌∷◌, keep, length,
  str_eq, ◌≡◌, ◌≤◌, refl, ap, sym, ◌∙◌, arith, eq_iff, ◌&&◌, is_some,
}
use abcd_yi.Prelude.Exec.{
  Error, gltg_unavailable, external_model_requires_approval, local_model_unavailable,
}
use abcd_yi.Prelude.Gives.{Gives, Gives-pure, Gives-bind, Gives-then}
use abcd_yi.Intake.Store.{OpenClawEvent, Strategy, Backend, Services, RfqExecutionResult}
use abcd_yi.Intake.Requirement.{
  has_authoritative_product, has_authoritative_destination, BuyerRequirement,
}
use abcd_yi.Intake.Readiness.{
  has_delivery_target, Supplier, has_email, evaluate_requirement_readiness,
  evaluate_supplier_readiness, supplier_action,
}
use abcd_yi.Intake.Outreach.{create_supplier_email_drafts}
use abcd_yi.Intake.Verdicts.{recovery_action}
use abcd_yi.Intake.Justified.{Answers}
use abcd_yi.Intake.Gate.{action_by, evaluate_requirement_readiness-IsExact}

not_both :
    (action : String)
    → str_eq action "pending_email_approval" ≡ false
    → action ≡ "pending_email_approval"
    → {A : Type 0} → A
not_both action e h =
    let t : str_eq action "pending_email_approval" ≡ true =
      (eq_iff action "pending_email_approval").1 h in
    let no : true ≡ false = sym t ∙ e in cc

abbrev pub IsOther : String → Type 0
IsOther action = str_eq action "pending_email_approval" ≡ false

pub supplier_action-IsOther : (feasibility : String) → IsOther (supplier_action feasibility)
supplier_action-IsOther f = elim (Bool-cases (str_eq f "single")) [
  | inl e ↦ rw e refl
  | inr e ↦ elim (Bool-cases (str_eq f "thin")) [
    | inl g ↦ rw (e, g) refl
    | inr g ↦ elim (Bool-cases (str_eq f "sufficient")) [
      | inl h ↦ rw (e, g, h) refl
      | inr h ↦ rw (e, g, h) refl
    ]
  ]
]

action_by-IsOther : (a c d e : Bool) → IsOther (action_by a c d e)
action_by-IsOther a c d e = elim (Bool-cases (a && (c && (d && e)))) [
  | inl h ↦ rw h refl
  | inr h ↦ elim (Bool-cases (a && (c && not d))) [
    | inl k ↦ rw (h, k) refl
    | inr k ↦ elim (Bool-cases (a && (d && not c))) [
      | inl l ↦ rw (h, k, l) refl
      | inr l ↦ rw (h, k, l) refl
    ]
  ]
]

pub gate-IsOther : (r : BuyerRequirement) → IsOther (evaluate_requirement_readiness r).next_action
gate-IsOther r =
    let (_, _, _, _, _, e) = evaluate_requirement_readiness-IsExact r in
    ap (λ action. str_eq action "pending_email_approval") e
    ∙ action_by-IsOther (is_some r.quantity) (has_authoritative_product r)
        (has_authoritative_destination r) (has_delivery_target r)

same_action : (a action : String) → some a ≡ some action → IsOther a → IsOther action
same_action a action h o = let e : a ≡ action = ground arith in rw (← e) o

pub recovery_action-IsOther :
    (e : Error) (action : String) → recovery_action e ≡ some action → IsOther action
recovery_action-IsOther external_model_requires_approval action h =
    same_action "pending_external_model_approval" action h refl
recovery_action-IsOther local_model_unavailable action h =
    same_action "reduced_strength_local_model_unavailable" action h refl
recovery_action-IsOther gltg_unavailable action h =
    same_action "pending_dependency_recovery" action h refl
recovery_action-IsOther _ action h = cc

pub verdict-enough :
    (l : List Supplier) → (evaluate_supplier_readiness l).1 ≡ true → 2 ≤ length (keep has_email l)
unfolding evaluate_supplier_readiness
verdict-enough l h = ground arith

module _ {b : Backend} (v : Services b) where
  pub drafts-length :
      (project : ℕ) (event : OpenClawEvent) (r : BuyerRequirement) (strategy : Strategy)
      (gltg : b.Gltg) (suppliers : List Supplier) (names : List String)
      → Gives
          (λ l. length l ≡ length names)
          (create_supplier_email_drafts v project event r strategy gltg suppliers names)
  unfolding create_supplier_email_drafts
  drafts-length project event r strategy gltg suppliers [] = Gives-pure (λ l. length l ≡ 0) [] refl
  drafts-length project event r strategy gltg suppliers (name ∷ names) =
      let Q = λ (l : List ℕ). length l ≡ suc (length names) in
      Gives-then Q _ _ (λ x. Gives-then Q _ _ (λ draft. Gives-then Q _ _ (λ _.
        Gives-bind Q (λ l. length l ≡ length names) _ _
          (drafts-length project event r strategy gltg suppliers names)
          (λ drafts e. Gives-pure Q (draft ∷ drafts) (ap suc e)))))

  module _ (event : OpenClawEvent) where
    -- A result with another action.
    pub other-Answers :
        (result : RfqExecutionResult b) → IsOther result.action → Answers v event result
    other-Answers result e h = not_both result.action e h
