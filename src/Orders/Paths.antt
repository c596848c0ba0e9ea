-- ===== src/Orders/Paths.antt =====
-- What every order has gone through, whatever moves its machine allowed.
use abcd_yi.Prelude.{String, ◌≡◌, refl, Bool, true, false, inl, inr, List, [], ◌∷◌, contains}
use abcd_yi.Fsm.{every_edge, Run, Run_gate, guarded}
use abcd_yi.Orders.Machine.{order_transitions}

abbrev pub drafted : String
drafted = "DRAFT_FROM_APPROVED_QUOTE"

-- The states before `gate` on the way from a draft, in the order of the source's list.
abbrev pub before_confirmation : String → Bool
before_confirmation = contains (drafted ∷ "PENDING_BUYER_CONFIRMATION" ∷ "CANCELLED" ∷ [])

abbrev pub before_inspection : String → Bool
before_inspection = contains (
    drafted ∷ "PENDING_BUYER_CONFIRMATION" ∷ "CONFIRMED" ∷ "IN_PRODUCTION" ∷ "QC_PENDING"
    ∷ "QC_FAILED" ∷ "CANCELLED" ∷ [])

abbrev pub before_delivery : String → Bool
before_delivery = contains (
    drafted ∷ "PENDING_BUYER_CONFIRMATION" ∷ "CONFIRMED" ∷ "IN_PRODUCTION" ∷ "QC_PENDING"
    ∷ "QC_FAILED" ∷ "QC_PASSED" ∷ "READY_TO_SHIP" ∷ "SHIPPED" ∷ "CANCELLED" ∷ [])

confirmation_gate : every_edge (guarded before_confirmation "CONFIRMED") order_transitions ≡ true
unfolding every_edge order_transitions
confirmation_gate = refl

inspection_gate : every_edge (guarded before_inspection "QC_PASSED") order_transitions ≡ true
unfolding every_edge order_transitions
inspection_gate = refl

delivery_gate : every_edge (guarded before_delivery "DELIVERED") order_transitions ≡ true
unfolding every_edge order_transitions
delivery_gate = refl

-- An order in production, at inspection or beyond was confirmed; one that is ready to ship, shipped
-- or delivered passed its inspection; one that is signed off was delivered.
pub Run_order :
    (visited : List String) (s : String)
    → Run order_transitions drafted visited s
    → (before_confirmation s ≡ false → contains visited "CONFIRMED" ≡ true)
      × (before_inspection s ≡ false → contains visited "QC_PASSED" ≡ true)
      × (before_delivery s ≡ false → contains visited "DELIVERED" ≡ true)
Run_order visited s r = (
  (λ out.
      elim (Run_gate order_transitions before_confirmation "CONFIRMED" confirmation_gate refl r) [
        | inl h ↦ cc
        | inr h ↦ h
      ]),
  (λ out. elim (Run_gate order_transitions before_inspection "QC_PASSED" inspection_gate refl r) [
    | inl h ↦ cc
    | inr h ↦ h
  ]),
  (λ out. elim (Run_gate order_transitions before_delivery "DELIVERED" delivery_gate refl r) [
    | inl h ↦ cc
    | inr h ↦ h
  ]),
)

-- The same of an order that was imported into its production.
pub Run_imported :
    (visited : List String) (s : String)
    → Run order_transitions "IN_PRODUCTION" visited s
    → (before_inspection s ≡ false → contains visited "QC_PASSED" ≡ true)
      × (before_delivery s ≡ false → contains visited "DELIVERED" ≡ true)
Run_imported visited s r = (
  (λ out. elim (Run_gate order_transitions before_inspection "QC_PASSED" inspection_gate refl r) [
    | inl h ↦ cc
    | inr h ↦ h
  ]),
  (λ out. elim (Run_gate order_transitions before_delivery "DELIVERED" delivery_gate refl r) [
    | inl h ↦ cc
    | inr h ↦ h
  ]),
)
