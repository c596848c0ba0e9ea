-- ===== src/Flows/Merchandiser.antt =====
-- src/merchandiser/merchandiser_state_machine.py.
use abcd_yi.Prelude.{
  String, Bool, true, false, Option, none, some, List, [], ◌∷◌, ◌≡◌, refl, inl, inr, contains,
  str_eq, if◌then◌else◌,
}
use abcd_yi.Prelude.Exec.{Result, ok, err, value_error}
use abcd_yi.Fsm.{Transitions, allowed, every_edge, guarded, Run, Run_gate}

-- _LOGISTICS_TO_ORDER
abbrev pub logistics_states : List (String × String)
logistics_states =
    ("label_created", "LOGISTICS_HANDOVER_RECEIVED")
    ∷ ("picked_up", "IN_TRANSIT")
    ∷ ("in_transit", "IN_TRANSIT")
    ∷ ("customs", "CUSTOMS")
    ∷ ("out_for_delivery", "OUT_FOR_DELIVERY")
    ∷ ("delivered", "DELIVERED")
    ∷ ("exception", "EXCEPTION_RAISED")
    ∷ []

lookup : String → List (String × String) → Option String
lookup k [] = none
lookup k ((j, v) ∷ d) = if str_eq j k then some v else lookup k d

unfoldable pub logistics_status_to_order_state : String → Option String
unfolding lookup
logistics_status_to_order_state normalized_status = lookup normalized_status logistics_states

-- _VALID_TRANSITIONS; the order in which a set is written out has no meaning.
unfoldable pub execution_transitions : Transitions
execution_transitions =
    ("ORDER_CONFIRMED", "SUPPLIER_ACCEPTANCE_PENDING" ∷ "EXCEPTION_RAISED" ∷ "CANCELLED" ∷ [])
    ∷ ("SUPPLIER_ACCEPTANCE_PENDING", "SUPPLIER_ACCEPTED" ∷ "EXCEPTION_RAISED" ∷ "CANCELLED" ∷ [])
    ∷ (
      "SUPPLIER_ACCEPTED",
      "PRODUCTION_PLAN_CREATED" ∷ "MATERIAL_CONFIRMATION_PENDING" ∷ "EXCEPTION_RAISED" ∷ [],
    )
    ∷ ("PRODUCTION_PLAN_CREATED", "MATERIAL_CONFIRMATION_PENDING" ∷ "PRODUCTION_STARTED" ∷ [])
    ∷ ("MATERIAL_CONFIRMATION_PENDING", "MATERIAL_CONFIRMED" ∷ "EXCEPTION_RAISED" ∷ [])
    ∷ ("MATERIAL_CONFIRMED", "PRODUCTION_STARTED" ∷ [])
    ∷ (
      "PRODUCTION_STARTED",
      "MILESTONE_PENDING" ∷ "MILESTONE_MEDIA_REQUESTED" ∷ "QC_PENDING" ∷ "EXCEPTION_RAISED" ∷ [],
    )
    ∷ (
      "MILESTONE_PENDING",
      "MILESTONE_MEDIA_REQUESTED" ∷ "MILESTONE_CONFIRMED" ∷ "EXCEPTION_RAISED" ∷ [],
    )
    ∷ ("MILESTONE_MEDIA_REQUESTED", "MILESTONE_MEDIA_UPLOADED" ∷ [])
    ∷ ("MILESTONE_MEDIA_UPLOADED", "MILESTONE_BUYER_REVIEW_PENDING" ∷ [])
    ∷ ("MILESTONE_BUYER_REVIEW_PENDING", "MILESTONE_CONFIRMED" ∷ "EXCEPTION_RAISED" ∷ [])
    ∷ ("MILESTONE_CONFIRMED", "MILESTONE_PENDING" ∷ "QC_PENDING" ∷ "PACKAGING_PENDING" ∷ [])
    ∷ ("QC_PENDING", "QC_CONFIRMED" ∷ "EXCEPTION_RAISED" ∷ [])
    ∷ ("QC_CONFIRMED", "PACKAGING_PENDING" ∷ [])
    ∷ ("PACKAGING_PENDING", "PACKAGING_CONFIRMED" ∷ [])
    ∷ ("PACKAGING_CONFIRMED", "LOGISTICS_HANDOVER_PENDING" ∷ [])
    ∷ ("LOGISTICS_HANDOVER_PENDING", "LOGISTICS_HANDOVER_RECEIVED" ∷ [])
    ∷ ("LOGISTICS_HANDOVER_RECEIVED", "IN_TRANSIT" ∷ [])
    ∷ ("IN_TRANSIT", "CUSTOMS" ∷ "OUT_FOR_DELIVERY" ∷ "DELIVERED" ∷ "EXCEPTION_RAISED" ∷ [])
    ∷ ("CUSTOMS", "IN_TRANSIT" ∷ "OUT_FOR_DELIVERY" ∷ "EXCEPTION_RAISED" ∷ [])
    ∷ ("OUT_FOR_DELIVERY", "DELIVERED" ∷ "EXCEPTION_RAISED" ∷ [])
    ∷ ("DELIVERED", "BUYER_SIGNOFF_PENDING" ∷ [])
    ∷ ("BUYER_SIGNOFF_PENDING", "BUYER_SIGNED_OFF" ∷ "EXCEPTION_RAISED" ∷ [])
    ∷ ("BUYER_SIGNED_OFF", "ORDER_CLOSED" ∷ [])
    ∷ ("ORDER_CLOSED", [])
    ∷ ("EXCEPTION_RAISED", "EXCEPTION_RESOLUTION_PENDING" ∷ "CANCELLED" ∷ [])
    ∷ ("EXCEPTION_RESOLUTION_PENDING", "EXCEPTION_RESOLVED" ∷ "CANCELLED" ∷ [])
    ∷ (
      "EXCEPTION_RESOLVED",
      "PRODUCTION_STARTED" ∷ "QC_PENDING" ∷ "LOGISTICS_HANDOVER_PENDING" ∷ [],
    )
    ∷ ("CANCELLED", [])
    ∷ []

unfoldable pub can_transition : String → String → Bool
can_transition from_state to_state = allowed execution_transitions from_state to_state

-- The call returns nothing, or raises a ValueError.
unfoldable pub assert_transition_allowed : String → String → Result (Unit {0})
assert_transition_allowed from_state to_state =
    if can_transition from_state to_state then ok tt else err value_error

abbrev pub confirmed_start : String
confirmed_start = "ORDER_CONFIRMED"

-- The states after a gate, and the test that a state is none of them.
abbrev none_of : List String → String → Bool
none_of l s = if contains l s then false else true

abbrev pub before_handover : String → Bool
before_handover = none_of (
    "LOGISTICS_HANDOVER_RECEIVED" ∷ "IN_TRANSIT" ∷ "CUSTOMS" ∷ "OUT_FOR_DELIVERY" ∷ "DELIVERED"
    ∷ "BUYER_SIGNOFF_PENDING" ∷ "BUYER_SIGNED_OFF" ∷ "ORDER_CLOSED" ∷ [])

abbrev pub before_delivered : String → Bool
before_delivered =
    none_of ("DELIVERED" ∷ "BUYER_SIGNOFF_PENDING" ∷ "BUYER_SIGNED_OFF" ∷ "ORDER_CLOSED" ∷ [])

abbrev pub before_signed_off : String → Bool
before_signed_off = none_of ("BUYER_SIGNED_OFF" ∷ "ORDER_CLOSED" ∷ [])

handover_gate :
    every_edge (guarded before_handover "LOGISTICS_HANDOVER_RECEIVED") execution_transitions ≡ true
unfolding every_edge execution_transitions
handover_gate = refl

delivered_gate : every_edge (guarded before_delivered "DELIVERED") execution_transitions ≡ true
unfolding every_edge execution_transitions
delivered_gate = refl

signed_off_gate :
    every_edge (guarded before_signed_off "BUYER_SIGNED_OFF") execution_transitions ≡ true
unfolding every_edge execution_transitions
signed_off_gate = refl

-- Along the table's moves from a confirmed order, goods are under way only after their handover to
-- the carrier, a sign-off is asked for only after the delivery, and only an order that the buyer
-- signed off is closed.
pub Run_execution :
    (visited : List String) (s : String)
    → Run execution_transitions confirmed_start visited s
    → (before_handover s ≡ false → contains visited "LOGISTICS_HANDOVER_RECEIVED" ≡ true)
      × (before_delivered s ≡ false → contains visited "DELIVERED" ≡ true)
      × (before_signed_off s ≡ false → contains visited "BUYER_SIGNED_OFF" ≡ true)
Run_execution visited s r = (
  (λ out.
      elim (Run_gate execution_transitions before_handover "LOGISTICS_HANDOVER_RECEIVED"
        handover_gate refl r) [ inl h ↦ cc | inr h ↦ h ]),
  (λ out. elim (Run_gate execution_transitions before_delivered "DELIVERED" delivered_gate refl r) [
    | inl h ↦ cc
    | inr h ↦ h
  ]),
  (λ out.
      elim (Run_gate execution_transitions before_signed_off "BUYER_SIGNED_OFF" signed_off_gate refl
        r) [ inl h ↦ cc | inr h ↦ h ]),
)
