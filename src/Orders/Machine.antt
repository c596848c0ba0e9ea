-- ===== src/Orders/Machine.antt =====
-- src/orders/state_machine.py and src/rfq/state_machine.py.
use abcd_yi.Prelude.{String, List, [], ◌∷◌, if◌then◌else◌}
use abcd_yi.Prelude.Exec.{Result, ok, err, value_error}
use abcd_yi.Fsm.{Transitions, allowed}

abbrev pub order_states : List String
order_states =
    "DRAFT_FROM_APPROVED_QUOTE" ∷ "PENDING_BUYER_CONFIRMATION" ∷ "CONFIRMED" ∷ "IN_PRODUCTION"
    ∷ "QC_PENDING" ∷ "QC_PASSED" ∷ "QC_FAILED" ∷ "READY_TO_SHIP" ∷ "SHIPPED" ∷ "DELIVERED"
    ∷ "BUYER_SIGNED_OFF" ∷ "CANCELLED" ∷ []

unfoldable pub order_transitions : Transitions
order_transitions =
    ("DRAFT_FROM_APPROVED_QUOTE", "PENDING_BUYER_CONFIRMATION" ∷ "CANCELLED" ∷ [])
    ∷ ("PENDING_BUYER_CONFIRMATION", "CONFIRMED" ∷ "CANCELLED" ∷ [])
    ∷ ("CONFIRMED", "IN_PRODUCTION" ∷ "CANCELLED" ∷ [])
    ∷ ("IN_PRODUCTION", "QC_PENDING" ∷ "CANCELLED" ∷ [])
    ∷ ("QC_PENDING", "QC_PASSED" ∷ "QC_FAILED" ∷ [])
    ∷ ("QC_PASSED", "READY_TO_SHIP" ∷ [])
    ∷ ("QC_FAILED", "IN_PRODUCTION" ∷ "CANCELLED" ∷ [])
    ∷ ("READY_TO_SHIP", "SHIPPED" ∷ [])
    ∷ ("SHIPPED", "DELIVERED" ∷ [])
    ∷ ("DELIVERED", "BUYER_SIGNED_OFF" ∷ [])
    ∷ ("BUYER_SIGNED_OFF", [])
    ∷ ("CANCELLED", [])
    ∷ []

unfoldable pub rfq_transitions : Transitions
rfq_transitions =
    ("DRAFT", "PENDING_APPROVAL" ∷ "CANCELLED" ∷ [])
    ∷ ("PENDING_APPROVAL", "APPROVED_TO_SEND" ∷ "DRAFT" ∷ "CANCELLED" ∷ [])
    ∷ ("APPROVED_TO_SEND", "SENT" ∷ "CANCELLED" ∷ [])
    ∷ ("SENT", "RECEIVED" ∷ "PARTIAL_RESPONSE" ∷ "EXPIRED" ∷ "CANCELLED" ∷ [])
    ∷ ("RECEIVED", "PARTIAL_RESPONSE" ∷ "COMPLETE_RESPONSE" ∷ [])
    ∷ ("PARTIAL_RESPONSE", "COMPLETE_RESPONSE" ∷ "EXPIRED" ∷ [])
    ∷ ("COMPLETE_RESPONSE", [])
    ∷ ("EXPIRED", [])
    ∷ ("CANCELLED", [])
    ∷ []

-- `transition` of either machine: the target itself, or a ValueError.
unfoldable pub transition : String → String → Result String
transition current target =
    if allowed order_transitions current target then ok target else err value_error

unfoldable pub rfq_transition : String → String → Result String
rfq_transition current target =
    if allowed rfq_transitions current target then ok target else err value_error
