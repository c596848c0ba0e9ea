-- ===== src/Orders.antt =====
-- Orders: their state machine (src/orders/state_machine.py) and what moves them.
mod Machine
mod Paths
mod Service
mod Moves
mod Track
mod SignOff
mod SignOffTrack
mod Outcomes
pub use Machine.{order_states}
unfoldable pub use Machine.{order_transitions, rfq_transitions, transition, rfq_transition}
unfoldable pub use Service.{
  move_order, confirm_order, or_conflict, request_qc, create_shipment, is_delivery, deliver,
  add_tracking_event, log_event,
}
pub use Service.{save_order}
pub use Paths.*
pub use Moves.*
pub use Track.*
pub use SignOff.{LatestRecipient}
unfoldable pub use SignOff.{
  buyer_sign_off, update_supplier_memory_after_signoff, remember, participants_of,
}
pub use SignOffTrack.*
pub use Outcomes.*
