-- ===== src/Flows.antt =====
-- The conversations of the supplier's side and the merchandiser's orders, each on a machine of its
-- own: src/m_side/communication/send_receive_state_machine.py and
-- src/merchandiser/merchandiser_state_machine.py.
mod SendReceive
mod History
mod Merchandiser
pub use SendReceive.{initial_state, Machine, Change, Store, change}
unfoldable pub use SendReceive.{
  send_receive_transitions, transition_state, get_send_receive_machine, create_send_receive_machine,
}
unfoldable pub use Merchandiser.{
  execution_transitions, can_transition, assert_transition_allowed, logistics_status_to_order_state,
}
pub use History.*
pub use Merchandiser.{
  Run_execution, logistics_states, confirmed_start, before_handover, before_delivered,
  before_signed_off,
}
