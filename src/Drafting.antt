-- ===== src/Drafting.antt =====
-- From a decision packet to an order: approve_decision_option of src/decision_packets/service.py and
-- create_order_from_approved_option of src/order_confirmation/service.py.
mod Packets
mod Plan
mod Dates
mod Service
mod Guarded
mod Handoff
mod Imported
unfoldable pub use Packets.{approve_decision_option}
unfoldable pub use Plan.{plan, planned}
pub use Plan.{days_of, ordered_milestones, cutting_days}
unfoldable pub use Service.{create_order_from_approved_option, current_version}
pub use Service.{drafted_order}
pub use Packets.{approving, IsApproved, approve_decision_option-IsApproved}
pub use Dates.*
pub use Guarded.*
pub use Imported.{import_confirmed_order-IsImported}
unfoldable pub use Handoff.{import_confirmed_order, import_new, imported_before}
pub use Handoff.{
  ProviderOrderAssociation, ConfirmedSource, Readback, Identities, HandoffStore, imported_order,
}
