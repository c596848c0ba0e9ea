-- ===== src/Approvals.antt =====
-- Human approval of external actions: src/approval_gates/service.py.
mod Service
mod Guard
mod Replay
mod Lifecycle
pub use Service.{valid_action_types, Purpose}
unfoldable pub use Service.{
  is_valid_action, create_approval_request, approve_request, reject_request, require_approved,
}
pub use Guard.*
pub use Replay.*
pub use Lifecycle.*
