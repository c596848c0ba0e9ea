-- ===== src/Drafts.antt =====
-- Drafted messages of the sales agent, their approval and their sending:
-- src/aivan/execution/approval_state.py, src/aivan/execution/channel_policy.py,
-- src/aivan/openclaw/outbound_approval.py, src/aivan/api/main.py and
-- src/aivan/db/repositories/draft_repo.py.
mod Repository
mod Approval
mod Sending
mod Settled
unfoldable pub use Sending.{
  settle, approve_and_send, send_draft, reject, validate_draft_send_policy, blocked,
}
unfoldable pub use Repository.{mark_sent, mark_send_failed, mark_approved_pending_send, sent_draft}
pub use Repository.{
  failed_draft, approved_draft, rejected_draft, Draft, Failure, channel_policy_blocked,
  transport_error, send_failed,
}
pub use Sending.{
  is_terminal, is_approvable, Texts, Response, delivered, refused, unreachable, ApprovalResult,
}
unfoldable pub use Approval.{approve, send_if_approved, do_approve_draft, do_reject_draft}
pub use Approval.{Outbound, granted_draft, answer_to, mark_delivered, send_found}
pub use Settled.*
