-- ===== src/Upstream.antt =====
-- Options of upstream suppliers and their approval: src/m_side/upstream.
mod Options
mod Choice
mod Approval
mod Consent
unfoldable pub use Options.{
  score_response, fill_up, last_option, further_options, choose_options, generate_upstream_options,
}
pub use Options.{
  UpstreamResponse, UpstreamOption, OptionLabel, best, fastest, safest, backup, option_of,
  scores_best, viable_of,
}
unfoldable pub use Approval.{request_upstream_option_approval, find_option, approve_upstream_option}
pub use Approval.{
  ApprovalMode, human, authorized_agent, ApprovalStatus, pending, approved, OptionRequest,
  OptionApproval, is_high_risk, mode_permitted,
}
pub use Choice.{generate_upstream_options_lem}
pub use Consent.{approved_by_human}
