-- ===== src/Intake.antt =====
-- The agent's intake of messages: from an inbound event to a project, a structured requirement, the
-- readiness gates and the drafts that wait for approval (src/aivan/execution/rfq_execution.py).
mod Requirement
mod Readiness
mod Store
mod Events
mod Projects
mod Outreach
mod Verdicts
mod Flow
mod Entry
mod Kept
mod Handled
mod Entered
mod Ledger
mod Standing
mod Approved
mod Outbound
mod Gate
mod Drafted
mod Justified
mod Others
mod Attempts
mod Outcomes
mod Quotes
mod Outage
unfoldable pub use Requirement.{
  source_or, set_source, merge_skill, field_sources, is_authoritative, is_provisional,
}
unfoldable pub use Readiness.{gate_of, evaluate_requirement_readiness, evaluate_supplier_readiness}
unfoldable pub use Events.{
  has_role, any_token, fallback_event_type, get_by_conversation, classify_event, fallback_strategy,
  interpret_strategy, build_inbound_idempotency_key,
}
unfoldable pub use Projects.{
  add_event, add_binding, add_project, change_project, add_draft, change_drafts,
  learn_strategy_preference, entry, put_entry, supersede_customer_quote_drafts, create_project,
  create_draft, append_event, project_of, bind_existing, open_project, get_or_create_project,
}
unfoldable pub use Outreach.{
  not_behind, take, select_suppliers, supplier_by_id, first_owner, user_control,
  create_supplier_email_drafts, deliver, send_user_control_notification,
  create_customer_quote_email_draft,
}
unfoldable pub use Flow.{
  consult, guarded, record_graph, execute, handle_rfq_event, record_non_rfq_event,
}
unfoldable pub use Verdicts.{
  blocked_requirement_result, pending_supplier_result, dependency_recovery_result,
}
unfoldable pub use Entry.{
  offer_options, answer_without_requirement, answer_with_requirement, continue_answer,
  handle_supplier_reply_event, create_rfq_from_event_inner, record_result, process_first,
  process_once, create_rfq_from_event,
}
unfoldable pub use Outbound.{after_action, after_actions}
unfoldable pub use Ledger.{after_calls}
pub use Requirement.{BuyerRequirement, has_authoritative_product, has_authoritative_destination}
pub use Readiness.{ExecutionGateResult, Supplier, has_email, has_delivery_target}
pub use Store.{
  OpenClawEvent, Strategy, Backend, Services, ProjectData, Project, AgentEvent, Account,
  RfqExecutionResult, AgentStore,
}
pub use Events.{EventClassification}
pub use Projects.{is_stale_quote}
pub use Outreach.{quote_draft, text_or}
pub use Verdicts.{default_strategy}
pub use Ledger.{Call, create_rfq_from_event_replays}
pub use Standing.{IsGuarded, AreGuarded}
pub use Outbound.{Guarded, Action, inbound, approval, rejection, sent_only_approved}
pub use Gate.{
  OnlyProposed, proposed_destination, proposed_product, is_provisional_blocks, IsExact,
  evaluate_requirement_readiness-IsExact,
}
pub use Justified.{IsJustified}
pub use Quotes.{IsSuperseded, create_customer_quote_email_draft_replaces}
pub use Outage.{makes_no_rfq, IsUnrecorded, create_rfq_from_event_outage}
