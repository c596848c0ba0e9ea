-- ===== src/Intake/Entry.antt =====
-- The answers of suppliers, and the idempotent entry point of the inbound events:
-- src/aivan/execution/rfq_execution.py and src/aivan/db/repositories/inbound_event_repo.py.
use abcd_yi.Prelude.{
  ℕ, String, Option, none, some, List, [], ◌∷◌, ◌++◌, length, contains, str_eq, if◌then◌else◌,
}
use abcd_yi.Prelude.Exec.{Exec, pure, gets, lift, modify, ◌>>=◌, ◌>>◌}
use abcd_yi.Intake.Requirement.{BuyerRequirement, nonempty}
use abcd_yi.Intake.Store.{
  OpenClawEvent, Strategy, Backend, Services, ProjectData, Project, RfqExecutionResult, AgentStore,
}
use abcd_yi.Intake.Events.{EventClassification, classify_event, build_inbound_idempotency_key}
use abcd_yi.Intake.Projects.{
  append_event, get_or_create_project, change_project, update_requirement, update_selected_option,
  entry,
}
use abcd_yi.Intake.Outreach.{create_customer_quote_email_draft}
use abcd_yi.Intake.Flow.{handle_rfq_event, record_non_rfq_event}
use abcd_yi.Intake.Verdicts.{default_strategy, result_of}

abbrev strategy_or_default : Option Strategy → Strategy
strategy_or_default none = default_strategy
strategy_or_default (some strategy) = strategy

abbrev named : String → List String
named id = if nonempty id then id ∷ [] else []

module _ {b : Backend} (v : Services b) where
  -- The stored payload with the answer and its lead time added.
  abbrev pub with_reply : ProjectData b → b.Reply → b.LeadTime → ProjectData b
  with_reply payload reply lead_time = record payload {
    supplier_replies = payload.supplier_replies ++ reply ∷ [];
    lead_time_estimates = payload.lead_time_estimates ++ lead_time ∷ [];
  }

  -- No draft is made where there are no options.
  unfoldable pub offer_options :
      ℕ → Project b → OpenClawEvent → List b.BuyerOption → Exec (AgentStore b) (List ℕ)
  offer_options project p event [] = pure []
  offer_options project p event (option ∷ options) = do
    modify (change_project project (update_selected_option option))
    create_customer_quote_email_draft v project p event (option ∷ options)

  unfoldable pub answer_without_requirement :
      ℕ → EventClassification → b.Reply → Exec (AgentStore b) (RfqExecutionResult b)
  answer_without_requirement project c reply = do
    gltg ← lift (v.simulate none default_strategy 0)
    pure (record (result_of v project c "supplier_reply_requires_requirement") {
      event_type = "supplier_reply";
      gltg_simulation = some gltg;
      selected_supplier_ids = named (b.reply_supplier_id reply);
    })

  abbrev pub options_action : List b.BuyerOption → String
  options_action [] = "supplier_reply_parsed"
  options_action (_ ∷ _) = "buyer_options_ready"

  unfoldable pub answer_with_requirement :
      ℕ × Project b
      → OpenClawEvent
      → EventClassification
      → ProjectData b
      → BuyerRequirement
      → b.Reply
      → Exec (AgentStore b) (RfqExecutionResult b)
  unfolding offer_options
  answer_with_requirement (project, p) event c payload r reply = do
    lead_time ← lift (v.calculate_leadtime r reply)
    append_event b project "LEADTIME_RECALCULATED" "leadtime_calculator"
    let stored = with_reply payload reply lead_time
    let options =
        v.generate_buyer_options r stored.supplier_replies stored.lead_time_estimates project
    append_event b project "BUYER_OPTIONS_GENERATED" "buyer_option_agent"
    modify (change_project project (update_requirement (record stored { buyer_options = options })))
    drafts ← offer_options project p event options
    gltg ← lift (
        v.simulate (some r) (strategy_or_default payload.strategy) (length stored.supplier_replies))
    pure (record (result_of v project c (options_action options)) {
      event_type = "supplier_reply";
      strategy = strategy_or_default payload.strategy;
      requirement = some r;
      gltg_simulation = some gltg;
      selected_supplier_ids = named (b.reply_supplier_id reply);
      drafts_created = drafts;
    })

  unfoldable pub continue_answer :
      ℕ × Project b
      → OpenClawEvent
      → EventClassification
      → b.Reply
      → Option (ProjectData b)
      → Exec (AgentStore b) (RfqExecutionResult b)
  unfolding answer_without_requirement answer_with_requirement
  continue_answer found event c reply none = answer_without_requirement found.0 c reply
  continue_answer found event c reply (some payload) = elim payload.requirement [
    | none ↦ answer_without_requirement found.0 c reply
    | some r ↦ answer_with_requirement found event c payload r reply
  ]

  unfoldable pub handle_supplier_reply_event :
      OpenClawEvent → EventClassification → Exec (AgentStore b) (RfqExecutionResult b)
  unfolding continue_answer
  handle_supplier_reply_event event c = do
    found ← get_or_create_project b event c
    append_event b found.0 "EVENT_CLASSIFIED" "aivan_event_api"
    reply ← lift (v.parse_supplier_reply event.message_text found.0 event.sender_id event.channel)
    append_event b found.0 "SUPPLIER_REPLY_PARSED" "supplier_response_agent"
    continue_answer found event c reply found.1.requirement_json

  unfoldable pub create_rfq_from_event_inner :
      ℕ → OpenClawEvent → Exec (AgentStore b) (RfqExecutionResult b)
  unfolding handle_supplier_reply_event handle_rfq_event record_non_rfq_event
  create_rfq_from_event_inner now event = do
    c ← gets (λ (s : AgentStore b). classify_event v event s)
    (if str_eq c.event_type "supplier_reply"
        then handle_supplier_reply_event event c
        else if contains ("internal_status_request" ∷ "approval_response" ∷ "unknown" ∷ [])
            c.event_type
        then record_non_rfq_event v event c
        else handle_rfq_event v now event c)

  -- InboundEventRepository.record: the first result of a key stays.
  unfoldable pub record_result : String → RfqExecutionResult b → AgentStore b → AgentStore b
  unfolding entry
  record_result key result s = elim (entry key s.processed) [
    | some _ ↦ s
    | none ↦ record s { processed = (key, result) ∷ s.processed }
  ]

  -- A first event under its key is processed and its result recorded.
  unfoldable pub process_first :
      ℕ → OpenClawEvent → String → Exec (AgentStore b) (RfqExecutionResult b)
  unfolding record_result
  process_first now event key = do
    result ← create_rfq_from_event_inner now event
    modify (record_result key result)
    pure result

  unfoldable pub process_once :
      ℕ → OpenClawEvent → String → Exec (AgentStore b) (RfqExecutionResult b)
  unfolding process_first
  process_once now event key = do
    existing ← gets (λ (s : AgentStore b). entry key s.processed)
    (elim existing [ some result ↦ pure result | none ↦ process_first now event key ])

  unfoldable pub create_rfq_from_event :
      ℕ → OpenClawEvent → Exec (AgentStore b) (RfqExecutionResult b)
  unfolding process_once create_rfq_from_event_inner
  create_rfq_from_event now event = elim (build_inbound_idempotency_key b event) [
    | none ↦ create_rfq_from_event_inner now event
    | some key ↦ process_once now event key
  ]
