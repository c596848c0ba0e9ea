-- ===== src/Intake/Flow.antt =====
-- The handling of an event that asks for a quotation, and of one that does not:
-- src/aivan/execution/rfq_execution.py.
use abcd_yi.Prelude.{ℕ, Bool, true, false, Option, none, some, List, length, if◌then◌else◌}
use abcd_yi.Prelude.Exec.{Error, Result, Exec, ok, err, pure, lift, modify, recover, ◌>>=◌, ◌>>◌}
use abcd_yi.Intake.Requirement.{BuyerRequirement}
use abcd_yi.Intake.Readiness.{Supplier, evaluate_requirement_readiness, evaluate_supplier_readiness}
use abcd_yi.Intake.Store.{
  OpenClawEvent, Backend, Services, ProjectData, Project, RfqExecutionResult, AgentStore,
}
use abcd_yi.Intake.Events.{EventClassification, interpret_strategy}
use abcd_yi.Intake.Projects.{
  append_event, get_or_create_project, change_project, update_requirement,
  learn_strategy_preference,
}
use abcd_yi.Intake.Outreach.{
  select_suppliers, create_supplier_email_drafts, send_user_control_notification, text_or,
}
use abcd_yi.Intake.Verdicts.{
  default_strategy, recovery_action, result_of, payload_of, blocked_requirement_result,
  pending_supplier_result, dependency_recovery_result,
}

-- What the guarded part ends with: a result that is returned at once, or the simulated lead time.
pub data Attempt (b : Backend) : Type 0 where
  returned : RfqExecutionResult b → Attempt b
  simulated : List Supplier → b.Gltg → Attempt b

module _ {b : Backend} (v : Services b) where
  unfoldable pub consult :
      ℕ
      → ℕ × Project b
      → OpenClawEvent
      → EventClassification
      → BuyerRequirement
      → Exec (AgentStore b) (Attempt b)
  consult now (project, p) event c r = do
    suppliers ← lift (v.build_context r p.customer_id (text_or event.sender_id event.actor_id))
    let strategy = interpret_strategy v event.message_text
    let verdict = evaluate_supplier_readiness suppliers
    (if verdict.1
        then (do
          gltg ← lift (v.simulate (some r) strategy (length suppliers))
          pure (simulated suppliers gltg))
        else (do
          result ← pending_supplier_result v now project event c r strategy verdict.0
          pure (returned result)))

  unfoldable pub guarded :
      ℕ
      → ℕ × Project b
      → OpenClawEvent
      → EventClassification
      → BuyerRequirement
      → Exec (AgentStore b) (Attempt b)
  unfolding consult
  guarded now found event c r = recover (consult now found event c r) (λ (e : Error).
      elim (recovery_action e) [
        | none ↦ none
        | some action ↦ some (do
          result ← dependency_recovery_result v now found.0 event c r action
          pure (returned result))
      ])

  -- What is recorded of the graph: nothing where it is empty.
  unfoldable pub record_graph : ℕ → Result Bool → Exec (AgentStore b) (Unit {0})
  record_graph project (ok true) = append_event b project "GIRAFFE_DB_GRAPH_PERSISTED" "giraffe_db"
  record_graph project (ok false) = pure tt
  record_graph project (err e) =
      append_event b project "GIRAFFE_DB_GRAPH_PERSIST_FAILED" "giraffe_db"

  unfoldable pub execute :
      ℕ
      → ℕ
      → OpenClawEvent
      → EventClassification
      → BuyerRequirement
      → List Supplier
      → b.Gltg
      → Exec (AgentStore b) (RfqExecutionResult b)
  unfolding record_graph
  execute now project event c r suppliers gltg = do
    let strategy = interpret_strategy v event.message_text
    let routing = select_suppliers suppliers
    modify (
        change_project project (
          update_requirement
            (record (payload_of v r) { strategy = some strategy; gltg_simulation = some gltg })))
    modify (
        learn_strategy_preference (text_or "default" (text_or event.sender_id event.actor_id))
          strategy)
    append_event b project "EVENT_CLASSIFIED" "aivan_event_api"
    append_event b project "STRATEGY_INTERPRETED" "llm_strategy_interpreter"
    append_event b project "GIRAFFE_CONTEXT_LOOKUP" "giraffe_db"
    append_event b project "GLTG_SIMULATION_CREATED" "gltg"
    record_graph project (v.persist_graph project r strategy gltg)
    drafts ←
        create_supplier_email_drafts v project event r strategy gltg suppliers
          routing.selected_supplier_ids
    send_user_control_notification v now project event
        (v.operator_message "pending_email_approval" project)
    append_event b project "USER_CONTROL_APPROVAL_REQUESTED" "aivan"
    pure (record (result_of v project c "pending_email_approval") {
      strategy = strategy;
      requirement = some r;
      gltg_simulation = some gltg;
      selected_supplier_ids = routing.selected_supplier_ids;
      skipped_supplier_ids = routing.skipped_supplier_ids;
      drafts_created = drafts;
    })

  abbrev pub load_requirement : Option (ProjectData b) → Option BuyerRequirement
  load_requirement none = none
  load_requirement (some payload) = payload.requirement

  unfoldable pub handle_rfq_event :
      ℕ → OpenClawEvent → EventClassification → Exec (AgentStore b) (RfqExecutionResult b)
  unfolding blocked_requirement_result guarded execute
  handle_rfq_event now event c = do
    found ← get_or_create_project b event c
    r ← lift (v.structure_requirement event (load_requirement found.1.requirement_json) found.0)
    let gate = evaluate_requirement_readiness r
    (if gate.ready
        then (do
          attempt ← guarded now found event c r
          (elim attempt [
            | returned result ↦ pure result
            | simulated suppliers gltg ↦ execute now found.0 event c r suppliers gltg
          ]))
        else blocked_requirement_result v now found.0 event c r gate)

  -- An event that makes no RFQ. The lead-time service is asked after the event was recorded.
  unfoldable pub record_non_rfq_event :
      OpenClawEvent → EventClassification → Exec (AgentStore b) (RfqExecutionResult b)
  record_non_rfq_event event c = do
    found ← get_or_create_project b event c
    append_event b found.0 "EVENT_CLASSIFIED" "aivan_event_api"
    gltg ← lift (v.simulate none default_strategy 0)
    pure (record (result_of v found.0 c "recorded_no_rfq_created") { gltg_simulation = some gltg })
