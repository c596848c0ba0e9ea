-- ===== src/Intake/Verdicts.antt =====
-- The results that an event is answered with where it is not executed:
-- src/aivan/execution/rfq_execution.py, with src/aivan/rfq/dependency_policy.py. The payloads of the
-- events and the messages of the results are left out. `now` is the time.
use abcd_yi.Prelude.{ℕ, String, Option, none, some, [], str_eq, if◌then◌else◌}
use abcd_yi.Prelude.Exec.{
  Error, Exec, gltg_unavailable, external_model_requires_approval, local_model_unavailable, pure,
  modify, ◌>>◌,
}
use abcd_yi.Intake.Requirement.{BuyerRequirement}
use abcd_yi.Intake.Readiness.{ExecutionGateResult, supplier_action}
use abcd_yi.Intake.Store.{
  OpenClawEvent, Strategy, Backend, Services, ProjectData, RfqExecutionResult, AgentStore,
}
use abcd_yi.Intake.Events.{EventClassification}
use abcd_yi.Intake.Projects.{append_event, change_project, update_requirement}
use abcd_yi.Intake.Outreach.{send_user_control_notification}

-- RFQStrategy()
abbrev pub default_strategy : Strategy
default_strategy = record {
  priority = "balanced";
  supplier_scope = "known_suppliers_first";
  public_bidding = "fallback_only";
  lead_time_confidence = "P80";
  price_sensitivity = "medium";
  quality_sensitivity = "medium";
  max_wait_hours = 24;
}

-- The errors that are caught, and the action that `classify_exception` answers for each of them.
abbrev pub recovery_action : Error → Option String
recovery_action external_model_requires_approval = some "pending_external_model_approval"
recovery_action local_model_unavailable = some "reduced_strength_local_model_unavailable"
recovery_action gltg_unavailable = some "pending_dependency_recovery"
recovery_action _ = none

abbrev pub supplier_event : String → String
supplier_event action =
    if str_eq action "pending_supplier_confirmation"
    then "SUPPLIER_CONFIRMATION_REQUIRED"
    else "SUPPLIER_SELECTION_REQUIRED"

module _ {b : Backend} (v : Services b) where
  abbrev pub result_of : ℕ → EventClassification → String → RfqExecutionResult b
  result_of project c action = record {
    project_id = project;
    event_type = c.event_type;
    action = action;
    strategy = default_strategy;
    requirement = none;
    gltg_simulation = none;
    selected_supplier_ids = [];
    skipped_supplier_ids = [];
    drafts_created = [];
  }

  -- `requirement.model_dump()`, and what is added to it
  abbrev pub payload_of : BuyerRequirement → ProjectData b
  payload_of r = record {
    requirement = some r;
    execution_gate = none;
    strategy = none;
    gltg_simulation = none;
    supplier_replies = [];
    lead_time_estimates = [];
    buyer_options = [];
  }

  unfoldable pub blocked_requirement_result :
      ℕ
      → ℕ
      → OpenClawEvent
      → EventClassification
      → BuyerRequirement
      → ExecutionGateResult
      → Exec (AgentStore b) (RfqExecutionResult b)
  blocked_requirement_result now project event c r gate = do
    modify (
        change_project project
          (update_requirement (record (payload_of r) { execution_gate = some gate })))
    append_event b project "EXECUTION_GATE_BLOCKED" "aivan_execution_gate"
    send_user_control_notification v now project event (v.operator_message gate.next_action project)
    append_event b project "USER_CONTROL_CONFIRMATION_REQUESTED" "aivan"
    pure (record (result_of project c gate.next_action) { requirement = some r })

  unfoldable pub pending_supplier_result :
      ℕ
      → ℕ
      → OpenClawEvent
      → EventClassification
      → BuyerRequirement
      → Strategy
      → String
      → Exec (AgentStore b) (RfqExecutionResult b)
  pending_supplier_result now project event c r strategy feasibility = do
    append_event b project (supplier_event (supplier_action feasibility)) "aivan_execution_gate"
    send_user_control_notification v now project event
        (v.operator_message (supplier_action feasibility) project)
    pure (record (result_of project c (supplier_action feasibility)) {
      strategy = strategy;
      requirement = some r;
    })

  unfoldable pub dependency_recovery_result :
      ℕ
      → ℕ
      → OpenClawEvent
      → EventClassification
      → BuyerRequirement
      → String
      → Exec (AgentStore b) (RfqExecutionResult b)
  dependency_recovery_result now project event c r action = do
    append_event b project "DEPENDENCY_RECOVERY" "aivan_dependency_policy"
    send_user_control_notification v now project event (v.operator_message action project)
    pure (record (result_of project c action) { requirement = some r })
