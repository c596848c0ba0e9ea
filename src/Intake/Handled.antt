-- ===== src/Intake/Handled.antt =====
-- What the single writes keep is kept by the handling of an RFQ and of other events in
-- src/aivan/execution/rfq_execution.py, errors included.
use abcd_yi.Prelude.{ℕ, String, Bool, true, false, Option, none, some, List}
use abcd_yi.Prelude.Exec.{Result, ok, err, pure, ◌>>=◌}
use abcd_yi.Prelude.Keeps.{
  Keeps, Keeps-bind, Keeps-pure, Keeps-lift, Keeps-modify, Keeps-if, KeepsSome, Keeps-recover,
}
use abcd_yi.Intake.Store.{OpenClawEvent, Strategy, Backend, Services, Project, AgentStore}
use abcd_yi.Intake.Requirement.{BuyerRequirement}
use abcd_yi.Intake.Readiness.{Supplier, ExecutionGateResult}
use abcd_yi.Intake.Events.{EventClassification}
use abcd_yi.Intake.Flow.{
  Attempt, returned, simulated, consult, guarded, execute, record_graph, handle_rfq_event,
  record_non_rfq_event,
}
use abcd_yi.Intake.Verdicts.{
  recovery_action, blocked_requirement_result, pending_supplier_result, dependency_recovery_result,
}
use abcd_yi.Intake.Kept.{
  change_project-Keeps, IsKept, append_event-Keeps, get_or_create_project-Keeps,
  create_supplier_email_drafts-Keeps,
}

module _ {b : Backend} (v : Services b) (P : AgentStore b → Type 0) (k : IsKept v P) where
  blocked_requirement_result-Keeps :
      (now project : ℕ) (event : OpenClawEvent) (c : EventClassification) (r : BuyerRequirement)
      (gate : ExecutionGateResult)
      → Keeps P (blocked_requirement_result v now project event c r gate)
  unfolding blocked_requirement_result
  blocked_requirement_result-Keeps now project event c r gate =
      Keeps-bind P _ _ (change_project-Keeps v P k project _) (λ _.
        Keeps-bind P _ _ (append_event-Keeps v P k project _ _) (λ _.
          Keeps-bind P _ _ (k.notify now project event _)
            (λ _. Keeps-bind P _ _ (append_event-Keeps v P k project _ _) (λ _. Keeps-pure P _))))

  pending_supplier_result-Keeps :
      (now project : ℕ) (event : OpenClawEvent) (c : EventClassification) (r : BuyerRequirement)
      (strategy : Strategy) (feasibility : String)
      → Keeps P (pending_supplier_result v now project event c r strategy feasibility)
  unfolding pending_supplier_result
  pending_supplier_result-Keeps now project event c r strategy feasibility =
      Keeps-bind P _ _ (append_event-Keeps v P k project _ _)
        (λ _. Keeps-bind P _ _ (k.notify now project event _) (λ _. Keeps-pure P _))

  dependency_recovery_result-Keeps :
      (now project : ℕ) (event : OpenClawEvent) (c : EventClassification) (r : BuyerRequirement)
      (action : String)
      → Keeps P (dependency_recovery_result v now project event c r action)
  unfolding dependency_recovery_result
  dependency_recovery_result-Keeps now project event c r action =
      Keeps-bind P _ _ (append_event-Keeps v P k project _ _)
        (λ _. Keeps-bind P _ _ (k.notify now project event _) (λ _. Keeps-pure P _))

  consult-Keeps :
      (now : ℕ) (found : ℕ × Project b) (event : OpenClawEvent) (c : EventClassification)
      (r : BuyerRequirement)
      → Keeps P (consult v now found event c r)
  unfolding consult
  consult-Keeps now (project, p) event c r = Keeps-bind P _ _ (Keeps-lift P _) (λ suppliers.
      Keeps-if P _ _ _ (Keeps-bind P _ _ (Keeps-lift P _) (λ gltg. Keeps-pure P _)) (
        Keeps-bind P _ _ (pending_supplier_result-Keeps now project event c r _ _)
          (λ result. Keeps-pure P _)))

  guarded-Keeps :
      (now : ℕ) (found : ℕ × Project b) (event : OpenClawEvent) (c : EventClassification)
      (r : BuyerRequirement)
      → Keeps P (guarded v now found event c r)
  unfolding guarded
  guarded-Keeps now found event c r =
      Keeps-recover P _ _ (consult-Keeps now found event c r) (λ e. caught (recovery_action e))
    where
      caught :
          (answer : Option String)
          → KeepsSome P (elim answer [
            | none ↦ none
            | some action ↦ some (do
              result ← dependency_recovery_result v now found.0 event c r action
              pure (returned result))
          ])
      caught none = tt
      caught (some action) =
          Keeps-bind P _ _ (dependency_recovery_result-Keeps now found.0 event c r action)
            (λ result. Keeps-pure P _)

  record_graph-Keeps : (project : ℕ) (r : Result Bool) → Keeps P (record_graph v project r)
  unfolding record_graph
  record_graph-Keeps project (ok true) = append_event-Keeps v P k project _ _
  record_graph-Keeps project (ok false) = Keeps-pure P _
  record_graph-Keeps project (err e) = append_event-Keeps v P k project _ _

  execute-Keeps :
      (now project : ℕ) (event : OpenClawEvent) (c : EventClassification) (r : BuyerRequirement)
      (suppliers : List Supplier) (gltg : b.Gltg)
      → Keeps P (execute v now project event c r suppliers gltg)
  unfolding execute
  execute-Keeps now project event c r suppliers gltg =
      Keeps-bind P _ _ (change_project-Keeps v P k project _) (λ _.
        Keeps-bind P _ _ (Keeps-modify P _ (k.preference _ _)) (λ _.
          Keeps-bind P _ _ (append_event-Keeps v P k project _ _) (λ _.
            Keeps-bind P _ _ (append_event-Keeps v P k project _ _) (λ _.
              Keeps-bind P _ _ (append_event-Keeps v P k project _ _) (λ _.
                Keeps-bind P _ _ (append_event-Keeps v P k project _ _) (λ _.
                  Keeps-bind P _ _ (record_graph-Keeps project _) (λ _.
                    Keeps-bind P _ _
                      (create_supplier_email_drafts-Keeps v P k project event r _ gltg suppliers _)
                      (λ drafts. Keeps-bind P _ _ (k.notify now project event _) (λ _.
                        Keeps-bind P _ _ (append_event-Keeps v P k project _ _)
                          (λ _. Keeps-pure P _))))))))))

  pub handle_rfq_event-Keeps :
      (now : ℕ) (event : OpenClawEvent) (c : EventClassification)
      → Keeps P (handle_rfq_event v now event c)
  unfolding handle_rfq_event
  handle_rfq_event-Keeps now event c =
      Keeps-bind P _ _ (get_or_create_project-Keeps v P k event c) (λ found.
        Keeps-bind P _ _ (Keeps-lift P _) (λ (r : BuyerRequirement).
          Keeps-if P _ _ _
            (Keeps-bind P _ _ (guarded-Keeps now found event c r)
              (λ (attempt : Attempt b). finish now found event c r attempt))
            (blocked_requirement_result-Keeps now found.0 event c r _)))
    where
      finish :
          (now : ℕ) (found : ℕ × Project b) (event : OpenClawEvent) (c : EventClassification)
          (r : BuyerRequirement) (attempt : Attempt b)
          → Keeps P (elim attempt [
            | returned result ↦ pure result
            | simulated suppliers gltg ↦ execute v now found.0 event c r suppliers gltg
          ])
      finish now found event c r (returned result) = Keeps-pure P _
      finish now found event c r (simulated suppliers gltg) =
          execute-Keeps now found.0 event c r suppliers gltg

  pub record_non_rfq_event-Keeps :
      (event : OpenClawEvent) (c : EventClassification) → Keeps P (record_non_rfq_event v event c)
  unfolding record_non_rfq_event
  record_non_rfq_event-Keeps event c =
      Keeps-bind P _ _ (get_or_create_project-Keeps v P k event c) (λ found.
        Keeps-bind P _ _ (append_event-Keeps v P k found.0 _ _)
          (λ _. Keeps-bind P _ _ (Keeps-lift P _) (λ gltg. Keeps-pure P _)))
