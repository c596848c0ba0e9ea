-- ===== src/Intake/Attempts.antt =====
-- The handling of an RFQ justifies its result: src/aivan/execution/rfq_execution.py.
use abcd_yi.Prelude.{ℕ, String, true, Option, none, some, List, keep, length, ◌≡◌, ◌≤◌, refl}
use abcd_yi.Prelude.Exec.{Exec, ok, pure, ◌>>=◌}
use abcd_yi.Prelude.Gives.{
  Gives, GivesSome, Gives-pure, Gives-bind, Gives-then, Gives-lift, Gives-if, Gives-recover,
}
use abcd_yi.Intake.Store.{
  OpenClawEvent, Strategy, Backend, Services, Project, RfqExecutionResult, AgentStore,
}
use abcd_yi.Intake.Requirement.{BuyerRequirement}
use abcd_yi.Intake.Readiness.{Supplier, has_email, evaluate_requirement_readiness}
use abcd_yi.Intake.Events.{EventClassification, interpret_strategy}
use abcd_yi.Intake.Outreach.{create_supplier_email_drafts, select_suppliers}
use abcd_yi.Intake.Drafted.{run-AreDrafted}
use abcd_yi.Intake.Flow.{Attempt, returned, simulated, consult, guarded, execute, handle_rfq_event}
use abcd_yi.Intake.Verdicts.{
  recovery_action, blocked_requirement_result, pending_supplier_result, dependency_recovery_result,
}
use abcd_yi.Intake.Justified.{Answers, selected-few}
use abcd_yi.Intake.Others.{
  IsOther, supplier_action-IsOther, gate-IsOther, recovery_action-IsOther, verdict-enough,
  drafts-length, other-Answers,
}

module _ {b : Backend} (v : Services b) where
  module _ (event : OpenClawEvent) where
    -- What the guarded part gives: such a result, or what was answered.
    data IsAttempt (r : BuyerRequirement) : Attempt b → Type 0 where
      returns :
          (result : RfqExecutionResult b) → Answers v event result → IsAttempt r (returned result)
      answers :
          (customer user : String) (suppliers : List Supplier) (gltg : b.Gltg)
          → v.build_context r customer user ≡ ok suppliers
          → 2 ≤ length (keep has_email suppliers)
          → v.simulate (some r) (interpret_strategy v event.message_text) (length suppliers)
            ≡ ok gltg
          → IsAttempt r (simulated suppliers gltg)

    -- The loop over the suppliers that are selected.
    abbrev loop : ℕ → BuyerRequirement → List Supplier → b.Gltg → Exec (AgentStore b) (List ℕ)
    loop project r suppliers gltg =
        create_supplier_email_drafts v project event r (interpret_strategy v event.message_text)
          gltg suppliers (select_suppliers suppliers).selected_supplier_ids

    module _ (now : ℕ) (c : EventClassification) (r : BuyerRequirement) where
      waiting-Answers :
          (project : ℕ) (strategy : Strategy) (feasibility : String)
          → Gives
              (Answers v event)
              (pending_supplier_result v now project event c r strategy feasibility)
      unfolding pending_supplier_result
      waiting-Answers project strategy feasibility =
          let Q = Answers v event in
          Gives-then Q _ _ (λ _.
            Gives-then Q _ _
              (λ _. Gives-pure Q _ (other-Answers v event _ (supplier_action-IsOther feasibility))))

      recovery-Answers :
          (project : ℕ) (action : String)
          → IsOther action
          → Gives (Answers v event) (dependency_recovery_result v now project event c r action)
      unfolding dependency_recovery_result
      recovery-Answers project action o =
          let Q = Answers v event in
          Gives-then Q _ _ (λ _. Gives-then Q _ _ (λ _. Gives-pure Q _ (other-Answers v event _ o)))

      blocked-Answers :
          (project : ℕ)
          → Gives (Answers v event) (
              blocked_requirement_result v now project event c r (evaluate_requirement_readiness r))
      unfolding blocked_requirement_result
      blocked-Answers project =
          let Q = Answers v event in
          Gives-then Q _ _ (λ _. Gives-then Q _ _ (λ _. Gives-then Q _ _ (λ _.
            Gives-then Q _ _ (λ _. Gives-pure Q _ (other-Answers v event _ (gate-IsOther r))))))

      consult-IsAttempt :
          (found : ℕ × Project b) → Gives (IsAttempt r) (consult v now found event c r)
      unfolding consult
      consult-IsAttempt (project, p) =
          let Q = IsAttempt r in
          Gives-lift Q _ _ (λ suppliers e.
            Gives-if Q _ _ _
              (λ y. Gives-lift Q _ _ (λ gltg g.
                Gives-pure Q _ (answers _ _ suppliers gltg e (verdict-enough suppliers y) g)))
              (λ _.
                Gives-bind Q (Answers v event) _ _ (waiting-Answers project _ _)
                  (λ result o. Gives-pure Q _ (returns result o))))

      guarded-IsAttempt :
          (found : ℕ × Project b) → Gives (IsAttempt r) (guarded v now found event c r)
      unfolding guarded
      guarded-IsAttempt found =
          Gives-recover (IsAttempt r) _ _ (consult-IsAttempt found)
            (λ e. caught (recovery_action e) (λ action h. recovery_action-IsOther e action h))
        where
          caught :
              (answer : Option String)
              → ((action : String) → answer ≡ some action → IsOther action)
              → GivesSome (IsAttempt r) (elim answer [
                | none ↦ none
                | some action ↦ some (do
                  result ← dependency_recovery_result v now found.0 event c r action
                  pure (returned result))
              ])
          caught none o = tt
          caught (some action) o =
              Gives-bind (IsAttempt r) (Answers v event) _ _
                (recovery-Answers found.0 action (o action refl))
                (λ result a. Gives-pure (IsAttempt r) _ (returns result a))

      module _ (project : ℕ) (existing : Option BuyerRequirement)
          (structured : v.structure_requirement event existing project ≡ ok r)
          (is_ready : (evaluate_requirement_readiness r).ready ≡ true) where
        execute-Answers :
            (customer user : String) (suppliers : List Supplier) (gltg : b.Gltg)
            → v.build_context r customer user ≡ ok suppliers
            → 2 ≤ length (keep has_email suppliers)
            → v.simulate (some r) (interpret_strategy v event.message_text) (length suppliers)
              ≡ ok gltg
            → Gives (Answers v event) (execute v now project event c r suppliers gltg)
        unfolding execute
        execute-Answers customer user suppliers gltg found enough answered =
            let Q = Answers v event in
            Gives-then Q _ _ (λ _. Gives-then Q _ _ (λ _. Gives-then Q _ _ (λ _.
              Gives-then Q _ _ (λ _. Gives-then Q _ _ (λ _. Gives-then Q _ _ (λ _.
                Gives-then Q _ _ (λ _.
                  Gives-bind Q
                    (λ l.
                      (length l ≡ length (select_suppliers suppliers).selected_supplier_ids)
                      × ((t : AgentStore b) × ((loop project r suppliers gltg t).0 ≡ ok l)))
                    _ _
                    (λ t l e. (drafts-length v project event r _ gltg suppliers _ t l e, (t, e)))
                    (λ drafts (e, (t, g)). Gives-then Q _ _ (λ _. Gives-then Q _ _ (λ _.
                      Gives-pure Q _ (λ _. record {
                        requirement = r;
                        existing = existing;
                        customer = customer;
                        user = user;
                        suppliers = suppliers;
                        gltg = gltg;
                        structured = structured;
                        is_ready = is_ready;
                        in_context = found;
                        enough = enough;
                        with_lead_time = answered;
                        reported = refl;
                        two_suppliers = (selected-few suppliers enough).0;
                        five_suppliers = (selected-few suppliers enough).1;
                        one_draft_each = e;
                        selected = refl;
                        looped_in = t;
                        looped = g;
                        drafted = λ t h.
                            run-AreDrafted v project event r
                              (interpret_strategy v event.message_text) gltg suppliers _ t _ h;
                      })))))))))))

        finish-Answers :
            (attempt : Attempt b)
            → IsAttempt r attempt
            → Gives {S = AgentStore b} (Answers v event) (elim attempt [
              | returned result ↦ pure result
              | simulated suppliers gltg ↦ execute v now project event c r suppliers gltg
            ])
        finish-Answers (returned result) (returns _ a) = Gives-pure (Answers v event) result a
        finish-Answers (simulated suppliers gltg)
              (answers customer user _ _ found enough answered) =
            execute-Answers customer user suppliers gltg found enough answered

    pub handle_rfq_event-Answers :
        (now : ℕ) (c : EventClassification)
        → Gives (Answers v event) (handle_rfq_event v now event c)
    unfolding handle_rfq_event
    handle_rfq_event-Answers now c =
        let Q = Answers v event in
        Gives-then Q _ _ (λ found. Gives-lift Q _ _ (λ r e.
          Gives-if Q _ _ _
            (λ y.
              Gives-bind Q (IsAttempt r) _ _ (guarded-IsAttempt now c r found)
                (λ attempt a. finish-Answers now c r found.0 _ e y attempt a))
            (λ _. blocked-Answers now c r found.0)))
