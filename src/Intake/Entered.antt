-- ===== src/Intake/Entered.antt =====
-- What the single writes keep is kept by the handling of an answer, and by the entry point of
-- src/aivan/execution/rfq_execution.py, errors included.
use abcd_yi.Prelude.{
  ℕ, String, Bool, true, false, inl, inr, Option, none, some, Option-cases, List, [], ◌∷◌, contains,
  str_eq, if◌then◌else◌,
}
use abcd_yi.Prelude.Exec.{pure}
use abcd_yi.Prelude.Keeps.{Keeps, Keeps-bind, Keeps-pure, Keeps-gets, Keeps-lift, Keeps-modify}
use abcd_yi.Intake.Store.{
  RfqExecutionResult, OpenClawEvent, Backend, Services, ProjectData, Project, AgentStore,
}
use abcd_yi.Intake.Requirement.{BuyerRequirement}
use abcd_yi.Intake.Events.{build_inbound_idempotency_key, EventClassification}
use abcd_yi.Intake.Flow.{handle_rfq_event, record_non_rfq_event}
use abcd_yi.Intake.Entry.{
  record_result, process_first, process_once, create_rfq_from_event, offer_options,
  answer_without_requirement, answer_with_requirement, continue_answer, handle_supplier_reply_event,
  create_rfq_from_event_inner,
}
use abcd_yi.Intake.Handled.{handle_rfq_event-Keeps, record_non_rfq_event-Keeps}
use abcd_yi.Intake.Kept.{
  change_project-Keeps, IsKept, append_event-Keeps, get_or_create_project-Keeps,
  create_customer_quote_email_draft-Keeps,
}

module _ {b : Backend} (v : Services b) (P : AgentStore b → Type 0) (k : IsKept v P) where
  offer_options-Keeps :
      (project : ℕ) (p : Project b) (event : OpenClawEvent) (options : List b.BuyerOption)
      → Keeps P (offer_options v project p event options)
  unfolding offer_options
  offer_options-Keeps project p event [] = Keeps-pure P _
  offer_options-Keeps project p event (option ∷ options) =
      Keeps-bind P _ _ (change_project-Keeps v P k project _)
        (λ _. create_customer_quote_email_draft-Keeps v P k project p event _)

  answer_without_requirement-Keeps :
      (project : ℕ) (c : EventClassification) (reply : b.Reply)
      → Keeps P (answer_without_requirement v project c reply)
  unfolding answer_without_requirement
  answer_without_requirement-Keeps project c reply =
      Keeps-bind P _ _ (Keeps-lift P _) (λ gltg. Keeps-pure P _)

  answer_with_requirement-Keeps :
      (found : ℕ × Project b) (event : OpenClawEvent) (c : EventClassification)
      (payload : ProjectData b) (r : BuyerRequirement) (reply : b.Reply)
      → Keeps P (answer_with_requirement v found event c payload r reply)
  unfolding answer_with_requirement
  answer_with_requirement-Keeps (project, p) event c payload r reply =
      Keeps-bind P _ _ (Keeps-lift P _) (λ lead_time.
        Keeps-bind P _ _ (append_event-Keeps v P k project _ _) (λ _.
          Keeps-bind P _ _ (append_event-Keeps v P k project _ _) (λ _.
            Keeps-bind P _ _ (change_project-Keeps v P k project _) (λ _.
              Keeps-bind P _ _ (offer_options-Keeps project p event _)
                (λ drafts. Keeps-bind P _ _ (Keeps-lift P _) (λ gltg. Keeps-pure P _))))))

  continue_answer-Keeps :
      (found : ℕ × Project b) (event : OpenClawEvent) (c : EventClassification) (reply : b.Reply)
      (stored : Option (ProjectData b))
      → Keeps P (continue_answer v found event c reply stored)
  unfolding continue_answer
  continue_answer-Keeps found event c reply none = answer_without_requirement-Keeps found.0 c reply
  continue_answer-Keeps found event c reply (some payload) =
      elim (Option-cases payload.requirement) [
        | inl e ↦ rw (e, continue_answer) (answer_without_requirement-Keeps found.0 c reply)
        | inr (r, e) ↦
            rw (e, continue_answer) (answer_with_requirement-Keeps found event c payload r reply)
      ]

  handle_supplier_reply_event-Keeps :
      (event : OpenClawEvent) (c : EventClassification)
      → Keeps P (handle_supplier_reply_event v event c)
  unfolding handle_supplier_reply_event
  handle_supplier_reply_event-Keeps event c =
      Keeps-bind P _ _ (get_or_create_project-Keeps v P k event c) (λ found.
        Keeps-bind P _ _ (append_event-Keeps v P k found.0 _ _) (λ _.
          Keeps-bind P _ _ (Keeps-lift P _) (λ reply.
            Keeps-bind P _ _ (append_event-Keeps v P k found.0 _ _)
              (λ _. continue_answer-Keeps found event c reply _))))

  pub create_rfq_from_event_inner-Keeps :
      (now : ℕ) (event : OpenClawEvent) → Keeps P (create_rfq_from_event_inner v now event)
  unfolding create_rfq_from_event_inner
  create_rfq_from_event_inner-Keeps now event =
      Keeps-bind P _ _ (Keeps-gets P _) (λ (c : EventClassification).
        choose event c (str_eq c.event_type "supplier_reply") (
          contains ("internal_status_request" ∷ "approval_response" ∷ "unknown" ∷ []) c.event_type))
    where
      choose :
          (event : OpenClawEvent) (c : EventClassification) (a b : Bool)
          → Keeps P (
              if a
              then handle_supplier_reply_event v event c
              else if b
              then record_non_rfq_event v event c
              else handle_rfq_event v now event c)
      choose event c true b = handle_supplier_reply_event-Keeps event c
      choose event c false true = record_non_rfq_event-Keeps v P k event c
      choose event c false false = handle_rfq_event-Keeps v P k now event c

  -- The entry point keeps it too where the ledger's write does.
  module _
      (recorded : (key : String) (r : RfqExecutionResult b) (s : AgentStore b)
        → P s
        → P (record_result v key r s)) where
    process_first-Keeps :
        (now : ℕ) (event : OpenClawEvent) (key : String) → Keeps P (process_first v now event key)
    unfolding process_first
    process_first-Keeps now event key =
        Keeps-bind P _ _ (create_rfq_from_event_inner-Keeps now event)
          (λ r. Keeps-bind P _ _ (Keeps-modify P _ (recorded key r)) (λ _. Keeps-pure P _))

    process_once-Keeps :
        (now : ℕ) (event : OpenClawEvent) (key : String) → Keeps P (process_once v now event key)
    unfolding process_once
    process_once-Keeps now event key =
        Keeps-bind P _ _ (Keeps-gets P _) (λ existing. replayed now event key existing)
      where
        replayed :
            (now : ℕ) (event : OpenClawEvent) (key : String)
            (existing : Option (RfqExecutionResult b))
            → Keeps P
                (elim existing [ some result ↦ pure result | none ↦ process_first v now event key ])
        replayed now event key none = process_first-Keeps now event key
        replayed now event key (some result) = Keeps-pure P _

    pub create_rfq_from_event-Keeps :
        (now : ℕ) (event : OpenClawEvent) → Keeps P (create_rfq_from_event v now event)
    unfolding create_rfq_from_event
    create_rfq_from_event-Keeps now event s h =
        elim (Option-cases (build_inbound_idempotency_key b event)) [
          | inl e ↦ rw (e, create_rfq_from_event) (create_rfq_from_event_inner-Keeps now event s h)
          | inr (key, e) ↦ rw (e, create_rfq_from_event) (process_once-Keeps now event key s h)
        ]
