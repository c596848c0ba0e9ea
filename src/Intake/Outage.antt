-- ===== src/Intake/Outage.antt =====
-- Events that make no RFQ while the lead-time service is down:
-- src/aivan/execution/rfq_execution.py.
use abcd_yi.Prelude.{
  ℕ, String, Bool, true, false, inl, inr, none, some, Option-cases, Bool-cases, [], ◌∷◌, ◌++◌,
  length, length-append, contains, str_eq, ◌≡◌, ◌≤◌, refl, ap, eq_iff, sym, ◌∙◌, arith,
}
use abcd_yi.Prelude.Exec.{Error, Result, ok, err, ◌>>=◌}
use abcd_yi.Intake.Store.{OpenClawEvent, Backend, Services, Project, RfqExecutionResult, AgentStore}
use abcd_yi.Intake.Events.{EventClassification, classify_event, build_inbound_idempotency_key}
use abcd_yi.Intake.Projects.{
  add_event, add_binding, add_project, create_project, append_event, bind_existing, open_project,
  project_of, new_project, get_or_create_project, entry,
}
use abcd_yi.Intake.Flow.{record_non_rfq_event}
use abcd_yi.Intake.Verdicts.{default_strategy}
use abcd_yi.Intake.Entry.{
  create_rfq_from_event_inner, create_rfq_from_event, process_first, process_once,
}

-- A project is found or opened: nothing is raised, no event is lost and the ledger stays.
pub record IsOpened {b : Backend} (event : OpenClawEvent) (c : EventClassification)
    (s : AgentStore b) : Type 0 where
  pub it : ℕ × Project b
  pub store : AgentStore b
  pub opens : get_or_create_project b event c s ≡ (ok it, store)
  pub events : length s.events ≤ length store.events
  pub ledger : store.processed ≡ s.processed

get_or_create_project-IsOpened :
    {b : Backend} (event : OpenClawEvent) (c : EventClassification) (s : AgentStore b)
    → IsOpened event c s
unfolding get_or_create_project bind_existing open_project create_project append_event add_event
    add_binding add_project ◌>>=◌
get_or_create_project-IsOpened {b} event c s = elim (Option-cases (project_of b event c s)) [
  | inl e ↦ record {
    it = (s.next_id, new_project b event);
    store =
        add_event
          (record {
            project_id = s.next_id;
            event_type = "PROJECT_CREATED";
            actor = "aivan_event_api";
          })
          (add_binding event.conversation_id s.next_id (add_project (new_project b event) s));
    opens = rw (e, get_or_create_project, ◌>>=◌) refl;
    events = omega (arith, length-append {0} s.events);
    ledger = refl;
  }
  | inr (it, e) ↦ record {
    it = it;
    store = add_binding event.conversation_id it.0 s;
    opens = rw (e, get_or_create_project, ◌>>=◌) refl;
    events = omega arith;
    ledger = refl;
  }
]

abbrev pub makes_no_rfq : String → Bool
makes_no_rfq event_type =
    contains ("internal_status_request" ∷ "approval_response" ∷ "unknown" ∷ []) event_type

not_supplier_reply :
    (event_type : String)
    → makes_no_rfq event_type ≡ true
    → str_eq event_type "supplier_reply" ≡ false
not_supplier_reply t h = elim (Bool-cases (str_eq t "supplier_reply")) [
  | inr e ↦ e
  | inl e ↦
      let same : makes_no_rfq t ≡ makes_no_rfq "supplier_reply" =
        ap (λ x. makes_no_rfq x) ((eq_iff t "supplier_reply").0 e) in
      let no : true ≡ false = sym h ∙ same in cc
]

-- The outcome of a call that raised: the error, no entry in the ledger, and a last event that says
-- that the inbound event was classified, with the id of the project that was found or opened for it.
abbrev pub IsUnrecorded :
    {b : Backend}
    → String
    → Error
    → OpenClawEvent
    → EventClassification
    → AgentStore b
    → Result (RfqExecutionResult b) × AgentStore b
    → Type 0
IsUnrecorded {b} key e event c s out =
    (out.0 ≡ err e)
    × (entry key out.1.processed ≡ none)
    × (o : IsOpened event c s) × (out.1.events
        ≡ o.store.events
          ++ record {
            project_id = o.it.0;
            event_type = "EVENT_CLASSIFIED";
            actor = "aivan_event_api";
          }
            ∷ [])

module _ {b : Backend} (v : Services b) (event : OpenClawEvent) (key : String) (e : Error)
    (s : AgentStore b) (down : v.simulate none default_strategy 0 ≡ err e)
    (fresh : entry key s.processed ≡ none) where
  record_non_rfq_event-IsUnrecorded :
      (c : EventClassification) → IsUnrecorded key e event c s (record_non_rfq_event v event c s)
  unfolding record_non_rfq_event append_event add_event ◌>>=◌
  record_non_rfq_event-IsUnrecorded c =
      let o = get_or_create_project-IsOpened event c s in
      let moved : (get_or_create_project b event c s).1 ≡ o.store =
        ap (λ (out : Result (ℕ × Project b) × AgentStore b). out.1) o.opens in
      rw (o.opens, record_non_rfq_event, ◌>>=◌)
        (rw (down, ◌>>=◌) (rw moved (refl, ap (λ l. entry key l) o.ledger ∙ fresh, o, refl)))

  module _ (recorded : makes_no_rfq (classify_event v event s).event_type ≡ true) (now : ℕ) where
    inner-IsUnrecorded :
        IsUnrecorded key e event
          (classify_event v event s)
          s
          (create_rfq_from_event_inner v now event s)
    unfolding create_rfq_from_event_inner ◌>>=◌
    inner-IsUnrecorded =
        rw (not_supplier_reply _ recorded, recorded, create_rfq_from_event_inner, ◌>>=◌)
          (record_non_rfq_event-IsUnrecorded (classify_event v event s))

    process_first-IsUnrecorded :
        IsUnrecorded key e event (classify_event v event s) s (process_first v now event key s)
    unfolding process_first ◌>>=◌
    process_first-IsUnrecorded =
        let i = inner-IsUnrecorded in rw (i.0, process_first, ◌>>=◌) (refl, i.1, i.2, i.3)

-- A status or approval event (or one of unknown type) that has a key, is not in the ledger and arrives
-- while the lead-time service fails: the call raises that error, the ledger has no entry for it, and the
-- last event of the store is its classification, appended under the id of the project that was found or
-- opened for it.
pub create_rfq_from_event_outage :
    {b : Backend} (v : Services b) (now : ℕ) (event : OpenClawEvent) (key : String) (e : Error)
    (s : AgentStore b)
    → build_inbound_idempotency_key b event ≡ some key
    → entry key s.processed ≡ none
    → makes_no_rfq (classify_event v event s).event_type ≡ true
    → v.simulate none default_strategy 0 ≡ err e
    → IsUnrecorded key e event (classify_event v event s) s (create_rfq_from_event v now event s)
unfolding create_rfq_from_event process_once ◌>>=◌
create_rfq_from_event_outage v now event key e s k fresh recorded down =
    rw (k, create_rfq_from_event)
      (rw (fresh, process_once, ◌>>=◌)
        (process_first-IsUnrecorded v event key e s down fresh recorded now))
