-- ===== src/Intake/Ledger.antt =====
-- The ledger of the processed events: src/aivan/db/repositories/inbound_event_repo.py, over any later
-- events and answers of the services.
use abcd_yi.Prelude.{
  ℕ, String, true, inl, inr, Option, none, some, Option-cases, List, [], ◌∷◌, ◌≡◌, refl, Bool-cases,
  str_eq, ap, sym, ◌∙◌,
}
use text.Mathlib.TextEquality.{eq_iff}
use abcd_yi.Prelude.Exec.{ok_inj, not_returned, Result, Result-cases, ok, ◌>>=◌}
use abcd_yi.Prelude.Keeps.{
  Keeps, Keeps-bind, Keeps-pure, Keeps-gets, Keeps-lift, Keeps-modify, Keeps-if,
}
use abcd_yi.Intake.Store.{OpenClawEvent, Backend, Services, RfqExecutionResult, AgentStore}
use abcd_yi.Intake.Events.{build_inbound_idempotency_key}
use abcd_yi.Intake.Projects.{
  add_event, add_binding, add_project, add_draft, change_drafts, learn_strategy_preference,
  create_draft, entry,
}
use abcd_yi.Intake.Outreach.{send_user_control_notification, deliver}
use abcd_yi.Intake.Entry.{
  create_rfq_from_event_inner, create_rfq_from_event, process_first, process_once, record_result,
}
use abcd_yi.Intake.Kept.{IsKept}
use abcd_yi.Intake.Entered.{create_rfq_from_event_inner-Keeps, create_rfq_from_event-Keeps}

-- What the ledger holds under the key, if anything.
abbrev pub HasEntry : {b : Backend} → String → Option (RfqExecutionResult b) → AgentStore b → Type 0
HasEntry key r s = entry key s.processed ≡ r

-- The handling of an event leaves the ledger alone.
module _ {b : Backend} (v : Services b) (key : String) (r : Option (RfqExecutionResult b)) where
  notification-HasEntry :
      (now project : ℕ) (event : OpenClawEvent) (text : String)
      → Keeps (HasEntry key r) (send_user_control_notification v now project event text)
  unfolding send_user_control_notification create_draft deliver add_draft change_drafts
  notification-HasEntry now project event text =
      let P = HasEntry key r in
      Keeps-bind P _ _ (Keeps-gets P _) (λ control.
        Keeps-bind P _ _
          (Keeps-bind P _ _ (Keeps-gets P _)
            (λ id. Keeps-bind P _ _ (Keeps-modify P _ (λ s h. h)) (λ _. Keeps-pure P _)))
          (λ id.
            Keeps-if P _ _ _
              (Keeps-bind P _ _ (Keeps-lift P _)
                (λ success. Keeps-if P _ _ _ (Keeps-modify P _ (λ s h. h)) (Keeps-pure P _)))
              (Keeps-pure P _)))

  HasEntry-IsKept : IsKept v (HasEntry key r)
  unfolding add_event add_binding add_project add_draft change_drafts learn_strategy_preference
  HasEntry-IsKept = record {
    event = λ e s h. h;
    binding = λ c id s h. h;
    project = λ p s h. h;
    projects = λ t s h. h;
    preference = λ u x s h. h;
    inquiry = λ project event x text s h. h;
    quotation = λ project conversation customer text s h. h;
    supersede = λ project s h. h;
    notify = notification-HasEntry;
  }

  inner-HasEntry :
      (now : ℕ) (event : OpenClawEvent)
      → Keeps (HasEntry key r) (create_rfq_from_event_inner v now event)
  inner-HasEntry = create_rfq_from_event_inner-Keeps v (HasEntry key r) HasEntry-IsKept

module _ {b : Backend} (v : Services b) (key : String) (r : RfqExecutionResult b) where
  record_result-HasEntry :
      (k : String) (q : RfqExecutionResult b) (s : AgentStore b)
      → HasEntry key (some r) s
      → HasEntry key (some r) (record_result v k q s)
  unfolding record_result entry
  record_result-HasEntry k q s h = elim (Option-cases (entry k s.processed)) [
    | inl e ↦
        rw (e, record_result)
          (elim (Bool-cases (str_eq k key)) [
            | inl same ↦ absurd (other same e)
            | inr differ ↦ rw (differ, entry) h
          ])
    | inr (old, e) ↦ rw (e, record_result) h
  ]
    where
      other : str_eq k key ≡ true → entry k s.processed ≡ none → ⊥
      other same e = cc (ap (λ j. entry j s.processed) ((eq_iff k key).0 same))

  create_rfq_from_event-HasEntry :
      (now : ℕ) (event : OpenClawEvent)
      → Keeps (HasEntry key (some r)) (create_rfq_from_event v now event)
  create_rfq_from_event-HasEntry =
      create_rfq_from_event-Keeps v (HasEntry key (some r)) (HasEntry-IsKept v key (some r))
        record_result-HasEntry

  recorded-entry :
      (q : RfqExecutionResult b) (t : AgentStore b)
      → HasEntry key none t
      → HasEntry key (some q) (record_result v key q t)
  unfolding record_result entry
  recorded-entry q t n = rw (n, record_result) (rw ((eq_iff key key).1 refl, entry) refl)

  moved-entry :
      (q : RfqExecutionResult b) (t s' : AgentStore b)
      → ◌≡◌ {A = Result (RfqExecutionResult b) × AgentStore b} (ok q, t) (ok r, s')
      → HasEntry key (some q) t
      → HasEntry key (some r) s'
  moved-entry q t s' h e =
      sym (ap (λ (out : Result (RfqExecutionResult b) × AgentStore b). entry key out.1.processed) h)
      ∙ e
      ∙ ap some (ok_inj (ap (λ (out : Result (RfqExecutionResult b) × AgentStore b). out.0) h))

  -- Where the first event of a key returns, its result is in the ledger.
  process_once-records :
      (now : ℕ) (event : OpenClawEvent) (s s' : AgentStore b)
      → process_once v now event key s ≡ (ok r, s')
      → HasEntry key (some r) s'
  unfolding process_once process_first ◌>>=◌
  process_once-records now event s s' h = elim (Option-cases (entry key s.processed)) [
    | inl e ↦ elim (Result-cases (create_rfq_from_event_inner v now event s).0) [
      | inl (q, f) ↦
          let t = (create_rfq_from_event_inner v now event s).1 in
          moved-entry q (record_result v key q t) s'
            (rw (e, f, process_once, process_first, ◌>>=◌) at h)
            (recorded-entry q t (inner-HasEntry v key none now event s e))
      | inr (x, f) ↦ absurd (
          not_returned {out = process_once v now event key s} {x = x}
            {s = (create_rfq_from_event_inner v now event s).1} {a = r}
            (rw (e, f, process_once, process_first, ◌>>=◌) refl)
            (ap (λ (out : Result (RfqExecutionResult b) × AgentStore b). out.0) h))
    ]
    | inr (old, e) ↦ moved-entry old s s' (rw (e, process_once, ◌>>=◌) at h) e
  ]

-- One call of the entry point, with what the services answer meanwhile.
pub record Call (b : Backend) : Type 0 where
  pub services : Services b
  pub now : ℕ
  pub event : OpenClawEvent

-- The store after a list of calls, those that raised included.
unfoldable pub after_calls : {b : Backend} → List (Call b) → AgentStore b → AgentStore b
after_calls [] s = s
after_calls (c ∷ cs) s = after_calls cs (create_rfq_from_event c.services c.now c.event s).1

after_calls-HasEntry :
    {b : Backend} (key : String) (r : RfqExecutionResult b) (cs : List (Call b))
    → (s : AgentStore b) → HasEntry key (some r) s
    → HasEntry key (some r) (after_calls cs s)
unfolding after_calls
after_calls-HasEntry key r [] s h = h
after_calls-HasEntry key r (c ∷ cs) s h =
    after_calls-HasEntry key r cs _
      (create_rfq_from_event-HasEntry c.services key r c.now c.event s h)

-- An inbound event that has a key (a message id or a conversation id that is not blank) and was
-- processed without an error: after any further calls, with any answers of the services, an event with
-- the same key gets the same result and changes nothing.
pub create_rfq_from_event_replays :
    {b : Backend} (v w : Services b) (first second : OpenClawEvent) (key : String) (now later : ℕ)
    (r : RfqExecutionResult b) (s s' : AgentStore b) (cs : List (Call b))
    → build_inbound_idempotency_key b first ≡ some key
    → build_inbound_idempotency_key b second ≡ some key
    → create_rfq_from_event v now first s ≡ (ok r, s')
    → create_rfq_from_event w later second (after_calls cs s') ≡ (ok r, after_calls cs s')
unfolding create_rfq_from_event process_once ◌>>=◌
create_rfq_from_event_replays v w first second key now later r s s' cs k l h =
    let recorded : HasEntry key (some r) s' =
      process_once-records v key r now first s s' (rw (k, create_rfq_from_event) at h) in
    let kept : HasEntry key (some r) (after_calls cs s') =
      after_calls-HasEntry key r cs s' recorded in
    rw (l, create_rfq_from_event) (rw (kept, process_once, ◌>>=◌) refl)
