-- ===== src/Intake/Outbound.antt =====
-- Nothing goes out to a customer or a supplier without an approval: the drafts over any history of
-- inbound events (src/aivan/execution/rfq_execution.py), approvals and rejections
-- (src/aivan/api/main.py, src/aivan/openclaw/outbound_approval.py and
-- src/aivan/execution/approval_state.py).
use abcd_yi.Prelude.{
  ℕ, String, Bool, true, false, inl, inr, some, Option-cases, Bool-cases, List, [], ◌∷◌, is_some,
  str_eq, ◌≡◌, refl, ap, sym, ◌∙◌, if◌then◌else◌,
}
use abcd_yi.Prelude.Exec.{Result-cases, pure, ◌>>=◌}
use abcd_yi.Prelude.Keeps.{Keeps}
use abcd_yi.Prelude.Table.{find, find-put_self}
use abcd_yi.Drafts.{
  Draft, Texts, Response, validate_draft_send_policy, approve_and_send, reject, Outbound,
  do_approve_draft, do_reject_draft,
}
use abcd_yi.Intake.Store.{OpenClawEvent, Backend, Services, RfqExecutionResult, AgentStore}
use abcd_yi.Intake.Projects.{
  add_event, add_binding, add_project, add_draft, change_drafts, learn_strategy_preference,
  create_draft, entry,
}
use abcd_yi.Intake.Outreach.{
  user_control, notification_draft, send_user_control_notification, deliver,
}
use abcd_yi.Intake.Entry.{create_rfq_from_event, record_result}
use abcd_yi.Intake.Kept.{IsKept}
use abcd_yi.Intake.Entered.{create_rfq_from_event-Keeps}
use abcd_yi.Intake.Ledger.{Call}
use abcd_yi.Intake.Standing.{
  IsGuarded, for_operator, waiting, taken_back, turned_down, granted, let_out, tried, stopped,
  AreGuarded, clash, put-AreGuarded, find-IsGuarded, supersede-AreGuarded, mark_sent-AreGuarded,
}
use abcd_yi.Intake.Approved.{
  approve_and_send-AreGuarded, reject-AreGuarded, do_approve_draft-AreGuarded,
  do_reject_draft-AreGuarded,
}

-- All drafts of the store are guarded.
abbrev pub Guarded : {b : Backend} → AgentStore b → Type 0
Guarded {b} s = AreGuarded b.texts s.drafts

module _ {b : Backend} (v : Services b) where
  -- A draft for the operator is added, and marked as sent where it was delivered.
  deliver-Guarded :
      (now : ℕ) (event : OpenClawEvent) (d : Draft) (s : AgentStore b)
      → d.target_role ≡ "user"
      → Guarded s
      → Guarded (deliver v now event d s.next_id (add_draft d s)).1
  unfolding deliver add_draft change_drafts ◌>>=◌
  deliver-Guarded now event d s u g =
      let added = put-AreGuarded b.texts s.next_id d s.drafts (for_operator u) g in
      elim (Result-cases (v.send_message event d)) [
        | inr (x, e) ↦ rw (e, deliver, ◌>>=◌) added
        | inl (success, e) ↦ elim (Bool-cases success) [
          | inl y ↦
              rw (e, y, deliver, ◌>>=◌)
                (mark_sent-AreGuarded b.texts now s.next_id d _ (find-put_self s.next_id d s.drafts)
                  u added)
          | inr n ↦ rw (e, n, deliver, ◌>>=◌) added
        ]
      ]

  handed_over-Guarded :
      (now : ℕ) (event : OpenClawEvent) (d : Draft) (s : AgentStore b) (should_send : Bool)
      → d.target_role ≡ "user"
      → Guarded s
      → Guarded
          ((if should_send then deliver v now event d s.next_id else pure tt) (add_draft d s)).1
  unfolding add_draft ◌>>=◌
  handed_over-Guarded now event d s true u g = deliver-Guarded now event d s u g
  handed_over-Guarded now event d s false u g =
      put-AreGuarded b.texts s.next_id d s.drafts (for_operator u) g

  notification-Guarded :
      (now project : ℕ) (event : OpenClawEvent) (text : String)
      → Keeps Guarded (send_user_control_notification v now project event text)
  unfolding send_user_control_notification create_draft ◌>>=◌
  notification-Guarded now project event text s g =
      let to = user_control b.texts event s.accounts in
      handed_over-Guarded now event
        (notification_draft project event to.channel to.target_peer_id to.should_send text) s
        to.should_send refl g

  Guarded-IsKept : IsKept v Guarded
  unfolding add_event add_binding add_project add_draft change_drafts learn_strategy_preference
  Guarded-IsKept = record {
    event = λ e s h. h;
    binding = λ c id s h. h;
    project = λ p s h. h;
    projects = λ t s h. h;
    preference = λ u x s h. h;
    inquiry =
        λ project event x text s h. put-AreGuarded b.texts s.next_id _ s.drafts (waiting refl) h;
    quotation = λ project conversation customer text s h.
        put-AreGuarded b.texts s.next_id _ s.drafts (waiting refl) h;
    supersede = λ project s h. supersede-AreGuarded b.texts project s.drafts h;
    notify = notification-Guarded;
  }

  record_result-Guarded :
      (key : String) (r : RfqExecutionResult b) (s : AgentStore b)
      → Guarded s
      → Guarded (record_result v key r s)
  unfolding record_result
  record_result-Guarded key r s h = elim (Option-cases (entry key s.processed)) [
    | inl e ↦ rw (e, record_result) h
    | inr (old, e) ↦ rw (e, record_result) h
  ]

  create_rfq_from_event-Guarded :
      (now : ℕ) (event : OpenClawEvent) → Keeps Guarded (create_rfq_from_event v now event)
  create_rfq_from_event-Guarded =
      create_rfq_from_event-Keeps v Guarded Guarded-IsKept record_result-Guarded

-- What happens to the store: an inbound event, an operator who approves or rejects a draft by the web
-- API, or a call of approve_and_send or reject of the approval state machine, which no route calls yet.
pub data Action (b : Backend) : Type 0 where
  inbound : Call b → Action b
  approval : Outbound → ℕ → ℕ → String → Action b
  rejection : ℕ → Action b
  retriable_approval : (Draft → Response) → ℕ → ℕ → String → Action b
  retriable_rejection : ℕ → Action b

unfoldable pub after_action : {b : Backend} → Action b → AgentStore b → AgentStore b
unfolding change_drafts
after_action (inbound c) s = (create_rfq_from_event c.services c.now c.event s).1
after_action {b} (approval service now id by) s =
    change_drafts (λ l. (do_approve_draft b.texts service now id by l).1) s
after_action (rejection id) s = change_drafts (λ l. (do_reject_draft id l).1) s
after_action {b} (retriable_approval client now id by) s =
    change_drafts (λ l. (approve_and_send b.texts client now id by l).1) s
after_action (retriable_rejection id) s = change_drafts (λ l. (reject id l).1) s

unfoldable pub after_actions : {b : Backend} → List (Action b) → AgentStore b → AgentStore b
unfolding after_action
after_actions [] s = s
after_actions (a ∷ rest) s = after_actions rest (after_action a s)

after_action-Guarded :
    {b : Backend} (a : Action b) (s : AgentStore b) → Guarded s → Guarded (after_action a s)
unfolding after_action
after_action-Guarded (inbound c) s h = create_rfq_from_event-Guarded c.services c.now c.event s h
after_action-Guarded {b} (approval service now id by) s h =
    do_approve_draft-AreGuarded b.texts service now id by s.drafts h
after_action-Guarded {b} (rejection id) s h = do_reject_draft-AreGuarded b.texts id s.drafts h
after_action-Guarded {b} (retriable_approval client now id by) s h =
    approve_and_send-AreGuarded b.texts client now id by s.drafts h
after_action-Guarded {b} (retriable_rejection id) s h = reject-AreGuarded b.texts id s.drafts h

after_actions-Guarded :
    {b : Backend} (l : List (Action b)) (s : AgentStore b) → Guarded s → Guarded (after_actions l s)
unfolding after_actions
after_actions-Guarded [] s h = h
after_actions-Guarded (a ∷ rest) s h =
    after_actions-Guarded rest (after_action a s) (after_action-Guarded a s h)

sent-approved :
    (t : Texts) (d : Draft)
    → IsGuarded t d
    → str_eq d.target_role "user" ≡ false
    → d.status ≡ "sent"
    → (is_some d.approved_at ≡ true) × (validate_draft_send_policy t d ≡ true)
sent-approved t d (for_operator u) r e =
    absurd (clash "user" "user" u u (ap (λ x. str_eq x "user") (sym u) ∙ r))
sent-approved t d (waiting w) r e = absurd (clash "pending_approval" "sent" w e refl)
sent-approved t d (taken_back w) r e = absurd (clash "superseded" "sent" w e refl)
sent-approved t d (turned_down w) r e = absurd (clash "rejected" "sent" w e refl)
sent-approved t d (granted w x) r e = absurd (clash "approved" "sent" w e refl)
sent-approved t d (let_out w x p) r e = (x, p)
sent-approved t d (tried w x p) r e = absurd (clash "send_failed" "sent" w e refl)
sent-approved t d (stopped w n) r e = absurd (clash "send_failed" "sent" w e refl)

-- From a store whose drafts are guarded (an empty one, for instance), after any history of inbound
-- events, of approvals and rejections by the web API and of those by the approval state machine,
-- whatever the services answer and wherever they raise: a draft that is not for the operator and was
-- sent has the time of an approval, and the channel policy allows it.
pub sent_only_approved :
    {b : Backend} (history : List (Action b)) (s : AgentStore b) (id : ℕ) (d : Draft)
    → Guarded s
    → find id (after_actions history s).drafts ≡ some d
    → str_eq d.target_role "user" ≡ false
    → d.status ≡ "sent"
    → (is_some d.approved_at ≡ true) × (validate_draft_send_policy b.texts d ≡ true)
sent_only_approved {b} history s id d g f r e =
    sent-approved b.texts d (find-IsGuarded b.texts id d _ f (after_actions-Guarded history s g)) r
      e
