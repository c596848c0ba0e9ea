-- ===== src/Rfqs/Service.antt =====
-- create_rfq and send_rfq of src/rfq/service.py. The text that the language model drafts is an
-- argument, `subject`; the queries that only prepare its prompt are left out.
use abcd_yi.Prelude.{ℕ, String, true, none, some, List, [], ◌∷◌, str_eq, ◌==◌, map, if◌then◌else◌}
use abcd_yi.Prelude.Exec.{
  Exec, Result, ok, err, http, pure, gets, lift, or_raise, modify, ◌>>=◌, ◌>>◌,
}
use abcd_yi.Prelude.Table.{Table, find, put, update}
use abcd_yi.Db.{Db, Rfq, RfqRecipient, Json, Payload, emit_event}
use abcd_yi.Approvals.{Purpose, create_approval_request, require_approved}
use abcd_yi.Orders.{rfq_transition}

abbrev pub sending_of : ℕ → ℕ → Purpose
sending_of tenant_id rfq_id = record {
  tenant_id = tenant_id;
  action_type = "RFQ_SEND";
  resource_type = "rfq";
  resource_id = rfq_id;
}

abbrev pub save_rfq : ℕ → Rfq → Db → Db
save_rfq id r db = record db { rfqs = put id r db.rfqs }

-- The events of this service name the tenant, the project and the user.
log_rfq : ℕ → String → Payload → ℕ → ℕ → ℕ → Exec Db (Unit {0})
unfolding emit_event
log_rfq now event_type payload tenant_id project_id user_id = emit_event (record {
  tenant_id = tenant_id;
  project_id = some project_id;
  order_id = none;
  participant_id = none;
  event_type = event_type;
  payload = payload;
  triggered_by_user_id = some user_id;
  occurred_at = now;
})

-- The loop over `recipient_participant_ids`; each comes with the id of its new row.
unfoldable pub add_recipients : ℕ → List (ℕ × ℕ) → Table RfqRecipient → Table RfqRecipient
add_recipients rfq_id [] t = t
add_recipients rfq_id ((new_id, participant_id) ∷ rest) t = add_recipients rfq_id rest (
    put new_id
      (record {
        rfq_id = rfq_id;
        participant_id = participant_id;
        sent_at = none;
        responded_at = none;
        status = "PENDING";
      })
      t)

abbrev rfq_payload : ℕ → List (ℕ × ℕ) → String → Payload
rfq_payload rfq_id recipients subject =
    ("rfq_id", Json.key rfq_id)
    ∷ ("recipient_participant_ids", Json.keys (map (λ (r : ℕ × ℕ). r.1) recipients))
    ∷ ("rfq_subject", Json.text subject)
    ∷ []

unfoldable pub create_rfq : ℕ → ℕ → ℕ → ℕ → ℕ → List (ℕ × ℕ) → String → ℕ → ℕ → Exec Db (Rfq × ℕ)
unfolding log_rfq
create_rfq now rfq_id approval_id project_id form_version_id recipients subject tenant_id user_id =
    do
      let rfq : Rfq = record {
        project_id = project_id;
        form_version_id = form_version_id;
        status = "DRAFT";
        rfq_subject = subject;
        ai_generated = true;
        human_approved_by = none;
        sent_at = none;
      }
      modify (save_rfq rfq_id rfq)
      modify (λ (db : Db). record db {
        rfq_recipients = add_recipients rfq_id recipients db.rfq_recipients;
      })
      create_approval_request approval_id (sending_of tenant_id rfq_id)
          (rfq_payload rfq_id recipients subject) none [] [] (some user_id)
      status ← lift (rfq_transition rfq.status "PENDING_APPROVAL")
      let asked = record rfq { status = status }
      modify (save_rfq rfq_id asked)
      log_rfq now "RFQ_DRAFTED"
          (("rfq_id", Json.key rfq_id) ∷ ("project_id", Json.key project_id) ∷ []) tenant_id
          project_id user_id
      log_rfq now "RFQ_APPROVAL_REQUESTED"
          (("rfq_id", Json.key rfq_id) ∷ ("approval_request_id", Json.key approval_id) ∷ [])
          tenant_id project_id user_id
      pure (asked, approval_id)

abbrev pub mark_sent : ℕ → RfqRecipient → RfqRecipient
mark_sent now r = record r { sent_at = some now; status = "SENT" }

-- PENDING_APPROVAL → APPROVED_TO_SEND → SENT
unfoldable pub move_to_sent : String → Result String
move_to_sent status =
    if str_eq status "PENDING_APPROVAL"
    then elim (rfq_transition status "APPROVED_TO_SEND") [
      | ok s ↦ rfq_transition s "SENT"
      | err e ↦ err e
    ]
    else rfq_transition status "SENT"

-- What `send_rfq` does behind its guard.
unfoldable pub send_approved : ℕ → ℕ → ℕ → ℕ → ℕ → Exec Db Rfq
unfolding log_rfq
send_approved now rfq_id approval_id tenant_id user_id = do
  found ← gets (λ (db : Db). find rfq_id db.rfqs)
  rfq ← or_raise found (http 404)
  status ← lift (move_to_sent rfq.status)
  let sent = record rfq { status = status; sent_at = some now; human_approved_by = some user_id }
  modify (save_rfq rfq_id sent)
  modify (λ (db : Db). record db {
    rfq_recipients =
        update (λ (r : RfqRecipient). r.rfq_id == rfq_id) (mark_sent now) db.rfq_recipients;
  })
  log_rfq now "RFQ_APPROVED"
      (("rfq_id", Json.key rfq_id) ∷ ("approval_id", Json.key approval_id) ∷ []) tenant_id
      rfq.project_id user_id
  log_rfq now "RFQ_SENT" (("rfq_id", Json.key rfq_id) ∷ ("sent_at", Json.number now) ∷ []) tenant_id
      rfq.project_id user_id
  pure sent

unfoldable pub send_rfq : ℕ → ℕ → ℕ → ℕ → ℕ → Exec Db Rfq
send_rfq now rfq_id approval_id tenant_id user_id = do
  require_approved now approval_id (sending_of tenant_id rfq_id)
  send_approved now rfq_id approval_id tenant_id user_id
