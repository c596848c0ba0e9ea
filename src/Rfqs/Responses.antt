-- ===== src/Rfqs/Responses.antt =====
-- record_supplier_response of src/supplier_responses/service.py. What the normalisation of an answer
-- gives, or raises, is an argument: its missing fields, its risk flags and the columns that it fills.
use abcd_yi.Prelude.{
  ℕ, String, Bool, true, false, none, some, List, [], ◌∷◌, ◌++◌, str_eq, ◌==◌, ◌&&◌, ◌||◌, leb,
  length, if◌then◌else◌,
}
use abcd_yi.Prelude.Exec.{Exec, Result, ok, http, pure, gets, lift, or_raise, modify, ◌>>=◌, ◌>>◌}
use abcd_yi.Prelude.Table.{Table, find, put, select, matches, one_or_none, update}
use abcd_yi.Db.{Db, RfqRecipient, Json, Payload}
use abcd_yi.Orders.{rfq_transition}
use abcd_yi.Rfqs.Service.{save_rfq}

pub record SupplierResponse : Type 0 where
  pub rfq_id : ℕ
  pub participant_id : ℕ
  pub raw_response_text : String

pub record Normalized (N : Type 0) : Type 0 where
  pub missing_fields : List String
  pub risk_flags : List String
  pub columns : N

pub record SupplierResponsePacket (N : Type 0) : Type 0 where
  pub supplier_response_id : ℕ
  pub normalized : Normalized N
  pub ai_generated : Bool
  pub human_confirmed : Bool

-- The session with the two tables of this service.
pub record ResponseStore (N : Type 0) : Type 0 where
  pub db : Db
  pub responses : Table SupplierResponse
  pub packets : Table (SupplierResponsePacket N)

-- `_update_rfq_status_from_responses`, on the status of the RFQ
unfoldable pub status_from_responses : String → ℕ → ℕ → Result String
status_from_responses status responded total =
    if str_eq status "SENT"
    then (if leb total responded
        then rfq_transition status "RECEIVED"
        else rfq_transition status "PARTIAL_RESPONSE")
    else if str_eq status "RECEIVED" || str_eq status "PARTIAL_RESPONSE"
    then (if leb total responded then rfq_transition status "COMPLETE_RESPONSE" else ok status)
    else ok status

abbrev pub is_recipient : ℕ → ℕ → RfqRecipient → Bool
is_recipient rfq_id participant_id r = r.rfq_id == rfq_id && r.participant_id == participant_id

abbrev pub mark_responded : ℕ → RfqRecipient → RfqRecipient
mark_responded now r = record r { responded_at = some now; status = "RESPONDED" }

abbrev pub recipients_of : ℕ → Db → ℕ
recipients_of rfq_id db =
    length (select (λ (r : RfqRecipient). r.rfq_id == rfq_id) db.rfq_recipients)

module _ {N : Type 0} where
  abbrev pub responses_of : ℕ → ResponseStore N → ℕ
  responses_of rfq_id s = length (select (λ (r : SupplierResponse). r.rfq_id == rfq_id) s.responses)

  abbrev pub in_db : (Db → Db) → ResponseStore N → ResponseStore N
  in_db f s = record s { db = f s.db }

  -- The events of this service name the participant too.
  abbrev pub log_response : ℕ → String → Payload → ℕ → ℕ → ℕ → ℕ → ResponseStore N → ResponseStore N
  log_response now event_type payload tenant_id project_id participant_id user_id = in_db (λ db.
      record db {
        events =
            db.events
            ++ record {
              tenant_id = tenant_id;
              project_id = some project_id;
              order_id = none;
              participant_id = some participant_id;
              event_type = event_type;
              payload = payload;
              triggered_by_user_id = some user_id;
              occurred_at = now;
            }
              ∷ [];
      })

  unfoldable pub record_supplier_response :
      ℕ
      → ℕ
      → ℕ
      → ℕ
      → ℕ
      → String
      → Result (Normalized N)
      → ℕ
      → ℕ
      → Exec (ResponseStore N) (SupplierResponse × SupplierResponsePacket N)
  record_supplier_response now rfq_id response_id packet_id participant_id raw_text answer tenant_id
        user_id =
      do
        found ← gets (λ (s : ResponseStore N). find rfq_id s.db.rfqs)
        rfq ← or_raise found (http 404)
        let response : SupplierResponse = record {
          rfq_id = rfq_id;
          participant_id = participant_id;
          raw_response_text = raw_text;
        }
        modify
            (λ (s : ResponseStore N). record s { responses = put response_id response s.responses })
        rows ← gets (λ (s : ResponseStore N).
            matches (is_recipient rfq_id participant_id) s.db.rfq_recipients)
        lift (one_or_none rows)
        modify (
            in_db (λ db. record db {
              rfq_recipients =
                  update (is_recipient rfq_id participant_id) (mark_responded now)
                    db.rfq_recipients;
            }))
        modify (
            log_response now "SUPPLIER_RESPONSE_RECEIVED"
              (("rfq_id", Json.key rfq_id) ∷ ("participant_id", Json.key participant_id) ∷ [])
              tenant_id rfq.project_id participant_id user_id)
        normalized ← lift answer
        let packet : SupplierResponsePacket N = record {
          supplier_response_id = response_id;
          normalized = normalized;
          ai_generated = true;
          human_confirmed = false;
        }
        modify (λ (s : ResponseStore N). record s { packets = put packet_id packet s.packets })
        total ← gets (λ (s : ResponseStore N). recipients_of rfq_id s.db)
        responded ← gets (responses_of rfq_id)
        status ← lift (status_from_responses rfq.status responded total)
        modify (in_db (save_rfq rfq_id (record rfq { status = status })))
        modify (
            log_response now "SUPPLIER_RESPONSE_NORMALIZED"
              (("response_id", Json.key response_id)
                ∷ ("missing_fields", Json.texts normalized.missing_fields)
                ∷ ("risk_flags", Json.texts normalized.risk_flags)
                ∷ [])
              tenant_id rfq.project_id participant_id user_id)
        pure (response, packet)
