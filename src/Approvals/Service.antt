-- ===== src/Approvals/Service.antt =====
-- The four operations of src/approval_gates/service.py. `now` is the clock's reading and `new_id`
-- the UUID that a new row gets.
use abcd_yi.Prelude.{
  ℕ, String, Bool, Option, none, some, List, [], ◌∷◌, ◌++◌, contains, str_eq, ◌==◌, is_some, not,
}
use abcd_yi.Prelude.Exec.{
  Exec, http, assertion_error, pure, gets, or_raise, modify, require, ◌>>=◌, ◌>>◌,
}
use abcd_yi.Prelude.Table.{find, put}
use abcd_yi.Db.{Db, ApprovalRequest, Payload, Json}

abbrev pub valid_action_types : List String
valid_action_types =
    "RFQ_SEND" ∷ "ORDER_CONFIRM" ∷ "EXPEDITE_NOTIFY" ∷ "SHIPMENT_APPROVE" ∷ "BUYER_SIGNOFF"
    ∷ "PARTICIPANT_REPLACE" ∷ "QC_ESCALATE" ∷ "QUOTE_APPROVE" ∷ []

-- `action_type in VALID_ACTION_TYPES`
unfoldable pub is_valid_action : String → Bool
is_valid_action a = contains valid_action_types a

-- What an approval is asked for, and what a guarded action presents.
pub record Purpose : Type 0 where
  pub tenant_id : ℕ
  pub action_type : String
  pub resource_type : String
  pub resource_id : ℕ

-- `evidence or {}` and `risk_flags or []` are the empty lists where the caller gives none.
unfoldable pub create_approval_request :
    ℕ → Purpose → Payload → Option ℕ → Payload → List String → Option ℕ → Exec Db ApprovalRequest
create_approval_request new_id p payload affected evidence risk_flags created_by = do
  require (is_valid_action p.action_type) assertion_error
  let req : ApprovalRequest = record {
    tenant_id = p.tenant_id;
    action_type = p.action_type;
    resource_type = p.resource_type;
    resource_id = p.resource_id;
    proposed_payload = payload;
    affected_participant_id = affected;
    evidence = evidence;
    risk_flags = risk_flags;
    status = "PENDING";
    reviewed_by = none;
    reviewed_at = none;
    review_notes = "";
    consumed_at = none;
    created_by = created_by;
  }
  modify (λ (db : Db). record db { approvals = put new_id req db.approvals })
  pure req

-- The two reviews differ in the status and in the name of the audited action.
review : String → String → ℕ → ℕ → ℕ → String → Exec Db ApprovalRequest
review status action now approval_id reviewed_by notes = do
  found ← gets (λ (db : Db). find approval_id db.approvals)
  req ← or_raise found (http 404)
  let req' = record req {
    status = status;
    reviewed_by = some reviewed_by;
    reviewed_at = some now;
    review_notes = notes;
  }
  modify (λ (db : Db). record db {
    approvals = put approval_id req' db.approvals;
    audit_logs =
        db.audit_logs
        ++ record {
          tenant_id = req.tenant_id;
          user_id = reviewed_by;
          action = action;
          resource_type = "approval_request";
          resource_id = approval_id;
          payload = ("review_notes", Json.text notes) ∷ [];
        }
          ∷ [];
  })
  pure req'

unfoldable pub approve_request : ℕ → ℕ → ℕ → String → Exec Db ApprovalRequest
unfolding review
approve_request = review "APPROVED" "APPROVAL_APPROVED"

unfoldable pub reject_request : ℕ → ℕ → ℕ → String → Exec Db ApprovalRequest
unfolding review
reject_request = review "REJECTED" "APPROVAL_REJECTED"

-- The tests in the source's order, each with the same 403; then the one-time consumption.
unfoldable pub require_approved : ℕ → ℕ → Purpose → Exec Db ApprovalRequest
require_approved now approval_id p = do
  found ← gets (λ (db : Db). find approval_id db.approvals)
  req ← or_raise found (http 403)
  require (str_eq req.status "APPROVED") (http 403)
  require (not (is_some req.consumed_at)) (http 403)
  require (req.tenant_id == p.tenant_id) (http 403)
  require (str_eq req.action_type p.action_type) (http 403)
  require (str_eq req.resource_type p.resource_type) (http 403)
  require (req.resource_id == p.resource_id) (http 403)
  let req' = record req { consumed_at = some now }
  modify (λ (db : Db). record db { approvals = put approval_id req' db.approvals })
  pure req'
