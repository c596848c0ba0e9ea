-- ===== src/Approvals/Lifecycle.antt =====
-- From the request of an approval to its use.
use abcd_yi.Prelude.{ℕ, String, true, false, Option, none, some, List, ◌≡◌, refl, ap, arith, str_eq}
use abcd_yi.Prelude.Exec.{Result, ok, err, http, ◌>>=◌}
use abcd_yi.Prelude.Table.{find, find-put_self}
use abcd_yi.Db.{Db, ApprovalRequest, Payload}
use abcd_yi.Approvals.Service.{
  Purpose, is_valid_action, create_approval_request, approve_request, reject_request,
  require_approved,
}
use abcd_yi.Approvals.Guard.{require_approved_accepts}

abbrev reviewed : String → ℕ → ℕ → String → ApprovalRequest → ApprovalRequest
reviewed status now by notes req = record req {
  status = status;
  reviewed_by = some by;
  reviewed_at = some now;
  review_notes = notes;
}

module _ (now id by : ℕ) (notes : String) (db : Db) {req : ApprovalRequest}
    (f : find id db.approvals ≡ some req) where
  find-approve_request :
      find id (approve_request now id by notes db).1.approvals
      ≡ some (reviewed "APPROVED" now by notes req)
  unfolding approve_request ◌>>=◌
  find-approve_request = rw (f, find-put_self)

  find-reject_request :
      find id (reject_request now id by notes db).1.approvals
      ≡ some (reviewed "REJECTED" now by notes req)
  unfolding reject_request ◌>>=◌
  find-reject_request = rw (f, find-put_self)

unapproved_denied :
    (now id : ℕ) (p : Purpose) (db : Db) {req : ApprovalRequest}
    → find id db.approvals ≡ some req
    → str_eq req.status "APPROVED" ≡ false
    → require_approved now id p db ≡ (err (http 403), db)
unfolding require_approved ◌>>=◌
unapproved_denied now id p db f h = ground arith

-- The row that a request for an approval leaves: pending, unused and bound to its purpose.
pub record IsPending (id : ℕ) (p : Purpose) (db : Db) : Type 0 where
  pub row : ApprovalRequest
  pub found : find id db.approvals ≡ some row
  pub pending : row.status ≡ "PENDING"
  pub unconsumed : row.consumed_at ≡ none
  pub tenant : row.tenant_id ≡ p.tenant_id
  pub action : row.action_type ≡ p.action_type
  pub type : row.resource_type ≡ p.resource_type
  pub resource : row.resource_id ≡ p.resource_id

-- A request for a known action leaves a pending row, from any session.
pub create_approval_request-IsPending :
    (new_id : ℕ) (p : Purpose) (payload : Payload) (affected : Option ℕ) (evidence : Payload)
    (flags : List String) (by : Option ℕ) (db : Db)
    → is_valid_action p.action_type ≡ true
    → IsPending new_id p (create_approval_request new_id p payload affected evidence flags by db).1
unfolding create_approval_request ◌>>=◌
create_approval_request-IsPending n p payload a e fl by db known = rw known (record {
  row = _;
  found = find-put_self _ _ _;
  pending = refl;
  unconsumed = refl;
  tenant = refl;
  action = refl;
  type = refl;
  resource = refl;
})

-- A pending approval denies its action; after an approval it is accepted, after a rejection denied.
pub review_decides :
    (now later id by : ℕ) (notes : String) (p : Purpose) (db : Db)
    → IsPending id p db
    → (require_approved later id p db ≡ (err (http 403), db))
      × ((r : ApprovalRequest) × ((require_approved later id p
              (approve_request now id by notes db).1).0
            ≡ ok r))
      × ((require_approved later id p (reject_request now id by notes db).1).0 ≡ err (http 403))
review_decides now later id by notes p db w =
    let req = w.row in
    (
      unapproved_denied later id p db w.found (rw w.pending),
      (
        _,
        ap (λ (t : Result ApprovalRequest × Db). t.0)
            (require_approved_accepts later id p _ _
              (find-approve_request now id by notes db w.found)
              (record {
                approved = refl;
                unconsumed = w.unconsumed;
                same_tenant = w.tenant;
                same_action = w.action;
                same_type = w.type;
                same_resource = w.resource;
              })),
      ),
      ap (λ (t : Result ApprovalRequest × Db). t.0)
          (unapproved_denied later id p _ (find-reject_request now id by notes db w.found) refl),
    )
