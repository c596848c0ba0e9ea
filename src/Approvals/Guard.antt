-- ===== src/Approvals/Guard.antt =====
-- What the guard of an external action lets through, and what it leaves behind.
use abcd_yi.Prelude.{◌⊎◌, inl, inr, ℕ, none, some, ◌≡◌, arith, eq_iff}
use abcd_yi.Prelude.Exec.{Exec, bind_ok, bind_err, Result-cases, Error, ok, err, http, ◌>>=◌}
use abcd_yi.Prelude.Table.{find, put}
use abcd_yi.Db.{Db, ApprovalRequest}
use abcd_yi.Approvals.Service.{Purpose, require_approved}

-- The approval authorises exactly this action, and has not been used.
pub record Grants (req : ApprovalRequest) (p : Purpose) : Type 0 where
  pub approved : req.status ≡ "APPROVED"
  pub unconsumed : req.consumed_at ≡ none
  pub same_tenant : req.tenant_id ≡ p.tenant_id
  pub same_action : req.action_type ≡ p.action_type
  pub same_type : req.resource_type ≡ p.resource_type
  pub same_resource : req.resource_id ≡ p.resource_id

abbrev pub consume : ℕ → ApprovalRequest → ApprovalRequest
consume now req = record req { consumed_at = some now }

module _ (now id : ℕ) (p : Purpose) (db : Db) where
  -- An accepted call found a row that grants the action.
  pub require_approved-Grants :
      (req : ApprovalRequest)
      → find id db.approvals ≡ some req
      → (r : ApprovalRequest) → (require_approved now id p db).0 ≡ ok r
      → Grants req p
  unfolding require_approved ◌>>=◌
  require_approved-Grants req f r h = ground (
    arith,
    eq_iff req.status "APPROVED",
    eq_iff req.action_type p.action_type,
    eq_iff req.resource_type p.resource_type,
  )

  pub require_approved_found :
      (r : ApprovalRequest)
      → (require_approved now id p db).0 ≡ ok r
      → (req : ApprovalRequest) × (find id db.approvals ≡ some req)
  unfolding require_approved ◌>>=◌
  require_approved_found r h = ground arith

  -- An approval that grants the action is accepted, and only its consumption is written.
  pub require_approved_accepts :
      (req : ApprovalRequest)
      → find id db.approvals ≡ some req
      → Grants req p
      → require_approved now id p db
        ≡ (ok (consume now req), record db { approvals = put id (consume now req) db.approvals })
  unfolding require_approved ◌>>=◌
  require_approved_accepts req f g = ground (
    arith,
    eq_iff req.status "APPROVED",
    eq_iff req.action_type p.action_type,
    eq_iff req.resource_type p.resource_type,
  )

  -- A call that is not accepted answers 403, whatever failed, and leaves the session as it was.
  pub require_approved_denies :
      (e : Error)
      → (require_approved now id p db).0 ≡ err e
      → require_approved now id p db ≡ (err (http 403), db)
  unfolding require_approved ◌>>=◌
  require_approved_denies e h = ground arith

  -- A guarded action that is let through presented a row that grants exactly this action and was not
  -- used before; the row is now consumed and nothing else in the session has changed.
  pub require_approved_exact :
      (r : ApprovalRequest)
      → (require_approved now id p db).0 ≡ ok r
      → (req : ApprovalRequest) × (find id db.approvals ≡ some req)
        × Grants req p
        × (require_approved now id p db ≡ (
          ok (consume now req),
          record db { approvals = put id (consume now req) db.approvals },
        ))
  require_approved_exact r h =
      let (req, f) = require_approved_found r h in
      let g = require_approved-Grants req f r h in (req, f, g, require_approved_accepts req f g)

-- An action behind the guard: it runs with the session in which its approval is consumed, or the
-- call answers 403 and leaves the session as it was.
pub require_approved_cases :
    {B : Type 0} (now id : ℕ) (p : Purpose) (act : ApprovalRequest → Exec Db B) (db : Db)
    → ((req : ApprovalRequest) × (find id db.approvals ≡ some req)
        × Grants req p
        × ((require_approved now id p >>= act) db
            ≡ act
                (consume now req)
                (record db { approvals = put id (consume now req) db.approvals })))
      ⊎ ((require_approved now id p >>= act) db ≡ (err (http 403), db))
require_approved_cases now id p act db = elim (Result-cases (require_approved now id p db).0) [
  | inl (r, h) ↦
      let (req, f, g, e) = require_approved_exact now id p db r h in
      inl (req, f, g, bind_ok (require_approved now id p) act db _ (consume now req) e)
  | inr (x, h) ↦ inr (
      bind_err (require_approved now id p) act db db (http 403)
        (require_approved_denies now id p db x h))
]
