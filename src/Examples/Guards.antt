-- ===== src/Examples/Guards.antt =====
-- Approvals: one that is used, one that is asked for and reviewed.
use abcd_yi.Prelude.{some, [], ◌∷◌, ◌≡◌, refl, true}
use abcd_yi.Prelude.Exec.{ok, err, http, ◌>>=◌}
use abcd_yi.Prelude.Table.{find, put}
use abcd_yi.Db.{Db, ApprovalRequest}
use abcd_yi.Approvals.{
  Purpose, Grants, Step, Steps, IsPending, approve_request, reject_request, require_approved,
  is_valid_action, require_approved_once, require_approved_exact, review_decides,
}
use abcd_yi.Examples.Data.{sending, granted, session, user}

abbrev start : Db
start = session "CONFIRMED"

first_use :
    (require_approved 100 5 sending start).0 ≡ ok (record granted { consumed_at = some 100 })
unfolding require_approved ◌>>=◌ find put
first_use = refl

require_approved_once_example :
    let db' =
      (approve_request 102 5 user "again"
        (reject_request 101 5 user "" (require_approved 100 5 sending start).1).1).1 in
    require_approved 110 5 sending db' ≡ (err (http 403), db')
require_approved_once_example =
    require_approved_once 100 110 5 sending sending start _ _ first_use (
      Steps.next (Steps.next Steps.here (Step.rejected 101 5 user ""))
        (Step.approved 102 5 user "again"))

require_approved_exact_example :
    (req : ApprovalRequest) × (find 5 start.approvals ≡ some req)
    × Grants req sending
    × (require_approved 100 5 sending start ≡ (
      ok (record req { consumed_at = some 100 }),
      record start { approvals = put 5 (record req { consumed_at = some 100 }) start.approvals },
    ))
require_approved_exact_example =
    require_approved_exact 100 5 sending start (record granted { consumed_at = some 100 }) first_use

found : find 5 start.approvals ≡ some granted
unfolding find
found = refl

abbrev other : Purpose
other = record sending { resource_id = 21 }

other_denied : (require_approved 100 5 other start).0 ≡ err (http 403)
unfolding require_approved ◌>>=◌ find put
other_denied = refl

known : is_valid_action "RFQ_SEND" ≡ true
unfolding is_valid_action
known = refl

abbrev asked : Db
asked = record start { approvals = (5, record granted { status = "PENDING" }) ∷ [] }

asked-IsPending : IsPending 5 sending asked
unfolding find
asked-IsPending = record {
  row = record granted { status = "PENDING" };
  found = refl;
  pending = refl;
  unconsumed = refl;
  tenant = refl;
  action = refl;
  type = refl;
  resource = refl;
}

review_decides_example :
    (require_approved 110 5 sending asked ≡ (err (http 403), asked))
    × ((r : ApprovalRequest) × ((require_approved 110 5 sending
            (approve_request 100 5 user "" asked).1).0
          ≡ ok r))
    × ((require_approved 110 5 sending (reject_request 100 5 user "" asked).1).0 ≡ err (http 403))
review_decides_example = review_decides 100 110 5 user "" sending asked asked-IsPending
