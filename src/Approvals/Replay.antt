-- ===== src/Approvals/Replay.antt =====
-- An approval authorises one action: over all later reviews and requests it stays consumed.
use abcd_yi.Prelude.{ℕ, String, Bool, true, false, Option, none, some, List, ◌≡◌, arith, is_some}
use abcd_yi.Prelude.Exec.{ok, err, http, ◌>>=◌}
use abcd_yi.Prelude.Table.{find, find-put, find-put_self}
use abcd_yi.Db.{Db, ApprovalRequest, Payload}
use abcd_yi.Approvals.Service.{
  Purpose, create_approval_request, approve_request, reject_request, require_approved,
}

-- One call of the service, whether it returns or raises. A new row gets a key that no row has.
pub data Step (db : Db) : Db → Type 0 where
  created :
      (new_id : ℕ) (p : Purpose) (payload : Payload) (affected : Option ℕ) (evidence : Payload)
      (flags : List String) (by : Option ℕ)
      → find new_id db.approvals ≡ none
      → Step db (create_approval_request new_id p payload affected evidence flags by db).1
  approved : (now id by : ℕ) (notes : String) → Step db (approve_request now id by notes db).1
  rejected : (now id by : ℕ) (notes : String) → Step db (reject_request now id by notes db).1
  guarded : (now id : ℕ) (p : Purpose) → Step db (require_approved now id p db).1

pub data Steps (db : Db) : Db → Type 0 where
  here : Steps db db
  next : {db' db'' : Db} → Steps db db' → Step db' db'' → Steps db db''

abbrev used : Option ApprovalRequest → Bool
used none = false
used (some req) = is_some req.consumed_at

abbrev pub IsUsed : ℕ → Db → Type 0
IsUsed id db = used (find id db.approvals) ≡ true

created-IsUsed :
    (k n : ℕ) (p : Purpose) (payload : Payload) (a : Option ℕ) (e : Payload) (fl : List String)
    (by : Option ℕ) (db : Db)
    → find n db.approvals ≡ none
    → IsUsed k db
    → IsUsed k (create_approval_request n p payload a e fl by db).1
unfolding create_approval_request ◌>>=◌
created-IsUsed k n p payload a e fl by db fresh u = grind (arith, find-put)

approved-IsUsed :
    (k now id by : ℕ) (notes : String) (db : Db)
    → IsUsed k db
    → IsUsed k (approve_request now id by notes db).1
unfolding approve_request ◌>>=◌
approved-IsUsed k now id by notes db u = grind (arith, find-put)

rejected-IsUsed :
    (k now id by : ℕ) (notes : String) (db : Db)
    → IsUsed k db
    → IsUsed k (reject_request now id by notes db).1
unfolding reject_request ◌>>=◌
rejected-IsUsed k now id by notes db u = grind (arith, find-put)

guarded-IsUsed :
    (k now id : ℕ) (p : Purpose) (db : Db) → IsUsed k db → IsUsed k (require_approved now id p db).1
unfolding require_approved ◌>>=◌
guarded-IsUsed k now id p db u = grind (arith, find-put)

Step-IsUsed : (k : ℕ) {db db' : Db} → Step db db' → IsUsed k db → IsUsed k db'
Step-IsUsed k {db} (created n p payload a e fl by fresh) u =
    created-IsUsed k n p payload a e fl by db fresh u
Step-IsUsed k {db} (approved now id by notes) u = approved-IsUsed k now id by notes db u
Step-IsUsed k {db} (rejected now id by notes) u = rejected-IsUsed k now id by notes db u
Step-IsUsed k {db} (guarded now id p) u = guarded-IsUsed k now id p db u

Steps-IsUsed : (k : ℕ) {db db' : Db} → IsUsed k db → Steps db db' → IsUsed k db'
Steps-IsUsed k u here = u
Steps-IsUsed k u (next r s) = Step-IsUsed k s (Steps-IsUsed k u r)

IsUsed-denied :
    (now id : ℕ) (p : Purpose) (db : Db)
    → IsUsed id db
    → require_approved now id p db ≡ (err (http 403), db)
unfolding require_approved ◌>>=◌
IsUsed-denied now id p db u = ground arith

IsUsed-require_approved :
    (now id : ℕ) (p : Purpose) (db : Db) (r : ApprovalRequest)
    → (require_approved now id p db).0 ≡ ok r
    → IsUsed id (require_approved now id p db).1
unfolding require_approved ◌>>=◌
IsUsed-require_approved now id p db r h = grind (arith, find-put_self)

-- Once an approval has authorised an action, every later attempt to use it is denied and changes
-- nothing, for any action, whatever requests, reviews and guarded calls come in between.
pub require_approved_once :
    (now later id : ℕ) (p q : Purpose) (db db' : Db) (r : ApprovalRequest)
    → (require_approved now id p db).0 ≡ ok r
    → Steps (require_approved now id p db).1 db'
    → require_approved later id q db' ≡ (err (http 403), db')
require_approved_once now later id p q db db' r h steps =
    IsUsed-denied later id q db' (Steps-IsUsed id (IsUsed-require_approved now id p db r h) steps)
