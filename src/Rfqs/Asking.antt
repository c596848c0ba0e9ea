-- ===== src/Rfqs/Asking.antt =====
-- A new RFQ waits for its approval.
use abcd_yi.Prelude.{ℕ, String, none, some, List, ◌≡◌, refl, true}
use abcd_yi.Prelude.Exec.{http, bind_err, ok, err, ◌>>=◌}
use abcd_yi.Prelude.Table.{find, find-put_self}
use abcd_yi.Fsm.{allowed}
use abcd_yi.Db.{Db, Rfq, emit_event}
use abcd_yi.Approvals.{
  IsPending, require_approved, review_decides, is_valid_action, create_approval_request,
}
use abcd_yi.Orders.{rfq_transitions, rfq_transition}
use abcd_yi.Rfqs.Service.{create_rfq, send_rfq, send_approved, sending_of, add_recipients}

pub asked_edge : allowed rfq_transitions "DRAFT" "PENDING_APPROVAL" ≡ true
unfolding allowed rfq_transitions
asked_edge = refl

pub known_action : is_valid_action "RFQ_SEND" ≡ true
unfolding is_valid_action
known_action = refl

-- An RFQ is created in PENDING_APPROVAL, not sent, with a pending approval for sending exactly it,
-- and with its recipients added as they were before.
pub create_rfq-IsPending :
    (now id approval project version : ℕ) (recipients : List (ℕ × ℕ)) (subject : String)
    (tenant user : ℕ) (db : Db)
    → let out = create_rfq now id approval project version recipients subject tenant user db in
      (r : Rfq) × (out.0 ≡ ok (r, approval))
      × (find id out.1.rfqs ≡ some r)
      × (r.status ≡ "PENDING_APPROVAL")
      × (r.sent_at ≡ none)
      × (out.1.rfq_recipients ≡ add_recipients id recipients db.rfq_recipients)
      × IsPending approval (sending_of tenant id) out.1
unfolding create_rfq create_approval_request rfq_transition ◌>>=◌ emit_event
create_rfq-IsPending now id approval project version recipients subject tenant user db =
    rw (known_action, asked_edge)
      (
        _,
        refl,
        find-put_self _ _ _,
        refl,
        refl,
        refl,
        record {
          row = _;
          found = find-put_self _ _ _;
          pending = refl;
          unconsumed = refl;
          tenant = refl;
          action = refl;
          type = refl;
          resource = refl;
        },
      )

-- An RFQ that was just created cannot be sent, by no user and at no time: the attempt answers 403
-- and changes nothing.
pub create_rfq-denied :
    (now id approval project version : ℕ) (recipients : List (ℕ × ℕ)) (subject : String)
    (tenant user : ℕ) (db : Db) (later sender : ℕ)
    → let db' = (create_rfq now id approval project version recipients subject tenant user db).1 in
      send_rfq later id approval tenant sender db' ≡ (err (http 403), db')
unfolding send_rfq
create_rfq-denied now id approval project version recipients subject tenant user db later sender =
    let db' = (create_rfq now id approval project version recipients subject tenant user db).1 in
    let (_, _, _, _, _, _, pending) =
      create_rfq-IsPending now id approval project version recipients subject tenant user db in
    bind_err (require_approved later approval (sending_of tenant id))
      (λ _. send_approved later id approval tenant sender) db' db' (http 403)
      (review_decides later later approval sender "" (sending_of tenant id) db' pending).0
