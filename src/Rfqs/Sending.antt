-- ===== src/Rfqs/Sending.antt =====
-- An RFQ goes out only under an approval that was granted for it.
use abcd_yi.Prelude.{
  not, ◌||◌, ℕ, String, true, some, ◌≡◌, ◌⊎◌, inl, inr, refl, arith, str_eq, eq_iff, ◌==◌,
  if◌then◌else◌, Bool-cases,
}
use abcd_yi.Prelude.Exec.{not_returned, ok, ◌>>=◌}
use abcd_yi.Prelude.Table.{find, put, update, find-put_self, find-update}
use abcd_yi.Db.{Db, Rfq, RfqRecipient, ApprovalRequest}
use abcd_yi.Fsm.{allowed, every_edge, every_edge-allowed}
use abcd_yi.Approvals.{Grants, require_approved_cases, consume}
use abcd_yi.Orders.{rfq_transitions, rfq_transition}
use abcd_yi.Rfqs.Service.{send_rfq, send_approved, sending_of, mark_sent, move_to_sent}

-- SENT is entered from APPROVED_TO_SEND only.
sent_edge :
    (s : String) → allowed rfq_transitions s "SENT" ≡ true → str_eq s "APPROVED_TO_SEND" ≡ true
unfolding every_edge rfq_transitions
sent_edge s h = ground (
  arith,
  every_edge-allowed (λ a b. not (str_eq b "SENT") || str_eq a "APPROVED_TO_SEND") rfq_transitions s
      "SENT" refl h,
)

approved_edges :
    (allowed rfq_transitions "PENDING_APPROVAL" "APPROVED_TO_SEND" ≡ true)
    × (allowed rfq_transitions "APPROVED_TO_SEND" "SENT" ≡ true)
unfolding allowed rfq_transitions
approved_edges = (refl, refl)

-- The move ends in SENT, from the two states that allow it.
pub move_to_sent_lem :
    (s t : String)
    → move_to_sent s ≡ ok t
    → ((s ≡ "PENDING_APPROVAL") ⊎ (s ≡ "APPROVED_TO_SEND")) × (t ≡ "SENT")
unfolding move_to_sent rfq_transition
move_to_sent_lem s t h = elim (Bool-cases (str_eq s "PENDING_APPROVAL")) [
  | inl e ↦ (inl ((eq_iff s "PENDING_APPROVAL").0 e), ground arith)
  | inr e ↦ elim (Bool-cases (allowed rfq_transitions s "SENT")) [
    | inl k ↦ (inr ((eq_iff s "APPROVED_TO_SEND").0 (sent_edge s k)), ground arith)
    | inr k ↦ absurd (ground arith)
  ]
]

-- What `send_rfq` did when it returned: the RFQ was waiting and is SENT, by this user and at this
-- time, and every recipient of it is marked as sent to.
pub record IsSent (now id user : ℕ) (db db' : Db) : Type 0 where
  pub rfq : Rfq
  pub found : find id db.rfqs ≡ some rfq
  pub waiting : (rfq.status ≡ "PENDING_APPROVAL") ⊎ (rfq.status ≡ "APPROVED_TO_SEND")
  pub sent :
      find id db'.rfqs
      ≡ some (record rfq { status = "SENT"; sent_at = some now; human_approved_by = some user })
  pub recipients :
      (k : ℕ) (r : RfqRecipient)
      → find k db.rfq_recipients ≡ some r
      → find k db'.rfq_recipients ≡ some (if r.rfq_id == id then mark_sent now r else r)

module _ (now id approval tenant user : ℕ) (db : Db) where
  send_approved_ok :
      (r : Rfq)
      → (send_approved now id approval tenant user db).0 ≡ ok r
      → (q : Rfq) × (t : String) × (find id db.rfqs ≡ some q) × (move_to_sent q.status ≡ ok t)
  unfolding send_approved ◌>>=◌
  send_approved_ok r h = ground arith

  find-send_approved :
      (q : Rfq) (t : String)
      → find id db.rfqs ≡ some q
      → move_to_sent q.status ≡ ok t
      → find id (send_approved now id approval tenant user db).1.rfqs
        ≡ some (record q { status = t; sent_at = some now; human_approved_by = some user })
  unfolding send_approved ◌>>=◌
  find-send_approved q t f m = ground (
    arith,
    find-put_self id (record q { status = t; sent_at = some now; human_approved_by = some user })
        db.rfqs,
  )

  recipients-send_approved :
      (q : Rfq) (t : String)
      → find id db.rfqs ≡ some q
      → move_to_sent q.status ≡ ok t
      → (send_approved now id approval tenant user db).1.rfq_recipients
        ≡ update (λ (y : RfqRecipient). y.rfq_id == id) (mark_sent now) db.rfq_recipients
  unfolding send_approved ◌>>=◌
  recipients-send_approved q t f m = ground arith

  send_approved-IsSent :
      (r : Rfq)
      → (send_approved now id approval tenant user db).0 ≡ ok r
      → IsSent now id user db (send_approved now id approval tenant user db).1
  send_approved-IsSent r h =
      let (q, t, f, m) = send_approved_ok r h in
      let (w, e) = move_to_sent_lem q.status t m in
      record {
        rfq = q;
        found = f;
        waiting = w;
        sent = rw (find-send_approved q t f m, e) refl;
        recipients = λ k x g. rw (recipients-send_approved q t f m) (
            find-update (λ (y : RfqRecipient). y.rfq_id == id) (mark_sent now) k db.rfq_recipients x
              g);
      }

-- An RFQ that was sent had a granted approval for sending exactly this RFQ of this tenant; the RFQ
-- was waiting to be sent, and now it and all its recipients, and no others, are marked as sent.
pub send_rfq-IsSent :
    (now id approval tenant user : ℕ) (db : Db) (r : Rfq)
    → (send_rfq now id approval tenant user db).0 ≡ ok r
    → (req : ApprovalRequest) × (find approval db.approvals ≡ some req)
      × Grants req (sending_of tenant id)
      × IsSent now id user db (send_rfq now id approval tenant user db).1
unfolding send_rfq
send_rfq-IsSent now id approval tenant user db r h =
    elim (require_approved_cases now approval (sending_of tenant id)
      (λ _. send_approved now id approval tenant user) db) [
        | inl (req, f, g, e) ↦
            let mid : Db = record db { approvals = put approval (consume now req) db.approvals } in
            let s = send_approved-IsSent now id approval tenant user mid r (rw⁻¹ e h) in
            (
              req,
              f,
              g,
              rw e (record {
                rfq = s.rfq;
                found = s.found;
                waiting = s.waiting;
                sent = s.sent;
                recipients = s.recipients;
              }),
            )
        | inr e ↦ absurd (not_returned e h)
      ]
