-- ===== src/Rfqs/Answered.antt =====
-- What the answers of the suppliers make of an RFQ that was sent.
use abcd_yi.Prelude.{
  ℕ, ◌+◌, ◌≡◌, ◌⊎◌, inl, inr, refl, arith, String, Bool, true, false, Option, none, some, [], ◌∷◌,
  str_eq, eq_iff, ◌==◌, leb, length, Bool-cases, Option-cases,
}
use abcd_yi.Prelude.Exec.{Error, Result, ok, err, http, Result-cases, ◌>>=◌}
use abcd_yi.Prelude.Table.{
  Table, find, put, select, matches, one_or_none, update, find-put_self, length-select-put_new,
}
use abcd_yi.Db.{Rfq, RfqRecipient}
use abcd_yi.Fsm.{allowed}
use abcd_yi.Orders.{rfq_transition, rfq_transitions}
use abcd_yi.Rfqs.Responses.{
  SupplierResponse, Normalized, SupplierResponsePacket, ResponseStore, status_from_responses,
  is_recipient, mark_responded, recipients_of, responses_of, record_supplier_response,
}

-- A loop that keeps what a query looks at keeps the number of the rows that it selects.
length-select-update :
    {R : Type 0} (p q : R → Bool) (f : R → R) (t : Table R)
    → ((r : R) → p (f r) ≡ p r)
    → length (select p (update q f t)) ≡ length (select p t)
unfolding select update
length-select-update p q f [] h = refl
length-select-update p q f ((k, r) ∷ t) h = elim (Bool-cases (q r)) [
  | inl e ↦ rw (e, h r) (ground (arith, length-select-update p q f t h))
  | inr e ↦ rw e (ground (arith, length-select-update p q f t h))
]

-- What the status of an RFQ becomes, and that the machine allows it.
abbrev Moves : String → ℕ → ℕ → Type 0
Moves status responded total =
    (t : String) × (status_from_responses status responded total ≡ ok t)
    × ((t ≡ status) ⊎ (allowed rfq_transitions status t ≡ true))

sent-Moves : (responded total : ℕ) → Moves "SENT" responded total
unfolding status_from_responses rfq_transition rfq_transitions allowed
sent-Moves responded total = elim (Bool-cases (leb total responded)) [
  | inl e ↦ ("RECEIVED", rw e refl, inr refl)
  | inr e ↦ ("PARTIAL_RESPONSE", rw e refl, inr refl)
]

received-Moves : (responded total : ℕ) → Moves "RECEIVED" responded total
unfolding status_from_responses rfq_transition rfq_transitions allowed
received-Moves responded total = elim (Bool-cases (leb total responded)) [
  | inl e ↦ ("COMPLETE_RESPONSE", rw e refl, inr refl)
  | inr e ↦ ("RECEIVED", rw e refl, inl refl)
]

partial-Moves : (responded total : ℕ) → Moves "PARTIAL_RESPONSE" responded total
unfolding status_from_responses rfq_transition rfq_transitions allowed
partial-Moves responded total = elim (Bool-cases (leb total responded)) [
  | inl e ↦ ("COMPLETE_RESPONSE", rw e refl, inr refl)
  | inr e ↦ ("PARTIAL_RESPONSE", rw e refl, inl refl)
]

status_from_responses-Moves : (status : String) (responded total : ℕ) → Moves status responded total
unfolding status_from_responses
status_from_responses-Moves status responded total = elim (Bool-cases (str_eq status "SENT")) [
  | inl e ↦
      let same : status ≡ "SENT" = (eq_iff status "SENT").0 e in
      rw same (sent-Moves responded total)
  | inr e ↦ elim (Bool-cases (str_eq status "RECEIVED")) [
    | inl k ↦
        let same : status ≡ "RECEIVED" = (eq_iff status "RECEIVED").0 k in
        rw same (received-Moves responded total)
    | inr k ↦ elim (Bool-cases (str_eq status "PARTIAL_RESPONSE")) [
      | inl j ↦
          let same : status ≡ "PARTIAL_RESPONSE" = (eq_iff status "PARTIAL_RESPONSE").0 j in
          rw same (partial-Moves responded total)
      | inr j ↦ (status, rw (e, k, j) refl, inl refl)
    ]
  ]
]

-- What an answer did to the RFQ that it is for: the status is the next one by the counts, there is
-- one response more, and the number of the recipients is the same.
pub record IsAnswered {N : Type 0} (rfq_id : ℕ) (s t : ResponseStore N) : Type 0 where
  pub rfq : Rfq
  pub found : find rfq_id s.db.rfqs ≡ some rfq
  pub status : String
  pub next :
      status_from_responses rfq.status (responses_of rfq_id s + 1) (recipients_of rfq_id s.db)
      ≡ ok status
  pub written : t.db.rfqs ≡ put rfq_id (record rfq { status = status }) s.db.rfqs
  pub saved : find rfq_id t.db.rfqs ≡ some (record rfq { status = status })
  pub counted : responses_of rfq_id t ≡ responses_of rfq_id s + 1
  pub recipients : recipients_of rfq_id t.db ≡ recipients_of rfq_id s.db

module _ {N : Type 0} (now rfq_id response_id packet_id participant_id : ℕ) (raw_text : String)
    (tenant_id user_id : ℕ) (s : ResponseStore N) where
  abbrev pub call :
      Result (Normalized N) → Result (SupplierResponse × SupplierResponsePacket N) × ResponseStore N
  call answer =
      record_supplier_response now rfq_id response_id packet_id participant_id raw_text answer
        tenant_id user_id s

  abbrev pub response : SupplierResponse
  response = record {
    rfq_id = rfq_id;
    participant_id = participant_id;
    raw_response_text = raw_text;
  }

  abbrev pub packet : Normalized N → SupplierResponsePacket N
  packet n = record {
    supplier_response_id = response_id;
    normalized = n;
    ai_generated = true;
    human_confirmed = false;
  }

  counted_response :
      find response_id s.responses ≡ none
      → length (
          select
            (λ (r : SupplierResponse). r.rfq_id == rfq_id)
            (put response_id response s.responses))
        ≡ responses_of rfq_id s + 1
  counted_response fresh = ground (
    arith,
    length-select-put_new (λ (r : SupplierResponse). r.rfq_id == rfq_id) response_id response
        s.responses fresh,
  )

  kept_recipients :
      length (
        select
          (λ (r : RfqRecipient). r.rfq_id == rfq_id)
          (update (is_recipient rfq_id participant_id) (mark_responded now) s.db.rfq_recipients))
      ≡ recipients_of rfq_id s.db
  kept_recipients =
      length-select-update (λ (r : RfqRecipient). r.rfq_id == rfq_id)
        (is_recipient rfq_id participant_id) (mark_responded now) s.db.rfq_recipients (λ r. refl)

  call_ok :
      (r : Rfq) (o : Option (ℕ × RfqRecipient)) (n : Normalized N)
      → find response_id s.responses ≡ none
      → find rfq_id s.db.rfqs ≡ some r
      → one_or_none (matches (is_recipient rfq_id participant_id) s.db.rfq_recipients) ≡ ok o
      → (IsAnswered rfq_id s (call (ok n)).1) × ((call (ok n)).0 ≡ ok (response, packet n))
  unfolding record_supplier_response ◌>>=◌
  call_ok r o n fresh f one =
      let (status, next, _) =
        status_from_responses-Moves r.status (responses_of rfq_id s + 1)
          (recipients_of rfq_id s.db) in
      rw (f, one, counted_response fresh, kept_recipients, next)
        (
          record {
            rfq = r;
            found = f;
            status = status;
            next = next;
            written = refl;
            saved = find-put_self rfq_id (record r { status = status }) s.db.rfqs;
            counted = counted_response fresh;
            recipients = kept_recipients;
          },
          refl,
        )

  -- What a call that raises leaves of the RFQ, and why it raised.
  abbrev pub Refused : Result (Normalized N) → Error → Type 0
  Refused answer e =
      ((call answer).0 ≡ err e)
      × ((call answer).1.db.rfqs ≡ s.db.rfqs)
      × (((find rfq_id s.db.rfqs ≡ none) × (e ≡ http 404))
          ⊎ (one_or_none (matches (is_recipient rfq_id participant_id) s.db.rfq_recipients) ≡ err e)
          ⊎ (answer ≡ err e))

  call_none :
      (answer : Result (Normalized N)) → find rfq_id s.db.rfqs ≡ none → Refused answer (http 404)
  unfolding record_supplier_response ◌>>=◌
  call_none answer f = rw f (refl, refl, inl (refl, refl))

  call_rows :
      (r : Rfq) (e : Error) (answer : Result (Normalized N))
      → find rfq_id s.db.rfqs ≡ some r
      → one_or_none (matches (is_recipient rfq_id participant_id) s.db.rfq_recipients) ≡ err e
      → Refused answer e
  unfolding record_supplier_response ◌>>=◌
  call_rows r e answer f one = rw (f, one) (refl, refl, inr (inl refl))

  call_answer :
      (r : Rfq) (o : Option (ℕ × RfqRecipient)) (e : Error)
      → find rfq_id s.db.rfqs ≡ some r
      → one_or_none (matches (is_recipient rfq_id participant_id) s.db.rfq_recipients) ≡ ok o
      → Refused (err e) e
  unfolding record_supplier_response ◌>>=◌
  call_answer r o e f one = rw (f, one) (refl, refl, inr (inr refl))

  -- The query of the participant's row among the recipients has one row at most.
  abbrev pub HasOneRow : Type 0
  HasOneRow =
      (o : Option (ℕ × RfqRecipient)) × (one_or_none
          (matches (is_recipient rfq_id participant_id) s.db.rfq_recipients)
        ≡ ok o)

  abbrev Outcome : Result (Normalized N) → Type 0
  Outcome answer =
      ((n : Normalized N) × (answer ≡ ok n)
        × (IsAnswered rfq_id s (call answer).1)
        × ((call answer).0 ≡ ok (response, packet n))
        × HasOneRow)
      ⊎ ((e : Error) × Refused answer e)

  call-Outcome :
      (r : Rfq) (o : Option (ℕ × RfqRecipient)) (answer : Result (Normalized N))
      → find response_id s.responses ≡ none
      → find rfq_id s.db.rfqs ≡ some r
      → one_or_none (matches (is_recipient rfq_id participant_id) s.db.rfq_recipients) ≡ ok o
      → Outcome answer
  call-Outcome r o (ok n) fresh f one =
      let (h, k) = call_ok r o n fresh f one in inl (n, refl, h, k, (o, one))
  call-Outcome r o (err e) fresh f one = inr (e, call_answer r o e f one)

  -- With a fresh id for its row, an answer is recorded exactly where the RFQ exists, the query of its
  -- recipient has one row at most and the normalisation returns. The RFQ then has one response more and
  -- the status that follows by the counts: no call is refused by the state machine. Where the call
  -- raises, the RFQ is as it was.
  pub record_supplier_response_cases :
      (answer : Result (Normalized N))
      → find response_id s.responses ≡ none
      → ((n : Normalized N) × (answer ≡ ok n)
          × (IsAnswered rfq_id s (call answer).1)
          × ((call answer).0 ≡ ok (response, packet n))
          × HasOneRow)
        ⊎ ((e : Error) × Refused answer e)
  record_supplier_response_cases answer fresh = elim (Option-cases (find rfq_id s.db.rfqs)) [
    | inl f ↦ inr (http 404, call_none answer f)
    | inr (r, f) ↦
        elim (Result-cases
          (one_or_none (matches (is_recipient rfq_id participant_id) s.db.rfq_recipients))) [
            | inl (o, one) ↦ call-Outcome r o answer fresh f one
            | inr (e, one) ↦ inr (e, call_rows r e answer f one)
          ]
  ]
