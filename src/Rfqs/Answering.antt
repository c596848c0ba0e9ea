-- ===== src/Rfqs/Answering.antt =====
-- How the status of an RFQ follows from the number of the answers.
use abcd_yi.Prelude.{
  ℕ, zero, suc, ◌+◌, ◌≡◌, inl, inr, refl, sym, ap, ◌∙◌, arith, String, true, false, none, some, leb,
  if◌then◌else◌, Bool-cases,
}
use abcd_yi.Prelude.Exec.{ok_inj, Result, ok}
use abcd_yi.Prelude.Table.{find}
use abcd_yi.Db.{Rfq}
use abcd_yi.Fsm.{allowed}
use abcd_yi.Orders.{rfq_transition, rfq_transitions}
use abcd_yi.Rfqs.Responses.{
  SupplierResponse, Normalized, SupplierResponsePacket, ResponseStore, status_from_responses,
  recipients_of, responses_of, record_supplier_response,
}
use abcd_yi.Rfqs.Answered.{IsAnswered, record_supplier_response_cases}

-- The status of an RFQ with so many recipients after so many answers.
abbrev pub status_after : ℕ → ℕ → String
status_after total zero = "SENT"
status_after total (suc zero) = if leb total 1 then "RECEIVED" else "PARTIAL_RESPONSE"
status_after total (suc (suc n)) =
    if leb total (suc (suc n)) then "COMPLETE_RESPONSE" else "PARTIAL_RESPONSE"

-- Calls that returned, each with a fresh id for its row.
pub data Answers {N : Type 0} (rfq_id : ℕ) (s : ResponseStore N)
    : ℕ → ResponseStore N → Type 0 where
  nobody : Answers rfq_id s 0 s
  answered :
      {n : ℕ} {t : ResponseStore N} (now response_id packet_id participant_id : ℕ)
      (raw_text : String) (answer : Result (Normalized N)) (tenant_id user_id : ℕ)
      (a : SupplierResponse × SupplierResponsePacket N)
      → Answers rfq_id s n t
      → find response_id t.responses ≡ none
      → (record_supplier_response now rfq_id response_id packet_id participant_id raw_text answer
          tenant_id user_id t).0
        ≡ ok a
      → Answers rfq_id s
          (suc n)
          (record_supplier_response now rfq_id response_id packet_id participant_id raw_text answer
            tenant_id user_id t).1

status_after-next :
    (total n : ℕ)
    → status_from_responses (status_after total n) (suc n) total ≡ ok (status_after total (suc n))
unfolding status_from_responses rfq_transition rfq_transitions allowed
status_after-next total zero = elim (Bool-cases (leb total 1)) [
  | inl e ↦ rw e refl
  | inr e ↦ rw e refl
]
status_after-next total (suc zero) = elim (Bool-cases (leb total 2)) [
  | inl e ↦ elim (Bool-cases (leb total 1)) [ inl k ↦ rw (e, k) refl | inr k ↦ rw (e, k) refl ]
  | inr e ↦ let k : leb total 1 ≡ false = ground arith in rw (e, k) refl
]
status_after-next total (suc (suc n)) = elim (Bool-cases (leb total (suc (suc n)))) [
  | inl e ↦ let k : leb total (suc (suc (suc n))) ≡ true = ground arith in rw (e, k) refl
  | inr e ↦ elim (Bool-cases (leb total (suc (suc (suc n))))) [
    | inl k ↦ rw (e, k) refl
    | inr k ↦ rw (e, k) refl
  ]
]

-- What is known after so many answers.
record IsAfter {N : Type 0} (rfq_id total n : ℕ) (t : ResponseStore N) : Type 0 where
  rfq : Rfq
  found : find rfq_id t.db.rfqs ≡ some rfq
  status : rfq.status ≡ status_after total n
  responses : responses_of rfq_id t ≡ n
  recipients : recipients_of rfq_id t.db ≡ total

some_inj : {A : Type 0} {a b : A} → some a ≡ some b → a ≡ b
some_inj h = grind arith

-- The next status, where the counts are known.
next_status :
    (status t : String) (responded seen total n : ℕ)
    → status_from_responses status (responded + 1) seen ≡ ok t
    → seen ≡ total
    → status ≡ status_after total n
    → responded ≡ n
    → t ≡ status_after total (suc n)
next_status status t responded seen total n h g e k =
    let count : responded + 1 ≡ suc n = omega arith in
    let same = ap (λ c. status_from_responses status c seen) count in
    let all_seen = ap (λ c. status_from_responses status (suc n) c) g in
    let place = ap (λ c. status_from_responses c (suc n) total) e in
    ok_inj (sym h ∙ same ∙ all_seen ∙ place ∙ status_after-next total n)

answered-IsAfter :
    {N : Type 0} {rfq_id total n : ℕ} {s t : ResponseStore N}
    → IsAnswered rfq_id s t
    → IsAfter rfq_id total n s
    → IsAfter rfq_id total (suc n) t
answered-IsAfter {rfq_id = rfq_id} {total = total} {n = n} {s = s} a b =
    let same : a.rfq ≡ b.rfq = some_inj (sym a.found ∙ b.found) in
    record {
      rfq = record a.rfq { status = a.status };
      found = a.saved;
      status =
          next_status a.rfq.status a.status (responses_of rfq_id s) (recipients_of rfq_id s.db)
            total n a.next b.recipients (ap (λ (r : Rfq). r.status) same ∙ b.status) b.responses;
      responses = omega (arith, a.counted, b.responses);
      recipients = a.recipients ∙ b.recipients;
    }

Answers-IsAfter :
    {N : Type 0} {rfq_id : ℕ} {s : ResponseStore N} (total : ℕ) {n : ℕ} {t : ResponseStore N}
    → Answers rfq_id s n t
    → IsAfter rfq_id total 0 s
    → IsAfter rfq_id total n t
Answers-IsAfter total nobody b = b
Answers-IsAfter {rfq_id = rfq_id} total
      (answered {t = t} now response_id packet_id participant_id raw_text answer tenant_id user_id a
        rest fresh h)
      b =
    elim (record_supplier_response_cases now rfq_id response_id packet_id participant_id raw_text
      tenant_id user_id t answer fresh) [
        | inl (n, _, k, _, _) ↦ answered-IsAfter k (Answers-IsAfter total rest b)
        | inr (e, (k, _, _)) ↦ absurd (ground (arith, sym h ∙ k))
      ]

-- An RFQ that is SENT and has no response: after any number of recorded answers its status is the one
-- that this number and the number of its recipients give, whoever answered: after the first answer
-- RECEIVED where it has one recipient at most and PARTIAL_RESPONSE otherwise, after more answers
-- COMPLETE_RESPONSE where they are at least as many as the recipients and PARTIAL_RESPONSE otherwise.
pub Answers-status :
    {N : Type 0} {rfq_id n : ℕ} {s t : ResponseStore N} (r : Rfq)
    → Answers rfq_id s n t
    → find rfq_id s.db.rfqs ≡ some r
    → r.status ≡ "SENT"
    → responses_of rfq_id s ≡ 0
    → (q : Rfq) × (find rfq_id t.db.rfqs ≡ some q)
      × (q.status ≡ status_after (recipients_of rfq_id s.db) n)
      × (responses_of rfq_id t ≡ n)
Answers-status {rfq_id = rfq_id} {s = s} r steps f sent none_yet =
    let after =
      Answers-IsAfter (recipients_of rfq_id s.db) steps
        (record { rfq = r; found = f; status = sent; responses = none_yet; recipients = refl }) in
    (after.rfq, after.found, after.status, after.responses)
