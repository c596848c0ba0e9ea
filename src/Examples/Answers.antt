-- ===== src/Examples/Answers.antt =====
-- Two suppliers are asked, and one of them answers twice.
use abcd_yi.Prelude.{ℕ, ◌≡◌, ◌⊎◌, String, true, false, none, some, List, [], ◌∷◌, refl}
use abcd_yi.Prelude.Exec.{Error, Result, ok, ◌>>=◌}
use abcd_yi.Prelude.Table.{find, put, select, matches, one_or_none, update}
use abcd_yi.Fsm.{allowed}
use abcd_yi.Db.{Rfq, RfqRecipient, empty}
use abcd_yi.Orders.{rfq_transitions, rfq_transition}
use abcd_yi.Rfqs.{
  SupplierResponse, Normalized, SupplierResponsePacket, ResponseStore, recipients_of, responses_of,
  status_from_responses, record_supplier_response, IsAnswered, HasOneRow, Refused, response, packet,
  record_supplier_response_cases, Answers, nobody, answered, status_after, Answers-status,
}

abbrev asked : ℕ → RfqRecipient
asked participant = record {
  rfq_id = 1;
  participant_id = participant;
  sent_at = some 50;
  responded_at = none;
  status = "SENT";
}

abbrev sent_rfq : Rfq
sent_rfq = record {
  project_id = 7;
  form_version_id = 2;
  status = "SENT";
  rfq_subject = "600 shirts";
  ai_generated = true;
  human_approved_by = some 4;
  sent_at = some 50;
}

abbrev before : ResponseStore (List ℕ)
before = record {
  db = record empty {
    rfqs = (1, sent_rfq) ∷ [];
    rfq_recipients = (11, asked 21) ∷ (12, asked 22) ∷ [];
  };
  responses = [];
  packets = [];
}

abbrev read : Result (Normalized (List ℕ))
read = ok (record { missing_fields = "moq" ∷ []; risk_flags = []; columns = 12 ∷ [] })

abbrev first : Result (SupplierResponse × SupplierResponsePacket (List ℕ)) × ResponseStore (List ℕ)
first = record_supplier_response 60 1 31 41 21 "12 USD" read 3 4 before

abbrev again : Result (SupplierResponse × SupplierResponsePacket (List ℕ)) × ResponseStore (List ℕ)
again = record_supplier_response 70 1 32 42 21 "12 USD, 30 days" read 3 4 first.1

abbrev answer_of : ℕ → String → SupplierResponse × SupplierResponsePacket (List ℕ)
answer_of response_id raw_text = (
  record { rfq_id = 1; participant_id = 21; raw_response_text = raw_text },
  record {
    supplier_response_id = response_id;
    normalized = record { missing_fields = "moq" ∷ []; risk_flags = []; columns = 12 ∷ [] };
    ai_generated = true;
    human_confirmed = false;
  },
)

first_returns : first.0 ≡ ok (answer_of 31 "12 USD")
unfolding record_supplier_response status_from_responses rfq_transition rfq_transitions allowed find
    put select matches one_or_none update ◌>>=◌
first_returns = refl

again_returns : again.0 ≡ ok (answer_of 32 "12 USD, 30 days")
unfolding record_supplier_response status_from_responses rfq_transition rfq_transitions allowed find
    put select matches one_or_none update ◌>>=◌
again_returns = refl

fresh_first : find 31 before.responses ≡ none
unfolding find
fresh_first = refl

fresh_again : find 32 first.1.responses ≡ none
unfolding record_supplier_response status_from_responses rfq_transition rfq_transitions allowed find
    put select matches one_or_none update ◌>>=◌
fresh_again = refl

two-Answers : Answers 1 before 2 again.1
two-Answers =
    answered 70 32 42 21 "12 USD, 30 days" read 3 4 (answer_of 32 "12 USD, 30 days")
      (answered 60 31 41 21 "12 USD" read 3 4 (answer_of 31 "12 USD") nobody fresh_first
        first_returns)
      fresh_again again_returns

before_rfq : find 1 before.db.rfqs ≡ some sent_rfq
unfolding find
before_rfq = refl

no_response : responses_of 1 before ≡ 0
unfolding select
no_response = refl

two_recipients : recipients_of 1 before.db ≡ 2
unfolding select
two_recipients = refl

Answers-status_example :
    (q : Rfq) × (find 1 again.1.db.rfqs ≡ some q)
    × (q.status ≡ status_after (recipients_of 1 before.db) 2)
    × (responses_of 1 again.1 ≡ 2)
Answers-status_example = Answers-status sent_rfq two-Answers before_rfq refl no_response

record_supplier_response_cases_example :
    ((n : Normalized (List ℕ)) × (read ≡ ok n)
      × (IsAnswered 1 before first.1)
      × (first.0
          ≡ ok (
            response 60 1 31 41 21 "12 USD" 3 4 before,
            packet 60 1 31 41 21 "12 USD" 3 4 before n,
          ))
      × HasOneRow 60 1 31 41 21 "12 USD" 3 4 before)
    ⊎ ((e : Error) × Refused 60 1 31 41 21 "12 USD" 3 4 before read e)
record_supplier_response_cases_example =
    record_supplier_response_cases 60 1 31 41 21 "12 USD" 3 4 before read fresh_first
