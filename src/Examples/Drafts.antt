-- ===== src/Examples/Drafts.antt =====
-- A draft to a customer that failed once, and the retry that sends it.
use abcd_yi.Prelude.{String, true, false, none, some, [], ◌∷◌, ◌≡◌, arith, ◌⊎◌, refl}
use abcd_yi.Prelude.Exec.{ok, ◌>>=◌}
use abcd_yi.Prelude.Table.{Table, find, put}
use abcd_yi.Drafts.{
  Texts, Draft, Response, ApprovalResult, delivered, refused, unreachable, transport_error,
  approve_and_send, send_draft, settle, reject, validate_draft_send_policy, mark_sent,
  mark_approved_pending_send, status_of, IsSettled, put-IsSettled, approve_and_send-IsSettled,
  put-IsSettled, approve_and_send_settles,
}

abbrev texts : Texts
texts = record { strip_lower = λ (s : String). s; dashes = λ (s : String). s }

abbrev draft : Draft
draft = record {
  project_id = 1;
  conversation_id = "c1";
  channel = "email";
  target_peer_id = "buyer@example.com";
  target_role = "customer";
  message_text = "your quote";
  message_type = "text";
  attachments = [];
  status = "send_failed";
  created_by_agent = "buyer_option_agent";
  draft_type = "customer_quote_email";
  approved_by = "";
  failures = transport_error ∷ [];
  approved_at = none;
  sent_at = none;
}

abbrev drafts : Table Draft
drafts = (3, draft) ∷ []

abbrev client : Draft → Response
client d = delivered "m1"

drafts-IsSettled : IsSettled drafts
unfolding find put
drafts-IsSettled =
    put-IsSettled 3 draft [] (λ k d h f. let e : none ≡ some d = f in ground arith) refl

here : find 3 drafts ≡ some draft
unfolding find
here = refl

passes : validate_draft_send_policy texts draft ≡ true
unfolding validate_draft_send_policy
passes = refl

abbrev result : ApprovalResult
result = record { status = "sent"; sent = true; message_id = "m1" }

retried : (approve_and_send texts client 100 3 "amy" drafts).0 ≡ ok result
unfolding approve_and_send send_draft settle mark_sent mark_approved_pending_send
    validate_draft_send_policy find put ◌>>=◌
retried = refl

approve_and_send-IsSettled_example :
    IsSettled (approve_and_send texts client 100 3 "amy" drafts).1 × IsSettled (reject 3 drafts).1
approve_and_send-IsSettled_example =
    approve_and_send-IsSettled texts client 100 3 "amy" drafts drafts-IsSettled

approve_and_send_settles_example :
    (d : Draft) × (find 3 drafts ≡ some d)
    × ((d.status ≡ "pending_approval") ⊎ (d.status ≡ "send_failed"))
    × (status_of (find 3 (approve_and_send texts client 100 3 "amy" drafts).1) ≡ some result.status)
    × (((result.sent ≡ true)
          × (result.status ≡ "sent")
          × (validate_draft_send_policy texts d ≡ true)
          × (client d ≡ delivered "m1"))
        ⊎ ((result.sent ≡ false)
            × (result.status ≡ "send_failed")
            × ((validate_draft_send_policy texts d ≡ false)
                ⊎ (client d ≡ refused)
                ⊎ (client d ≡ unreachable))))
approve_and_send_settles_example =
    approve_and_send_settles texts client 100 3 "amy" drafts result retried
