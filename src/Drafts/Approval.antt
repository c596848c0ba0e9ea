-- ===== src/Drafts/Approval.antt =====
-- The approval and the rejection of a draft by an operator: _do_approve_draft and _do_reject_draft of
-- src/aivan/api/main.py, the approval of src/aivan/db/repositories/draft_repo.py and
-- src/aivan/openclaw/outbound_approval.py. An exception of the sending leaves the session as it was at
-- that point, beside the error.
use abcd_yi.Prelude.{
  ℕ, String, Bool, false, ◌&&◌, none, some, [], ◌∷◌, contains, str_eq, if◌then◌else◌,
}
use abcd_yi.Prelude.Exec.{
  Exec, Result, http, pure, gets, lift, or_raise, modify, require, ◌>>=◌, ◌>>◌,
}
use abcd_yi.Prelude.Table.{Table, find}
use abcd_yi.Drafts.Repository.{Draft, change_draft, mark_sent, rejected_draft}
use abcd_yi.Drafts.Sending.{Texts, validate_draft_send_policy}

-- The services that send a message, with the success that they answer; either may raise. With
-- `is_real_test_email_mode`, emails go through `send_real_test_email`.
pub record Outbound : Type 0 where
  pub is_real_test_email_mode : Bool
  pub send_real_test_email : Draft → Result Bool
  pub send_message : Draft → Result Bool

abbrev pub granted_draft : ℕ → String → Draft → Draft
granted_draft now by d =
    if str_eq d.status "pending_approval"
    then record d { status = "approved"; approved_by = by; approved_at = some now }
    else d

unfoldable pub approve : ℕ → ℕ → String → Table Draft → Table Draft
approve now id by t = change_draft id (granted_draft now by) t

abbrev pub answer_to : Texts → Outbound → Draft → Result Bool
answer_to texts service d =
    if contains ("email" ∷ "smtp" ∷ []) (texts.strip_lower d.channel)
      && service.is_real_test_email_mode
    then service.send_real_test_email d
    else service.send_message d

abbrev pub mark_delivered : ℕ → ℕ → Bool → Exec (Table Draft) Bool
mark_delivered now id success = do
  (if success then modify (mark_sent now id) else pure tt)
  pure success

abbrev pub send_found : Texts → Outbound → ℕ → ℕ → Draft → Exec (Table Draft) Bool
send_found texts service now id d =
    if str_eq d.status "approved" && validate_draft_send_policy texts d
    then (do success ← lift (answer_to texts service d); mark_delivered now id success)
    else pure false

-- The success of the response; without an approved draft there is none.
unfoldable pub send_if_approved : Texts → Outbound → ℕ → ℕ → Exec (Table Draft) Bool
send_if_approved texts service now id = do
  found ← gets (λ (t : Table Draft). find id t)
  elim found [ none ↦ pure false | some d ↦ send_found texts service now id d ]

-- Whether the draft was sent.
unfoldable pub do_approve_draft : Texts → Outbound → ℕ → ℕ → String → Exec (Table Draft) Bool
do_approve_draft texts service now id approved_by = do
  found ← gets (λ (t : Table Draft). find id t)
  draft ← or_raise found (http 404)
  require (str_eq draft.status "pending_approval") (http 409)
  modify (approve now id approved_by)
  send_if_approved texts service now id

unfoldable pub do_reject_draft : ℕ → Exec (Table Draft) (Unit {0})
do_reject_draft id = do
  found ← gets (λ (t : Table Draft). find id t)
  draft ← or_raise found (http 404)
  require (str_eq draft.status "pending_approval") (http 409)
  modify (change_draft id rejected_draft)
