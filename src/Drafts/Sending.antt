-- ===== src/Drafts/Sending.antt =====
-- approve_and_send and reject of src/aivan/execution/approval_state.py, and the policy of
-- src/aivan/execution/channel_policy.py.
use abcd_yi.Prelude.{
  ℕ, String, Bool, true, false, not, ◌||◌, [], ◌∷◌, contains, str_eq, if◌then◌else◌,
}
use abcd_yi.Prelude.Exec.{
  Exec, draft_state_error, pure, gets, or_raise, modify, require, ◌>>=◌, ◌>>◌,
}
use abcd_yi.Prelude.Table.{Table, find}
use abcd_yi.Drafts.Repository.{
  Draft, channel_policy_blocked, transport_error, send_failed, change_draft, mark_sent,
  mark_approved_pending_send, mark_send_failed, rejected_draft,
}

-- What the policy uses of Python's strings: `strip_lower` is `s.strip().lower()` and `dashes` is
-- `s.replace("_", "-")`.
pub record Texts : Type 0 where
  pub strip_lower : String → String
  pub dashes : String → String

abbrev is_email_channel : Texts → String → Bool
is_email_channel t channel = contains ("email" ∷ "smtp" ∷ []) (t.dashes (t.strip_lower channel))

abbrev is_counterparty_role : Texts → String → Bool
is_counterparty_role t role =
    contains ("customer" ∷ "supplier" ∷ "buyer" ∷ "seller" ∷ []) (t.strip_lower role)

-- Whether `validate_draft_send_policy` returns; where it does not, it raises a ValueError.
unfoldable pub validate_draft_send_policy : Texts → Draft → Bool
validate_draft_send_policy t d =
    not (is_counterparty_role t d.target_role) || is_email_channel t d.channel

-- What the message service answers: a message id, a response without success, or an exception.
pub data Response : Type 0 where
  delivered : String → Response
  refused unreachable : Response

pub record ApprovalResult : Type 0 where
  pub status : String
  pub sent : Bool
  pub message_id : String

abbrev failed_result : ApprovalResult
failed_result = record { status = "send_failed"; sent = false; message_id = "" }

-- The last part of `approve_and_send`: what follows from the answer.
unfoldable pub settle : ℕ → ℕ → Response → Exec (Table Draft) ApprovalResult
settle now id (delivered message_id) = do
  modify (mark_sent now id)
  pure (record { status = "sent"; sent = true; message_id = message_id })
settle now id refused = do modify (mark_send_failed id send_failed); pure failed_result
settle now id unreachable = do modify (mark_send_failed id transport_error); pure failed_result

unfoldable pub send_draft : ℕ → ℕ → String → Response → Exec (Table Draft) ApprovalResult
send_draft now id approved_by response = do
  modify (mark_approved_pending_send now id approved_by)
  settle now id response

unfoldable pub blocked : ℕ → Exec (Table Draft) ApprovalResult
blocked id = do modify (mark_send_failed id channel_policy_blocked); pure failed_result

abbrev pub is_approvable : String → Bool
is_approvable s = str_eq s "pending_approval" || str_eq s "send_failed"

abbrev pub is_terminal : String → Bool
is_terminal s = str_eq s "sent" || (str_eq s "rejected" || str_eq s "superseded")

-- `client` is the message service: its answer to the message that is made of the draft.
unfoldable pub approve_and_send :
    Texts → (Draft → Response) → ℕ → ℕ → String → Exec (Table Draft) ApprovalResult
approve_and_send texts client now id approved_by = do
  found ← gets (λ (t : Table Draft). find id t)
  draft ← or_raise found draft_state_error
  require (not (is_terminal draft.status)) draft_state_error
  require (is_approvable draft.status) draft_state_error
  (if validate_draft_send_policy texts draft
      then send_draft now id approved_by (client draft)
      else blocked id)

unfoldable pub reject : ℕ → Exec (Table Draft) ApprovalResult
reject id = do
  found ← gets (λ (t : Table Draft). find id t)
  draft ← or_raise found draft_state_error
  require (str_eq draft.status "pending_approval") draft_state_error
  modify (change_draft id rejected_draft)
  pure (record { status = "rejected"; sent = false; message_id = "" })
