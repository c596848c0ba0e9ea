-- ===== src/Drafts/Repository.antt =====
-- src/aivan/db/repositories/draft_repo.py: the writes of the draft table. The notes are
-- the reasons of the failures, in the order in which they were recorded.
use abcd_yi.Prelude.{ℕ, String, Option, none, some, List, [], ◌∷◌, ◌++◌, str_eq, if◌then◌else◌}
use abcd_yi.Prelude.Table.{Table, find, put}

pub data Failure : Type 0 where
  channel_policy_blocked transport_error send_failed : Failure

pub record Draft : Type 0 where
  pub project_id : ℕ
  pub conversation_id : String
  pub channel : String
  pub target_peer_id : String
  pub target_role : String
  pub message_text : String
  pub message_type : String
  pub attachments : List String
  pub status : String
  pub created_by_agent : String
  -- what the notes begin with, `draft_type=...`
  pub draft_type : String
  pub approved_by : String
  pub failures : List Failure
  pub approved_at : Option ℕ
  pub sent_at : Option ℕ

-- A write to the row of that id, where there is one.
abbrev pub change_draft : ℕ → (Draft → Draft) → Table Draft → Table Draft
change_draft id f t = elim (find id t) [ none ↦ t | some d ↦ put id (f d) t ]

abbrev pub sent_draft : ℕ → Draft → Draft
sent_draft now d = record d { status = "sent"; sent_at = some now }

unfoldable pub mark_sent : ℕ → ℕ → Table Draft → Table Draft
mark_sent now id t = change_draft id (sent_draft now) t

abbrev pub approved_draft : ℕ → String → Draft → Draft
approved_draft now by d =
    if str_eq d.status "pending_approval"
    then record d { status = "approved_pending_send"; approved_by = by; approved_at = some now }
    else d

unfoldable pub mark_approved_pending_send : ℕ → ℕ → String → Table Draft → Table Draft
mark_approved_pending_send now id by t = change_draft id (approved_draft now by) t

abbrev pub failed_draft : Failure → Draft → Draft
failed_draft reason d = record d { status = "send_failed"; failures = d.failures ++ reason ∷ [] }

unfoldable pub mark_send_failed : ℕ → Failure → Table Draft → Table Draft
mark_send_failed id reason t = change_draft id (failed_draft reason) t

abbrev pub rejected_draft : Draft → Draft
rejected_draft d =
    if str_eq d.status "pending_approval" then record d { status = "rejected" } else d
