-- ===== src/Upstream/Approval.antt =====
-- src/m_side/upstream/approval_gate.py. The environment's AUTO_APPROVAL_ENABLED is an argument.
use abcd_yi.Prelude.{
  ℕ, String, Bool, true, false, not, ◌||◌, ◌==◌, Option, none, some, List, [], ◌∷◌, any, codes,
  lower_codes, mentions, split, if◌then◌else◌,
}
use abcd_yi.Prelude.Exec.{Exec, value_error, pure, gets, or_raise, modify, require, ◌>>=◌, ◌>>◌}
use abcd_yi.Upstream.Options.{UpstreamOption}

pub data ApprovalMode : Type 0 where
  human authorized_agent : ApprovalMode

pub data ApprovalStatus : Type 0 where
  pending approved rejected : ApprovalStatus

pub record OptionRequest (F : Type 0) : Type 0 where
  pub approval_request_id : ℕ
  pub project_id : String
  pub dependency_id : String
  pub dependency_type : String
  pub options : List (UpstreamOption F)
  pub status : ApprovalStatus
  pub required_approval_mode : ApprovalMode

pub record OptionApproval (F : Type 0) : Type 0 where
  pub approval_request_id : ℕ
  pub approved_option : UpstreamOption F
  pub approved_by : String
  pub mode : ApprovalMode

-- One part of a summary in lower case.
abbrev pub is_high_risk_part : List ℕ → Bool
is_high_risk_part part =
    mentions part (codes "long_lead_time")
    || mentions part (codes "cannot_supply")
    || mentions part (codes "price_not_confirmed")

abbrev pub is_high_risk : {F : Type 0} → UpstreamOption F → Bool
is_high_risk o = any is_high_risk_part (split 59 (lower_codes o.risk_summary))

unfoldable pub request_upstream_option_approval :
    {F : Type 0} → Bool → ℕ → String → String → String → List (UpstreamOption F) → OptionRequest F
request_upstream_option_approval auto_approval_enabled id project_id dependency_id dependency_type
      options =
    record {
      approval_request_id = id;
      project_id = project_id;
      dependency_id = dependency_id;
      dependency_type = dependency_type;
      options = options;
      status = pending;
      required_approval_mode =
          if any is_high_risk options || not auto_approval_enabled then human else authorized_agent;
    }

-- The loop over the options.
unfoldable pub find_option : {F : Type 0} → ℕ → List (UpstreamOption F) → Option (UpstreamOption F)
find_option id [] = none
find_option id (o ∷ os) = if o.option_id == id then some o else find_option id os

abbrev pub mode_permitted : ApprovalMode → ApprovalMode → Bool
mode_permitted human authorized_agent = false
mode_permitted human human = true
mode_permitted authorized_agent mode = true

unfoldable pub approve_upstream_option :
    {F : Type 0} → ℕ → String → ApprovalMode → Exec (OptionRequest F) (OptionApproval F)
approve_upstream_option {F} option_id approved_by mode = do
  required ← gets (λ (r : OptionRequest F). r.required_approval_mode)
  require (mode_permitted required mode) value_error
  found ← gets (λ (r : OptionRequest F). find_option option_id r.options)
  option ← or_raise found value_error
  modify (λ (r : OptionRequest F). record r { status = approved })
  id ← gets (λ (r : OptionRequest F). r.approval_request_id)
  pure (record {
    approval_request_id = id;
    approved_option = option;
    approved_by = approved_by;
    mode = mode;
  })
