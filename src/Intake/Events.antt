-- ===== src/Intake/Events.antt =====
-- What an inbound event is, and what strategy its text asks for: classify_event, interpret_strategy and
-- their deterministic parts in src/aivan/execution/rfq_execution.py, and the key of
-- src/aivan/db/repositories/inbound_event_repo.py. The confidence and the reason are left out.
use abcd_yi.Prelude.{
  ℕ, String, Bool, not, ◌&&◌, ◌||◌, ◌<>◌, Option, none, some, List, [], ◌∷◌, is_some, any, contains,
  codes, lower_codes, lower_is, mentions, str_eq, if◌then◌else◌,
}
use abcd_yi.Prelude.Table.{Table, find}
use abcd_yi.Intake.Requirement.{nonempty}
use abcd_yi.Intake.Store.{OpenClawEvent, Strategy, Backend, Services, Project, AgentStore}

pub record EventClassification : Type 0 where
  pub event_type : String
  pub project_id : Option ℕ

-- `role in roles`, of the role in lower case
unfoldable pub has_role : List String → OpenClawEvent → Bool
has_role roles event = any (lower_is event.role_context) roles

-- `any(token in text for token in tokens)`, of the text in lower case
unfoldable pub any_token : List String → String → Bool
any_token tokens text = any (λ token. mentions (lower_codes text) (codes token)) tokens

abbrev pub is_supplier_reply : OpenClawEvent → Bool
is_supplier_reply event = has_role ("supplier" ∷ "seller" ∷ "m_side" ∷ []) event

-- `role in {...} or event.mode in {"user", "command"}`
abbrev pub is_user_control : OpenClawEvent → Bool
is_user_control event =
    has_role ("user" ∷ "owner" ∷ "operator" ∷ "sales" ∷ "salesperson" ∷ []) event
    || contains ("user" ∷ "command" ∷ []) event.mode

abbrev pub customer_event : Bool → String
customer_event has_project = if has_project then "customer_followup" else "customer_new_inquiry"

unfoldable pub fallback_event_type : OpenClawEvent → Bool → String
fallback_event_type event has_project =
    if is_supplier_reply event
    then "supplier_reply"
    else if any_token ("approve" ∷ "approved" ∷ "同意" ∷ "批准" ∷ "发送" ∷ "send it" ∷ [])
        event.message_text
    then "approval_response"
    else if any_token ("status" ∷ "进度" ∷ "状态" ∷ []) event.message_text
    then "internal_status_request"
    else if is_user_control event
    then "user_command"
    else if has_role ("buyer" ∷ "customer" ∷ "b_side" ∷ []) event
    then customer_event has_project
    else if contains ("wechat" ∷ "line" ∷ "whatsapp" ∷ "im" ∷ "openclaw-im" ∷ []) event.channel
    then "user_command"
    else customer_event has_project

-- ProjectRepository.get_by_conversation: the last project of the conversation, with its id.
unfoldable pub get_by_conversation :
    {b : Backend} → String → Table (Project b) → Option (ℕ × Project b)
get_by_conversation c [] = none
get_by_conversation c ((id, p) ∷ t) = elim (get_by_conversation c t) [
  | some later ↦ some later
  | none ↦ if str_eq p.conversation_id c then some (id, p) else none
]

abbrev pub id_of : {b : Backend} → Option (ℕ × Project b) → Option ℕ
id_of none = none
id_of (some found) = some found.0

-- `project_id if project_id and repo.get(project_id) else None`
abbrev pub existing_project : {b : Backend} → Option ℕ → Table (Project b) → Option ℕ
existing_project none t = none
existing_project (some id) t = if is_some (find id t) then some id else none

abbrev pub or_else {ℓ} : {A : Type ℓ} → Option A → Option A → Option A
or_else none b = b
or_else (some a) b = some a

unfoldable pub classify_event :
    {b : Backend} → Services b → OpenClawEvent → AgentStore b → EventClassification
classify_event v event s =
    let attached = or_else (existing_project event.project_id s.projects) (
      if nonempty event.conversation_id
      then id_of (get_by_conversation event.conversation_id s.projects)
      else none) in
    record {
      event_type = elim (v.llm_event_type event attached) [
        | some event_type ↦ event_type
        | none ↦ fallback_event_type event (is_some attached)
      ];
      project_id = attached;
    }

unfoldable pub fallback_strategy : String → Strategy
fallback_strategy text =
    let urgent = any_token ("urgent" ∷ "asap" ∷ "急" ∷ "很急" ∷ "赶" ∷ []) text in
    let known =
      any_token ("known" ∷ "familiar" ∷ "old supplier" ∷ "老供应商" ∷ "熟悉供应商" ∷ "靠谱" ∷ []) text in
    let cheap = any_token ("cheap" ∷ "price" ∷ "价格" ∷ "便宜" ∷ "别太离谱" ∷ []) text in
    let quality = any_token ("quality" ∷ "reliable" ∷ "质量" ∷ "靠谱" ∷ "可靠" ∷ []) text in
    record {
      priority = if urgent then "speed" else if cheap && not urgent then "price" else "balanced";
      supplier_scope = if known then "known_suppliers_first" else "known_suppliers_only";
      public_bidding = if known then "fallback_only" else "disabled";
      lead_time_confidence = if urgent then "P80" else "P50";
      price_sensitivity = if cheap then "medium" else "low";
      quality_sensitivity = if quality then "high" else "medium";
      max_wait_hours = if urgent then 24 else 48;
    }

-- The model's strategy, where it is asked and answers one.
unfoldable pub interpret_strategy : {b : Backend} → Services b → String → Strategy
interpret_strategy v text = elim (v.llm_strategy text) [
  | some strategy ↦ strategy
  | none ↦ fallback_strategy text
]

-- None for an event that has neither a message id nor a conversation id.
unfoldable pub build_inbound_idempotency_key : Backend → OpenClawEvent → Option String
build_inbound_idempotency_key b event =
    if not (nonempty (b.strip event.message_id)) && not (nonempty (b.strip event.conversation_id))
    then none
    else some (
        "inb_"
        <> b.digest (
            b.strip event.source
            <> "|"
            <> b.strip event.channel
            <> "|"
            <> b.strip event.channel_account_id
            <> "|"
            <> b.strip event.conversation_id
            <> "|"
            <> b.strip event.message_id))
