-- ===== src/Intake/Outreach.antt =====
-- The drafts of src/aivan/execution/rfq_execution.py: the inquiries to the suppliers, the message to the
-- operator, and the quotation for the customer.
use abcd_yi.Prelude.{
  ℕ, zero, suc, String, Bool, true, false, not, ◌&&◌, leb, ◌==◌, Option, none, some, List, [], ◌∷◌,
  map, keep, contains, str_eq, if◌then◌else◌,
}
use abcd_yi.Prelude.Exec.{Exec, key_error, pure, or_raise, gets, lift, modify, ◌>>=◌, ◌>>◌}
use abcd_yi.Prelude.Sorting.{sort_by}
use abcd_yi.Drafts.{Draft, Texts, mark_sent}
use abcd_yi.Intake.Requirement.{BuyerRequirement, nonempty}
use abcd_yi.Intake.Readiness.{Supplier, has_email}
use abcd_yi.Intake.Store.{OpenClawEvent, Strategy, Backend, Services, Project, Account, AgentStore}
use abcd_yi.Intake.Events.{is_user_control}
use abcd_yi.Intake.Projects.{
  create_draft, append_event, change_drafts, supersede_customer_quote_drafts,
}

pub record SupplierRoutingDecision : Type 0 where
  pub selected_supplier_ids : List String
  pub skipped_supplier_ids : List String

-- Whether the first of two suppliers is not behind the other: the scores as a tuple, the higher first.
unfoldable pub not_behind : Supplier → Supplier → Bool
not_behind a b =
    if a.past_performance_score == b.past_performance_score
    then (if a.delivery_score == b.delivery_score
        then leb b.quality_score a.quality_score
        else leb b.delivery_score a.delivery_score)
    else leb b.past_performance_score a.past_performance_score

-- `l[:n]`
unfoldable pub take {ℓ} : {A : Type ℓ} → ℕ → List A → List A
take _ [] = []
take zero (x ∷ xs) = []
take (suc n) (x ∷ xs) = x ∷ take n xs

abbrev pub ids : List Supplier → List String
ids l = map (λ (s : Supplier). s.supplier_id) l

unfoldable pub select_suppliers : List Supplier → SupplierRoutingDecision
select_suppliers suppliers = record {
  selected_supplier_ids = take 5 (ids (keep has_email (sort_by not_behind suppliers)));
  skipped_supplier_ids = ids (keep (λ s. not (has_email s)) (sort_by not_behind suppliers));
}

-- `{supplier["supplier_id"]: supplier for ...}[id]`: the last supplier of that id.
unfoldable pub supplier_by_id : String → List Supplier → Option Supplier
supplier_by_id id [] = none
supplier_by_id id (s ∷ l) = elim (supplier_by_id id l) [
  | some later ↦ some later
  | none ↦ if str_eq s.supplier_id id then some s else none
]

abbrev pub drafted : ℕ → String → String → String → String → Draft
drafted project conversation channel target role = record {
  project_id = project;
  conversation_id = conversation;
  channel = channel;
  target_peer_id = target;
  target_role = role;
  message_text = "";
  message_type = "text";
  attachments = [];
  status = "pending_approval";
  created_by_agent = "aivan_rfq_execution";
  draft_type = "supplier_inquiry_email";
  approved_by = "";
  failures = [];
  approved_at = none;
  sent_at = none;
}

abbrev pub inquiry_draft : ℕ → OpenClawEvent → Supplier → String → Draft
inquiry_draft project event supplier text =
    record (drafted project event.conversation_id "email" supplier.email "supplier") {
      message_text = text;
    }

abbrev pub notification_draft : ℕ → OpenClawEvent → String → String → Bool → String → Draft
notification_draft project event channel target should_send text =
    record (drafted project event.conversation_id channel target "user") {
      message_text = text;
      status = if should_send then "approved" else "pending_approval";
      created_by_agent = "aivan_user_control";
      draft_type = "approval_request_im";
    }

abbrev pub quote_draft : ℕ → String → String → String → Draft
quote_draft project conversation customer text =
    record (drafted project conversation "email" customer "customer") {
      message_text = text;
      created_by_agent = "buyer_option_agent";
      draft_type = "customer_quote_email";
    }

-- Where a message to the operator goes, and whether it is sent at once.
pub record Control : Type 0 where
  pub channel : String
  pub target_peer_id : String
  pub should_send : Bool

abbrev pub user_control_channels : List String
user_control_channels =
    "wechat" ∷ "weixin" ∷ "line" ∷ "whatsapp" ∷ "telegram" ∷ "signal" ∷ "personal_im" ∷ "im"
    ∷ "openclaw-im" ∷ "user-im" ∷ []

-- `s or default`
abbrev pub text_or : String → String → String
text_or default s = if nonempty s then s else default

abbrev pub control_channel : Texts → OpenClawEvent → String
control_channel t event = text_or "im" (
    if contains user_control_channels (t.dashes (t.strip_lower event.channel))
    then event.channel
    else "im")

-- The owner of the first connected account of the event's channel, or an empty text.
unfoldable pub first_owner : OpenClawEvent → List Account → String
first_owner event [] = ""
first_owner event (a ∷ l) =
    if str_eq a.channel event.channel
      && (str_eq a.channel_account_id event.channel_account_id && str_eq a.status "connected")
    then a.owner_user_id
    else first_owner event l

abbrev pub owner_user_id_for_event : OpenClawEvent → List Account → String
owner_user_id_for_event event accounts =
    if nonempty event.channel_account_id then first_owner event accounts else ""

abbrev send_to : Texts → OpenClawEvent → String → Control
send_to t event target = record {
  channel = control_channel t event;
  target_peer_id = target;
  should_send = true;
}

unfoldable pub user_control : Texts → OpenClawEvent → List Account → Control
user_control t event accounts =
    if is_user_control event && nonempty (text_or event.sender_id event.actor_id)
    then send_to t event (text_or event.sender_id event.actor_id)
    else if nonempty event.actor_id
    then send_to t event event.actor_id
    else if nonempty (owner_user_id_for_event event accounts)
    then send_to t event (owner_user_id_for_event event accounts)
    else record {
      channel = "internal";
      target_peer_id = "owner_resolution_required";
      should_send = false;
    }

module _ {b : Backend} (v : Services b) where
  -- The loop over the selected suppliers.
  unfoldable pub create_supplier_email_drafts :
      ℕ
      → OpenClawEvent
      → BuyerRequirement
      → Strategy
      → b.Gltg
      → List Supplier
      → List String
      → Exec (AgentStore b) (List ℕ)
  unfolding create_draft append_event
  create_supplier_email_drafts project event r strategy gltg suppliers [] = pure []
  create_supplier_email_drafts project event r strategy gltg suppliers (id ∷ rest) =
      let others = create_supplier_email_drafts project event r strategy gltg suppliers rest in
      do
        supplier ← or_raise (supplier_by_id id suppliers) key_error
        draft ←
            create_draft b
              (inquiry_draft project event supplier (v.supplier_email r strategy supplier gltg))
        append_event b project "PENDING_EMAIL_DRAFT_CREATED" "aivan_rfq_execution"
        drafts ← others
        pure (draft ∷ drafts)

  -- The message itself, where it is sent at once.
  unfoldable pub deliver : ℕ → OpenClawEvent → Draft → ℕ → Exec (AgentStore b) (Unit {0})
  unfolding change_drafts
  deliver now event d id = do
    success ← lift (v.send_message event d)
    (if success then modify (change_drafts (mark_sent now id)) else pure tt)

  unfoldable pub send_user_control_notification :
      ℕ → ℕ → OpenClawEvent → String → Exec (AgentStore b) (Unit {0})
  unfolding create_draft deliver
  send_user_control_notification now project event text = do
    control ← gets (λ (s : AgentStore b). user_control b.texts event s.accounts)
    let d =
        notification_draft project event control.channel control.target_peer_id control.should_send
          text
    id ← create_draft b d
    (if control.should_send then deliver now event d id else pure tt)

  unfoldable pub create_customer_quote_email_draft :
      ℕ → Project b → OpenClawEvent → List b.BuyerOption → Exec (AgentStore b) (List ℕ)
  unfolding create_draft append_event change_drafts
  create_customer_quote_email_draft project p event options = do
    modify (change_drafts (supersede_customer_quote_drafts project))
    draft ← create_draft b (
        quote_draft project (text_or event.conversation_id p.conversation_id) p.customer_id
          (v.quote_email options))
    append_event b project "PENDING_EMAIL_DRAFT_CREATED" "buyer_option_agent"
    pure (draft ∷ [])
