-- ===== src/Examples/Intake.antt =====
-- A buyer's inquiry that is executed, its retry, the approval of a draft, and a status event during an
-- outage of the lead-time service.
use abcd_yi.Prelude.{
  ℕ, String, true, false, none, some, List, [], ◌∷◌, ◌≡◌, refl, keep, str_eq, is_some, contains,
  lower_is, mentions, lower_codes, starts_with,
}
use abcd_yi.Prelude.Exec.{Result, ok, err, gltg_unavailable, recover, ◌>>=◌}
use abcd_yi.Prelude.Sorting.{sort_by, insert_by}
use abcd_yi.Prelude.Table.{find, put, select, update}
use abcd_yi.Drafts.{
  Texts, Draft, Outbound, do_approve_draft, approve, send_if_approved, validate_draft_send_policy,
  mark_sent,
}
use abcd_yi.Intake.{
  Backend, Services, OpenClawEvent, BuyerRequirement, Supplier, AgentStore, Project,
  RfqExecutionResult, Action, inbound, approval, is_provisional, proposed_destination,
  is_provisional_blocks, IsExact, evaluate_requirement_readiness-IsExact, has_authoritative_product,
  has_authoritative_destination, create_rfq_from_event_replays, after_calls, after_actions,
  after_action, sent_only_approved, create_customer_quote_email_draft_replaces,
  supersede_customer_quote_drafts, is_stale_quote, quote_draft, IsSuperseded, makes_no_rfq,
  IsUnrecorded, create_rfq_from_event_outage, create_rfq_from_event_inner, create_rfq_from_event,
  process_once, process_first, record_result, classify_event, fallback_event_type,
  fallback_strategy, interpret_strategy, build_inbound_idempotency_key, has_role, any_token,
  get_by_conversation, get_or_create_project, change_project, learn_strategy_preference, entry,
  create_supplier_email_drafts, send_user_control_notification, user_control, select_suppliers,
  not_behind, take, supplier_by_id, evaluate_requirement_readiness, evaluate_supplier_readiness,
  is_authoritative, field_sources, merge_skill, source_or, create_customer_quote_email_draft,
}

abbrev texts : Texts
texts = record { strip_lower = λ (s : String). s; dashes = λ (s : String). s }

abbrev backend : Backend
backend = record {
  Gltg = ℕ;
  Reply = String;
  LeadTime = ℕ;
  BuyerOption = ℕ;
  reply_supplier_id = λ (s : String). s;
  texts = texts;
  strip = λ (s : String). s;
  digest = λ (s : String). s;
}

abbrev shirts : BuyerRequirement
shirts = record {
  quantity = some 600;
  product_type = "shirt";
  category = "";
  destination = "Hamburg";
  delivery_days = some 45;
  delivery_deadline_iso = none;
  product_name = none;
  local_sources = ("product_type", "product_resolver") ∷ ("destination", "location_resolver") ∷ [];
  skill_sources = [];
}

abbrev supplier : String → ℕ → Supplier
supplier id score = record {
  supplier_id = id;
  email = "sales@example.com";
  past_performance_score = score;
  delivery_score = 0;
  quality_score = 0;
}

abbrev services : Result ℕ → Services backend
services answer = record {
  llm_event_type = λ e p. none;
  llm_strategy = λ t. none;
  structure_requirement = λ e r p. ok shirts;
  build_context = λ r c u. ok (supplier "a" 3 ∷ supplier "b" 7 ∷ []);
  simulate = λ r s n. answer;
  persist_graph = λ p r s g. ok true;
  supplier_email = λ r s x g. "please quote";
  parse_supplier_reply = λ t p s c. ok "a";
  calculate_leadtime = λ r x. ok 30;
  generate_buyer_options = λ r l m p. 1 ∷ [];
  quote_email = λ l. "our options";
  operator_message = λ a p. a;
  send_message = λ e d. ok true;
}

abbrev inquiry : String → OpenClawEvent
inquiry text = record {
  source = "openclaw";
  channel = "email";
  channel_account_id = "";
  conversation_id = "c1";
  message_id = "m1";
  sender_id = "buyer";
  message_text = text;
  project_id = none;
  actor_id = "";
  role_context = "buyer";
  mode = "auto";
}

abbrev empty : AgentStore backend
empty = record {
  next_id = 1;
  projects = [];
  drafts = [];
  events = [];
  bindings = [];
  preferences = [];
  accounts = [];
  processed = [];
}

abbrev executed : RfqExecutionResult backend
executed = record {
  project_id = 1;
  event_type = "customer_new_inquiry";
  action = "pending_email_approval";
  strategy = fallback_strategy "600 shirts to Hamburg";
  requirement = some shirts;
  gltg_simulation = some 30;
  selected_supplier_ids = "b" ∷ "a" ∷ [];
  skipped_supplier_ids = [];
  drafts_created = 2 ∷ 3 ∷ [];
}

abbrev after_inquiry : AgentStore backend
after_inquiry =
    (create_rfq_from_event_inner (services (ok 30)) 100 (inquiry "600 shirts to Hamburg") empty).1

evaluate_requirement_readiness-IsExact_example :
    IsExact true
      (has_authoritative_product shirts)
      (has_authoritative_destination shirts)
      true
      (evaluate_requirement_readiness shirts)
evaluate_requirement_readiness-IsExact_example = evaluate_requirement_readiness-IsExact shirts

abbrev inquiry_key : String
inquiry_key = "inb_openclaw|email||c1|m1"

keyed : (text : String) → build_inbound_idempotency_key backend (inquiry text) ≡ some inquiry_key
unfolding build_inbound_idempotency_key
keyed text = refl

abbrev recorded : AgentStore backend
recorded = (create_rfq_from_event (services (ok 30)) 100 (inquiry "600 shirts to Hamburg") empty).1

records :
    create_rfq_from_event (services (ok 30)) 100 (inquiry "600 shirts to Hamburg") empty
    ≡ (ok executed, recorded)
unfolding create_rfq_from_event process_once process_first build_inbound_idempotency_key
    record_result create_rfq_from_event_inner classify_event fallback_event_type interpret_strategy
    has_role any_token get_by_conversation get_or_create_project change_project
    learn_strategy_preference entry create_supplier_email_drafts send_user_control_notification
    user_control select_suppliers not_behind take supplier_by_id evaluate_requirement_readiness
    evaluate_supplier_readiness is_authoritative field_sources merge_skill source_or find put keep
    sort_by insert_by recover lower_is lower_codes mentions starts_with ◌>>=◌
records = refl

create_rfq_from_event_replays_example :
    create_rfq_from_event (services (err gltg_unavailable)) 200 (inquiry "are you there?") recorded
    ≡ (ok executed, recorded)
unfolding after_calls
create_rfq_from_event_replays_example =
    create_rfq_from_event_replays (services (ok 30)) (services (err gltg_unavailable))
      (inquiry "600 shirts to Hamburg") (inquiry "are you there?") inquiry_key 100 200 executed
      empty recorded [] (keyed "600 shirts to Hamburg") (keyed "are you there?") records

abbrev service : Outbound
service = record {
  is_real_test_email_mode = false;
  send_real_test_email = λ (d : Draft). ok false;
  send_message = λ (d : Draft). ok true;
}

abbrev history : List (Action backend)
history =
    inbound
      (record { services = services (ok 30); now = 100; event = inquiry "600 shirts to Hamburg" })
    ∷ approval service 150 2 "amy"
    ∷ []

abbrev sent_inquiry : Draft
sent_inquiry = record {
  project_id = 1;
  conversation_id = "c1";
  channel = "email";
  target_peer_id = "sales@example.com";
  target_role = "supplier";
  message_text = "please quote";
  message_type = "text";
  attachments = [];
  status = "sent";
  created_by_agent = "aivan_rfq_execution";
  draft_type = "supplier_inquiry_email";
  approved_by = "amy";
  failures = [];
  approved_at = some 150;
  sent_at = some 150;
}

sends : find 2 (after_actions history empty).drafts ≡ some sent_inquiry
unfolding after_actions after_action do_approve_draft approve send_if_approved mark_sent
    validate_draft_send_policy create_rfq_from_event process_once process_first
    build_inbound_idempotency_key record_result create_rfq_from_event_inner classify_event
    fallback_event_type interpret_strategy has_role any_token get_by_conversation
    get_or_create_project change_project learn_strategy_preference entry
    create_supplier_email_drafts send_user_control_notification user_control select_suppliers
    not_behind take supplier_by_id evaluate_requirement_readiness evaluate_supplier_readiness
    is_authoritative field_sources merge_skill source_or find put keep sort_by insert_by recover
    lower_is lower_codes mentions starts_with ◌>>=◌
sends = refl

sent_only_approved_example :
    (is_some sent_inquiry.approved_at ≡ true)
    × (validate_draft_send_policy texts sent_inquiry ≡ true)
sent_only_approved_example = sent_only_approved history empty 2 sent_inquiry tt sends refl refl

abbrev asked_project : Project backend
asked_project = record {
  conversation_id = "c1";
  customer_id = "buyer";
  channel = "email";
  channel_account_id = "";
  requirement_json = none;
  selected_option = none;
}

-- A store whose last quotation still waits.
abbrev quoted : AgentStore backend
quoted =
    (create_customer_quote_email_draft (services (ok 30)) 1 asked_project (inquiry "ok") (3 ∷ [])
      empty).1

no_other : find quoted.next_id quoted.drafts ≡ none
unfolding create_customer_quote_email_draft supersede_customer_quote_drafts update put find ◌>>=◌
no_other = refl

create_customer_quote_email_draft_replaces_example :
    let after =
      (create_customer_quote_email_draft
        (services (ok 30))
        1
        asked_project
        (inquiry "ok")
        (4 ∷ [])
        quoted).1.drafts in
    (select (is_stale_quote 1) after ≡ quote_draft 1 "c1" "buyer" "our options" ∷ [])
    × IsSuperseded 1 quoted.drafts after
create_customer_quote_email_draft_replaces_example =
    create_customer_quote_email_draft_replaces (services (ok 30)) 1 asked_project (inquiry "ok")
      (4 ∷ []) quoted no_other

no_rfq :
    makes_no_rfq
      (classify_event
        (services (err gltg_unavailable))
        (inquiry "what is the status?")
        empty).event_type
    ≡ true
unfolding classify_event fallback_event_type has_role any_token get_by_conversation lower_is
    lower_codes mentions starts_with
no_rfq = refl

unseen : entry inquiry_key empty.processed ≡ none
unfolding entry
unseen = refl

create_rfq_from_event_outage_example :
    IsUnrecorded inquiry_key gltg_unavailable
      (inquiry "what is the status?")
      (classify_event (services (err gltg_unavailable)) (inquiry "what is the status?") empty)
      empty
      (create_rfq_from_event
        (services (err gltg_unavailable))
        100
        (inquiry "what is the status?")
        empty)
create_rfq_from_event_outage_example =
    create_rfq_from_event_outage (services (err gltg_unavailable)) 100
      (inquiry "what is the status?") inquiry_key gltg_unavailable empty
      (keyed "what is the status?") unseen no_rfq refl

-- The destination comes from a model alone.
abbrev proposed : BuyerRequirement
proposed = record shirts {
  local_sources = ("product_type", "product_resolver") ∷ ("destination", "llm_structured") ∷ [];
}

only_proposed : is_provisional proposed "destination" ≡ true
unfolding is_provisional field_sources merge_skill source_or keep
only_proposed = refl

is_provisional_blocks_example :
    ((evaluate_requirement_readiness proposed).ready ≡ false)
    × (str_eq (evaluate_requirement_readiness proposed).next_action "proceed" ≡ false)
    × (contains (evaluate_requirement_readiness proposed).missing_fields "destination" ≡ true)
is_provisional_blocks_example =
    is_provisional_blocks proposed "destination" (proposed_destination only_proposed)
