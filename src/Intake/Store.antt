-- ===== src/Intake/Store.antt =====
-- The tables of the sales agent and what it calls: src/aivan/db/models, src/aivan/openclaw/contracts.py
-- and src/aivan/schemas/rfq.py. The ids of new rows are the next ones.
use abcd_yi.Prelude.{ℕ, String, Bool, Option, List}
use abcd_yi.Prelude.Exec.{Result}
use abcd_yi.Prelude.Table.{Table}
use abcd_yi.Drafts.{Draft, Texts}
use abcd_yi.Intake.Requirement.{BuyerRequirement}
use abcd_yi.Intake.Readiness.{ExecutionGateResult, Supplier}

pub record OpenClawEvent : Type 0 where
  pub source : String
  pub channel : String
  pub channel_account_id : String
  pub conversation_id : String
  pub message_id : String
  pub sender_id : String
  pub message_text : String
  pub project_id : Option ℕ
  pub actor_id : String
  pub role_context : String
  pub mode : String

pub record Strategy : Type 0 where
  pub priority : String
  pub supplier_scope : String
  pub public_bidding : String
  pub lead_time_confidence : String
  pub price_sensitivity : String
  pub quality_sensitivity : String
  pub max_wait_hours : ℕ

-- What stays the same: the kinds of data of the lead-time service, of the parsed answers and of the
-- options, the supplier that an answer names, and the operations on texts (`s.strip()`, and the first
-- 48 hexadecimal digits of the SHA-256 of a text).
pub record Backend : Type 1 where
  pub Gltg : Type 0
  pub Reply : Type 0
  pub LeadTime : Type 0
  pub BuyerOption : Type 0
  pub reply_supplier_id : Reply → String
  pub texts : Texts
  pub strip : String → String
  pub digest : String → String

-- What `requirement_json` of a project holds.
pub record ProjectData (b : Backend) : Type 0 where
  pub requirement : Option BuyerRequirement
  pub execution_gate : Option ExecutionGateResult
  pub strategy : Option Strategy
  pub gltg_simulation : Option b.Gltg
  pub supplier_replies : List b.Reply
  pub lead_time_estimates : List b.LeadTime
  pub buyer_options : List b.BuyerOption

pub record Project (b : Backend) : Type 0 where
  pub conversation_id : String
  pub customer_id : String
  pub channel : String
  pub channel_account_id : String
  pub requirement_json : Option (ProjectData b)
  pub selected_option : Option b.BuyerOption

pub record AgentEvent : Type 0 where
  pub project_id : ℕ
  pub event_type : String
  pub actor : String

pub record Account : Type 0 where
  pub channel : String
  pub channel_account_id : String
  pub status : String
  pub owner_user_id : String

pub record RfqExecutionResult (b : Backend) : Type 0 where
  pub project_id : ℕ
  pub event_type : String
  pub action : String
  pub strategy : Strategy
  pub requirement : Option BuyerRequirement
  -- `none` where the lead-time service was not run
  pub gltg_simulation : Option b.Gltg
  pub selected_supplier_ids : List String
  pub skipped_supplier_ids : List String
  pub drafts_created : List ℕ

pub record AgentStore (b : Backend) : Type 0 where
  pub next_id : ℕ
  pub projects : Table (Project b)
  pub drafts : Table Draft
  pub events : List AgentEvent
  -- the conversations that are bound to projects, the last one first, and of each user the strategy whose
  -- scope, bidding, confidence and sensitivities are kept
  pub bindings : List (String × ℕ)
  pub preferences : List (String × Strategy)
  pub accounts : List Account
  -- the ledger of the processed events
  pub processed : List (String × RfqExecutionResult b)

-- What the agent calls while it processes one event, by its answers: the language model and the
-- language service, the supplier data, the lead-time service, the parser of the answers, the templates
-- of the messages, and the message service. A call that raises is an error.
pub record Services (b : Backend) : Type 0 where
  -- The allowed type of event that the model answers, where it is asked, and its strategy.
  pub llm_event_type : OpenClawEvent → Option ℕ → Option String
  pub llm_strategy : String → Option Strategy
  pub structure_requirement : OpenClawEvent → Option BuyerRequirement → ℕ → Result BuyerRequirement
  pub build_context : BuyerRequirement → String → String → Result (List Supplier)
  -- Without a requirement, the one that stands in for it (a quantity of 1).
  pub simulate : Option BuyerRequirement → Strategy → ℕ → Result b.Gltg
  -- Whether the graph that was persisted is not empty.
  pub persist_graph : ℕ → BuyerRequirement → Strategy → b.Gltg → Result Bool
  pub supplier_email : BuyerRequirement → Strategy → Supplier → b.Gltg → String
  pub parse_supplier_reply : String → ℕ → String → String → Result b.Reply
  pub calculate_leadtime : BuyerRequirement → b.Reply → Result b.LeadTime
  pub generate_buyer_options :
      BuyerRequirement → List b.Reply → List b.LeadTime → ℕ → List b.BuyerOption
  pub quote_email : List b.BuyerOption → String
  -- The text for the operator, by the action that is reported.
  pub operator_message : String → ℕ → String
  -- Whether the message was sent.
  pub send_message : OpenClawEvent → Draft → Result Bool
