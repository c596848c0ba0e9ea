-- ===== src/Db/Sourcing.antt =====
-- The rows of the sourcing tables: src/db/models/{rfq,decision,dynamic_form,order,production}.py.
use abcd_yi.Prelude.{ℕ, String, Bool, Option, List}

pub record Rfq : Type 0 where
  pub project_id : ℕ
  pub form_version_id : ℕ
  pub status : String
  pub rfq_subject : String
  pub ai_generated : Bool
  pub human_approved_by : Option ℕ
  pub sent_at : Option ℕ

pub record RfqRecipient : Type 0 where
  pub rfq_id : ℕ
  pub participant_id : ℕ
  pub sent_at : Option ℕ
  pub responded_at : Option ℕ
  pub status : String

-- The days of `lead_time_breakdown` that the planning of an order reads: `fabric` and `trim` from
-- its parallel part, the others from its sequential part.
pub record LeadTimes : Type 0 where
  pub fabric : Option ℕ
  pub trim : Option ℕ
  pub production : Option ℕ
  pub qc : Option ℕ
  pub logistics : Option ℕ

-- Prices are in the smallest unit of their currency. Of `supplier_combination` the values stand,
-- with `none` for a text that is no UUID.
pub record DecisionOption : Type 0 where
  pub packet_id : ℕ
  pub supplier_combination : List (Option ℕ)
  pub unit_price : Option ℕ
  pub currency : Option String
  pub lead_time_breakdown : LeadTimes

-- The fields of a form that the services read. Quantities are whole numbers, and the deadline, an
-- ISO date, stands as its point in time.
pub record FormFields : Type 0 where
  pub product_type : Option String
  pub quantity : Option ℕ
  pub delivery_deadline : Option ℕ

pub record DynamicOrderForm : Type 0 where
  pub project_id : ℕ
  pub current_version : ℕ
  pub is_locked : Bool

pub record DynamicOrderFormVersion : Type 0 where
  pub form_id : ℕ
  pub version_number : ℕ
  pub fields : FormFields

pub record OrderLine : Type 0 where
  pub order_id : ℕ
  pub line_number : ℕ
  pub description : String
  pub quantity : ℕ
  pub unit : String
  pub unit_price : Option ℕ
  pub currency : Option String
  pub form_fields_snapshot : FormFields

pub record ProductionMonitoringPacket : Type 0 where
  pub order_id : ℕ
  pub standard_completion_date : Option ℕ
  pub predicted_completion_date : Option ℕ
  pub delay_risk_level : String
  pub responsible_participant_id : Option ℕ
  pub delayed_milestones : List String
  pub recommended_action : String
  pub expedite_alert_required : Bool
  pub human_approval_required : Bool

-- `qc_pass_rate` is the number of passed inspections and of all, and `response_times` the two points
-- in time whose difference the source stores.
pub record SupplierMemoryRecord : Type 0 where
  pub participant_id : ℕ
  pub order_id : ℕ
  pub on_time_delivery : Option Bool
  pub qc_pass_rate : Option (ℕ × ℕ)
  pub response_times : Option (ℕ × ℕ)
