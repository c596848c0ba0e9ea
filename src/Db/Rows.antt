-- ===== src/Db/Rows.antt =====
-- The rows of the tables: src/db/models/{decision,audit,execution_graph,order,project,production,
-- logistics,qc}.py.
use abcd_yi.Prelude.{ℕ, String, Bool, Option, List}

-- A value under a key of a JSON column. `key n` is `str(id)` of the identifier n.
pub data Json : Type 0 where
  null : Json
  text : String → Json
  key number : ℕ → Json
  flag : Bool → Json
  texts : List String → Json
  keys : List ℕ → Json

abbrev pub Payload : Type 0
Payload = List (String × Json)

pub record ApprovalRequest : Type 0 where
  pub tenant_id : ℕ
  pub action_type : String
  pub resource_type : String
  pub resource_id : ℕ
  pub proposed_payload : Payload
  pub affected_participant_id : Option ℕ
  pub evidence : Payload
  pub risk_flags : List String
  pub status : String
  pub reviewed_by : Option ℕ
  pub reviewed_at : Option ℕ
  pub review_notes : String
  pub consumed_at : Option ℕ
  pub created_by : Option ℕ

pub record AuditLog : Type 0 where
  pub tenant_id : ℕ
  pub user_id : ℕ
  pub action : String
  pub resource_type : String
  pub resource_id : ℕ
  pub payload : Payload

pub record ExecutionEvent : Type 0 where
  pub tenant_id : ℕ
  pub project_id : Option ℕ
  pub order_id : Option ℕ
  pub participant_id : Option ℕ
  pub event_type : String
  pub payload : Payload
  pub triggered_by_user_id : Option ℕ
  pub occurred_at : ℕ

pub record Project : Type 0 where
  pub tenant_id : Option ℕ
  pub title : Option String
  pub status : String

pub record DecisionPacket : Type 0 where
  pub project_id : ℕ
  pub human_approval_status : String
  pub recommended_option_id : Option ℕ

pub record Order : Type 0 where
  pub project_id : ℕ
  pub approved_option_id : Option ℕ
  pub locked_form_version_id : Option ℕ
  pub status : String
  pub order_number : String
  pub confirmed_at : Option ℕ
  pub buyer_signed_off_at : Option ℕ

pub record Milestone : Type 0 where
  pub order_id : ℕ
  pub milestone_type : String
  pub planned_date : Option ℕ
  pub predicted_date : Option ℕ
  pub actual_date : Option ℕ
  pub status : String
  pub responsible_participant_id : Option ℕ
  pub notes : Option String

-- `update_text` is formatted from the milestone's type, its status and the notes: those three stand
-- for it.
pub record ProductionUpdate : Type 0 where
  pub order_id : ℕ
  pub milestone_id : Option ℕ
  pub update_text : List String
  pub submitted_by_participant_id : Option ℕ
  pub evidence : Payload

pub record ExpediteAlert : Type 0 where
  pub order_id : ℕ
  pub monitoring_packet_id : Option ℕ
  pub target_participant_id : Option ℕ
  pub status : String
  pub human_approved_by : Option ℕ
  pub human_approved_at : Option ℕ
  pub sent_at : Option ℕ

pub record QualityIncident : Type 0 where
  pub order_id : ℕ
  pub qc_record_id : Option ℕ
  pub responsible_participant_id : ℕ
  pub incident_type : String
  pub description : List String

pub record ReplacementAlert : Type 0 where
  pub participant_id : ℕ
  pub project_id : Option ℕ
  pub quality_issue_count : ℕ
  pub status : String
  pub reviewed_by : Option ℕ
  pub reviewed_at : Option ℕ

pub record Shipment : Type 0 where
  pub order_id : ℕ
  pub logistics_provider_participant_id : Option ℕ
  pub carrier : Option String
  pub tracking_number : Option String
  pub trade_term : Option String
  pub origin : Option String
  pub destination : Option String
  pub estimated_departure_date : Option ℕ
  pub estimated_arrival_date : Option ℕ
  pub actual_arrival_date : Option ℕ

pub record ShipmentTrackingEvent : Type 0 where
  pub shipment_id : ℕ
  pub event_type : String
  pub location : Option String
  pub description : Option String
  pub occurred_at : ℕ

-- The number numerator / (below + 1).
pub record Fraction : Type 0 where
  pub numerator : ℕ
  pub below : ℕ

-- The limits of an order's standard that its inspection reads.
pub record QcStandard : Type 0 where
  pub order_id : ℕ
  pub fabric_defect_limits : Option (List (String × ℕ))
  pub size_deviation_limits : Option (List (String × Fraction))
  pub color_difference_tolerance : Option (List (String × Fraction))

pub record QcRecord : Type 0 where
  pub order_id : ℕ
  pub qc_standard_id : Option ℕ
  pub inspector_participant_id : Option ℕ
  pub result : String
  pub rework_required : Bool
  pub responsible_participant_id : Option ℕ
  pub inspected_at : Option ℕ
