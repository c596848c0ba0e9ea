-- ===== src/Examples/Data.antt =====
-- A session with one tenant, its project and the rows that the runs read.
use abcd_yi.Prelude.{ℕ, String, none, some, [], ◌∷◌}
use abcd_yi.Db.{Db, Order, QcStandard, ApprovalRequest, QualityIncident, Shipment, empty}
use abcd_yi.Approvals.{Purpose}
use abcd_yi.Qc.{Inspection, NewIds}

abbrev pub tenant : ℕ
tenant = 7

abbrev pub project : ℕ
project = 1

abbrev pub user : ℕ
user = 3

abbrev pub rfq : ℕ
rfq = 20

abbrev pub sending : Purpose
sending = record {
  tenant_id = tenant;
  action_type = "RFQ_SEND";
  resource_type = "rfq";
  resource_id = rfq;
}

abbrev pub granted : ApprovalRequest
granted = record {
  tenant_id = tenant;
  action_type = "RFQ_SEND";
  resource_type = "rfq";
  resource_id = rfq;
  proposed_payload = [];
  affected_participant_id = none;
  evidence = [];
  risk_flags = [];
  status = "APPROVED";
  reviewed_by = some user;
  reviewed_at = some 90;
  review_notes = "";
  consumed_at = none;
  created_by = some user;
}

abbrev pub an_order : String → Order
an_order status = record {
  project_id = project;
  approved_option_id = none;
  locked_form_version_id = none;
  status = status;
  order_number = "ORD-2026-0001";
  confirmed_at = none;
  buyer_signed_off_at = none;
}

abbrev pub a_standard : QcStandard
a_standard = record {
  order_id = 10;
  fabric_defect_limits = some (("hole", 1) ∷ []);
  size_deviation_limits = none;
  color_difference_tolerance = none;
}

abbrev pub session : String → Db
session status = record empty {
  projects = (project, record { tenant_id = some tenant; title = none; status = "ACTIVE" }) ∷ [];
  orders = (10, an_order status) ∷ [];
  approvals = (5, granted) ∷ [];
  qc_standards = (30, a_standard) ∷ [];
}

abbrev pub an_inspection : ℕ → Inspection
an_inspection holes = record {
  fabric_defects = ("hole", holes) ∷ [];
  label_compliance = none;
  packaging_compliance = none;
  size_deviation = [];
  color_difference = [];
}

abbrev pub new_ids : NewIds
new_ids = record { qc_record = 40; incident = 50; alert = 60 }

abbrev pub an_incident : QualityIncident
an_incident = record {
  order_id = 10;
  qc_record_id = none;
  responsible_participant_id = 9;
  incident_type = "QC_FAILURE";
  description = [];
}

abbrev pub a_shipment : Shipment
a_shipment = record {
  order_id = 10;
  logistics_provider_participant_id = none;
  carrier = none;
  tracking_number = none;
  trade_term = none;
  origin = none;
  destination = none;
  estimated_departure_date = none;
  estimated_arrival_date = none;
  actual_arrival_date = none;
}
