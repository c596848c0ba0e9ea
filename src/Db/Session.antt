-- ===== src/Db/Session.antt =====
-- The state of a database session, and src/execution_graph/writer.py.
use abcd_yi.Prelude.{List, [], ◌∷◌, ◌++◌}
use abcd_yi.Prelude.Table.{Table}
use abcd_yi.Prelude.Exec.{Exec, modify}
use abcd_yi.Db.Rows.{
  ApprovalRequest, AuditLog, ExecutionEvent, Project, DecisionPacket, Order, Milestone,
  ProductionUpdate, ExpediteAlert, QualityIncident, ReplacementAlert, Shipment,
  ShipmentTrackingEvent, QcRecord, QcStandard,
}
use abcd_yi.Db.Sourcing.{
  Rfq, RfqRecipient, DecisionOption, DynamicOrderForm, DynamicOrderFormVersion, OrderLine,
  ProductionMonitoringPacket, SupplierMemoryRecord,
}

pub record Db : Type 0 where
  pub projects : Table Project
  pub approvals : Table ApprovalRequest
  pub packets : Table DecisionPacket
  pub options : Table DecisionOption
  pub forms : Table DynamicOrderForm
  pub form_versions : Table DynamicOrderFormVersion
  pub rfqs : Table Rfq
  pub rfq_recipients : Table RfqRecipient
  pub orders : Table Order
  pub monitoring_packets : Table ProductionMonitoringPacket
  pub milestones : Table Milestone
  pub expedite_alerts : Table ExpediteAlert
  pub shipments : Table Shipment
  pub qc_standards : Table QcStandard
  pub qc_records : Table QcRecord
  pub incidents : Table QualityIncident
  pub replacement_alerts : Table ReplacementAlert
  pub supplier_memory : List SupplierMemoryRecord
  pub order_lines : List OrderLine
  pub tracking_events : List ShipmentTrackingEvent
  pub production_updates : List ProductionUpdate
  pub audit_logs : List AuditLog
  pub events : List ExecutionEvent

abbrev pub empty : Db
empty = record {
  projects = [];
  approvals = [];
  packets = [];
  options = [];
  forms = [];
  form_versions = [];
  rfqs = [];
  rfq_recipients = [];
  orders = [];
  monitoring_packets = [];
  supplier_memory = [];
  order_lines = [];
  milestones = [];
  expedite_alerts = [];
  shipments = [];
  qc_records = [];
  qc_standards = [];
  incidents = [];
  replacement_alerts = [];
  tracking_events = [];
  production_updates = [];
  audit_logs = [];
  events = [];
}

-- The new event stands behind all earlier ones.
unfoldable pub emit_event : ExecutionEvent → Exec Db (Unit {0})
emit_event e = modify (λ (db : Db). record db { events = db.events ++ e ∷ [] })
