-- ===== src/Monitoring/Service.antt =====
-- src/production_monitoring/service.py. The reforecast that `run_delay_prediction` ends with, and
-- whose errors it ignores, is left out.
use abcd_yi.Prelude.{ℕ, String, true, Option, none, some, [], ◌∷◌, ◌==◌, if◌then◌else◌}
use abcd_yi.Prelude.Exec.{Exec, http, pure, gets, or_raise, modify, ◌>>=◌, ◌>>◌}
use abcd_yi.Prelude.Table.{find, put, select}
use abcd_yi.Db.{
  Db, Order, Milestone, ExpediteAlert, ProductionMonitoringPacket, DynamicOrderFormVersion, Json,
  Payload, emit_event, order_belongs_to_tenant,
}
use abcd_yi.Approvals.{Purpose, create_approval_request, require_approved}
use abcd_yi.Monitoring.Predict.{Prediction, predict_completion_date}

abbrev deadline_of : Option DynamicOrderFormVersion → Option ℕ
deadline_of none = none
deadline_of (some v) = v.fields.delivery_deadline

-- _load_form_fields, of which only the deadline is read
unfoldable pub load_deadline : Order → Db → Option ℕ
load_deadline order db = elim order.locked_form_version_id [
  | none ↦ none
  | some v ↦ deadline_of (find v db.form_versions)
]

abbrev pub notifying : ℕ → ℕ → Purpose
notifying tenant_id alert_id = record {
  tenant_id = tenant_id;
  action_type = "EXPEDITE_NOTIFY";
  resource_type = "expedite_alert";
  resource_id = alert_id;
}

abbrev packet_of : ℕ → Prediction → ProductionMonitoringPacket
packet_of order_id p = record {
  order_id = order_id;
  standard_completion_date = p.standard_completion_date;
  predicted_completion_date = p.predicted_completion_date;
  delay_risk_level = p.delay_risk_level;
  responsible_participant_id = p.responsible_participant_id;
  delayed_milestones = p.delayed_milestones;
  recommended_action = p.recommended;
  expedite_alert_required = p.expedite_alert_required;
  human_approval_required = true;
}

abbrev pub drafted_alert : ℕ → ℕ → Prediction → ExpediteAlert
drafted_alert order_id packet_id p = record {
  order_id = order_id;
  monitoring_packet_id = some packet_id;
  target_participant_id = p.responsible_participant_id;
  status = "DRAFT";
  human_approved_by = none;
  human_approved_at = none;
  sent_at = none;
}

log_monitoring : ℕ → String → Payload → ℕ → ℕ → ℕ → Exec Db (Unit {0})
unfolding emit_event
log_monitoring now event_type payload tenant_id order_id user_id = emit_event (record {
  tenant_id = tenant_id;
  project_id = none;
  order_id = some order_id;
  participant_id = none;
  event_type = event_type;
  payload = payload;
  triggered_by_user_id = some user_id;
  occurred_at = now;
})

-- The ids of the rows that `run_delay_prediction` may add.
pub record MonitoringIds : Type 0 where
  pub packet : ℕ
  pub alert : ℕ
  pub approval : ℕ

-- `if prediction["expedite_alert_required"]:`
unfoldable pub draft_alert : ℕ → MonitoringIds → ℕ → Prediction → ℕ → ℕ → Exec Db (Unit {0})
unfolding log_monitoring
draft_alert now ids order_id p tenant_id user_id = do
  modify (λ (db : Db). record db {
    expedite_alerts = put ids.alert (drafted_alert order_id ids.packet p) db.expedite_alerts;
  })
  create_approval_request ids.approval (notifying tenant_id ids.alert)
      (("alert_id", Json.key ids.alert)
        ∷ ("order_id", Json.key order_id)
        ∷ ("delay_risk_level", Json.text p.delay_risk_level)
        ∷ ("recommended_action", Json.text p.recommended)
        ∷ [])
      p.responsible_participant_id [] [] (some user_id)
  log_monitoring now "EXPEDITE_ALERT_CREATED"
      (("alert_id", Json.key ids.alert) ∷ ("order_id", Json.key order_id) ∷ []) tenant_id order_id
      user_id

unfoldable pub run_delay_prediction :
    ℕ → MonitoringIds → ℕ → ℕ → ℕ → Exec Db ProductionMonitoringPacket
unfolding log_monitoring
run_delay_prediction now ids order_id tenant_id user_id = do
  found ← gets (λ (db : Db). find order_id db.orders)
  order ← or_raise found (http 404)
  deadline ← gets (load_deadline order)
  milestones ← gets (λ (db : Db). select (λ (m : Milestone). m.order_id == order_id) db.milestones)
  let p = predict_completion_date milestones deadline
  modify (λ (db : Db). record db {
    monitoring_packets = put ids.packet (packet_of order_id p) db.monitoring_packets;
  })
  (if p.expedite_alert_required then draft_alert now ids order_id p tenant_id user_id else pure tt)
  log_monitoring now "PRODUCTION_DELAY_PREDICTED"
      (("order_id", Json.key order_id)
        ∷ ("delay_risk_level", Json.text p.delay_risk_level)
        ∷ ("expedite_alert_required", Json.flag p.expedite_alert_required)
        ∷ [])
      tenant_id order_id user_id
  pure (packet_of order_id p)

abbrev owned_alert : ℕ → ℕ → Db → Option ExpediteAlert
owned_alert alert_id tenant_id db = elim (find alert_id db.expedite_alerts) [
  | none ↦ none
  | some a ↦ if order_belongs_to_tenant db a.order_id tenant_id then some a else none
]

abbrev pub sent_alert : ℕ → ℕ → ExpediteAlert → ExpediteAlert
sent_alert now user_id a = record a {
  status = "SENT";
  human_approved_by = some user_id;
  human_approved_at = some now;
  sent_at = some now;
}

-- What `send_expedite_alert` does behind its guard.
unfoldable pub notify : ℕ → ℕ → ℕ → ℕ → Exec Db ExpediteAlert
unfolding log_monitoring
notify now alert_id tenant_id user_id = do
  found ← gets (owned_alert alert_id tenant_id)
  alert ← or_raise found (http 404)
  let sent = sent_alert now user_id alert
  modify (λ (db : Db). record db { expedite_alerts = put alert_id sent db.expedite_alerts })
  log_monitoring now "EXPEDITE_ALERT_APPROVED"
      (("alert_id", Json.key alert_id) ∷ ("order_id", Json.key alert.order_id) ∷ []) tenant_id
      alert.order_id user_id
  pure sent

unfoldable pub send_expedite_alert : ℕ → ℕ → ℕ → ℕ → ℕ → Exec Db ExpediteAlert
send_expedite_alert now alert_id approval_id tenant_id user_id = do
  require_approved now approval_id (notifying tenant_id alert_id)
  notify now alert_id tenant_id user_id
