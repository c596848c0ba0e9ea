-- ===== src/Examples/Delays.antt =====
-- A milestone that is predicted to be late, and the alert that follows.
use abcd_yi.Prelude.{ℕ, ◌+◌, none, some, [], ◌∷◌, ◌≡◌, ◌↔◌, refl, true}
use abcd_yi.Prelude.Exec.{ok, ◌>>=◌}
use abcd_yi.Prelude.Table.{find, put}
use abcd_yi.Db.{Db, Milestone, ExpediteAlert, ApprovalRequest, order_belongs_to_tenant, emit_event}
use abcd_yi.Approvals.{Grants, require_approved}
use abcd_yi.Monitoring.{
  MonitoringIds, MilestoneChange, predict_completion_date, expedite_iff, HasFrom, remaining_dates,
  send_expedite_alert, notify, notifying, send_expedite_alert-Grants, sent_alert,
}
use abcd_yi.Examples.Data.{an_order, granted, session, tenant, user}

abbrev sewing : Milestone
sewing = record {
  order_id = 10;
  milestone_type = "SEWING";
  planned_date = some 1000000;
  predicted_date = none;
  actual_date = none;
  status = "IN_PROGRESS";
  responsible_participant_id = some 9;
  notes = none;
}

abbrev an_alert : ExpediteAlert
an_alert = record {
  order_id = 10;
  monitoring_packet_id = none;
  target_participant_id = some 9;
  status = "DRAFT";
  human_approved_by = none;
  human_approved_at = none;
  sent_at = none;
}

abbrev start : Db
start = record (session "IN_PRODUCTION") {
  milestones = (31, sewing) ∷ [];
  expedite_alerts = (61, an_alert) ∷ [];
  approvals =
      (
        5,
        record granted {
          action_type = "EXPEDITE_NOTIFY";
          resource_type = "expedite_alert";
          resource_id = 61;
        },
      )
      ∷ [];
}

abbrev late_change : MilestoneChange
late_change = record {
  status = some "COMPLETED";
  actual_date = none;
  predicted_date = some 2000000;
  notes = none;
  responsible_participant_id = none;
}

its_milestone : find 31 start.milestones ≡ some sewing
unfolding find
its_milestone = refl

expedite_iff_example :
    ((predict_completion_date (sewing ∷ []) (some 100000)).expedite_alert_required ≡ true)
    ↔ ((d : ℕ) × (some 100000 ≡ some d) × HasFrom (d + 691200) (remaining_dates (sewing ∷ [])))
expedite_iff_example = expedite_iff (sewing ∷ []) (some 100000)

notified : (send_expedite_alert 100 61 5 tenant user start).0 ≡ ok (sent_alert 100 user an_alert)
unfolding send_expedite_alert notify require_approved order_belongs_to_tenant find put emit_event
    ◌>>=◌
notified = refl

send_expedite_alert-Grants_example :
    (req : ApprovalRequest) × (a : ExpediteAlert) × (find 5 start.approvals ≡ some req)
    × Grants req (notifying tenant 61)
    × (find 61 start.expedite_alerts ≡ some a)
    × (order_belongs_to_tenant start a.order_id tenant ≡ true)
    × (find 61 (send_expedite_alert 100 61 5 tenant user start).1.expedite_alerts
        ≡ some (sent_alert 100 user a))
send_expedite_alert-Grants_example =
    send_expedite_alert-Grants 100 61 5 tenant user start (sent_alert 100 user an_alert) notified

abbrev monitoring_ids : MonitoringIds
monitoring_ids = record { packet = 71; alert = 72; approval = 73 }

its_order : find 10 start.orders ≡ some (an_order "IN_PRODUCTION")
unfolding find
its_order = refl
