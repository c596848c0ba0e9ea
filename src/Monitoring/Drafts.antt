-- ===== src/Monitoring/Drafts.antt =====
-- A prediction drafts an alert and asks for its approval; it never sends one.
use abcd_yi.Prelude.{ℕ, true, false, none, some, [], ◌∷◌, ◌≡◌, refl, arith, ◌==◌}
use abcd_yi.Prelude.Exec.{◌>>=◌}
use abcd_yi.Prelude.Table.{find, select, find-put_self}
use abcd_yi.Db.{Db, Order, Milestone, ApprovalRequest, Json, emit_event}
use abcd_yi.Approvals.{IsPending, is_valid_action, create_approval_request}
use abcd_yi.Monitoring.Predict.{Prediction, predict_completion_date}
use abcd_yi.Monitoring.Service.{
  MonitoringIds, load_deadline, draft_alert, drafted_alert, notifying, run_delay_prediction,
}

abbrev pub predicted : ℕ → Order → Db → Prediction
predicted order_id o db =
    predict_completion_date (select (λ (m : Milestone). m.order_id == order_id) db.milestones)
      (load_deadline o db)

known_action : is_valid_action "EXPEDITE_NOTIFY" ≡ true
unfolding is_valid_action
known_action = refl

abbrev asked_row : MonitoringIds → ℕ → ℕ → ℕ → Prediction → ApprovalRequest
asked_row ids order_id tenant user p = record {
  tenant_id = tenant;
  action_type = "EXPEDITE_NOTIFY";
  resource_type = "expedite_alert";
  resource_id = ids.alert;
  proposed_payload =
      ("alert_id", Json.key ids.alert)
      ∷ ("order_id", Json.key order_id)
      ∷ ("delay_risk_level", Json.text p.delay_risk_level)
      ∷ ("recommended_action", Json.text p.recommended)
      ∷ [];
  affected_participant_id = p.responsible_participant_id;
  evidence = [];
  risk_flags = [];
  status = "PENDING";
  reviewed_by = none;
  reviewed_at = none;
  review_notes = "";
  consumed_at = none;
  created_by = some user;
}

module _ (now : ℕ) (ids : MonitoringIds) (id : ℕ) (tenant user : ℕ) (db : Db) (o : Order)
    (f : find id db.orders ≡ some o) where
  drafted :
      (predicted id o db).expedite_alert_required ≡ true
      → (find ids.alert (run_delay_prediction now ids id tenant user db).1.expedite_alerts
          ≡ some (drafted_alert id ids.packet (predicted id o db)))
        × (find ids.approval (run_delay_prediction now ids id tenant user db).1.approvals
            ≡ some (asked_row ids id tenant user (predicted id o db)))
  unfolding run_delay_prediction draft_alert create_approval_request emit_event ◌>>=◌
  drafted h = grind (arith, find-put_self, known_action)

  drafts_nothing :
      (predicted id o db).expedite_alert_required ≡ false
      → ((run_delay_prediction now ids id tenant user db).1.expedite_alerts ≡ db.expedite_alerts)
        × ((run_delay_prediction now ids id tenant user db).1.approvals ≡ db.approvals)
  unfolding run_delay_prediction ◌>>=◌
  drafts_nothing h = ground arith

  -- Where the predicted delay calls for an alert, the order gets one as a DRAFT, with a pending
  -- approval for sending exactly it; where it does not, no alert and no approval is written.
  pub run_delay_prediction_drafts :
      ((predicted id o db).expedite_alert_required ≡ true
        → (find ids.alert (run_delay_prediction now ids id tenant user db).1.expedite_alerts
            ≡ some (drafted_alert id ids.packet (predicted id o db)))
          × IsPending ids.approval
              (notifying tenant ids.alert)
              (run_delay_prediction now ids id tenant user db).1)
      × ((predicted id o db).expedite_alert_required ≡ false
          → ((run_delay_prediction now ids id tenant user db).1.expedite_alerts
              ≡ db.expedite_alerts)
            × ((run_delay_prediction now ids id tenant user db).1.approvals ≡ db.approvals))
  run_delay_prediction_drafts = (
    (λ h.
        let (alert, row) = drafted h in
        (
          alert,
          record {
            row = asked_row ids id tenant user (predicted id o db);
            found = row;
            pending = refl;
            unconsumed = refl;
            tenant = refl;
            action = refl;
            type = refl;
            resource = refl;
          },
        )),
    drafts_nothing,
  )
