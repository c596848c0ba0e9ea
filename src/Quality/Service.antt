-- ===== src/Quality/Service.antt =====
-- `new_id` and `alert_id` are the UUIDs of the rows that a call may add; descriptions are the lines
-- that they are joined from.
use abcd_yi.Prelude.{
  ℕ, String, Bool, true, false, Option, none, some, List, [], ◌∷◌, ◌&&◌, str_eq, ◌==◌, ltb, length,
  if◌then◌else◌,
}
use abcd_yi.Prelude.Exec.{Exec, http, pure, gets, or_raise, modify, ◌>>=◌, ◌>>◌}
use abcd_yi.Prelude.Table.{find, put, select}
use abcd_yi.Db.{Db, QualityIncident, ReplacementAlert, Json, emit_event}

abbrev pub replacement_threshold : ℕ
replacement_threshold = 3

-- select(func.count()).where(responsible_participant_id == participant_id)
unfoldable pub count_incidents : ℕ → Db → ℕ
count_incidents participant_id db =
    length (
      select (λ (i : QualityIncident). i.responsible_participant_id == participant_id) db.incidents)

abbrev pub is_active : ℕ → ReplacementAlert → Bool
is_active participant_id a = a.participant_id == participant_id && str_eq a.status "PENDING_REVIEW"

unfoldable pub active_alerts : ℕ → Db → List ReplacementAlert
active_alerts participant_id db = select (is_active participant_id) db.replacement_alerts

abbrev pub some_or : Option ℕ → ℕ → ℕ
some_or none n = n
some_or (some k) n = k

abbrev is_nil : List ReplacementAlert → Bool
is_nil [] = true
is_nil (_ ∷ _) = false

-- `trigger_reason` prints the count and the threshold, which the row has.
abbrev pub pending_alert : ℕ → Option ℕ → ℕ → ReplacementAlert
pending_alert participant_id project_id count = record {
  participant_id = participant_id;
  project_id = project_id;
  quality_issue_count = count;
  status = "PENDING_REVIEW";
  reviewed_by = none;
  reviewed_at = none;
}

raise_alert : ℕ → ℕ → ReplacementAlert → ℕ → Exec Db (Option ReplacementAlert)
unfolding emit_event
raise_alert now alert_id alert tenant_id = do
  modify (λ (db : Db). record db { replacement_alerts = put alert_id alert db.replacement_alerts })
  emit_event (record {
    tenant_id = tenant_id;
    project_id = none;
    order_id = none;
    participant_id = some alert.participant_id;
    event_type = "REPLACEMENT_ALERT_CREATED";
    payload =
        ("alert_id", Json.key alert_id)
        ∷ ("participant_id", Json.key alert.participant_id)
        ∷ ("quality_issue_count", Json.number alert.quality_issue_count)
        ∷ [];
    triggered_by_user_id = none;
    occurred_at = now;
  })
  pure (some alert)

unfoldable pub check_and_trigger_replacement_alert :
    ℕ → ℕ → ℕ → Option ℕ → ℕ → Option ℕ → Exec Db (Option ReplacementAlert)
unfolding raise_alert
check_and_trigger_replacement_alert now alert_id participant_id project_id tenant_id current_count =
    do
      counted ← gets (count_incidents participant_id)
      let count = some_or current_count counted
      active ← gets (active_alerts participant_id)
      let alert = pending_alert participant_id project_id count
      (if ltb count replacement_threshold
          then pure none
          else if is_nil active
          then raise_alert now alert_id alert tenant_id
          else pure none)

unfoldable pub review_replacement_alert : ℕ → ℕ → String → ℕ → Exec Db ReplacementAlert
review_replacement_alert now alert_id decision reviewed_by = do
  found ← gets (λ (db : Db). find alert_id db.replacement_alerts)
  alert ← or_raise found (http 404)
  let alert' = record alert {
    status = decision;
    reviewed_by = some reviewed_by;
    reviewed_at = some now;
  }
  modify (λ (db : Db). record db { replacement_alerts = put alert_id alert' db.replacement_alerts })
  pure alert'

unfoldable pub create_quality_incident : ℕ → ℕ → ℕ → QualityIncident → ℕ → Exec Db QualityIncident
unfolding emit_event
create_quality_incident now new_id alert_id incident tenant_id = do
  modify (λ (db : Db). record db { incidents = put new_id incident db.incidents })
  let participant_id = incident.responsible_participant_id
  total ← gets (count_incidents participant_id)
  emit_event (record {
    tenant_id = tenant_id;
    project_id = none;
    order_id = some incident.order_id;
    participant_id = some participant_id;
    event_type = "QUALITY_INCIDENT_CREATED";
    payload =
        ("incident_id", Json.key new_id)
        ∷ ("responsible_participant_id", Json.key participant_id)
        ∷ ("total_incident_count", Json.number total)
        ∷ [];
    triggered_by_user_id = none;
    occurred_at = now;
  })
  check_and_trigger_replacement_alert now alert_id participant_id none tenant_id (some total)
  pure incident
