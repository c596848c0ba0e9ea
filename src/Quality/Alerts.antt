-- ===== src/Quality/Alerts.antt =====
-- When a participant's incidents raise an alert, and how many alerts await a review.
use abcd_yi.Prelude.{
  ℕ, ◌+◌, ◌≤◌, ◌<◌, ◌∙◌, ap, String, false, Option, none, some, [], ◌∷◌, ◌++◌, ◌≡◌, ◌≢◌, ◌⊎◌, refl,
  arith, str_eq, ◌==◌, length, inl, inr, Option-cases,
}
use abcd_yi.Prelude.Exec.{ok, state-then_pure, ◌>>=◌}
use abcd_yi.Prelude.Table.{find, put, length-select-put_new, length-select-put_old, find-put_self}
use abcd_yi.Db.{Db, Json, QualityIncident}
use abcd_yi.Quality.Service.{
  replacement_threshold, count_incidents, is_active, active_alerts, some_or, pending_alert,
  check_and_trigger_replacement_alert, review_replacement_alert, create_quality_incident,
}

abbrev pub IsFresh : ℕ → Db → Type 0
IsFresh id db = find id db.replacement_alerts ≡ none

-- At most one alert of a participant awaits its review.
abbrev pub AtMostOne : Db → Type 0
AtMostOne db = (participant : ℕ) → length (active_alerts participant db) ≤ 1

abbrev pub counted : Option ℕ → ℕ → Db → ℕ
counted count participant db = some_or count (count_incidents participant db)

check-AtMostOne :
    (now alert_id participant : ℕ) (project : Option ℕ) (tenant : ℕ) (count : Option ℕ) (db : Db)
    → IsFresh alert_id db
    → AtMostOne db
    → AtMostOne
        (check_and_trigger_replacement_alert now alert_id participant project tenant count db).1
unfolding check_and_trigger_replacement_alert active_alerts ◌>>=◌
check-AtMostOne now alert_id participant project tenant count db fresh inv k =
    let alert = pending_alert participant project (counted count participant db) in
    ground (
      arith,
      inv k,
      inv participant,
      length-select-put_new (is_active k) alert_id alert db.replacement_alerts,
    )

-- The session when a new incident has been added and announced.
with_incident : ℕ → ℕ → QualityIncident → ℕ → Db → Db
with_incident now new_id i tenant db =
    let added = record db { incidents = put new_id i db.incidents } in
    record added {
      events =
          db.events
          ++ record {
            tenant_id = tenant;
            project_id = none;
            order_id = some i.order_id;
            participant_id = some i.responsible_participant_id;
            event_type = "QUALITY_INCIDENT_CREATED";
            payload =
                ("incident_id", Json.key new_id)
                ∷ ("responsible_participant_id", Json.key i.responsible_participant_id)
                ∷ (
                  "total_incident_count",
                  Json.number (count_incidents i.responsible_participant_id added),
                )
                ∷ [];
            triggered_by_user_id = none;
            occurred_at = now;
          }
            ∷ [];
    }

incident_state :
    (now new_id alert_id : ℕ) (i : QualityIncident) (tenant : ℕ) (db : Db)
    → let p = i.responsible_participant_id in
      let mid = with_incident now new_id i tenant db in
      (create_quality_incident now new_id alert_id i tenant db).1
      ≡ (check_and_trigger_replacement_alert now alert_id p none tenant
          (some (count_incidents p mid))
          mid).1
unfolding create_quality_incident ◌>>=◌ count_incidents with_incident
incident_state now new_id alert_id i tenant db =
    state-then_pure
      (check_and_trigger_replacement_alert now alert_id i.responsible_participant_id none tenant _)
      i _

-- If each participant has at most one alert under review, then a new incident, with a fresh id for
-- its alert, keeps it so.
pub create_quality_incident-AtMostOne :
    (now new_id alert_id : ℕ) (i : QualityIncident) (tenant : ℕ) (db : Db)
    → IsFresh alert_id db
    → AtMostOne db
    → AtMostOne (create_quality_incident now new_id alert_id i tenant db).1
unfolding with_incident active_alerts
create_quality_incident-AtMostOne now new_id alert_id i tenant db fresh inv k = rw incident_state (
    check-AtMostOne now alert_id i.responsible_participant_id none tenant _
      (with_incident now new_id i tenant db) fresh inv k)

-- A review with a decision other than PENDING_REVIEW leaves each participant with at most one alert
-- under review.
pub review-AtMostOne :
    (now alert_id : ℕ) (decision : String) (by : ℕ) (db : Db)
    → str_eq decision "PENDING_REVIEW" ≡ false
    → AtMostOne db
    → AtMostOne (review_replacement_alert now alert_id decision by db).1
unfolding review_replacement_alert active_alerts ◌>>=◌
review-AtMostOne now alert_id decision by db decided inv k =
    elim (Option-cases (find alert_id db.replacement_alerts)) [
      | inl e ↦ rw e (inv k)
      | inr (q, e) ↦
          let r = record q { status = decision; reviewed_by = some by; reviewed_at = some now } in
          rw e (
            ground (
              arith,
              inv k,
              length-select-put_old (is_active k) alert_id r q db.replacement_alerts e,
            ))
    ]

-- A participant with three incidents or more and no alert under review gets one alert, with that
-- count; otherwise nothing is added.
pub check_and_trigger_exact :
    (now alert_id participant : ℕ) (project : Option ℕ) (tenant : ℕ) (count : Option ℕ) (db : Db)
    → let out =
        check_and_trigger_replacement_alert now alert_id participant project tenant count db in
      let n = counted count participant db in
      ((replacement_threshold ≤ n)
        × (active_alerts participant db ≡ [])
        × (out.0 ≡ ok (some (pending_alert participant project n)))
        × (find alert_id out.1.replacement_alerts ≡ some (pending_alert participant project n)))
      ⊎ (((n < replacement_threshold) ⊎ (active_alerts participant db ≢ []))
          × (out ≡ (ok none, db)))
unfolding check_and_trigger_replacement_alert ◌>>=◌
check_and_trigger_exact now alert_id participant project tenant count db = ground (
  arith,
  find-put_self alert_id (pending_alert participant project (counted count participant db))
      db.replacement_alerts,
)

check-one :
    (now alert_id participant : ℕ) (project : Option ℕ) (tenant : ℕ) (count : Option ℕ) (db : Db)
    → IsFresh alert_id db
    → AtMostOne db
    → replacement_threshold ≤ counted count participant db
    → length (
        active_alerts participant
          (check_and_trigger_replacement_alert now alert_id participant project tenant count db).1)
      ≡ 1
unfolding check_and_trigger_replacement_alert active_alerts ◌>>=◌
check-one now alert_id participant project tenant count db fresh inv many =
    let alert = pending_alert participant project (counted count participant db) in
    ground (
      arith,
      inv participant,
      length-select-put_new (is_active participant) alert_id alert db.replacement_alerts,
    )

incidents_kept :
    (now alert_id participant : ℕ) (project : Option ℕ) (tenant : ℕ) (count : Option ℕ) (db : Db)
    → (check_and_trigger_replacement_alert now alert_id participant project tenant count
        db).1.incidents
      ≡ db.incidents
unfolding check_and_trigger_replacement_alert ◌>>=◌
incidents_kept now alert_id participant project tenant count db = ground arith

count-incident :
    (now new_id alert_id : ℕ) (i : QualityIncident) (tenant : ℕ) (db : Db)
    → find new_id db.incidents ≡ none
    → let p = i.responsible_participant_id in
      count_incidents p (with_incident now new_id i tenant db) ≡ count_incidents p db + 1
unfolding count_incidents with_incident
count-incident now new_id alert_id i tenant db new =
    let p = i.responsible_participant_id in
    ground (
      arith,
      length-select-put_new (λ (q : QualityIncident). q.responsible_participant_id == p) new_id i
          db.incidents new,
    )

count_of_incidents :
    (p : ℕ) (a b : Db) → a.incidents ≡ b.incidents → count_incidents p a ≡ count_incidents p b
unfolding count_incidents
count_of_incidents p a b e = rw e refl

check_below :
    (now alert_id participant : ℕ) (project : Option ℕ) (tenant : ℕ) (count : Option ℕ) (db : Db)
    → counted count participant db < replacement_threshold
    → (check_and_trigger_replacement_alert now alert_id participant project tenant count db).1 ≡ db
unfolding check_and_trigger_replacement_alert ◌>>=◌
check_below now alert_id participant project tenant count db few = ground arith

-- Where each participant has at most one alert under review and the ids of the incident and of its
-- alert are free, a new incident counts once; from the third incident of the participant on, exactly
-- one of its alerts awaits a review, and before that the alerts are as they were.
pub create_quality_incident_alerts :
    (now new_id alert_id : ℕ) (i : QualityIncident) (tenant : ℕ) (db : Db)
    → find new_id db.incidents ≡ none
    → IsFresh alert_id db
    → AtMostOne db
    → let p = i.responsible_participant_id in
      let db' = (create_quality_incident now new_id alert_id i tenant db).1 in
      (count_incidents p db' ≡ count_incidents p db + 1)
      × (2 ≤ count_incidents p db → length (active_alerts p db') ≡ 1)
      × (count_incidents p db < 2 → db'.replacement_alerts ≡ db.replacement_alerts)
unfolding with_incident active_alerts
create_quality_incident_alerts now new_id alert_id i tenant db new fresh inv =
    let p = i.responsible_participant_id in
    let mid = with_incident now new_id i tenant db in
    let n = some (count_incidents p mid) in
    let one = count-incident now new_id alert_id i tenant db new in
    rw incident_state (
      count_of_incidents p _ mid (incidents_kept now alert_id p none tenant n mid) ∙ one,
      (λ many. check-one now alert_id p none tenant n mid fresh inv (omega (arith, one, many))),
      (λ few.
          ap (λ (d : Db). d.replacement_alerts)
            (check_below now alert_id p none tenant n mid (omega (arith, one, few)))),
    )

check_orders :
    (now alert_id participant : ℕ) (project : Option ℕ) (tenant : ℕ) (count : Option ℕ) (db : Db)
    → (check_and_trigger_replacement_alert now alert_id participant project tenant count
        db).1.orders
      ≡ db.orders
unfolding check_and_trigger_replacement_alert ◌>>=◌
check_orders now alert_id participant project tenant count db = ground arith

-- An incident touches no order.
pub incident_orders :
    (now new_id alert_id : ℕ) (i : QualityIncident) (tenant : ℕ) (db : Db)
    → (create_quality_incident now new_id alert_id i tenant db).1.orders ≡ db.orders
unfolding with_incident
incident_orders now new_id alert_id i tenant db = rw incident_state (
    check_orders now alert_id i.responsible_participant_id none tenant _
      (with_incident now new_id i tenant db))

check_qc_records :
    (now alert_id participant : ℕ) (project : Option ℕ) (tenant : ℕ) (count : Option ℕ) (db : Db)
    → (check_and_trigger_replacement_alert now alert_id participant project tenant count
        db).1.qc_records
      ≡ db.qc_records
unfolding check_and_trigger_replacement_alert ◌>>=◌
check_qc_records now alert_id participant project tenant count db = ground arith

-- An incident touches no record of an inspection.
pub incident_qc_records :
    (now new_id alert_id : ℕ) (i : QualityIncident) (tenant : ℕ) (db : Db)
    → (create_quality_incident now new_id alert_id i tenant db).1.qc_records ≡ db.qc_records
unfolding with_incident
incident_qc_records now new_id alert_id i tenant db = rw incident_state (
    check_qc_records now alert_id i.responsible_participant_id none tenant _
      (with_incident now new_id i tenant db))
