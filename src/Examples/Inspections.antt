-- ===== src/Examples/Inspections.antt =====
-- Inspections that pass and fail, and the incidents that they leave.
use abcd_yi.Prelude.{◌+◌, ◌≤◌, ◌<◌, none, some, [], ◌∷◌, ◌≡◌, refl, arith, length, ◌==◌, ◌⊎◌, true}
use abcd_yi.Prelude.Exec.{ok}
use abcd_yi.Prelude.Table.{find, select, matches, one_or_none}
use abcd_yi.Db.{Db, QcRecord, QcStandard}
use abcd_yi.Quality.{
  count_incidents, active_alerts, create_quality_incident, create_quality_incident_alerts,
  create_quality_incident-AtMostOne, AtMostOne,
}
use abcd_yi.Qc.{
  Verdict, Check, Standard, Meets, run_checks, check_defects, check_flag, check_sizes, check_colors,
  get, evaluate_qc_record, record_qc_result, record_qc_result_decides, std_dict,
}
use abcd_yi.Examples.Data.{
  session, an_order, an_inspection, a_standard, an_incident, new_ids, tenant, user,
}

abbrev limits : Standard
limits = std_dict (some (30, a_standard))

abbrev failing : Verdict
failing = record {
  result = "QC_FAILED";
  failure_reasons = Check.fabric_defect "hole" 2 1 ∷ [];
  pass_criteria_met = [];
  rework_required = true;
}

its_verdict : evaluate_qc_record (an_inspection 2) limits ≡ ok failing
unfolding evaluate_qc_record run_checks check_defects check_flag check_sizes check_colors get
its_verdict = refl

abbrev waiting : Db
waiting = session "QC_PENDING"

its_order : find 10 waiting.orders ≡ some (an_order "QC_PENDING")
unfolding find
its_order = refl

its_standard :
    one_or_none (matches (λ (s : QcStandard). s.order_id == 10) waiting.qc_standards)
    ≡ ok (some (30, a_standard))
unfolding matches one_or_none
its_standard = refl

record_qc_result_decides_example :
    let db' =
      (record_qc_result 100 new_ids 10 (an_inspection 2) (some 9) none tenant user waiting).1 in
    (r : QcRecord) × (find 40 db'.qc_records ≡ some r)
    × (r.order_id ≡ 10)
    × ((Meets (an_inspection 2) limits
          × (find 10 db'.orders ≡ some (an_order "READY_TO_SHIP"))
          × (r.result ≡ "QC_PASSED"))
        ⊎ ((¬ Meets (an_inspection 2) limits)
            × (find 10 db'.orders ≡ some (an_order "QC_FAILED"))
            × (r.result ≡ "QC_FAILED")))
record_qc_result_decides_example =
    record_qc_result_decides 100 new_ids 10 (an_inspection 2) (some 9) none tenant user waiting
      (an_order "QC_PENDING") (some (30, a_standard)) failing its_order refl its_standard
      its_verdict

-- Two incidents of participant 9, and no alert yet.
abbrev blamed : Db
blamed = record waiting { incidents = (51, an_incident) ∷ (52, an_incident) ∷ [] }

no_alerts : AtMostOne blamed
unfolding active_alerts select
no_alerts k = ground arith

new_incident : find 50 blamed.incidents ≡ none
unfolding find
new_incident = refl

new_alert : find 60 blamed.replacement_alerts ≡ none
unfolding find
new_alert = refl

create_quality_incident_alerts_example :
    let db' = (create_quality_incident 100 50 60 an_incident tenant blamed).1 in
    (count_incidents 9 db' ≡ count_incidents 9 blamed + 1)
    × (2 ≤ count_incidents 9 blamed → length (active_alerts 9 db') ≡ 1)
    × (count_incidents 9 blamed < 2 → db'.replacement_alerts ≡ blamed.replacement_alerts)
create_quality_incident_alerts_example =
    create_quality_incident_alerts 100 50 60 an_incident tenant blamed new_incident new_alert
      no_alerts

create_quality_incident-AtMostOne_example :
    AtMostOne (create_quality_incident 100 50 60 an_incident tenant blamed).1
create_quality_incident-AtMostOne_example =
    create_quality_incident-AtMostOne 100 50 60 an_incident tenant blamed new_alert no_alerts
