-- ===== src/Qc/Service.antt =====
-- src/qc/service.py: the result of an inspection, and what it makes of the order. The columns of a
-- record that only store what the inspector sent are left out.
use abcd_yi.Prelude.{
  ℕ, String, true, false, Option, none, some, List, [], ◌∷◌, str_eq, ◌==◌, map, if◌then◌else◌,
}
use abcd_yi.Prelude.Exec.{Exec, http, pure, gets, lift, or_raise, modify, ◌>>=◌, ◌>>◌}
use abcd_yi.Prelude.Table.{find, put, matches, one_or_none}
use abcd_yi.Db.{Db, Order, QcRecord, QcStandard, Json, Payload}
use abcd_yi.Orders.{move_order, log_event}
use abcd_yi.Quality.{create_quality_incident}
use abcd_yi.Qc.Evaluate.{Check, Inspection, Standard, Verdict, no_standard, evaluate_qc_record}

-- `limits or {}`
abbrev limits_or_empty : {A : Type 0} → Option (List (String × A)) → List (String × A)
limits_or_empty none = []
limits_or_empty (some d) = d

-- The limits of the order's standard; an order without one has none.
abbrev pub std_dict : Option (ℕ × QcStandard) → Standard
std_dict none = no_standard
std_dict (some (_, s)) = record {
  fabric_defect_limits = limits_or_empty s.fabric_defect_limits;
  size_deviation_limits = limits_or_empty s.size_deviation_limits;
  color_difference_tolerance = limits_or_empty s.color_difference_tolerance;
}

abbrev standard_id : Option (ℕ × QcStandard) → Option ℕ
standard_id none = none
standard_id (some (k, _)) = some k

-- What a failed check is called in a message.
abbrev pub check_name : Check → String
check_name (Check.fabric_defect name _ _) = name
check_name Check.label_compliance = "label_compliance"
check_name Check.packaging_compliance = "packaging_compliance"
check_name (Check.size_deviation name _) = name
check_name (Check.color_difference name _) = name

qc_payload : ℕ → ℕ → Payload
qc_payload qc_record_id order_id =
    ("qc_record_id", Json.key qc_record_id) ∷ ("order_id", Json.key order_id) ∷ []

-- The branch of `record_qc_result` for a passed inspection.
unfoldable pub qc_passed : ℕ → ℕ → ℕ → Order → ℕ → ℕ → Exec Db (Unit {0})
unfolding log_event qc_payload
qc_passed now record_id order_id order tenant_id user_id = do
  (if str_eq order.status "QC_PENDING"
      then (do
        passed ← move_order order_id order "QC_PASSED"
        move_order order_id passed "READY_TO_SHIP")
      else pure order)
  log_event now "QC_PASSED" (qc_payload record_id order_id) tenant_id none order_id user_id

-- The ids of the rows that `record_qc_result` may add.
pub record NewIds : Type 0 where
  pub qc_record : ℕ
  pub incident : ℕ
  pub alert : ℕ

-- `if responsible_participant_id: await create_quality_incident(...)`
unfoldable pub blame : ℕ → NewIds → ℕ → Option ℕ → List String → ℕ → Exec Db (Unit {0})
blame now ids order_id none reasons tenant_id = pure tt
blame now ids order_id (some participant) reasons tenant_id = do
  create_quality_incident now ids.incident ids.alert
      (record {
        order_id = order_id;
        qc_record_id = some ids.qc_record;
        responsible_participant_id = participant;
        incident_type = "QC_FAILURE";
        description = reasons;
      })
      tenant_id
  pure tt

-- The branch for a failed inspection.
unfoldable pub qc_failed :
    ℕ → NewIds → ℕ → Order → Option ℕ → List String → ℕ → ℕ → Exec Db (Unit {0})
unfolding log_event
qc_failed now ids order_id order participant reasons tenant_id user_id = do
  (if str_eq order.status "QC_PENDING" then move_order order_id order "QC_FAILED" else pure order)
  log_event now "QC_FAILED"
      (("qc_record_id", Json.key ids.qc_record)
        ∷ ("order_id", Json.key order_id)
        ∷ ("failure_reasons", Json.texts reasons)
        ∷ [])
      tenant_id none order_id user_id
  blame now ids order_id participant reasons tenant_id

-- The move of the order and the events that follow from the evaluation.
unfoldable pub conclude : ℕ → NewIds → ℕ → Order → Verdict → Option ℕ → ℕ → ℕ → Exec Db (Unit {0})
conclude now ids order_id order evaluation responsible tenant_id user_id =
    if str_eq evaluation.result "QC_PASSED"
    then qc_passed now ids.qc_record order_id order tenant_id user_id
    else qc_failed now ids order_id order responsible (map check_name evaluation.failure_reasons)
        tenant_id user_id

-- The record is added and announced.
unfoldable pub add_qc_record : ℕ → ℕ → ℕ → QcRecord → ℕ → ℕ → Exec Db (Unit {0})
unfolding log_event qc_payload
add_qc_record now record_id order_id qc_record tenant_id user_id = do
  modify (λ (db : Db). record db { qc_records = put record_id qc_record db.qc_records })
  log_event now "QC_RECORD_RECEIVED" (qc_payload record_id order_id) tenant_id none order_id user_id

abbrev pub evaluated : ℕ → ℕ → Verdict → Option (ℕ × QcStandard) → Option ℕ → Option ℕ → QcRecord
evaluated now order_id evaluation qc_standard responsible inspector = record {
  order_id = order_id;
  qc_standard_id = standard_id qc_standard;
  inspector_participant_id = inspector;
  result = evaluation.result;
  rework_required = evaluation.rework_required;
  responsible_participant_id = responsible;
  inspected_at = some now;
}

unfoldable pub record_qc_result :
    ℕ → NewIds → ℕ → Inspection → Option ℕ → Option ℕ → ℕ → ℕ → Exec Db QcRecord
record_qc_result now ids order_id qc_data responsible inspector tenant_id user_id = do
  found ← gets (λ (db : Db). find order_id db.orders)
  order ← or_raise found (http 404)
  standards ←
      gets (λ (db : Db). matches (λ (s : QcStandard). s.order_id == order_id) db.qc_standards)
  qc_standard ← lift (one_or_none standards)
  evaluation ← lift (evaluate_qc_record qc_data (std_dict qc_standard))
  let qc_record = evaluated now order_id evaluation qc_standard responsible inspector
  add_qc_record now ids.qc_record order_id qc_record tenant_id user_id
  conclude now ids order_id order evaluation responsible tenant_id user_id
  pure qc_record

unfoldable pub mark_qc_pass : ℕ → ℕ → Exec Db QcRecord
mark_qc_pass qc_record_id user_id = do
  found ← gets (λ (db : Db). find qc_record_id db.qc_records)
  r ← or_raise found (http 404)
  let marked = record r { result = "QC_PASSED"; rework_required = false }
  modify (λ (db : Db). record db { qc_records = put qc_record_id marked db.qc_records })
  pure marked

unfoldable pub mark_qc_fail : ℕ → ℕ → ℕ → Exec Db QcRecord
mark_qc_fail qc_record_id responsible_participant_id user_id = do
  found ← gets (λ (db : Db). find qc_record_id db.qc_records)
  r ← or_raise found (http 404)
  let marked : QcRecord = record r {
    result = "QC_FAILED";
    rework_required = true;
    responsible_participant_id = some responsible_participant_id;
  }
  modify (λ (db : Db). record db { qc_records = put qc_record_id marked db.qc_records })
  pure marked
