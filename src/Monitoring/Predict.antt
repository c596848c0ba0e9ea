-- ===== src/Monitoring/Predict.antt =====
-- src/production_monitoring/delay_predictor.py. Dates are points in time in seconds, all of them in
-- UTC; the days of a difference are rounded down, also below zero.
use abcd_yi.Prelude.{
  ℕ, suc, ◌*◌, String, Bool, false, Option, none, some, List, [], ◌∷◌, ◌++◌, str_eq, ◌==◌, ◌||◌,
  ltb, leb, if◌then◌else◌,
}
use abcd_yi.Prelude.Int.{ℤ, pos, negsuc, floor_div_sub}
use abcd_yi.Db.{Milestone}

-- `a or b`
abbrev pub or_else : Option ℕ → Option ℕ → Option ℕ
or_else none b = b
or_else (some a) b = some a

-- What the loop over the milestones fills.
pub record Scan : Type 0 where
  pub predicted_dates : List ℕ
  pub delayed_milestones : List String
  pub responsible_participant_id : Option ℕ
  pub has_predicted_dates : ℕ
  pub total_remaining : ℕ

abbrev pub count_one : Option ℕ → ℕ → ℕ
count_one none n = n
count_one (some _) n = suc n

abbrev pub is_behind : Option ℕ → ℕ → Bool
is_behind none candidate = false
is_behind (some planned) candidate = ltb planned candidate

abbrev pub take_candidate : Milestone → Option ℕ → Scan → Scan
take_candidate m none s = s
take_candidate m (some candidate) s =
    let s' = record s { predicted_dates = s.predicted_dates ++ candidate ∷ [] } in
    if is_behind m.planned_date candidate
    then record s' {
      delayed_milestones = s.delayed_milestones ++ m.milestone_type ∷ [];
      responsible_participant_id =
          or_else s.responsible_participant_id m.responsible_participant_id;
    }
    else s'

-- One pass of the loop over a milestone that is not completed.
abbrev pub scan_one : Milestone → Scan → Scan
scan_one m s = take_candidate m (or_else m.predicted_date m.planned_date) (record s {
  total_remaining = suc s.total_remaining;
  has_predicted_dates = count_one m.predicted_date s.has_predicted_dates;
})

unfoldable pub scan : List Milestone → Scan → Scan
scan [] s = s
scan (m ∷ ms) s = scan ms (if str_eq m.status "COMPLETED" then s else scan_one m s)

abbrev pub empty_scan : Scan
empty_scan = record {
  predicted_dates = [];
  delayed_milestones = [];
  responsible_participant_id = none;
  has_predicted_dates = 0;
  total_remaining = 0;
}

abbrev later : Option ℕ → ℕ → ℕ
later none d = d
later (some e) d = if ltb d e then e else d

-- `max(predicted_dates) if predicted_dates else None`
unfoldable pub latest : List ℕ → Option ℕ
latest [] = none
latest (d ∷ ds) = some (later (latest ds) d)

-- `(predicted_completion - standard_completion).days`
unfoldable pub delay_days : Option ℕ → Option ℕ → Option ℤ
delay_days (some predicted) (some standard) = some (floor_div_sub predicted standard 86400)
delay_days _ _ = none

unfoldable pub risk_level : Option ℤ → String
risk_level none = "ON_TRACK"
risk_level (some (negsuc n)) = "ON_TRACK"
risk_level (some (pos n)) =
    if leb n 0
    then "ON_TRACK"
    else if leb n 3
    then "LOW"
    else if leb n 7
    then "MEDIUM"
    else if leb n 14
    then "HIGH"
    else "CRITICAL"

abbrev pub needs_expediting : String → Bool
needs_expediting level = str_eq level "HIGH" || str_eq level "CRITICAL"

-- `has_predicted_dates / total_remaining >= 0.7`, in whole numbers.
unfoldable pub confidence : Scan → String
confidence s =
    if s.total_remaining == 0
    then "HIGH"
    else if s.has_predicted_dates == 0
    then "LOW"
    else if leb (7 * s.total_remaining) (10 * s.has_predicted_dates)
    then "HIGH"
    else "MEDIUM"

abbrev pub recommended_action : String → String
recommended_action level =
    if str_eq level "ON_TRACK"
    then "No action required. Continue monitoring."
    else if str_eq level "LOW"
    then "Minor delay detected. Monitor closely."
    else if str_eq level "MEDIUM"
    then "Moderate delay risk. Contact responsible participant."
    else if str_eq level "HIGH"
    then "High delay risk. Expedite alert recommended."
    else if str_eq level "CRITICAL"
    then "Critical delay. Immediate expedite alert required."
    else "Monitor situation."

pub record Prediction : Type 0 where
  pub standard_completion_date : Option ℕ
  pub predicted_completion_date : Option ℕ
  pub delay : Option ℤ
  pub delay_risk_level : String
  pub delayed_milestones : List String
  pub responsible_participant_id : Option ℕ
  pub recommended : String
  pub expedite_alert_required : Bool
  pub confidence_level : String

unfoldable pub predict_completion_date : List Milestone → Option ℕ → Prediction
predict_completion_date milestones deadline =
    let s = scan milestones empty_scan in
    let predicted = latest s.predicted_dates in
    let delay = delay_days predicted deadline in
    let level = risk_level delay in
    record {
      standard_completion_date = deadline;
      predicted_completion_date = predicted;
      delay = delay;
      delay_risk_level = level;
      delayed_milestones = s.delayed_milestones;
      responsible_participant_id = s.responsible_participant_id;
      recommended = recommended_action level;
      expedite_alert_required = needs_expediting level;
      confidence_level = confidence s;
    }
