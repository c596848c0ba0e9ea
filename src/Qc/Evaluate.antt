-- ===== src/Qc/Evaluate.antt =====
-- src/apparel_inspection/service.py. Counts and limits of defects are whole numbers; measured
-- deviations stand as what `float` makes of them, and their limits are fractions. A line of the report
-- is a `Check` with the values that the line prints.
use abcd_yi.Prelude.{
  ℕ, suc, ◌*◌, String, Bool, true, false, Option, none, some, List, [], ◌∷◌, ◌++◌, str_eq, ltb,
  if◌then◌else◌,
}
use abcd_yi.Prelude.Exec.{Result, ok, err, value_error}
use abcd_yi.Db.{Fraction}

-- `float(value)`, without its sign, which `abs` drops: the value that raises, a nan, an infinity, or
-- the fraction numerator / (below + 1).
pub data Reading : Type 0 where
  unreadable not_a_number infinite : Reading
  finite : ℕ → ℕ → Reading

pub data Check : Type 0 where
  fabric_defect : String → ℕ → ℕ → Check
  label_compliance packaging_compliance : Check
  size_deviation color_difference : String → Reading → Check

pub record Inspection : Type 0 where
  pub fabric_defects : List (String × ℕ)
  pub label_compliance : Option Bool
  pub packaging_compliance : Option Bool
  pub size_deviation : List (String × Reading)
  pub color_difference : List (String × Reading)

pub record Standard : Type 0 where
  pub fabric_defect_limits : List (String × ℕ)
  pub size_deviation_limits : List (String × Fraction)
  pub color_difference_tolerance : List (String × Fraction)

abbrev pub no_standard : Standard
no_standard = record {
  fabric_defect_limits = [];
  size_deviation_limits = [];
  color_difference_tolerance = [];
}

-- `d.get(k)`
unfoldable pub get : {A : Type 0} → String → List (String × A) → Option A
get k [] = none
get k ((j, v) ∷ d) = if str_eq j k then some v else get k d

-- `d.get(k, default)`
abbrev pub get_or : {A : Type 0} → String → A → List (String × A) → A
get_or k default d = elim (get k d) [ none ↦ default | some v ↦ v ]

-- The two lists that the function fills: failures, and what passed.
pub record Report : Type 0 where
  pub failures : List Check
  pub passed : List Check

abbrev pub note : Bool → Check → Report → Report
note failed c r =
    if failed
    then record r { failures = r.failures ++ c ∷ [] }
    else record r { passed = r.passed ++ c ∷ [] }

unfoldable pub check_defects : List (String × ℕ) → List (String × ℕ) → Report → Report
check_defects limits [] r = r
check_defects limits ((name, count) ∷ rest) r =
    let limit = get_or name 0 limits in
    check_defects limits rest (note (ltb limit count) (Check.fabric_defect name count limit) r)

unfoldable pub check_flag : Check → Option Bool → Report → Report
check_flag c none r = r
check_flag c (some compliant) r = note (if compliant then false else true) c r

-- `abs(float(deviation)) > limit`: a comparison with a nan is false.
abbrev pub exceeds : Reading → Fraction → Result Bool
exceeds unreadable limit = err value_error
exceeds not_a_number limit = ok false
exceeds infinite limit = ok true
exceeds (finite n below) limit = ok (ltb (limit.numerator * suc below) (n * suc limit.below))

-- The rest of a pass, with the line that the test gives.
abbrev pub noting : Result Bool → Check → (Report → Result Report) → Report → Result Report
noting (err e) c rest r = err e
noting (ok failed) c rest r = rest (note failed c r)

abbrev pub no_limit : Fraction
no_limit = record { numerator = 999; below = 0 }

unfoldable pub check_sizes :
    List (String × Fraction) → List (String × Reading) → Report → Result Report
check_sizes limits [] r = ok r
check_sizes limits ((name, deviation) ∷ rest) r =
    noting (exceeds deviation (get_or name no_limit limits)) (Check.size_deviation name deviation)
      (check_sizes limits rest) r

-- A channel with no tolerance passes.
abbrev pub out_of_tolerance : Option Fraction → Reading → Result Bool
out_of_tolerance none v = ok false
out_of_tolerance (some tolerance) v = exceeds v tolerance

unfoldable pub check_colors :
    List (String × Fraction) → List (String × Reading) → Report → Result Report
check_colors tolerances [] r = ok r
check_colors tolerances ((channel, v) ∷ rest) r =
    noting (out_of_tolerance (get channel tolerances) v) (Check.color_difference channel v)
      (check_colors tolerances rest) r

pub record Verdict : Type 0 where
  pub result : String
  pub failure_reasons : List Check
  pub pass_criteria_met : List Check
  pub rework_required : Bool

abbrev pub is_empty : List Check → Bool
is_empty [] = true
is_empty (_ ∷ _) = false

unfoldable pub run_checks : Inspection → Standard → Result Report
run_checks i s =
    let defects =
      check_defects s.fabric_defect_limits i.fabric_defects
        (record { failures = []; passed = [] }) in
    let label = check_flag Check.label_compliance i.label_compliance defects in
    let packaging = check_flag Check.packaging_compliance i.packaging_compliance label in
    elim (check_sizes s.size_deviation_limits i.size_deviation packaging) [
      | err e ↦ err e
      | ok sizes ↦ check_colors s.color_difference_tolerance i.color_difference sizes
    ]

abbrev pub verdict_of : Report → Verdict
verdict_of r = record {
  result = if is_empty r.failures then "QC_PASSED" else "QC_FAILED";
  failure_reasons = r.failures;
  pass_criteria_met = r.passed;
  rework_required = if is_empty r.failures then false else true;
}

unfoldable pub evaluate_qc_record : Inspection → Standard → Result Verdict
evaluate_qc_record i s = elim (run_checks i s) [ err e ↦ err e | ok r ↦ ok (verdict_of r) ]
