-- ===== src/Ranking/Calculator.antt =====
-- The lead time of a path from the answers of its suppliers: src/lead_time/calculator.py. The values
-- that the answers state are taken as whole numbers of days, for which `int` is the identity; a value
-- that `int` rounds or refuses, or that is below zero, is left out.
use abcd_yi.Prelude.{
  ℕ, suc, ◌+◌, leb, String, Bool, true, false, not, Option, none, some, List, [], ◌∷◌, ◌++◌,
  is_some, contains, ◌≡◌, if◌then◌else◌,
}

-- The days that one answer states.
pub record PacketDays : Type 0 where
  pub fabric_lead_time_days : Option ℕ
  pub trim_lead_time_days : Option ℕ
  pub packaging_lead_time_days : Option ℕ
  pub packaging_time_days : Option ℕ
  pub production_time_days : Option ℕ
  pub qc_time_days : Option ℕ
  pub logistics_time_days : Option ℕ

-- `_get`: the first value that is stated.
unfoldable pub first_stated : (PacketDays → Option ℕ) → List PacketDays → Option ℕ
first_stated field [] = none
first_stated field (p ∷ ps) = elim (field p) [
  | some days ↦ some days
  | none ↦ first_stated field ps
]

-- `a or b`: zero days count as none.
abbrev pub days_or_else : Option ℕ → Option ℕ → Option ℕ
days_or_else (some (suc n)) b = some (suc n)
days_or_else _ b = b

abbrev pub later_of : ℕ → ℕ → ℕ
later_of a b = if leb a b then b else a

-- `max` of the values that are present, if any
abbrev pub max_with : Option ℕ → Option ℕ → Option ℕ
max_with none b = b
max_with (some a) none = some a
max_with (some a) (some b) = some (later_of a b)

-- `if value is None: missing_fields.append(name)`
abbrev pub missing_days : Option ℕ → String → List String
missing_days none name = name ∷ []
missing_days (some _) name = []

-- `a + b`, where both are present
abbrev pub plus_days : Option ℕ → Option ℕ → Option ℕ
plus_days (some a) (some b) = some (a + b)
plus_days _ _ = none

pub record LeadTimeCalculation : Type 0 where
  pub parallel_max_days : Option ℕ
  pub calculated_total_lead_time_days : Option ℕ
  pub has_missing_values : Bool
  pub missing_fields : List String

-- What follows from the six values.
unfoldable pub calculation_of :
    Option ℕ → Option ℕ → Option ℕ → Option ℕ → Option ℕ → Option ℕ → LeadTimeCalculation
calculation_of fabric trim packaging production qc logistics =
    let parallel_max = max_with fabric (max_with trim packaging) in
    let missing =
      missing_days production "production_time_days"
      ++ (missing_days qc "qc_time_days"
          ++ (missing_days logistics "logistics_time_days"
              ++ (missing_days fabric "fabric_lead_time_days"
                  ++ missing_days trim "trim_lead_time_days"))) in
    elim missing [
      | [] ↦ record {
        parallel_max_days = parallel_max;
        calculated_total_lead_time_days =
            plus_days (plus_days (plus_days parallel_max production) qc) logistics;
        has_missing_values = false;
        missing_fields = [];
      }
      | name ∷ names ↦ record {
        parallel_max_days = parallel_max;
        calculated_total_lead_time_days = none;
        has_missing_values = true;
        missing_fields = name ∷ names;
      }
    ]

unfoldable pub calculate_path_lead_time : List PacketDays → LeadTimeCalculation
unfolding first_stated calculation_of
calculate_path_lead_time packets =
    let get = λ (field : PacketDays → Option ℕ). first_stated field packets in
    calculation_of (get (λ p. p.fabric_lead_time_days)) (get (λ p. p.trim_lead_time_days))
      (days_or_else (get (λ p. p.packaging_lead_time_days)) (get (λ p. p.packaging_time_days)))
      (get (λ p. p.production_time_days)) (get (λ p. p.qc_time_days))
      (get (λ p. p.logistics_time_days))

-- The total by its definition: the longest of the parallel stages, and the sequential ones.
abbrev pub total_by : Option ℕ → Option ℕ → Option ℕ → Option ℕ → Option ℕ → Option ℕ → Option ℕ
total_by (some f) (some t) none (some p) (some q) (some l) = some (later_of f t + p + q + l)
total_by (some f) (some t) (some k) (some p) (some q) (some l) =
    some (later_of f (later_of t k) + p + q + l)
total_by _ _ _ _ _ _ = none

abbrev pub IsCalculated :
    Option ℕ → Option ℕ → Option ℕ → Option ℕ → Option ℕ → Option ℕ → LeadTimeCalculation → Type 0
IsCalculated f t k p q l c =
    (c.calculated_total_lead_time_days ≡ total_by f t k p q l)
    × (c.has_missing_values ≡ not (is_some (total_by f t k p q l)))
    × (contains c.missing_fields "production_time_days" ≡ not (is_some p))
    × (contains c.missing_fields "qc_time_days" ≡ not (is_some q))
    × (contains c.missing_fields "logistics_time_days" ≡ not (is_some l))
    × (contains c.missing_fields "fabric_lead_time_days" ≡ not (is_some f))
    × (contains c.missing_fields "trim_lead_time_days" ≡ not (is_some t))
