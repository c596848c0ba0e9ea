-- ===== src/Ranking/Paths.antt =====
-- rank_paths and assign_labels of src/lead_time/path_ranker.py, on the fields of LeadTimePath in
-- src/lead_time/models.py that they use. The paths of a list are distinct objects.
use abcd_yi.Prelude.{
  ℕ, zero, suc, String, Bool, true, not, ◌&&◌, Option, none, some, List, [], ◌∷◌, map, length, ltb,
  if◌then◌else◌, is_some, str_eq, contains,
}
use abcd_yi.Prelude.Floats.{Floats, at_least, is_zero}
use abcd_yi.Prelude.Sorting.{sort_by}
use abcd_yi.Prelude.Minimum.{first_min}

pub data Label : Type 0 where
  fastest lowest_cost safest best_overall backup : Label

pub record LeadTimePath (F : Type 0) : Type 0 where
  pub path_id : String
  pub supplier_id : String
  pub total_lead_time_days : ℕ
  pub feasible_before_deadline : Bool
  pub unit_price : Option F
  pub confidence_score : F
  pub risk_score : F
  pub risk_flags : List String
  pub rank : ℕ
  pub label : Option Label

module _ (f : Floats) where
  open f use {Float, of_nat, decimal, inf, add, mul, div, lt}

  abbrev PathOf : Type 0
  PathOf = LeadTimePath Float

  price_factor : Option Float → Float
  price_factor none = decimal 10 1
  price_factor (some price) =
      if lt (of_nat 0) price
      then div (of_nat 1) (add (of_nat 1) (div price (decimal 1000 1)))
      else decimal 10 1

  unfoldable pub composite_score : PathOf → Float
  unfolding price_factor
  composite_score p =
      let lead_factor =
        div (of_nat 1) (add (of_nat 1) (div (of_nat p.total_lead_time_days) (decimal 300 1))) in
      let risk_factor = div (of_nat 1) (add (of_nat 1) p.risk_score) in
      let feasibility_bonus = if p.feasible_before_deadline then decimal 12 1 else decimal 5 1 in
      mul
        (mul (mul (mul p.confidence_score lead_factor) risk_factor)
          (add (of_nat 1) (mul (price_factor p.unit_price) (decimal 1 1))))
        feasibility_bonus

  -- Whether a path stands before another where the scores differ, or may where they do not.
  abbrev pub scores_at_least : PathOf → PathOf → Bool
  scores_at_least p q = at_least f (composite_score p) (composite_score q)

-- `for i, p in enumerate(scored, start=1): p.rank = i`
unfoldable pub number_from : {F : Type 0} → ℕ → List (LeadTimePath F) → List (LeadTimePath F)
number_from i [] = []
number_from i (p ∷ ps) = record p { rank = i } ∷ number_from (suc i) ps

unfoldable pub rank_paths : (f : Floats) → List (LeadTimePath f.Float) → List (LeadTimePath f.Float)
rank_paths f paths = number_from 1 (sort_by (scores_at_least f) paths)

-- `p.label = label`, for the path at that place
unfoldable pub label_at : {F : Type 0} → Label → ℕ → List (LeadTimePath F) → List (LeadTimePath F)
label_at l i [] = []
label_at l zero (p ∷ ps) = record p { label = some l } ∷ ps
label_at l (suc i) (p ∷ ps) = p ∷ label_at l i ps

-- The paths with the ids of those that have their label.
pub record Labelling (F : Type 0) : Type 0 where
  pub used : List String
  pub paths : List (LeadTimePath F)

module _ {F : Type 0} where
  abbrev pub unused : List String → LeadTimePath F → Bool
  unused used p = not (contains used p.path_id)

  -- One part of `assign_labels`: the first least path of those that remain and pass gets the label.
  unfoldable pub label_first :
      (LeadTimePath F → Bool)
      → (LeadTimePath F → LeadTimePath F → Bool)
      → Label
      → Labelling F
      → Labelling F
  label_first ok less l s =
      elim (first_min (λ (p : LeadTimePath F). unused s.used p && ok p) less s.paths) [
        | none ↦ s
        | some (i, p) ↦ record { used = p.path_id ∷ s.used; paths = label_at l i s.paths }
      ]

  abbrev pub fewer_days : LeadTimePath F → LeadTimePath F → Bool
  fewer_days p q = ltb p.total_lead_time_days q.total_lead_time_days

  abbrev pub fewer_flags : LeadTimePath F → LeadTimePath F → Bool
  fewer_flags p q = ltb (length p.risk_flags) (length q.risk_flags)

  abbrev pub label_rest : List String → LeadTimePath F → LeadTimePath F
  label_rest used p = if unused used p then record p { label = some backup } else p

-- `p.unit_price or float("inf")`
abbrev pub price_key : (f : Floats) → Option f.Float → f.Float
price_key f none = f.inf
price_key f (some price) = if is_zero f price then f.inf else price

abbrev pub cheaper : (f : Floats) → LeadTimePath f.Float → LeadTimePath f.Float → Bool
cheaper f p q = f.lt (price_key f p.unit_price) (price_key f q.unit_price)

abbrev pub label_three : (f : Floats) → String → Labelling f.Float → Labelling f.Float
label_three f best s =
    let s1 =
      label_first (λ (p : LeadTimePath f.Float). not (str_eq p.path_id best)) fewer_days fastest
        s in
    let s2 =
      label_first (λ (p : LeadTimePath f.Float). is_some p.unit_price) (cheaper f) lowest_cost s1 in
    label_first (λ _. true) fewer_flags safest s2

unfoldable pub label_ranked :
    (f : Floats) → List (LeadTimePath f.Float) → List (LeadTimePath f.Float)
label_ranked f [] = []
label_ranked f (best ∷ rest) =
    let s = label_three f best.path_id (record {
      used = best.path_id ∷ [];
      paths = record best { label = some best_overall } ∷ rest;
    }) in
    map (label_rest s.used) s.paths

unfoldable pub assign_labels :
    (f : Floats) → List (LeadTimePath f.Float) → List (LeadTimePath f.Float)
assign_labels f paths = label_ranked f (rank_paths f paths)
