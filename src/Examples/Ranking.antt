-- ===== src/Examples/Ranking.antt =====
-- Three lead-time paths, with whole numbers for the floating-point ones: a quotient is in thousandths.
use mathlib.Core.List.{Perm}
use abcd_yi.Prelude.{
  ℕ, ◌+◌, ◌-◌, ◌*◌, ◌/◌, ◌≡◌, String, Bool, true, false, none, some, List, [], ◌∷◌, map, refl,
  arith, ltb, keep,
}
use abcd_yi.Prelude.Floats.{Floats, IsOrdered}
use abcd_yi.Prelude.Sorting.{IsSorted, tied, sort_by, insert_by}
use abcd_yi.Ranking.{
  PacketDays, calculate_path_lead_time, LeadTimePath, scores_at_least, rank_paths, composite_score,
  number_from, unranked, IsNumbered, rank_paths_lem, DistinctIds,
}

abbrev pub numbers : Floats
numbers = record {
  Float = ℕ;
  of_nat = λ n. n;
  decimal = λ n k. n;
  inf = 1000000;
  add = λ a b. a + b;
  sub = λ a b. a - b;
  mul = λ a b. a * b;
  div = λ a b. a * 1000 / b;
  round = λ a n. a;
  lt = ltb;
}

pub numbers-IsOrdered : IsOrdered numbers
numbers-IsOrdered = record { total = λ a b. ground arith; trans = λ a b c h k. ground arith }

abbrev path : String → ℕ → ℕ → Bool → LeadTimePath ℕ
path id days price feasible = record {
  path_id = id;
  supplier_id = "S";
  total_lead_time_days = days;
  feasible_before_deadline = feasible;
  unit_price = some price;
  confidence_score = 5;
  risk_score = 1;
  risk_flags = [];
  rank = 0;
  label = none;
}

abbrev paths : List (LeadTimePath ℕ)
paths = path "P1" 20 12 false ∷ path "P2" 45 9 true ∷ path "P3" 30 8 false ∷ []

abbrev best : LeadTimePath ℕ
best = record (path "P2" 45 9 true) { rank = 1 }

abbrev second : LeadTimePath ℕ
second = record (path "P1" 20 12 false) { rank = 2 }

abbrev third : LeadTimePath ℕ
third = record (path "P3" 30 8 false) { rank = 3 }

in_order : rank_paths numbers paths ≡ best ∷ second ∷ third ∷ []
unfolding rank_paths sort_by insert_by number_from composite_score
in_order = refl

paths-DistinctIds : DistinctIds paths
paths-DistinctIds = ((refl, (refl, tt)), ((refl, tt), (tt, tt)))

rank_paths_lem_example :
    Perm (map unranked (rank_paths numbers paths)) (map unranked paths)
    × IsNumbered 1 (rank_paths numbers paths)
    × IsSorted (scores_at_least numbers) (rank_paths numbers paths)
    × ((p : LeadTimePath ℕ)
        → map unranked (keep (tied (scores_at_least numbers) p) (rank_paths numbers paths))
          ≡ map unranked (keep (tied (scores_at_least numbers) p) paths))
rank_paths_lem_example = rank_paths_lem numbers numbers-IsOrdered paths

-- The answer of a garment maker, and that of a fabric supplier.
abbrev answered : List PacketDays
answered =
    record {
      fabric_lead_time_days = none;
      trim_lead_time_days = some 9;
      packaging_lead_time_days = some 0;
      packaging_time_days = some 4;
      production_time_days = some 20;
      qc_time_days = some 3;
      logistics_time_days = some 30;
    }
    ∷ record {
      fabric_lead_time_days = some 14;
      trim_lead_time_days = some 2;
      packaging_lead_time_days = none;
      packaging_time_days = none;
      production_time_days = none;
      qc_time_days = none;
      logistics_time_days = none;
    }
    ∷ []

sixty_seven_days : (calculate_path_lead_time answered).calculated_total_lead_time_days ≡ some 67
unfolding calculate_path_lead_time
sixty_seven_days = refl
