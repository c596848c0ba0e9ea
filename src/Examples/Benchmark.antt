-- ===== src/Examples/Benchmark.antt =====
-- A benchmark of four samples, one of which has no score.
use mathlib.Core.List.{Permᴰ}
use abcd_yi.Prelude.{ℕ, ◌+◌, ◌<◌, ◌⊎◌, ◌≡◌, String, true, none, some, List, [], ◌∷◌, refl, keep}
use abcd_yi.Prelude.Sorting.{sort_by, insert_by}
use abcd_yi.Benchmark.{
  Sample, Normalization, Requirement, percentile, between, normalization_of, is_usable,
  normalize_unit, select_tier, effective_price, comparable_price, gather, build_benchmark,
  HasQuartiles, HasNone, sorted_prices, build_benchmark_lem, build_benchmark-perm,
}

abbrev sample : ℕ → ℕ → Sample
sample id price = record {
  id = id;
  usable_for_benchmark = true;
  price_unit = some "pcs";
  ladder_prices = (1, price + 2) ∷ (100, price) ∷ [];
  price_min = none;
  price_max = none;
  captured_at = some id;
  observed_at = none;
}

abbrev samples : List Sample
samples = sample 1 9 ∷ sample 2 5 ∷ sample 3 7 ∷ sample 4 1 ∷ []

abbrev turned : List Sample
turned = sample 2 5 ∷ sample 1 9 ∷ sample 3 7 ∷ sample 4 1 ∷ []

abbrev scores : List Normalization
scores =
    record { sample_id = 1; comparability_score = 900000 }
    ∷ record { sample_id = 2; comparability_score = 600000 }
    ∷ record { sample_id = 3; comparability_score = 700000 }
    ∷ record { sample_id = 4; comparability_score = 500000 }
    ∷ []

abbrev wanted : Requirement
wanted = record { quantity = some 600; unit = "piece" }

abbrev as_is : String → String
as_is s = s

three_count : (build_benchmark as_is wanted samples scores).comparable_sample_count ≡ 3
unfolding build_benchmark gather comparable_price is_usable normalization_of effective_price
    normalize_unit select_tier keep sort_by insert_by
three_count = refl

the_median : (build_benchmark as_is wanted samples scores).benchmark_median ≡ some 1400
unfolding build_benchmark gather comparable_price is_usable normalization_of effective_price
    normalize_unit select_tier keep sort_by insert_by percentile between
the_median = refl

build_benchmark_lem_example :
    ((build_benchmark as_is wanted samples scores).comparable_sample_count
        + (build_benchmark as_is wanted samples scores).excluded_sample_count
      ≡ 4)
    × (((0 < (build_benchmark as_is wanted samples scores).comparable_sample_count)
          × HasQuartiles
              (build_benchmark as_is wanted samples scores)
              (sorted_prices as_is wanted samples scores))
        ⊎ (((build_benchmark as_is wanted samples scores).comparable_sample_count ≡ 0)
            × HasNone (build_benchmark as_is wanted samples scores)))
build_benchmark_lem_example = build_benchmark_lem as_is wanted samples scores

build_benchmark-perm_example :
    build_benchmark as_is wanted samples scores ≡ build_benchmark as_is wanted turned scores
build_benchmark-perm_example =
    build_benchmark-perm as_is wanted samples turned scores ∣ Permᴰ.swap refl refl ∣₁
