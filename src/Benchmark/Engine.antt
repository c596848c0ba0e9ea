-- ===== src/Benchmark/Engine.antt =====
-- build_benchmark of src/gpm/pricing/benchmark_engine.py, with the filter of
-- src/gpm/normalization/sample_comparator.py, effective_price of price_normalizer.py and
-- unit_normalizer.py there. Prices are whole numbers of a smallest unit; an effective price is in
-- halves of it. A score is in millionths, a unit that is given is not the empty text, and `lower_strip` is `s.lower().strip()`.
use abcd_yi.Prelude.{
  ℕ, ◌+◌, ◌-◌, ◌*◌, String, Bool, false, ◌&&◌, ◌==◌, leb, Option, none, some, List, [], ◌∷◌, keep,
  length, str_eq, if◌then◌else◌,
}
use abcd_yi.Prelude.Exec.{Result, ok, err}
use abcd_yi.Prelude.Sorting.{sort_by}
use abcd_yi.Benchmark.Percentiles.{percentile}

pub record Sample : Type 0 where
  pub id : ℕ
  pub usable_for_benchmark : Bool
  pub price_unit : Option String
  -- the least quantity of each tier and its price
  pub ladder_prices : List (ℕ × ℕ)
  pub price_min : Option ℕ
  pub price_max : Option ℕ
  pub captured_at : Option ℕ
  pub observed_at : Option ℕ

pub record Normalization : Type 0 where
  pub sample_id : ℕ
  pub comparability_score : ℕ

pub record Requirement : Type 0 where
  pub quantity : Option ℕ
  pub unit : String

-- `{n.sample_id: n for n in normalizations}.get(id)`: the last one counts.
unfoldable pub normalization_of : ℕ → List Normalization → Option Normalization
normalization_of id [] = none
normalization_of id (n ∷ ns) = elim (normalization_of id ns) [
  | some m ↦ some m
  | none ↦ if n.sample_id == id then some n else none
]

abbrev pub threshold : ℕ
threshold = 600000

unfoldable pub is_usable : List Normalization → Sample → Bool
is_usable ns s = elim (normalization_of s.id ns) [
  | none ↦ false
  | some n ↦ s.usable_for_benchmark && leb threshold n.comparability_score
]

unfoldable pub normalize_unit : (String → String) → String → String
normalize_unit lower_strip unit =
    let u = lower_strip unit in
    if str_eq u "pcs"
    then "piece"
    else if str_eq u "pc"
    then "piece"
    else if str_eq u "pieces"
    then "piece"
    else if str_eq u "件"
    then "piece"
    else if str_eq u "条"
    then "piece"
    else u

-- The loop over the tiers, with what is selected so far.
unfoldable pub select_tier : ℕ → Option ℕ → List (ℕ × ℕ) → Option ℕ
select_tier quantity selected [] = selected
select_tier quantity selected ((min_qty, price) ∷ tiers) =
    select_tier quantity (if leb min_qty quantity then some price else selected) tiers

abbrev tier_price : Option ℕ → List (ℕ × ℕ) → Option ℕ
tier_price none tiers = none
tier_price (some quantity) tiers =
    select_tier quantity none (sort_by (λ (a b : ℕ × ℕ). leb a.0 b.0) tiers)

abbrev range_price : Option ℕ → Option ℕ → Option ℕ
range_price (some a) (some b) = some (a + b)
range_price (some a) none = some (2 * a)
range_price none (some b) = some (2 * b)
range_price none none = none

unfoldable pub effective_price : Option ℕ → Sample → Option ℕ
effective_price target s = elim (tier_price target s.ladder_prices) [
  | some price ↦ some (2 * price)
  | none ↦ range_price s.price_min s.price_max
]

-- What a usable sample counts with: nothing where its unit is another one.
unfoldable pub comparable_price : (String → String) → Requirement → Sample → Option ℕ
comparable_price lower_strip r s = elim s.price_unit [
  | none ↦ effective_price r.quantity s
  | some unit ↦
      if str_eq (normalize_unit lower_strip unit) (normalize_unit lower_strip r.unit)
      then effective_price r.quantity s
      else none
]

pub record Gathered : Type 0 where
  pub prices : List ℕ
  pub skipped : ℕ
  pub timestamps : List ℕ

abbrev pub first_stamp : Option ℕ → Option ℕ → Option ℕ
first_stamp (some t) _ = some t
first_stamp none o = o

abbrev pub stamped : Option ℕ → List ℕ → List ℕ
stamped none l = l
stamped (some t) l = t ∷ l

unfoldable pub gather : (Sample → Option ℕ) → List Sample → Gathered
gather price [] = record { prices = []; skipped = 0; timestamps = [] }
gather price (s ∷ ss) =
    let rest = gather price ss in
    elim (price s) [
      | none ↦ record rest { skipped = rest.skipped + 1 }
      | some p ↦ record rest {
        prices = p ∷ rest.prices;
        timestamps = stamped (first_stamp s.captured_at s.observed_at) rest.timestamps;
      }
    ]

pub data Confidence : Type 0 where
  low medium high : Confidence

pub record BenchmarkSnapshot : Type 0 where
  pub sample_count : ℕ
  pub comparable_sample_count : ℕ
  pub excluded_sample_count : ℕ
  pub confidence_level : Confidence
  pub benchmark_low : Option ℕ
  pub benchmark_median : Option ℕ
  pub benchmark_high : Option ℕ
  pub captured_from : Option ℕ
  pub captured_to : Option ℕ

abbrev pub confidence_of : ℕ → Confidence
confidence_of n = if leb 20 n then high else if leb 10 n then medium else low

abbrev pub value_or_none : Result ℕ → Option ℕ
value_or_none (ok a) = some a
value_or_none (err e) = none

-- A percentile of the sorted prices, where there is a price.
abbrev pub quartile : List ℕ → ℕ → Option ℕ
quartile prices pct = value_or_none (percentile prices pct)

abbrev pub first_of : List ℕ → Option ℕ
first_of [] = none
first_of (x ∷ xs) = some x

abbrev pub usable_samples : List Normalization → List Sample → List Sample
usable_samples ns samples = keep (is_usable ns) samples

unfoldable pub build_benchmark :
    (String → String) → Requirement → List Sample → List Normalization → BenchmarkSnapshot
build_benchmark lower_strip r samples ns =
    let usable = usable_samples ns samples in
    let gathered = gather (comparable_price lower_strip r) usable in
    let prices = sort_by leb gathered.prices in
    record {
      sample_count = length samples;
      comparable_sample_count = length prices;
      excluded_sample_count = (length samples - length usable) + gathered.skipped;
      confidence_level = confidence_of (length prices);
      benchmark_low = quartile prices 25;
      benchmark_median = quartile prices 50;
      benchmark_high = quartile prices 75;
      captured_from = first_of (sort_by leb gathered.timestamps);
      captured_to = first_of (sort_by (λ a b. leb b a) gathered.timestamps);
    }
