-- ===== src/Benchmark/Laws.antt =====
-- What a benchmark promises: its counts and its quartiles.
use abcd_yi.Prelude.{
  ℕ, ◌+◌, ◌-◌, ◌*◌, ◌≤◌, ◌<◌, ◌≡◌, refl, sym, ap, ◌∙◌, arith, String, Bool, leb, Option, none, some,
  List, ◌⊎◌, inl, inr, [], ◌∷◌, keep, length,
}
use abcd_yi.Prelude.Exec.{ok}
use abcd_yi.Prelude.Sorting.{IsOrder, IsSorted, sort_by, sort_by-IsSorted, length-sort_by}
use abcd_yi.Benchmark.Percentiles.{percentile, percentile_mono, item}
use abcd_yi.Benchmark.Engine.{
  Sample, Normalization, Requirement, gather, comparable_price, usable_samples, is_usable,
  build_benchmark, quartile, value_or_none, BenchmarkSnapshot,
}

leb-IsOrder : IsOrder leb
leb-IsOrder = record { total = λ a b. ground arith; trans = λ a b c h k. ground arith }

length-keep-le : {A : Type 0} (p : A → Bool) (l : List A) → length (keep p l) ≤ length l
unfolding keep
length-keep-le p [] = omega arith
length-keep-le p (x ∷ xs) = ground (arith, length-keep-le p xs)

length-gather :
    (price : Sample → Option ℕ) (l : List Sample)
    → length (gather price l).prices + (gather price l).skipped ≡ length l
unfolding gather
length-gather price [] = refl
length-gather price (s ∷ ss) = ground (arith, length-gather price ss)

-- The quartiles stand in order between the least price and the greatest, or there is no price and
-- none of them.
abbrev pub HasQuartiles : BenchmarkSnapshot → List ℕ → Type 0
HasQuartiles b l =
    (low : ℕ) × (median : ℕ) × (high : ℕ) × (b.benchmark_low ≡ some low)
    × (b.benchmark_median ≡ some median)
    × (b.benchmark_high ≡ some high)
    × (100 * item l 0 ≤ low)
    × (low ≤ median)
    × (median ≤ high)
    × (high ≤ 100 * item l (length l - 1))

sorted-HasQuartiles :
    (b : BenchmarkSnapshot) (l : List ℕ)
    → b.benchmark_low ≡ quartile l 25
    → b.benchmark_median ≡ quartile l 50
    → b.benchmark_high ≡ quartile l 75
    → IsSorted leb l
    → 0 < length l
    → HasQuartiles b l
sorted-HasQuartiles b l e1 e2 e3 s n =
    join (percentile_mono l 25 50 s n (omega arith) (omega arith))
      (percentile_mono l 50 75 s n (omega arith) (omega arith))
  where
    join :
        ((a : ℕ) × (b : ℕ) × (percentile l 25 ≡ ok a)
          × (percentile l 50 ≡ ok b)
          × (100 * item l 0 ≤ a)
          × (a ≤ b)
          × (b ≤ 100 * item l (length l - 1)))
        → ((a : ℕ) × (b : ℕ) × (percentile l 50 ≡ ok a)
            × (percentile l 75 ≡ ok b)
            × (100 * item l 0 ≤ a)
            × (a ≤ b)
            × (b ≤ 100 * item l (length l - 1)))
        → HasQuartiles b l
    join (low, median, l1, m1, least, lm, _) (median', high, m2, h2, _, mh, most) =
        let same : ok median ≡ ok median' = sym m1 ∙ m2 in
        let equal : median ≡ median' = ground arith in
        (
          low,
          median,
          high,
          e1 ∙ ap value_or_none l1,
          e2 ∙ ap value_or_none m1,
          e3 ∙ ap value_or_none h2,
          least,
          lm,
          omega arith,
          most,
        )

abbrev pub HasNone : BenchmarkSnapshot → Type 0
HasNone b = (b.benchmark_low ≡ none) × (b.benchmark_median ≡ none) × (b.benchmark_high ≡ none)

quartiles-cases :
    (b : BenchmarkSnapshot) (l : List ℕ)
    → b.comparable_sample_count ≡ length l
    → b.benchmark_low ≡ quartile l 25
    → b.benchmark_median ≡ quartile l 50
    → b.benchmark_high ≡ quartile l 75
    → IsSorted leb l
    → ((0 < b.comparable_sample_count) × HasQuartiles b l)
      ⊎ ((b.comparable_sample_count ≡ 0) × HasNone b)
unfolding percentile
quartiles-cases b [] n e1 e2 e3 s = inr (n, (e1, e2, e3))
quartiles-cases b (x ∷ l) n e1 e2 e3 s =
    inl (omega (arith, n), sorted-HasQuartiles b (x ∷ l) e1 e2 e3 s (omega arith))

module _ (lower_strip : String → String) (r : Requirement) (samples : List Sample)
    (ns : List Normalization) where
  abbrev pub sorted_prices : List ℕ
  sorted_prices =
      sort_by leb (gather (comparable_price lower_strip r) (usable_samples ns samples)).prices

  -- Every sample counts either as comparable or as excluded. Where one is comparable, the quartiles
  -- are found and stand in order between the least and the greatest of the comparable prices; where
  -- none is, there are no quartiles.
  pub build_benchmark_lem :
      ((build_benchmark lower_strip r samples ns).comparable_sample_count
          + (build_benchmark lower_strip r samples ns).excluded_sample_count
        ≡ length samples)
      × (((0 < (build_benchmark lower_strip r samples ns).comparable_sample_count)
            × HasQuartiles (build_benchmark lower_strip r samples ns) sorted_prices)
          ⊎ (((build_benchmark lower_strip r samples ns).comparable_sample_count ≡ 0)
              × HasNone (build_benchmark lower_strip r samples ns)))
  unfolding build_benchmark
  build_benchmark_lem =
      let usable = usable_samples ns samples in
      let gathered = gather (comparable_price lower_strip r) usable in
      let fewer = length-keep-le (is_usable ns) samples in
      let counted = length-gather (comparable_price lower_strip r) usable in
      let sorted = length-sort_by leb gathered.prices in
      (
        omega arith,
        quartiles-cases (build_benchmark lower_strip r samples ns) sorted_prices refl refl refl refl
            (sort_by-IsSorted leb leb-IsOrder gathered.prices),
      )
