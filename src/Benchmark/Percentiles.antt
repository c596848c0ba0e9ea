-- ===== src/Benchmark/Percentiles.antt =====
-- `_percentile` of src/gpm/pricing/benchmark_engine.py. A percentile is in hundredths of the unit of
-- the values: the source's position is a float, which is exact at the quarters that it asks for.
use mathlib.Core.Path.{subst}
use abcd_yi.Prelude.{
  sym, ℕ, zero, suc, ◌+◌, ◌-◌, ◌*◌, ◌/◌, ◌%◌, ◌≤◌, ◌<◌, ◌≡◌, refl, arith, List, [], ◌∷◌, length,
  leb, ltb, true, false, if◌then◌else◌, Bool-cases, inl, inr,
}
use abcd_yi.Prelude.Exec.{Result, ok, err, value_error}
use abcd_yi.Prelude.Sorting.{All, IsSorted}

-- `l[i]` within the list
abbrev pub item : List ℕ → ℕ → ℕ
item [] i = 0
item (x ∷ xs) zero = x
item (x ∷ xs) (suc i) = item xs i

-- The value r hundredths of the way from one place to the next.
interpolate : List ℕ → ℕ → ℕ → ℕ
interpolate l lower r =
    if ltb (lower + 1) (length l)
    then 100 * item l lower + r * (item l (lower + 1) - item l lower)
    else 100 * item l lower

-- The value at a position in hundredths.
unfoldable pub between : List ℕ → ℕ → ℕ
unfolding interpolate
between l m = interpolate l (m / 100) (m % 100)

unfoldable pub percentile : List ℕ → ℕ → Result ℕ
percentile l pct =
    if leb (length l) 0
    then err value_error
    else if leb (length l) 1
    then ok (100 * item l 0)
    else ok (between l (pct * (length l - 1)))

item_above :
    (x : ℕ) (l : List ℕ) (i : ℕ) → All (λ y. leb x y ≡ true) l → i < length l → x ≤ item l i
item_above x [] i a h = absurd (omega arith)
item_above x (y ∷ ys) zero (p, a) h = ground arith
item_above x (y ∷ ys) (suc i) (p, a) h = item_above x ys i a (omega arith)

pub item_mono : (l : List ℕ) (i j : ℕ) → IsSorted leb l → i ≤ j → j < length l → item l i ≤ item l j
item_mono [] i j s h k = absurd (omega arith)
item_mono (x ∷ xs) zero zero s h k = omega arith
item_mono (x ∷ xs) zero (suc j) (a, s) h k = item_above x xs j a (omega arith)
item_mono (x ∷ xs) (suc i) zero s h k = absurd (omega arith)
item_mono (x ∷ xs) (suc i) (suc j) (a, s) h k = item_mono xs i j s (omega arith) (omega arith)

scaled_mono : (r q d : ℕ) → r ≤ q → r * d ≤ q * d
scaled_mono r q d h = grind arith

interpolated : (a b r : ℕ) → a ≤ b → r ≤ 100 → 100 * a + r * (b - a) ≤ 100 * b
interpolated a b r h k = omega (arith, scaled_mono r 100 (b - a) k)

-- A position within the list lies between its two neighbours.
between_bounds :
    (l : List ℕ) (m : ℕ)
    → IsSorted leb l
    → m / 100 < length l
    → (100 * item l (m / 100) ≤ between l m)
      × (m / 100 + 1 < length l → between l m ≤ 100 * item l (m / 100 + 1))
unfolding between
between_bounds l m s h = elim (Bool-cases (ltb (m / 100 + 1) (length l))) [
  | inl e ↦
      let ordered = item_mono l (m / 100) (m / 100 + 1) s (omega arith) (ground arith) in
      (
        rw e (omega arith),
        λ k. rw e (
            interpolated (item l (m / 100)) (item l (m / 100 + 1)) (m % 100) ordered (omega arith)),
      )
  | inr e ↦ (rw e (omega arith), λ k. absurd (ground arith))
]

interpolate_mono : (l : List ℕ) (i r q : ℕ) → r ≤ q → interpolate l i r ≤ interpolate l i q
unfolding interpolate
interpolate_mono l i r q h =
    let scaled = scaled_mono r q (item l (i + 1) - item l i) h in
    elim (Bool-cases (ltb (i + 1) (length l))) [
      | inl e ↦ rw e (omega arith)
      | inr e ↦ rw e (omega arith)
    ]

pub between_mono :
    (l : List ℕ) (m n : ℕ) → IsSorted leb l → m ≤ n → n / 100 < length l → between l m ≤ between l n
unfolding between
between_mono l m n s h k = elim (Bool-cases (ltb (m / 100) (n / 100))) [
  | inl e ↦
      let apart : m / 100 < n / 100 = ground arith in
      let first = (between_bounds l m s (omega arith)).1 (omega arith) in
      let middle = item_mono l (m / 100 + 1) (n / 100) s (omega arith) k in
      let last = (between_bounds l n s k).0 in omega arith
  | inr e ↦
      let same : m / 100 ≡ n / 100 = ground arith in
      let step = interpolate_mono l (n / 100) (m % 100) (n % 100) (omega arith) in
      subst (λ (i : ℕ). interpolate l i (m % 100) ≤ interpolate l (n / 100) (n % 100)) (sym same)
        step
]

place_mono : (p q k n : ℕ) → p ≤ q → q ≤ 100 → k + 1 ≡ n → (p * k ≤ q * k) × (q * k / 100 < n)
place_mono p q k n h top e =
    let a = scaled_mono p q k h in let b = scaled_mono q 100 k top in (a, omega arith)

between_last : (l : List ℕ) (k : ℕ) → k + 1 ≡ length l → between l (100 * k) ≡ 100 * item l k
unfolding between interpolate
between_last l k e =
    let place : (100 * k) / 100 ≡ k = omega arith in
    let out : ltb (k + 1) (length l) ≡ false = ground arith in rw (place, out) refl

-- Of a sorted list with a value, a percentile is found, lies between the first value and the last,
-- and grows with the percentage.
pub percentile_mono :
    (l : List ℕ) (p q : ℕ)
    → IsSorted leb l
    → 0 < length l
    → p ≤ q
    → q ≤ 100
    → (a : ℕ) × (b : ℕ) × (percentile l p ≡ ok a)
      × (percentile l q ≡ ok b)
      × (100 * item l 0 ≤ a)
      × (a ≤ b)
      × (b ≤ 100 * item l (length l - 1))
unfolding percentile
percentile_mono l p q s h k top =
    let some_value : leb (length l) 0 ≡ false = ground arith in
    elim (Bool-cases (leb (length l) 1)) [
      | inl e ↦
          let only : length l - 1 ≡ 0 = ground arith in
          let whole : 100 * item l 0 ≤ 100 * item l (length l - 1) = rw only (omega arith) in
          (
            100 * item l 0,
            100 * item l 0,
            rw (some_value, e) refl,
            rw (some_value, e) refl,
            omega arith,
            omega arith,
            whole,
          )
      | inr e ↦
          let places = place_mono p q (length l - 1) (length l) k top (omega arith) in
          let first = (between_bounds l 0 s (omega arith)).0 in
          let start =
            between_mono l 0 (p * (length l - 1)) s (omega arith)
              (place_mono p p (length l - 1) (length l) (omega arith) (omega arith)
                (omega arith)).1 in
          let end_place : (100 * (length l - 1)) / 100 < length l = ground arith in
          let finish =
            between_mono l (q * (length l - 1)) (100 * (length l - 1)) s
              (scaled_mono q 100 (length l - 1) top) end_place in
          let last = between_last l (length l - 1) (omega arith) in
          (
            between l (p * (length l - 1)),
            between l (q * (length l - 1)),
            rw (some_value, e) refl,
            rw (some_value, e) refl,
            omega arith,
            between_mono l (p * (length l - 1)) (q * (length l - 1)) s places.0 places.1,
            omega arith,
          )
    ]
