-- ===== src/Prelude/Table.antt =====
-- A database table: rows by primary key, in the order of insertion.
use Prim.Native.Nat.{ℕ, ◌+◌}
use mathlib.Core.Path.{◌≡◌, refl, ap}
use mathlib.Core.Bool.{Bool, true}
use mathlib.Core.Option.{Option, none, some}
use mathlib.Core.List.{List, [], ◌∷◌, ◌++◌}
use abcd_yi.Prelude.Lists.{length}
use abcd_yi.Prelude.Exec.{Result, ok, err, multiple_results}
use native.Mathlib.Omega.{arith}
use abcd_yi.Prelude.Tests.{◌==◌, if◌then◌else◌}

abbrev pub Table {ℓ} : Type ℓ → Type ℓ
Table R = List (ℕ × R)

module _ {ℓ} {R : Type ℓ} where
  -- db.get(Model, id)
  unfoldable pub find : ℕ → Table R → Option R
  find k [] = none
  find k ((j, r) ∷ t) = if j == k then some r else find k t

  -- db.add(row), and a write to the attributes of the row of that key
  unfoldable pub put : ℕ → R → Table R → Table R
  put k r [] = (k, r) ∷ []
  put k r ((j, q) ∷ t) = if j == k then (k, r) ∷ t else (j, q) ∷ put k r t

  -- the rows that a `where` clause selects
  unfoldable pub select : (R → Bool) → Table R → List R
  select p [] = []
  select p ((_, r) ∷ t) = let rest = select p t in if p r then r ∷ rest else rest

  -- The rows, with their keys, that a `where` clause selects.
  unfoldable pub matches : (R → Bool) → Table R → Table R
  matches p [] = []
  matches p ((k, r) ∷ t) = let rest = matches p t in if p r then (k, r) ∷ rest else rest

  -- `scalar_one_or_none` of the rows of a query
  unfoldable pub one_or_none : Table R → Result (Option (ℕ × R))
  one_or_none [] = ok none
  one_or_none (kr ∷ []) = ok (some kr)
  one_or_none (_ ∷ _ ∷ _) = err multiple_results

  pub find-nil : (k : ℕ) → find k [] ≡ none
  unfolding find
  find-nil k = refl

  pub find-put :
      (k j : ℕ) (r : R) (t : Table R) → find j (put k r t) ≡ (if k == j then some r else find j t)
  unfolding find put
  find-put k j r [] = refl
  find-put k j r ((i, q) ∷ t) = ground (arith, find-put k j r t)

  pub find-put_self : (k : ℕ) (r : R) (t : Table R) → find k (put k r t) ≡ some r
  unfolding find put
  find-put_self k r [] = ground arith
  find-put_self k r ((i, q) ∷ t) = ground (arith, find-put_self k r t)

  pub put-put : (k : ℕ) (r q : R) (t : Table R) → put k r (put k q t) ≡ put k r t
  unfolding put
  put-put k r q [] = ground arith
  put-put k r q ((j, x) ∷ t) = ground (arith, put-put k r q t)

  pub select-put_new :
      (p : R → Bool) (k : ℕ) (r : R) (t : Table R)
      → find k t ≡ none
      → select p (put k r t) ≡ select p t ++ (if p r then r ∷ [] else [])
  unfolding find put select
  select-put_new p k r [] f = ground arith
  select-put_new p k r ((i, q) ∷ t) f = ground (arith, select-put_new p k r t)

  one-of_one_or_none : (l : Table R) (kr : ℕ × R) → one_or_none l ≡ ok (some kr) → l ≡ kr ∷ []
  unfolding one_or_none
  one-of_one_or_none [] kr h = ground arith
  one-of_one_or_none (x ∷ []) kr h = ground arith
  one-of_one_or_none (x ∷ y ∷ l) kr h = ground arith

  matches-put :
      (p : R → Bool) (k : ℕ) (r q : R) (t : Table R)
      → find k t ≡ some q
      → p q ≡ true
      → p r ≡ true
      → matches p t ≡ (k, q) ∷ []
      → matches p (put k r t) ≡ (k, r) ∷ []
  unfolding find put matches
  matches-put p k r q [] f a b h = ground arith
  matches-put p k r q ((j, x) ∷ t) f a b h = ground (arith, matches-put p k r q t)

  -- A write to the row that a query selects leaves it the one that the query selects.
  pub one_or_none-put :
      (p : R → Bool) (k : ℕ) (r q : R) (t : Table R)
      → find k t ≡ some q
      → p q ≡ true
      → p r ≡ true
      → one_or_none (matches p t) ≡ ok (some (k, q))
      → one_or_none (matches p (put k r t)) ≡ ok (some (k, r))
  unfolding one_or_none
  one_or_none-put p k r q t f a b h =
      ap one_or_none (matches-put p k r q t f a b (one-of_one_or_none (matches p t) (k, q) h))

  abbrev pub weight : (R → Bool) → R → ℕ
  weight p r = if p r then 1 else 0

  -- How a write changes the number of the selected rows.
  pub length-select-put_new :
      (p : R → Bool) (k : ℕ) (r : R) (t : Table R)
      → find k t ≡ none
      → length (select p (put k r t)) ≡ length (select p t) + weight p r
  unfolding find put select
  length-select-put_new p k r [] f = ground arith
  length-select-put_new p k r ((i, q) ∷ t) f = ground (arith, length-select-put_new p k r t)

  pub length-select-put_old :
      (p : R → Bool) (k : ℕ) (r q : R) (t : Table R)
      → find k t ≡ some q
      → length (select p (put k r t)) + weight p q ≡ length (select p t) + weight p r
  unfolding find put select
  length-select-put_old p k r q [] f = ground arith
  length-select-put_old p k r q ((i, x) ∷ t) f = ground (arith, length-select-put_old p k r q t)

  -- A loop over the rows that a query selects, which writes to each of them.
  unfoldable pub update : (R → Bool) → (R → R) → Table R → Table R
  update p f [] = []
  update p f ((k, r) ∷ t) = (k, if p r then f r else r) ∷ update p f t

  pub find-update :
      (p : R → Bool) (f : R → R) (k : ℕ) (t : Table R) (r : R)
      → find k t ≡ some r
      → find k (update p f t) ≡ some (if p r then f r else r)
  unfolding find update
  find-update p f k [] r h = ground arith
  find-update p f k ((i, q) ∷ t) r h = ground (arith, find-update p f k t r)
