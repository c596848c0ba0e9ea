-- ===== src/Prelude/Minimum.antt =====
-- `min` of the language: the first least element of those that pass a test.
use Prim.Native.Nat.{ℕ, zero, suc}
use mathlib.Core.Path.{◌≡◌, sym, subst}
use mathlib.Core.Logic.{inl, inr}
use mathlib.Core.Bool.{Bool, not, true, false}
use mathlib.Core.Option.{Option, none, some}
use mathlib.Core.List.{List, [], ◌∷◌}
use native.Mathlib.Omega.{arith}
use abcd_yi.Prelude.Tests.{if◌then◌else◌, Bool-cases, Option-cases}
use abcd_yi.Prelude.Sorting.{All, IsOrder}

module _ {ℓ} {A : Type ℓ} where
  abbrev pub get_elem? : List A → ℕ → Option A
  get_elem? [] i = none
  get_elem? (x ∷ xs) zero = some x
  get_elem? (x ∷ xs) (suc i) = get_elem? xs i

  pub All-get_elem? :
      (P : A → Type 0) (l : List A) (i : ℕ) (x : A) → All P l → get_elem? l i ≡ some x → P x
  All-get_elem? P [] i x a h = absurd (ground arith)
  All-get_elem? P (y ∷ ys) zero x (p, a) h = let e : y ≡ x = ground arith in subst P e p
  All-get_elem? P (y ∷ ys) (suc i) x (p, a) h = All-get_elem? P ys i x a h

  -- Of an element and what was found behind it, the first least one.
  abbrev pub earlier : (A → A → Bool) → A → Option (ℕ × A) → Option (ℕ × A)
  earlier less x none = some (0, x)
  earlier less x (some (i, y)) = if less y x then some (suc i, y) else some (0, x)

  abbrev pub later : Option (ℕ × A) → Option (ℕ × A)
  later none = none
  later (some (i, y)) = some (suc i, y)

  -- The first least element of those that pass, with its place: `min` of a filtered list.
  unfoldable pub first_min : (A → Bool) → (A → A → Bool) → List A → Option (ℕ × A)
  first_min ok less [] = none
  first_min ok less (x ∷ xs) =
      let rest = first_min ok less xs in if ok x then earlier less x rest else later rest

  pub first_min_place :
      (ok : A → Bool) (less : A → A → Bool) (l : List A) (i : ℕ) (x : A)
      → first_min ok less l ≡ some (i, x)
      → (get_elem? l i ≡ some x) × (ok x ≡ true)
  unfolding first_min
  first_min_place ok less [] i x h = ground arith
  first_min_place ok less (y ∷ ys) i x h = elim (Option-cases (first_min ok less ys)) [
    | inl e ↦ ground arith
    | inr ((j, z), e) ↦ ground (arith, first_min_place ok less ys j z e)
  ]

  pub All-imp : (P Q : A → Type 0) (l : List A) → ((x : A) → P x → Q x) → All P l → All Q l
  All-imp P Q [] f a = tt
  All-imp P Q (x ∷ xs) f (p, a) = (f x p, All-imp P Q xs f a)

  pub first_min-none :
      (ok : A → Bool) (less : A → A → Bool) (l : List A)
      → first_min ok less l ≡ none
      → All (λ x. ok x ≡ false) l
  unfolding first_min
  first_min-none ok less [] h = tt
  first_min-none ok less (y ∷ ys) h = elim (Option-cases (first_min ok less ys)) [
    | inl e ↦ (ground arith, first_min-none ok less ys e)
    | inr ((j, z), e) ↦ absurd (ground arith)
  ]

  abbrev pub IsLeast : (A → Bool) → (A → A → Bool) → List A → A → Type 0
  IsLeast ok less l x = All (λ y. ok y ≡ true → less y x ≡ false) l

  -- Nothing that passes is less than what is found.
  pub first_min-IsLeast :
      (ok : A → Bool) (less : A → A → Bool) (l : List A) (i : ℕ) (x : A)
      → IsOrder (λ (a b : A). not (less b a))
      → first_min ok less l ≡ some (i, x)
      → IsLeast ok less l x
  unfolding first_min
  first_min-IsLeast ok less [] i x o h = tt
  first_min-IsLeast ok less (y ∷ ys) i x o h = elim (Option-cases (first_min ok less ys)) [
    | inl e ↦
        let self : x ≡ y = ground arith in
        (
          λ p. ground (arith, o.total y y),
          All-imp (λ z. ok z ≡ false) (λ z. ok z ≡ true → less z x ≡ false) ys (λ z n p. cc)
              (first_min-none ok less ys e),
        )
    | inr ((j, z), e) ↦
        let rest = first_min-IsLeast ok less ys j z o e in
        elim (Bool-cases (ok y)) [
          | inl p ↦ elim (Bool-cases (less z y)) [
            | inl b ↦
                let same : x ≡ z = ground arith in
                subst (IsLeast ok less (y ∷ ys)) (sym same) (λ _. ground (arith, o.total z y), rest)
            | inr b ↦
                let same : x ≡ y = ground arith in
                subst (IsLeast ok less (y ∷ ys)) (sym same) (
                  λ _. ground (arith, o.total y y),
                  All-imp (λ a. ok a ≡ true → less a z ≡ false)
                      (λ a. ok a ≡ true → less a y ≡ false) ys
                      (λ a k q. let m : less a z ≡ false = k q in ground (arith, o.trans y z a))
                      rest,
                )
          ]
          | inr p ↦
              let same : x ≡ z = ground arith in
              subst (IsLeast ok less (y ∷ ys)) (sym same) (λ q. cc, rest)
        ]
  ]
