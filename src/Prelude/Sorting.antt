-- ===== src/Prelude/Sorting.antt =====
-- `sorted` of the language: a stable sort by a test.
use Prim.Native.Nat.{suc}
use mathlib.Core.Path.{◌≡◌, refl, ap, ◌∙◌}
use mathlib.Core.Logic.{◌⊎◌, inl, inr}
use mathlib.Core.Bool.{Bool, true, false, ◌&&◌}
use mathlib.Core.List.{List, [], ◌∷◌, Perm}
use mathlib.Core.List.Perm
use native.Mathlib.Omega.{arith}
use abcd_yi.Prelude.Tests.{if◌then◌else◌, Bool-cases}
use abcd_yi.Prelude.Lists.{length, keep}

abbrev pub All {ℓ κ} : {A : Type ℓ} → (A → Type κ) → List A → Type κ
All P [] = Unit
All P (x ∷ xs) = P x × All P xs

abbrev pub Pairs {ℓ κ} : {A : Type ℓ} → (A → A → Type κ) → List A → Type κ
Pairs R [] = Unit
Pairs R (x ∷ xs) = All (R x) xs × Pairs R xs

module _ {ℓ} {A : Type ℓ} (le : A → A → Bool) where
  -- Equal elements stay in their order: an element goes before those that it is not behind.
  unfoldable pub insert_by : A → List A → List A
  insert_by x [] = x ∷ []
  insert_by x (y ∷ ys) = if le x y then x ∷ y ∷ ys else y ∷ insert_by x ys

  unfoldable pub sort_by : List A → List A
  sort_by [] = []
  sort_by (x ∷ xs) = insert_by x (sort_by xs)

  abbrev pub IsSorted : List A → Type 0
  IsSorted [] = Unit
  IsSorted (x ∷ xs) = All (λ y. le x y ≡ true) xs × IsSorted xs

  insert_by-perm : (x : A) (l : List A) → Perm (insert_by x l) (x ∷ l)
  unfolding insert_by
  insert_by-perm x [] = Perm.rfl
  insert_by-perm x (y ∷ ys) = elim (Bool-cases (le x y)) [
    | inl e ↦ rw e Perm.rfl
    | inr e ↦ rw e (Perm.trans (Perm.cons y (insert_by-perm x ys)) (Perm.swap x y ys))
  ]

  pub sort_by-perm : (l : List A) → Perm (sort_by l) l
  unfolding sort_by
  sort_by-perm [] = Perm.rfl
  sort_by-perm (x ∷ xs) = Perm.trans (insert_by-perm x (sort_by xs)) (Perm.cons x (sort_by-perm xs))

module _ {ℓ} {A : Type ℓ} (le : A → A → Bool) where
  pub All-insert_by :
      (P : A → Type 0) (x : A) (l : List A) → P x → All P l → All P (insert_by le x l)
  unfolding insert_by
  All-insert_by P x [] p a = (p, tt)
  All-insert_by P x (y ∷ ys) p (q, a) = elim (Bool-cases (le x y)) [
    | inl e ↦ rw e (p, (q, a))
    | inr e ↦ rw e (q, All-insert_by P x ys p a)
  ]

  Pairs-insert_by :
      (R : A → A → Type 0) (x : A) (l : List A)
      → ((a b : A) → R a b → R b a)
      → All (R x) l
      → Pairs R l
      → Pairs R (insert_by le x l)
  unfolding insert_by
  Pairs-insert_by R x [] flip a s = (tt, tt)
  Pairs-insert_by R x (y ∷ ys) flip (r, a) (b, s) = elim (Bool-cases (le x y)) [
    | inl e ↦ rw e ((r, a), (b, s))
    | inr e ↦ rw e (All-insert_by (R y) x ys (flip x y r) b, Pairs-insert_by R x ys flip a s)
  ]

  pub All-sort_by : (P : A → Type 0) (l : List A) → All P l → All P (sort_by le l)
  unfolding sort_by
  All-sort_by P [] a = tt
  All-sort_by P (x ∷ xs) (p, a) = All-insert_by P x (sort_by le xs) p (All-sort_by P xs a)

  pub Pairs-sort_by :
      (R : A → A → Type 0) (l : List A)
      → ((a b : A) → R a b → R b a)
      → Pairs R l
      → Pairs R (sort_by le l)
  unfolding sort_by
  Pairs-sort_by R [] flip s = tt
  Pairs-sort_by R (x ∷ xs) flip (a, s) =
      Pairs-insert_by R x (sort_by le xs) flip (All-sort_by (R x) xs a) (Pairs-sort_by R xs flip s)

-- Neither of two elements is behind the other.
abbrev pub tied {ℓ} : {A : Type ℓ} → (A → A → Bool) → A → A → Bool
tied le a b = le a b && le b a

-- What a test must be for the sort to sort: total and transitive.
pub record IsOrder {ℓ} {A : Type ℓ} (le : A → A → Bool) : Type ℓ where
  pub total : (a b : A) → (le a b ≡ true) ⊎ (le b a ≡ true)
  pub trans : (a b c : A) → le a b ≡ true → le b c ≡ true → le a c ≡ true

module _ {ℓ} {A : Type ℓ} (le : A → A → Bool) (o : IsOrder le) where
  All-trans :
      (x y : A) (l : List A)
      → le x y ≡ true
      → All (λ z. le y z ≡ true) l
      → All (λ z. le x z ≡ true) l
  All-trans x y [] h a = tt
  All-trans x y (z ∷ zs) h (p, a) = (o.trans x y z h p, All-trans x y zs h a)

  insert_by-IsSorted : (x : A) (l : List A) → IsSorted le l → IsSorted le (insert_by le x l)
  unfolding insert_by
  insert_by-IsSorted x [] s = (tt, tt)
  insert_by-IsSorted x (y ∷ ys) (a, s) = elim (Bool-cases (le x y)) [
    | inl e ↦ rw e ((e, All-trans x y ys e a), (a, s))
    | inr e ↦
        let before : le y x ≡ true = elim (o.total x y) [ inl h ↦ cc | inr h ↦ h ] in
        rw e (All-insert_by le (λ z. le y z ≡ true) x ys before a, insert_by-IsSorted x ys s)
  ]

  pub sort_by-IsSorted : (l : List A) → IsSorted le (sort_by le l)
  unfolding sort_by
  sort_by-IsSorted [] = tt
  sort_by-IsSorted (x ∷ xs) = insert_by-IsSorted x (sort_by le xs) (sort_by-IsSorted xs)

  apart : (a x y : A) → le x y ≡ false → (tied le a x && tied le a y) ≡ false
  apart a x y e = ground (arith, o.trans x a y)

  keep-insert_by :
      (a x : A) (l : List A) → keep (tied le a) (insert_by le x l) ≡ keep (tied le a) (x ∷ l)
  unfolding insert_by keep
  keep-insert_by a x [] = refl
  keep-insert_by a x (y ∷ ys) = elim (Bool-cases (le x y)) [
    | inl e ↦ rw e refl
    | inr e ↦ rw e (ground (arith, apart a x y e, keep-insert_by a x ys))
  ]

  -- The sort is stable: elements that are tied with one stay in their order.
  pub keep-sort_by : (a : A) (l : List A) → keep (tied le a) (sort_by le l) ≡ keep (tied le a) l
  unfolding sort_by keep
  keep-sort_by a [] = refl
  keep-sort_by a (x ∷ xs) = keep-insert_by a x (sort_by le xs) ∙ ground (arith, keep-sort_by a xs)

module _ {ℓ} {A : Type ℓ} (le : A → A → Bool) where
  length-insert_by : (x : A) (l : List A) → length (insert_by le x l) ≡ suc (length l)
  unfolding insert_by
  length-insert_by x [] = refl
  length-insert_by x (y ∷ ys) = ground (arith, length-insert_by x ys)

  pub length-sort_by : (l : List A) → length (sort_by le l) ≡ length l
  unfolding sort_by
  length-sort_by [] = refl
  length-sort_by (x ∷ xs) = length-insert_by x (sort_by le xs) ∙ ap suc (length-sort_by xs)

  All-of_insert_by :
      (P : A → Type 0) (x : A) (l : List A) → All P (insert_by le x l) → P x × All P l
  unfolding insert_by
  All-of_insert_by P x [] a = a
  All-of_insert_by P x (y ∷ ys) a = elim (Bool-cases (le x y)) [
    | inl e ↦ rw e at a
    | inr e ↦
        let b : P y × All P (insert_by le x ys) = rw e at a in
        let (p, q) = All-of_insert_by P x ys b.1 in (p, (b.0, q))
  ]

  pub All-of_sort_by : (P : A → Type 0) (l : List A) → All P (sort_by le l) → All P l
  unfolding sort_by
  All-of_sort_by P [] a = tt
  All-of_sort_by P (x ∷ xs) a =
      let (p, b) = All-of_insert_by P x (sort_by le xs) a in (p, All-of_sort_by P xs b)
