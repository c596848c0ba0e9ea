-- ===== src/Benchmark/Order.antt =====
-- The order of the samples is no part of a benchmark.
use mathlib.Core.Logic.{∥∥₁_elim}
use mathlib.Core.List.{Perm, Permᴰ}
use native.Mathlib.Nat.{ℕ_set}
use abcd_yi.Prelude.{
  ℕ, suc, ◌+◌, ◌≡◌, refl, sym, ap, ◌∙◌, arith, String, Bool, false, leb, Option, none, some, List,
  [], ◌∷◌, keep, length, if◌then◌else◌, Bool-cases, inl, inr,
}
use abcd_yi.Prelude.Sorting.{sort_by, insert_by}
use abcd_yi.Benchmark.Engine.{
  Sample, Normalization, Requirement, gather, comparable_price, is_usable, build_benchmark,
  first_stamp,
}

-- Steps that can change places make a fold that does not see the order.
fold_perm :
    {A X : Type 0} (f : List A → X) (step : A → X → X)
    → ((a : A) (l : List A) → f (a ∷ l) ≡ step a (f l))
    → ((a b : A) (x : X) → step a (step b x) ≡ step b (step a x))
    → {l m : List A} → Permᴰ l m
    → f l ≡ f m
fold_perm f step cons comm Permᴰ.nil = refl
fold_perm f step cons comm (Permᴰ.cons {a = a} {b = b} {l₁ = l} {l₂ = m} e p) =
    cons a l ∙ ap (step a) (fold_perm f step cons comm p) ∙ sym (cons a m) ∙ ap (λ c. f (c ∷ m)) e
fold_perm f step cons comm (Permᴰ.swap {a = a} {b = b} {a' = a'} {b' = b'} {l = l} e g) =
    cons a (b ∷ l)
    ∙ ap (step a) (cons b l)
    ∙ comm a b (f l)
    ∙ sym (ap (step b) (cons a l))
    ∙ sym (cons b (a ∷ l))
    ∙ ap (λ c. f (c ∷ a ∷ l)) g
    ∙ ap (λ c. f (a' ∷ c ∷ l)) e
fold_perm f step cons comm (Permᴰ.trans p q) =
    fold_perm f step cons comm p ∙ fold_perm f step cons comm q

insert_up_comm :
    (x y : ℕ) (l : List ℕ)
    → insert_by leb x (insert_by leb y l) ≡ insert_by leb y (insert_by leb x l)
unfolding insert_by
insert_up_comm x y [] = ground arith
insert_up_comm x y (z ∷ zs) = ground (arith, insert_up_comm x y zs)

abbrev geb : ℕ → ℕ → Bool
geb a b = leb b a

insert_down_comm :
    (x y : ℕ) (l : List ℕ)
    → insert_by geb x (insert_by geb y l) ≡ insert_by geb y (insert_by geb x l)
unfolding insert_by
insert_down_comm x y [] = ground arith
insert_down_comm x y (z ∷ zs) = ground (arith, insert_down_comm x y zs)

abbrev insert_option : (ℕ → ℕ → Bool) → Option ℕ → List ℕ → List ℕ
insert_option le none l = l
insert_option le (some p) l = insert_by le p l

insert_option_comm :
    (le : ℕ → ℕ → Bool)
    → ((x y : ℕ) (l : List ℕ)
        → insert_by le x (insert_by le y l) ≡ insert_by le y (insert_by le x l))
    → (o q : Option ℕ) (l : List ℕ)
    → insert_option le o (insert_option le q l) ≡ insert_option le q (insert_option le o l)
insert_option_comm le comm none q l = refl
insert_option_comm le comm (some p) none l = refl
insert_option_comm le comm (some p) (some q) l = comm p q l

module _ (price : Sample → Option ℕ) (usable : Sample → Bool) where
  abbrev counted_step : Sample → ℕ → ℕ
  counted_step s n = if usable s then suc n else n

  counted_comm :
      (s t : Sample) (n : ℕ) → counted_step s (counted_step t n) ≡ counted_step t (counted_step s n)
  counted_comm s t n = ground arith

  counted-cons :
      (s : Sample) (l : List Sample)
      → length (keep usable (s ∷ l)) ≡ counted_step s (length (keep usable l))
  unfolding keep
  counted-cons s l = elim (Bool-cases (usable s)) [ inl e ↦ rw e refl | inr e ↦ rw e refl ]

  abbrev is_skipped : Sample → Bool
  is_skipped s = elim (price s) [ none ↦ usable s | some p ↦ false ]

  abbrev skipped_step : Sample → ℕ → ℕ
  skipped_step s n = if is_skipped s then n + 1 else n

  skipped-cons :
      (s : Sample) (l : List Sample)
      → (gather price (keep usable (s ∷ l))).skipped
        ≡ skipped_step s (gather price (keep usable l)).skipped
  unfolding keep gather
  skipped-cons s l = ground arith

  skipped_comm :
      (s t : Sample) (n : ℕ) → skipped_step s (skipped_step t n) ≡ skipped_step t (skipped_step s n)
  skipped_comm s t n = elim (Bool-cases (is_skipped s)) [
    | inl e ↦ elim (Bool-cases (is_skipped t)) [ inl k ↦ rw (e, k) refl | inr k ↦ rw (e, k) refl ]
    | inr e ↦ elim (Bool-cases (is_skipped t)) [ inl k ↦ rw (e, k) refl | inr k ↦ rw (e, k) refl ]
  ]

  -- The price and the time that a sample contributes.
  abbrev offer : Sample → Option ℕ
  offer s = if usable s then price s else none

  abbrev stamp : Sample → Option ℕ
  stamp s = elim (offer s) [ none ↦ none | some p ↦ first_stamp s.captured_at s.observed_at ]

  prices-cons :
      (s : Sample) (l : List Sample)
      → sort_by leb (gather price (keep usable (s ∷ l))).prices
        ≡ insert_option leb (offer s) (sort_by leb (gather price (keep usable l)).prices)
  unfolding keep gather sort_by
  prices-cons s l = ground arith

  times-cons :
      (le : ℕ → ℕ → Bool) (s : Sample) (l : List Sample)
      → sort_by le (gather price (keep usable (s ∷ l))).timestamps
        ≡ insert_option le (stamp s) (sort_by le (gather price (keep usable l)).timestamps)
  unfolding keep gather sort_by
  times-cons le s l = ground arith

module _ (lower_strip : String → String) (r : Requirement) (ns : List Normalization) where
  abbrev price : Sample → Option ℕ
  price = comparable_price lower_strip r

  abbrev usable : Sample → Bool
  usable = is_usable ns

  perm-same :
      {l m : List Sample}
      → Permᴰ l m
      → build_benchmark lower_strip r l ns ≡ build_benchmark lower_strip r m ns
  unfolding build_benchmark
  perm-same {l} {m} p =
      let whole = fold_perm length (λ s n. suc n) (λ s l. refl) (λ s t n. refl) p in
      let counted =
        fold_perm (λ l. length (keep usable l)) (counted_step price usable)
          (counted-cons price usable) (counted_comm price usable) p in
      let skipped =
        fold_perm (λ l. (gather price (keep usable l)).skipped) (skipped_step price usable)
          (skipped-cons price usable) (skipped_comm price usable) p in
      let prices =
        fold_perm (λ l. sort_by leb (gather price (keep usable l)).prices)
          (λ s. insert_option leb (offer price usable s)) (prices-cons price usable)
          (λ s t.
            insert_option_comm leb insert_up_comm (offer price usable s) (offer price usable t))
          p in
      let up =
        fold_perm (λ l. sort_by leb (gather price (keep usable l)).timestamps)
          (λ s. insert_option leb (stamp price usable s)) (times-cons price usable leb)
          (λ s t.
            insert_option_comm leb insert_up_comm (stamp price usable s) (stamp price usable t))
          p in
      let down =
        fold_perm (λ l. sort_by geb (gather price (keep usable l)).timestamps)
          (λ s. insert_option geb (stamp price usable s)) (times-cons price usable geb)
          (λ s t.
            insert_option_comm geb insert_down_comm (stamp price usable s) (stamp price usable t))
          p in
      rw (whole, counted, skipped, prices, up, down) refl

-- The samples may come in any order: the counts, the confidence, the quartiles and the period are the
-- same.
pub build_benchmark-perm :
    (lower_strip : String → String) (r : Requirement) (samples samples' : List Sample)
    (ns : List Normalization)
    → Perm samples samples'
    → build_benchmark lower_strip r samples ns ≡ build_benchmark lower_strip r samples' ns
build_benchmark-perm lower_strip r samples samples' ns p =
    ∥∥₁_elim p (hlevel ℕ_set) (λ q. perm-same lower_strip r ns q)
