-- ===== src/Upstream/Choice.antt =====
-- Which options are offered.
use mathlib.Core.Path.{subst}
use abcd_yi.Prelude.{
  ℕ, ◌+◌, ◌≤◌, ◌≡◌, refl, sym, ap, ◌∙◌, arith, Bool, true, false, Option, none, some, List, [], ◌∷◌,
  keep, length, str_eq, Bool-cases, ◌⊎◌, inl, inr,
}
use abcd_yi.Prelude.Floats.{Floats, IsOrdered}
use abcd_yi.Prelude.Sorting.{
  All, IsOrder, IsSorted, sort_by, sort_by-IsSorted, length-sort_by, All-sort_by, All-of_sort_by,
}
use abcd_yi.Prelude.Minimum.{first_min, first_min-none}
use abcd_yi.Upstream.Options.{
  UpstreamOption, Response, best, score_response, scores_best, option_of, faster, is_other,
  fewer_risks, fill_up, last_option, further_options, choose_options, viable_of,
  generate_upstream_options,
}

keep-All : {A : Type 0} (p : A → Bool) (l : List A) → All (λ x. p x ≡ true) (keep p l)
unfolding keep
keep-All p [] = tt
keep-All p (x ∷ xs) = elim (Bool-cases (p x)) [
  | inl e ↦ rw e (e, keep-All p xs)
  | inr e ↦ rw e (keep-All p xs)
]

module _ (f : Floats) where
  length-last_option :
      (id count : ℕ) (o : Option (ℕ × Response f)) (scored viable : List (Response f))
      → (length (last_option f id count o scored viable) ≤ 1)
        × (count ≡ 1
            → 2 ≤ length viable
            → 2 ≤ length scored
            → 1 ≤ length (last_option f id count o scored viable))
  unfolding last_option fill_up
  length-last_option id count none (r ∷ q ∷ rest) viable = (ground arith, λ a b c. ground arith)
  length-last_option id count none (r ∷ []) viable = (ground arith, λ a b c. absurd (omega arith))
  length-last_option id count none [] viable = (ground arith, λ a b c. absurd (omega arith))
  length-last_option id count (some (i, r)) scored viable = (omega arith, λ a b c. omega arith)

  length-further_options :
      (id : ℕ) (b fast : Response f) (scored viable : List (Response f))
      → length scored ≡ length viable
      → (length (further_options f id b fast scored viable) ≤ 2)
        × (2 ≤ length viable → 1 ≤ length (further_options f id b fast scored viable))
  unfolding further_options
  length-further_options id b fast scored viable same =
      let picked = first_min (λ _. true) (fewer_risks f) (keep (is_other f b fast) viable) in
      elim (Bool-cases (str_eq fast.upstream_actor_id b.upstream_actor_id)) [
        | inl e ↦
            let last = length-last_option (id + 2) 1 picked scored viable in
            (rw e (omega arith), λ n. rw e (last.1 refl n (omega arith)))
        | inr e ↦
            let last = length-last_option (id + 2) 2 picked scored viable in
            (rw e (omega arith), λ n. rw e (omega arith))
      ]

scores_best-IsOrder : (f : Floats) → IsOrdered f → IsOrder (scores_best f)
scores_best-IsOrder f o = record {
  total = λ p q. o.total (score_response f p) (score_response f q);
  trans = λ p q r. o.trans (score_response f p) (score_response f q) (score_response f r);
}

length-absurd : {A : Type 0} (l : List A) → All (λ _. true ≡ false) l → length l ≡ 0
length-absurd [] a = refl
length-absurd (x ∷ xs) (p, a) = absurd (ground arith)

-- No response that can supply, no option. Otherwise the first option is BEST, made of a response
-- that can supply and scores no less than any other that can; behind it stand two options at most,
-- and one at least where two responses can supply.
pub generate_upstream_options_lem :
    (f : Floats) (id : ℕ) (responses : List (Response f))
    → IsOrdered f
    → ((length (viable_of f responses) ≡ 0) × (generate_upstream_options f id responses ≡ []))
      ⊎ ((r : Response f) × (others : List (UpstreamOption f.Float)) × (generate_upstream_options f
              id responses
            ≡ option_of f id best r ∷ others)
          × (r.can_supply ≡ true)
          × All (λ q. scores_best f r q ≡ true) (viable_of f responses)
          × (length others ≤ 2)
          × (2 ≤ length (viable_of f responses) → 1 ≤ length others))
unfolding generate_upstream_options choose_options
generate_upstream_options_lem f id responses o =
    chosen (sort_by (scores_best f) viable) (first_min (λ _. true) (faster f) viable) refl refl
  where
    viable : List (Response f)
    viable = viable_of f responses

    chosen :
        (scored : List (Response f)) (fast : Option (ℕ × Response f))
        → sort_by (scores_best f) viable ≡ scored
        → first_min (λ _. true) (faster f) viable ≡ fast
        → ((length viable ≡ 0) × (choose_options f id scored fast viable ≡ []))
          ⊎ ((r : Response f) × (others : List (UpstreamOption f.Float)) × (choose_options f id
                  scored fast viable
                ≡ option_of f id best r ∷ others)
              × (r.can_supply ≡ true)
              × All (λ q. scores_best f r q ≡ true) viable
              × (length others ≤ 2)
              × (2 ≤ length viable → 1 ≤ length others))
    chosen [] fast e g = inl (sym (length-sort_by (scores_best f) viable) ∙ ap length e, refl)
    chosen (b ∷ rest) none e g =
        let some_viable = sym (length-sort_by (scores_best f) viable) ∙ ap length e in
        let no_viable = length-absurd viable (first_min-none (λ _. true) (faster f) viable g) in
        absurd (omega arith)
    chosen (b ∷ rest) (some (i, fast)) e g =
        let sorted : IsSorted (scores_best f) (b ∷ rest) =
          subst (IsSorted (scores_best f)) e
            (sort_by-IsSorted (scores_best f) (scores_best-IsOrder f o) viable) in
        let able : All (λ (q : Response f). q.can_supply ≡ true) (b ∷ rest) =
          subst (All (λ (q : Response f). q.can_supply ≡ true)) e (
            All-sort_by (scores_best f) (λ (q : Response f). q.can_supply ≡ true) viable
              (keep-All (λ (q : Response f). q.can_supply) responses)) in
        let itself : scores_best f b b ≡ true =
          elim (o.total (score_response f b) (score_response f b)) [ inl h ↦ h | inr h ↦ h ] in
        let top : All (λ q. scores_best f b q ≡ true) (sort_by (scores_best f) viable) =
          subst (All (λ q. scores_best f b q ≡ true)) (sym e) (itself, sorted.0) in
        let same : length (b ∷ rest) ≡ length viable =
          sym (ap length e) ∙ length-sort_by (scores_best f) viable in
        let (few, another) = length-further_options f id b fast (b ∷ rest) viable same in
        inr (
          b,
          further_options f id b fast (b ∷ rest) viable,
          refl,
          able.0,
          All-of_sort_by (scores_best f) (λ q. scores_best f b q ≡ true) viable top,
          few,
          another,
        )
