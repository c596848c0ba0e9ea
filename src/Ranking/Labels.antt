-- ===== src/Ranking/Labels.antt =====
-- What `assign_labels` leaves: which path has which label.
use mathlib.Core.Path.{subst}
use abcd_yi.Prelude.{
  ℕ, zero, suc, ◌≡◌, refl, sym, ap, ◌∙◌, arith, List, [], ◌∷◌, map, none, some, Bool, true, false,
  ◌&&◌, ◌⊎◌, inl, inr, String, str_eq, eq_iff, contains, is_some, Bool-cases, Option-cases,
}
use abcd_yi.Prelude.Floats.{Floats}
use abcd_yi.Prelude.Sorting.{All, Pairs, Pairs-sort_by, sort_by}
use abcd_yi.Prelude.Minimum.{All-get_elem?, get_elem?, first_min, first_min_place}
use abcd_yi.Ranking.Paths.{
  LeadTimePath, Label, fastest, lowest_cost, safest, best_overall, scores_at_least, number_from,
  rank_paths, label_at, Labelling, label_first, unused, label_rest, label_three,
}

-- No two paths have the same id.
abbrev pub DistinctIds : {F : Type 0} → List (LeadTimePath F) → Type 0
DistinctIds {F} = Pairs (λ (p q : LeadTimePath F). str_eq p.path_id q.path_id ≡ false)

-- A path but for its label.
abbrev pub unlabelled : {F : Type 0} → LeadTimePath F → LeadTimePath F
unlabelled p = record p { label = none }

-- The paths whose ids are used have a label.
abbrev pub Covered : {F : Type 0} → List String → List (LeadTimePath F) → Type 0
Covered {F} used =
    All (λ (p : LeadTimePath F). contains used p.path_id ≡ true → is_some p.label ≡ true)

pub str_eq_comm : (s t : String) → str_eq s t ≡ false → str_eq t s ≡ false
str_eq_comm s t h = ground (arith, eq_iff s t, eq_iff t s)

module _ {F : Type 0} where
  abbrev Differs : String → LeadTimePath F → Type 0
  Differs s q = str_eq s q.path_id ≡ false

  All-label_at :
      (s : String) (l : Label) (i : ℕ) (ps : List (LeadTimePath F))
      → All (Differs s) ps
      → All (Differs s) (label_at l i ps)
  unfolding label_at
  All-label_at s l i [] a = tt
  All-label_at s l zero (p ∷ ps) a = a
  All-label_at s l (suc i) (p ∷ ps) (h, a) = (h, All-label_at s l i ps a)

  label_at-DistinctIds :
      (l : Label) (i : ℕ) (ps : List (LeadTimePath F))
      → DistinctIds ps
      → DistinctIds (label_at l i ps)
  unfolding label_at
  label_at-DistinctIds l i [] d = tt
  label_at-DistinctIds l zero (p ∷ ps) d = d
  label_at-DistinctIds l (suc i) (p ∷ ps) (a, d) =
      (All-label_at p.path_id l i ps a, label_at-DistinctIds l i ps d)

  map-label_at :
      (l : Label) (i : ℕ) (ps : List (LeadTimePath F))
      → map unlabelled (label_at l i ps) ≡ map unlabelled ps
  unfolding label_at
  map-label_at l i [] = refl
  map-label_at l zero (p ∷ ps) = refl
  map-label_at l (suc i) (p ∷ ps) = ap (λ t. unlabelled p ∷ t) (map-label_at l i ps)

  Covered-more :
      (s : String) (used : List String) (ps : List (LeadTimePath F))
      → All (Differs s) ps
      → Covered used ps
      → Covered (s ∷ used) ps
  Covered-more s used [] a c = tt
  Covered-more s used (p ∷ ps) (h, a) (k, c) = (λ m. k (rw h at m), Covered-more s used ps a c)

  label_at-Covered :
      (l : Label) (used : List String) (i : ℕ) (ps : List (LeadTimePath F)) (x : LeadTimePath F)
      → DistinctIds ps
      → get_elem? ps i ≡ some x
      → Covered used ps
      → Covered (x.path_id ∷ used) (label_at l i ps)
  unfolding label_at
  label_at-Covered l used i [] x d h c = tt
  label_at-Covered l used zero (p ∷ ps) x (a, d) h (k, c) =
      let e : p ≡ x = ground arith in
      (
        λ _. refl,
        subst (λ (y : LeadTimePath F). Covered (y.path_id ∷ used) ps) e
            (Covered-more p.path_id used ps a c),
      )
  label_at-Covered l used (suc i) (p ∷ ps) x (a, d) h (k, c) =
      let n : str_eq x.path_id p.path_id ≡ false =
        str_eq_comm p.path_id x.path_id (All-get_elem? (Differs p.path_id) ps i x a h) in
      (λ m. k (rw n at m), label_at-Covered l used i ps x d h c)

  -- What the parts of `assign_labels` keep.
  abbrev pub IsCovered : Labelling F → Type 0
  IsCovered s = DistinctIds s.paths × Covered s.used s.paths

  -- Nothing is labelled, or one path that passes and had no label of the others.
  abbrev pub Labels :
      (LeadTimePath F → Bool) → Label → Labelling F → Labelling F → ℕ → LeadTimePath F → Type 0
  Labels ok l s t i x =
      (get_elem? s.paths i ≡ some x)
      × ((unused s.used x && ok x) ≡ true)
      × (t ≡ record { used = x.path_id ∷ s.used; paths = label_at l i s.paths })

  pub label_first_cases :
      (ok : LeadTimePath F → Bool) (less : LeadTimePath F → LeadTimePath F → Bool) (l : Label)
      (s : Labelling F)
      → ((first_min (λ (p : LeadTimePath F). unused s.used p && ok p) less s.paths ≡ none)
          × (label_first ok less l s ≡ s))
        ⊎ ((i : ℕ) × (x : LeadTimePath F) × (first_min
                (λ (p : LeadTimePath F). unused s.used p && ok p)
                less
                s.paths
              ≡ some (i, x))
            × Labels ok l s (label_first ok less l s) i x)
  unfolding label_first
  label_first_cases ok less l s =
      let admit : LeadTimePath F → Bool = λ p. unused s.used p && ok p in
      elim (Option-cases (first_min admit less s.paths)) [
        | inl e ↦ inl (e, rw (e, label_first))
        | inr ((i, x), e) ↦
            let (at_i, passes) = first_min_place admit less s.paths i x e in
            inr (i, x, e, (at_i, passes, rw (e, label_first)))
      ]

  label_first-IsCovered :
      (ok : LeadTimePath F → Bool) (less : LeadTimePath F → LeadTimePath F → Bool) (l : Label)
      (s : Labelling F)
      → IsCovered s
      → IsCovered (label_first ok less l s)
  label_first-IsCovered ok less l s (d, c) = elim (label_first_cases ok less l s) [
    | inl (_, e) ↦ subst IsCovered (sym e) (d, c)
    | inr (i, x, _, (at_i, _, e)) ↦
        subst IsCovered (sym e)
          (label_at-DistinctIds l i s.paths d, label_at-Covered l s.used i s.paths x d at_i c)
  ]

  label_first-unlabelled :
      (ok : LeadTimePath F → Bool) (less : LeadTimePath F → LeadTimePath F → Bool) (l : Label)
      (s : Labelling F)
      → map unlabelled (label_first ok less l s).paths ≡ map unlabelled s.paths
  label_first-unlabelled ok less l s = elim (label_first_cases ok less l s) [
    | inl (_, e) ↦ ap (λ (t : Labelling F). map unlabelled t.paths) e
    | inr (i, x, _, (_, _, e)) ↦
        ap (λ (t : Labelling F). map unlabelled t.paths) e ∙ map-label_at l i s.paths
  ]

  rest-labelled :
      (used : List String) (ps : List (LeadTimePath F))
      → Covered used ps
      → All (λ p. is_some p.label ≡ true) (map (label_rest used) ps)
  rest-labelled used [] c = tt
  rest-labelled used (p ∷ ps) (k, c) = (
    elim (Bool-cases (contains used p.path_id)) [ inl e ↦ rw e (k e) | inr e ↦ rw e refl ],
    rest-labelled used ps c,
  )

  map-label_rest :
      (used : List String) (ps : List (LeadTimePath F))
      → map unlabelled (map (label_rest used) ps) ≡ map unlabelled ps
  map-label_rest used [] = refl
  map-label_rest used (p ∷ ps) = elim (Bool-cases (contains used p.path_id)) [
    | inl e ↦ rw e (ap (λ t. unlabelled p ∷ t) (map-label_rest used ps))
    | inr e ↦ rw e (ap (λ t. unlabelled p ∷ t) (map-label_rest used ps))
  ]

  number_from-DistinctIds :
      (i : ℕ) (ps : List (LeadTimePath F)) → DistinctIds ps → DistinctIds (number_from i ps)
  unfolding number_from
  number_from-DistinctIds i [] d = tt
  number_from-DistinctIds i (p ∷ ps) (a, d) =
      (number_from-All p.path_id (suc i) ps a, number_from-DistinctIds (suc i) ps d)
    where
      number_from-All :
          (s : String) (i : ℕ) (ps : List (LeadTimePath F))
          → All (Differs s) ps
          → All (Differs s) (number_from i ps)
      number_from-All s i [] a = tt
      number_from-All s i (p ∷ ps) (h, a) = (h, number_from-All s (suc i) ps a)

pub rank_paths-DistinctIds :
    (f : Floats) (paths : List (LeadTimePath f.Float))
    → DistinctIds paths
    → DistinctIds (rank_paths f paths)
unfolding rank_paths
rank_paths-DistinctIds f paths d = number_from-DistinctIds 1 (sort_by (scores_at_least f) paths) (
    Pairs-sort_by (scores_at_least f) (λ p q. str_eq p.path_id q.path_id ≡ false) paths
      (λ p q h. str_eq_comm p.path_id q.path_id h) d)

-- The state in which the three labels behind the first are given.
abbrev pub first_labelled : {F : Type 0} → LeadTimePath F → List (LeadTimePath F) → Labelling F
first_labelled best rest = record {
  used = best.path_id ∷ [];
  paths = record best { label = some best_overall } ∷ rest;
}

module _ (f : Floats) (best : LeadTimePath f.Float) (rest : List (LeadTimePath f.Float)) where
  three-IsCovered :
      DistinctIds (best ∷ rest) → IsCovered (label_three f best.path_id (first_labelled best rest))
  three-IsCovered (a, d) = label_first-IsCovered _ _ safest _ (
      label_first-IsCovered _ _ lowest_cost _
        (label_first-IsCovered _ _ fastest _ ((a, d), (λ _. refl, none_used rest a))))
    where
      none_used :
          (ps : List (LeadTimePath f.Float))
          → All (Differs best.path_id) ps
          → Covered (best.path_id ∷ []) ps
      none_used [] a = tt
      none_used (p ∷ ps) (h, a) = (λ m. let n : false ≡ true = rw h at m in cc, none_used ps a)

  three-unlabelled :
      map unlabelled (label_three f best.path_id (first_labelled best rest)).paths
      ≡ map unlabelled (best ∷ rest)
  three-unlabelled =
      label_first-unlabelled _ _ safest _
      ∙ label_first-unlabelled _ _ lowest_cost _
      ∙ label_first-unlabelled _ _ fastest (first_labelled best rest)
