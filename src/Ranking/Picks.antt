-- ===== src/Ranking/Picks.antt =====
-- Which paths `assign_labels` picks for the labels BEST_OVERALL and FASTEST.
use mathlib.Core.Path.{subst}
use abcd_yi.Prelude.{
  ==_iff, ℕ, zero, suc, ◌==◌, ◌≡◌, refl, sym, ap, ◌∙◌, arith, List, [], ◌∷◌, map, some, Bool, true,
  false, not, ◌&&◌, inl, inr, String, str_eq, eq_iff, contains, is_some, Bool-cases, &&-true,
}
use abcd_yi.Prelude.Floats.{Floats}
use abcd_yi.Prelude.Sorting.{All, IsOrder}
use abcd_yi.Prelude.Minimum.{get_elem?, first_min-IsLeast, first_min-none}
use abcd_yi.Ranking.Paths.{
  LeadTimePath, Label, fastest, lowest_cost, safest, best_overall, label_at, Labelling, label_first,
  unused, label_rest, label_ranked, assign_labels, rank_paths, fewer_days, fewer_flags, cheaper,
}
use abcd_yi.Ranking.Labels.{
  DistinctIds, first_labelled, label_first_cases, rank_paths-DistinctIds, str_eq_comm,
}

module _ {F : Type 0} where
  get_elem?-label_at_self :
      (l : Label) (i : ℕ) (ps : List (LeadTimePath F)) (x : LeadTimePath F)
      → get_elem? ps i ≡ some x
      → get_elem? (label_at l i ps) i ≡ some (record x { label = some l })
  unfolding label_at
  get_elem?-label_at_self l i [] x h = ground arith
  get_elem?-label_at_self l zero (p ∷ ps) x h = ground arith
  get_elem?-label_at_self l (suc i) (p ∷ ps) x h = get_elem?-label_at_self l i ps x h

  get_elem?-label_at :
      (l : Label) (i j : ℕ) (ps : List (LeadTimePath F))
      → (i == j) ≡ false
      → get_elem? (label_at l i ps) j ≡ get_elem? ps j
  unfolding label_at
  get_elem?-label_at l i j [] h = refl
  get_elem?-label_at l zero zero (p ∷ ps) h = absurd (ground arith)
  get_elem?-label_at l zero (suc j) (p ∷ ps) h = refl
  get_elem?-label_at l (suc i) zero (p ∷ ps) h = refl
  get_elem?-label_at l (suc i) (suc j) (p ∷ ps) h = get_elem?-label_at l i j ps (ground arith)

  -- A path that has its label, at its place.
  abbrev Has : ℕ → LeadTimePath F → Labelling F → Type 0
  Has j p s = (get_elem? s.paths j ≡ some p) × (contains s.used p.path_id ≡ true)

  label_first-Has :
      (ok : LeadTimePath F → Bool) (less : LeadTimePath F → LeadTimePath F → Bool) (l : Label)
      (s : Labelling F) (j : ℕ) (p : LeadTimePath F)
      → Has j p s
      → Has j p (label_first ok less l s)
  label_first-Has ok less l s j p (e, u) = elim (label_first_cases ok less l s) [
    | inl (_, k) ↦ subst (Has j p) (sym k) (e, u)
    | inr (i, x, _, (at_i, passes, k)) ↦ subst (Has j p) (sym k) (stays i x at_i passes)
  ]
    where
      stays :
          (i : ℕ) (x : LeadTimePath F)
          → get_elem? s.paths i ≡ some x
          → (unused s.used x && ok x) ≡ true
          → Has j p (record { used = x.path_id ∷ s.used; paths = label_at l i s.paths })
      stays i x at_i passes = elim (Bool-cases (i == j)) [
        | inl same ↦
            let here : some x ≡ some p =
              sym at_i ∙ ap (get_elem? s.paths) ((==_iff i j).0 same) ∙ e in
            let x_p : x ≡ p = ground arith in
            let n : unused s.used p ≡ true =
              subst (λ y. unused s.used y ≡ true) x_p (&&-true (unused s.used x) (ok x) passes).0 in
            absurd (ground arith)
        | inr other ↦ (get_elem?-label_at l i j s.paths other ∙ e, ground arith)
      ]

  get_elem?-label_rest :
      (used : List String) (ps : List (LeadTimePath F)) (j : ℕ) (p : LeadTimePath F)
      → get_elem? ps j ≡ some p
      → contains used p.path_id ≡ true
      → get_elem? (map (label_rest used) ps) j ≡ some p
  get_elem?-label_rest used [] j p e u = e
  get_elem?-label_rest used (q ∷ ps) zero p e u = ground arith
  get_elem?-label_rest used (q ∷ ps) (suc j) p e u = get_elem?-label_rest used ps j p e u

  fewer_days-IsOrder : IsOrder (λ (a b : LeadTimePath F). not (fewer_days b a))
  fewer_days-IsOrder = record { total = λ a b. ground arith; trans = λ a b c h k. ground arith }

  abbrev admitted : LeadTimePath F → LeadTimePath F → Bool
  admitted best q = unused (best.path_id ∷ []) q && not (str_eq q.path_id best.path_id)

  others_admitted :
      (best q : LeadTimePath F) → str_eq best.path_id q.path_id ≡ false → admitted best q ≡ true
  others_admitted best q h = rw (h, str_eq_comm best.path_id q.path_id h) refl

  none_faster :
      (best x : LeadTimePath F) (ps : List (LeadTimePath F))
      → All (λ q. str_eq best.path_id q.path_id ≡ false) ps
      → All (λ q. admitted best q ≡ true → fewer_days q x ≡ false) ps
      → All (λ q. fewer_days q x ≡ false) ps
  none_faster best x [] a b = tt
  none_faster best x (q ∷ qs) (h, a) (k, b) =
      (k (others_admitted best q h), none_faster best x qs a b)

  -- Of the paths behind the first, one with the fewest days gets the label FASTEST.
  abbrev IsFastest :
      LeadTimePath F → List (LeadTimePath F) → Labelling F → ℕ → LeadTimePath F → Type 0
  IsFastest best rest s i x =
      (get_elem? rest i ≡ some x)
      × All (λ q. fewer_days q x ≡ false) rest
      × Has (suc i) (record x { label = some fastest }) s

  first_fastest :
      (best second : LeadTimePath F) (more : List (LeadTimePath F))
      → DistinctIds (best ∷ second ∷ more)
      → (i : ℕ) × (x : LeadTimePath F) × IsFastest best
          (second ∷ more)
          (label_first
            (λ (p : LeadTimePath F). not (str_eq p.path_id best.path_id))
            fewer_days
            fastest
            (first_labelled best (second ∷ more)))
          i
          x
  first_fastest best second more (a, d) =
      elim (label_first_cases (λ (p : LeadTimePath F). not (str_eq p.path_id best.path_id))
        fewer_days fastest (first_labelled best (second ∷ more))) [
          | inl (none_found, _) ↦
              let n : admitted best second ≡ false =
                (first_min-none (admitted best) fewer_days
                  (first_labelled best (second ∷ more)).paths none_found).1.0 in
              let y : admitted best second ≡ true = others_admitted best second a.0 in
              absurd (ground arith)
          | inr (zero, x, e, (at_i, passes, k)) ↦
              let same : x ≡ record best { label = some best_overall } = ground arith in
              let id : x.path_id ≡ best.path_id = ap (λ (p : LeadTimePath F). p.path_id) same in
              let other : not (str_eq x.path_id best.path_id) ≡ true =
                (&&-true (unused (best.path_id ∷ []) x) (not (str_eq x.path_id best.path_id))
                  passes).1 in
              let equal : str_eq x.path_id best.path_id ≡ true =
                (eq_iff x.path_id best.path_id).1 id in
              absurd (ground arith)
          | inr (suc i, x, e, (at_i, passes, k)) ↦
              let least =
                first_min-IsLeast (admitted best) fewer_days
                  (first_labelled best (second ∷ more)).paths (suc i) x fewer_days-IsOrder e in
              let itself : str_eq x.path_id x.path_id ≡ true =
                (eq_iff x.path_id x.path_id).1 refl in
              (
                i,
                x,
                (
                  at_i,
                  none_faster best x (second ∷ more) a least.1,
                  subst (Has (suc i) (record x { label = some fastest })) (sym k) (
                    get_elem?-label_at_self fastest (suc i)
                        (first_labelled best (second ∷ more)).paths x at_i,
                    rw itself refl,
                  ),
                ),
              )
        ]

abbrev after_fastest : {F : Type 0} → LeadTimePath F → List (LeadTimePath F) → Labelling F
after_fastest best rest =
    label_first (λ p. not (str_eq p.path_id best.path_id)) fewer_days fastest
      (first_labelled best rest)

-- A label that is given before the last two stays.
label_three-Has :
    (f : Floats) (best : LeadTimePath f.Float) (rest : List (LeadTimePath f.Float)) (j : ℕ)
    (p : LeadTimePath f.Float)
    → Has j p (after_fastest best rest)
    → get_elem? (label_ranked f (best ∷ rest)) j ≡ some p
unfolding label_ranked
label_three-Has f best rest j p h =
    let s1 = after_fastest best rest in
    let s2 =
      label_first (λ (p : LeadTimePath f.Float). is_some p.unit_price) (cheaper f) lowest_cost s1 in
    let s3 = label_first (λ _. true) fewer_flags safest s2 in
    let has =
      label_first-Has (λ _. true) fewer_flags safest s2 j p
        (label_first-Has (λ (p : LeadTimePath f.Float). is_some p.unit_price) (cheaper f)
          lowest_cost s1 j p h) in
    get_elem?-label_rest s3.used s3.paths j p has.0 has.1

-- Where no two paths have the same id and there are two at least, the first ranked one is
-- BEST_OVERALL, and one of the others is FASTEST: none of them has fewer days.
pub assign_labels_picks :
    (f : Floats) (paths more : List (LeadTimePath f.Float)) (best second : LeadTimePath f.Float)
    → DistinctIds paths
    → rank_paths f paths ≡ best ∷ second ∷ more
    → (get_elem? (assign_labels f paths) 0 ≡ some (record best { label = some best_overall }))
      × ((i : ℕ) × (p : LeadTimePath f.Float) × (get_elem? (second ∷ more) i ≡ some p)
          × (get_elem? (assign_labels f paths) (suc i) ≡ some (record p { label = some fastest }))
          × All (λ q. fewer_days q p ≡ false) (second ∷ more))
unfolding assign_labels
assign_labels_picks f paths more best second d e =
    let distinct : DistinctIds (best ∷ second ∷ more) =
      subst DistinctIds e (rank_paths-DistinctIds f paths d) in
    let (i, p, (here, least, has)) = first_fastest best second more distinct in
    let labelled = record best { label = some best_overall } in
    let itself : str_eq best.path_id best.path_id ≡ true =
      (eq_iff best.path_id best.path_id).1 refl in
    let first =
      label_first-Has (λ p. not (str_eq p.path_id best.path_id)) fewer_days fastest
        (first_labelled best (second ∷ more)) 0 labelled (refl, rw itself refl) in
    (
      rw e (label_three-Has f best (second ∷ more) 0 labelled first),
      (
        i,
        p,
        here,
        rw e (
            label_three-Has f best (second ∷ more) (suc i) (record p { label = some fastest }) has),
        least,
      ),
    )
