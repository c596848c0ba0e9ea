-- ===== src/Ranking/Order.antt =====
-- What the order of the ranked paths is.
use mathlib.Core.Path.{subst}
use mathlib.Core.List.{Perm}
use mathlib.Core.List.Perm
use abcd_yi.Prelude.{
  ℕ, suc, ◌≡◌, refl, inl, inr, sym, ap, ◌∙◌, List, [], ◌∷◌, map, Bool, true, keep, Bool-cases,
}
use abcd_yi.Prelude.Floats.{Floats, IsOrdered}
use abcd_yi.Prelude.Sorting.{
  All, IsOrder, IsSorted, sort_by, sort_by-perm, sort_by-IsSorted, tied, keep-sort_by,
}
use abcd_yi.Ranking.Paths.{LeadTimePath, composite_score, scores_at_least, number_from, rank_paths}

-- A path but for its rank.
abbrev pub unranked : {F : Type 0} → LeadTimePath F → LeadTimePath F
unranked p = record p { rank = 0 }

-- Every path has its place as its rank, from i on.
abbrev pub IsNumbered : {F : Type 0} → ℕ → List (LeadTimePath F) → Type 0
IsNumbered i [] = Unit
IsNumbered i (p ∷ ps) = (p.rank ≡ i) × IsNumbered (suc i) ps

module _ {F : Type 0} where
  map-number_from :
      (i : ℕ) (l : List (LeadTimePath F)) → map unranked (number_from i l) ≡ map unranked l
  unfolding number_from
  map-number_from i [] = refl
  map-number_from i (p ∷ ps) = ap (λ t. unranked p ∷ t) (map-number_from (suc i) ps)

  number_from-IsNumbered : (i : ℕ) (l : List (LeadTimePath F)) → IsNumbered i (number_from i l)
  unfolding number_from
  number_from-IsNumbered i [] = tt
  number_from-IsNumbered i (p ∷ ps) = (refl, number_from-IsNumbered (suc i) ps)

pub scores-IsOrder : (f : Floats) → IsOrdered f → IsOrder (scores_at_least f)
scores-IsOrder f o = record {
  total = λ p q. o.total (composite_score f p) (composite_score f q);
  trans = λ p q r. o.trans (composite_score f p) (composite_score f q) (composite_score f r);
}

module _ (f : Floats) where
  abbrev before : LeadTimePath f.Float → LeadTimePath f.Float → Bool
  before = scores_at_least f

  score_unranked :
      (p : LeadTimePath f.Float) (i : ℕ)
      → composite_score f (record p { rank = i }) ≡ composite_score f p
  unfolding composite_score
  score_unranked p i = refl

  All-number_from :
      (p : LeadTimePath f.Float) (j i : ℕ) (l : List (LeadTimePath f.Float))
      → All (λ q. before p q ≡ true) l
      → All (λ q. before (record p { rank = j }) q ≡ true) (number_from i l)
  unfolding number_from
  All-number_from p j i [] a = tt
  All-number_from p j i (q ∷ qs) (h, a) =
      (rw (score_unranked p j, score_unranked q i) h, All-number_from p j (suc i) qs a)

  IsSorted-number_from :
      (i : ℕ) (l : List (LeadTimePath f.Float))
      → IsSorted before l
      → IsSorted before (number_from i l)
  unfolding number_from
  IsSorted-number_from i [] s = tt
  IsSorted-number_from i (p ∷ ps) (a, s) =
      (All-number_from p i (suc i) ps a, IsSorted-number_from (suc i) ps s)

  keep-number_from :
      (a : LeadTimePath f.Float) (i : ℕ) (l : List (LeadTimePath f.Float))
      → map unranked (keep (tied before a) (number_from i l))
        ≡ map unranked (keep (tied before a) l)
  unfolding number_from keep
  keep-number_from a i [] = refl
  keep-number_from a i (p ∷ ps) =
      let rest = keep-number_from a (suc i) ps in
      elim (Bool-cases (tied before a p)) [
        | inl e ↦ rw (score_unranked p i, e) (ap (λ t. unranked p ∷ t) rest)
        | inr e ↦ rw (score_unranked p i, e) rest
      ]

-- Ranked paths are the given ones, each with its place, from 1 on, as its rank. No path scores less
-- than a later one, and paths with the same score stand in the order that they were given in.
pub rank_paths_lem :
    (f : Floats) (o : IsOrdered f) (paths : List (LeadTimePath f.Float))
    → Perm (map unranked (rank_paths f paths)) (map unranked paths)
      × IsNumbered 1 (rank_paths f paths)
      × IsSorted (scores_at_least f) (rank_paths f paths)
      × ((p : LeadTimePath f.Float)
          → map unranked (keep (tied (scores_at_least f) p) (rank_paths f paths))
            ≡ map unranked (keep (tied (scores_at_least f) p) paths))
unfolding rank_paths
rank_paths_lem f o paths = (
  subst (λ l. Perm l (map unranked paths))
      (sym (map-number_from 1 (sort_by (scores_at_least f) paths)))
      (Perm.map unranked (sort_by-perm (scores_at_least f) paths)),
  number_from-IsNumbered 1 (sort_by (scores_at_least f) paths),
  IsSorted-number_from f 1 (sort_by (scores_at_least f) paths)
      (sort_by-IsSorted (scores_at_least f) (scores-IsOrder f o) paths),
  λ p.
      keep-number_from f p 1 (sort_by (scores_at_least f) paths)
      ∙ ap (λ l. map unranked l) (keep-sort_by (scores_at_least f) (scores-IsOrder f o) p paths),
)
