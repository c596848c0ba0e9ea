-- ===== src/Upstream/Options.antt =====
-- generate_upstream_options of src/m_side/upstream/option_engine.py. The texts of an option that
-- only describe it are left out. Lead times are natural numbers and the operations on floats are
-- total: a lead time or a price below zero, with which a division may raise, is left out.
use abcd_yi.Prelude.{
  ℕ, zero, suc, ◌+◌, String, Bool, true, not, ◌&&◌, ◌||◌, ◌==◌, ltb, leb, Option, none, some, List,
  [], ◌∷◌, ◌++◌, keep, length, str_eq, ◌<>◌, if◌then◌else◌,
}
use abcd_yi.Prelude.Floats.{Floats, at_least, is_zero}
use abcd_yi.Prelude.Sorting.{sort_by}
use abcd_yi.Prelude.Minimum.{first_min}

pub record UpstreamResponse (F : Type 0) : Type 0 where
  pub response_id : String
  pub upstream_actor_id : String
  pub can_supply : Bool
  pub lead_time_days : Option ℕ
  pub price : Option F
  pub confidence_score : F
  pub risk_flags : List String

pub data OptionLabel : Type 0 where
  best fastest safest backup : OptionLabel

pub record UpstreamOption (F : Type 0) : Type 0 where
  pub option_id : ℕ
  pub upstream_actor_id : String
  pub option_label : OptionLabel
  pub risk_summary : String
  pub score : F
  pub response_ids : List String
  pub dispatch_lead_time_days : Option ℕ
  pub lead_time_risk_flags : List String

-- `days or n`
abbrev pub days_or : Option ℕ → ℕ → ℕ
days_or none n = n
days_or (some zero) n = n
days_or (some (suc d)) n = suc d

-- `"; ".join(l)` behind a first text
abbrev pub join_to : String → List String → String
join_to s [] = s
join_to s (t ∷ l) = join_to (s <> ("; " <> t)) l

abbrev pub fmt_risk : List String → String
fmt_risk [] = "No significant risks"
fmt_risk (s ∷ l) = join_to s l

module _ (f : Floats) where
  open f use {Float, of_nat, decimal, add, mul, div, round}

  abbrev pub Response : Type 0
  Response = UpstreamResponse Float

  -- `x or y` of a number
  abbrev pub float_or : Option Float → Float → Float
  float_or none y = y
  float_or (some x) y = if is_zero f x then y else x

  unfoldable pub score_response : Response → Float
  score_response r =
      if not r.can_supply
      then of_nat 0
      else let lead = of_nat (days_or r.lead_time_days 999) in
        let price = float_or r.price (decimal 99990 1) in
        let confidence = float_or (some r.confidence_score) (decimal 1 1) in
        let red_flags = of_nat (length r.risk_flags) in
        let score =
          div (div confidence (add (of_nat 1) (div lead (decimal 300 1))))
            (add (of_nat 1) (mul red_flags (decimal 1 1))) in
        let price_factor = div (of_nat 1) (add (of_nat 1) (div price (decimal 1000 1))) in
        round (mul score (add (of_nat 1) (mul price_factor (decimal 1 1)))) 4

  abbrev pub scores_best : Response → Response → Bool
  scores_best p q = at_least f (score_response p) (score_response q)

  -- The option that a response makes; its id is a new one.
  abbrev pub option_of : ℕ → OptionLabel → Response → UpstreamOption Float
  option_of id label r = record {
    option_id = id;
    upstream_actor_id = r.upstream_actor_id;
    option_label = label;
    risk_summary = fmt_risk r.risk_flags;
    score = score_response r;
    response_ids = r.response_id ∷ [];
    dispatch_lead_time_days = r.lead_time_days;
    lead_time_risk_flags = elim r.lead_time_days [
      | none ↦ "lead_time_not_confirmed" ∷ []
      | some d ↦ []
    ];
  }

  abbrev pub faster : Response → Response → Bool
  faster p q = ltb (days_or p.lead_time_days 9999) (days_or q.lead_time_days 9999)

  abbrev pub fewer_risks : Response → Response → Bool
  fewer_risks p q = ltb (length p.risk_flags) (length q.risk_flags)

  abbrev pub is_other : Response → Response → Response → Bool
  is_other best_one fast r = not (
      str_eq r.upstream_actor_id best_one.upstream_actor_id
      || str_eq r.upstream_actor_id fast.upstream_actor_id)

  abbrev pub safest_option : ℕ → Response → UpstreamOption Float
  safest_option id r = option_of id (if length r.risk_flags == 0 then safest else backup) r

  -- `scored[1] if len(scored) > 1 else None`, as the last option
  abbrev pub second_option : ℕ → List Response → List (UpstreamOption Float)
  second_option id (_ ∷ r ∷ _) = option_of id backup r ∷ []
  second_option id _ = []

  -- What is added where no response is left: the second best one, where there is only one option.
  unfoldable pub fill_up : ℕ → ℕ → List Response → List Response → List (UpstreamOption Float)
  fill_up id count scored viable =
      if count == 1 && leb 2 (length viable) then second_option id scored else []

  -- The last option, of the responses of the other actors.
  unfoldable pub last_option :
      ℕ → ℕ → Option (ℕ × Response) → List Response → List Response → List (UpstreamOption Float)
  unfolding fill_up
  last_option id count none scored viable = fill_up id count scored viable
  last_option id count (some (_, r)) scored viable = safest_option id r ∷ []

  -- The options behind the best one.
  unfoldable pub further_options :
      ℕ → Response → Response → List Response → List Response → List (UpstreamOption Float)
  unfolding last_option
  further_options id best_one fast scored viable =
      let second =
        if str_eq fast.upstream_actor_id best_one.upstream_actor_id
        then []
        else option_of (id + 1) fastest fast ∷ [] in
      second
      ++ last_option (id + 2) (1 + length second)
          (first_min (λ _. true) fewer_risks (keep (is_other best_one fast) viable)) scored viable

  -- `min` of no response raises; there is one where there is a best one.
  unfoldable pub choose_options :
      ℕ → List Response → Option (ℕ × Response) → List Response → List (UpstreamOption Float)
  unfolding further_options
  choose_options id (best_one ∷ others) (some (_, fast)) viable =
      option_of id best best_one ∷ further_options id best_one fast (best_one ∷ others) viable
  choose_options id _ _ viable = []

  abbrev pub viable_of : List Response → List Response
  viable_of responses = keep (λ (r : Response). r.can_supply) responses

  -- The ids of the options are the new ones from `id` on.
  unfoldable pub generate_upstream_options : ℕ → List Response → List (UpstreamOption Float)
  generate_upstream_options id responses =
      let viable = viable_of responses in
      choose_options id (sort_by scores_best viable) (first_min (λ _. true) faster viable) viable
