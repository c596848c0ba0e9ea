-- ===== src/Examples/Upstream.antt =====
-- Three upstream suppliers answer, and a human approves one of the options.
use abcd_yi.Prelude.{
  split, lower_codes, mentions, starts_with, ℕ, ◌≡◌, ◌≤◌, ◌⊎◌, ◌||◌, String, Bool, true, false, not,
  some, List, [], ◌∷◌, refl, length, any, keep,
}
use abcd_yi.Prelude.Exec.{ok, ◌>>=◌}
use abcd_yi.Prelude.Sorting.{All, sort_by, insert_by}
use abcd_yi.Prelude.Minimum.{first_min}
use abcd_yi.Upstream.{
  UpstreamResponse, UpstreamOption, OptionRequest, OptionApproval, human, best, fastest, option_of,
  scores_best, viable_of, score_response, fill_up, last_option, further_options, choose_options,
  generate_upstream_options, is_high_risk, request_upstream_option_approval, find_option,
  approve_upstream_option, generate_upstream_options_lem, approved_by_human,
}
use abcd_yi.Examples.Ranking.{numbers, numbers-IsOrdered}

abbrev response : String → Bool → ℕ → ℕ → List String → UpstreamResponse ℕ
response actor able days confidence flags = record {
  response_id = actor;
  upstream_actor_id = actor;
  can_supply = able;
  lead_time_days = some days;
  price = some 100;
  confidence_score = confidence;
  risk_flags = flags;
}

abbrev responses : List (UpstreamResponse ℕ)
responses =
    response "mill" true 20 9 ("long_lead_time" ∷ [])
    ∷ response "dyer" false 3 9 []
    ∷ response "knitter" true 5 8 []
    ∷ []

abbrev offered : List (UpstreamOption ℕ)
offered = generate_upstream_options numbers 1 responses

two_offered : length offered ≡ 2
unfolding generate_upstream_options choose_options further_options last_option fill_up
    score_response sort_by insert_by keep first_min
two_offered = refl

generate_upstream_options_lem_example :
    ((length (viable_of numbers responses) ≡ 0)
      × (generate_upstream_options numbers 1 responses ≡ []))
    ⊎ ((r : UpstreamResponse ℕ) × (others : List (UpstreamOption ℕ)) × (generate_upstream_options
            numbers 1 responses
          ≡ option_of numbers 1 best r ∷ others)
        × (r.can_supply ≡ true)
        × All (λ q. scores_best numbers r q ≡ true) (viable_of numbers responses)
        × (length others ≤ 2)
        × (2 ≤ length (viable_of numbers responses) → 1 ≤ length others))
generate_upstream_options_lem_example =
    generate_upstream_options_lem numbers 1 responses numbers-IsOrdered

abbrev risky_option : UpstreamOption ℕ
risky_option = option_of numbers 7 best (response "mill" true 20 9 ("long_lead_time" ∷ []))

abbrev quick_option : UpstreamOption ℕ
quick_option = option_of numbers 8 fastest (response "knitter" true 5 8 [])

abbrev the_options : List (UpstreamOption ℕ)
the_options = risky_option ∷ quick_option ∷ []

abbrev asked : OptionRequest ℕ
asked = request_upstream_option_approval true 3 "P" "D" "fabric" the_options

one_is_risky : any is_high_risk the_options || not true ≡ true
unfolding score_response split lower_codes mentions starts_with
one_is_risky = refl

abbrev consent : OptionApproval ℕ
consent = record {
  approval_request_id = 3;
  approved_option = quick_option;
  approved_by = "Li";
  mode = human;
}

Li_approves : (approve_upstream_option 8 "Li" human asked).0 ≡ ok consent
unfolding approve_upstream_option request_upstream_option_approval find_option score_response split
    lower_codes mentions starts_with ◌>>=◌
Li_approves = refl

approved_by_human_example :
    (human ≡ human) × (consent.mode ≡ human) × (find_option 8 the_options ≡ some quick_option)
approved_by_human_example =
    approved_by_human true 3 "P" "D" "fabric" the_options 8 "Li" human consent one_is_risky
      Li_approves
