-- ===== src/Intake/Gate.antt =====
-- The readiness gates, exactly: src/aivan/execution/safety.py.
use abcd_yi.Prelude.{
  ap, ◌∙◌, refl, eq_iff, Bool-cases, inl, inr, ◌⊎◌, String, Bool, true, false, not, ◌&&◌, ◌≡◌,
  arith, is_some, contains, str_eq, if◌then◌else◌,
}
use abcd_yi.Intake.Requirement.{
  is_provisional, is_authoritative, source_of, provisional_sources, authoritative_sources,
  BuyerRequirement, has_authoritative_product, has_authoritative_destination,
}
use abcd_yi.Intake.Readiness.{
  ExecutionGateResult, gate_of, evaluate_requirement_readiness, has_delivery_target,
}

-- The action by the four tests.
abbrev pub action_by : Bool → Bool → Bool → Bool → String
action_by quantity product destination delivery =
    if quantity && (product && (destination && delivery))
    then "proceed"
    else if quantity && (product && not destination)
    then "pending_destination_confirmation"
    else if quantity && (destination && not product)
    then "pending_product_confirmation"
    else "pending_requirement_confirmation"

abbrev pub IsExact : Bool → Bool → Bool → Bool → ExecutionGateResult → Type 0
IsExact quantity product destination delivery g =
    (g.ready ≡ (quantity && (product && (destination && delivery))))
    × (contains g.missing_fields "quantity" ≡ not quantity)
    × (contains g.missing_fields "product" ≡ not product)
    × (contains g.missing_fields "destination" ≡ not destination)
    × (contains g.missing_fields "delivery" ≡ not delivery)
    × (g.next_action ≡ action_by quantity product destination delivery)

gate_of-IsExact : (a b c d : Bool) → IsExact a b c d (gate_of a b c d)
unfolding gate_of
gate_of-IsExact a b c d = ground arith

-- A requirement is ready exactly when it has a quantity, an authoritative product, an authoritative
-- destination and a delivery target; the missing fields name exactly the tests that fail; and the
-- action is to proceed when it is ready, to confirm the destination or the product where only that and
-- possibly the delivery target is missing, and else to confirm the requirement.
pub evaluate_requirement_readiness-IsExact :
    (r : BuyerRequirement)
    → IsExact
        (is_some r.quantity)
        (has_authoritative_product r)
        (has_authoritative_destination r)
        (has_delivery_target r)
        (evaluate_requirement_readiness r)
unfolding evaluate_requirement_readiness
evaluate_requirement_readiness-IsExact r = gate_of-IsExact _ _ _ _

-- A provisional source is not authoritative.
provisional-not_authoritative :
    (source : String)
    → contains provisional_sources source ≡ true
    → contains authoritative_sources source ≡ false
provisional-not_authoritative source h = elim (Bool-cases (str_eq "llm_structured" source)) [
  | inl e ↦ rw (← (eq_iff "llm_structured" source).0 e) refl
  | inr e ↦ elim (Bool-cases (str_eq "local_llm_candidate" source)) [
    | inl f ↦ rw (← (eq_iff "local_llm_candidate" source).0 f) refl
    | inr f ↦ let no : false ≡ true = rw (e, f) at h in cc
  ]
]

is_provisional-is_authoritative :
    (r : BuyerRequirement) (field : String)
    → is_provisional r field ≡ true
    → is_authoritative r field ≡ false
unfolding is_provisional is_authoritative
is_provisional-is_authoritative r field h =
    let n = provisional-not_authoritative (source_of r field) h in ground arith

-- A gate that fails by one of its tests does not proceed.
fails :
    (a c d e : Bool) (g : ExecutionGateResult)
    → IsExact a c d e g
    → (d ≡ false) ⊎ (c ≡ false)
    → (g.ready ≡ false) × (str_eq g.next_action "proceed" ≡ false)
fails a c d e g (r, _, _, _, _, n) h =
    let none_left : (a && (c && (d && e))) ≡ false = ground arith in
    (r ∙ none_left, ap (λ x. str_eq x "proceed") n ∙ not_proceed none_left)
  where
    not_proceed : (a && (c && (d && e))) ≡ false → str_eq (action_by a c d e) "proceed" ≡ false
    not_proceed f = elim (Bool-cases (a && (c && not d))) [
      | inl k ↦ rw (f, k) refl
      | inr k ↦ elim (Bool-cases (a && (d && not c))) [
        | inl l ↦ rw (f, k, l) refl
        | inr l ↦ rw (f, k, l) refl
      ]
    ]

blocks-destination :
    (r : BuyerRequirement)
    → is_provisional r "destination" ≡ true
    → ((evaluate_requirement_readiness r).ready ≡ false)
      × (str_eq (evaluate_requirement_readiness r).next_action "proceed" ≡ false)
      × (contains (evaluate_requirement_readiness r).missing_fields "destination" ≡ true)
blocks-destination r d =
    let n : has_authoritative_destination r ≡ false =
      is_provisional-is_authoritative r "destination" d in
    let x = evaluate_requirement_readiness-IsExact r in
    let (f, p) =
      fails (is_some r.quantity) (has_authoritative_product r) (has_authoritative_destination r)
        (has_delivery_target r) (evaluate_requirement_readiness r) x (inl n) in
    (f, p, x.3 ∙ ap not n)

blocks-product :
    (r : BuyerRequirement)
    → is_provisional r "product_name" ≡ true
    → is_provisional r "product_type" ≡ true
    → is_provisional r "category" ≡ true
    → ((evaluate_requirement_readiness r).ready ≡ false)
      × (str_eq (evaluate_requirement_readiness r).next_action "proceed" ≡ false)
      × (contains (evaluate_requirement_readiness r).missing_fields "product" ≡ true)
blocks-product r a c e =
    let n : has_authoritative_product r ≡ false =
      rw
        (
          is_provisional-is_authoritative r "product_name" a,
          is_provisional-is_authoritative r "product_type" c,
          is_provisional-is_authoritative r "category" e,
        )
        refl in
    let x = evaluate_requirement_readiness-IsExact r in
    let (f, p) =
      fails (is_some r.quantity) (has_authoritative_product r) (has_authoritative_destination r)
        (has_delivery_target r) (evaluate_requirement_readiness r) x (inr n) in
    (f, p, x.2 ∙ ap not n)

-- The fields that a test needs were only proposed by a model.
pub data OnlyProposed (r : BuyerRequirement) : String → Type 0 where
  proposed_destination : is_provisional r "destination" ≡ true → OnlyProposed r "destination"
  proposed_product :
      is_provisional r "product_name" ≡ true
      → is_provisional r "product_type" ≡ true
      → is_provisional r "category" ≡ true
      → OnlyProposed r "product"

-- A requirement whose destination was only proposed by a model, or whose product name, type and category
-- were: it is not ready, its action is not to proceed, and the destination, or the product, is among the
-- missing fields.
pub is_provisional_blocks :
    (r : BuyerRequirement) (field : String)
    → OnlyProposed r field
    → ((evaluate_requirement_readiness r).ready ≡ false)
      × (str_eq (evaluate_requirement_readiness r).next_action "proceed" ≡ false)
      × (contains (evaluate_requirement_readiness r).missing_fields field ≡ true)
is_provisional_blocks r _ (proposed_destination d) = blocks-destination r d
is_provisional_blocks r _ (proposed_product a c e) = blocks-product r a c e
