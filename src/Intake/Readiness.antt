-- ===== src/Intake/Readiness.antt =====
-- The readiness gates of src/aivan/execution/safety.py. The texts for the operator are left out.
use abcd_yi.Prelude.{
  ℕ, String, Bool, true, false, not, ◌&&◌, ◌||◌, ◌==◌, none, some, List, [], ◌∷◌, ◌++◌, is_some,
  keep, length, contains, str_eq, if◌then◌else◌,
}
use abcd_yi.Intake.Requirement.{
  BuyerRequirement, nonempty, has_authoritative_product, has_authoritative_destination,
}

pub record ExecutionGateResult : Type 0 where
  pub ready : Bool
  pub missing_fields : List String
  pub next_action : String

abbrev pub has_delivery_target : BuyerRequirement → Bool
has_delivery_target r =
    is_some r.delivery_days || (elim r.delivery_deadline_iso [ none ↦ false | some s ↦ nonempty s ])

-- `if not ok: missing.append(name)`
abbrev pub unless : Bool → String → List String → List String
unless ok name missing = missing ++ (if ok then [] else name ∷ [])

abbrev pub missing_of : Bool → Bool → Bool → Bool → List String
missing_of quantity_ok product_ok destination_ok delivery_ok = unless delivery_ok "delivery" (
    unless destination_ok "destination"
      (unless product_ok "product" (unless quantity_ok "quantity" [])))

abbrev pub is_product_only : List String → Bool
is_product_only (m ∷ []) = str_eq m "product"
is_product_only _ = false

abbrev pub blocked_action : Bool → Bool → Bool → List String → String
blocked_action quantity_ok product_ok destination_ok missing =
    if contains missing "destination" && (not destination_ok && (quantity_ok && product_ok))
    then "pending_destination_confirmation"
    else if is_product_only missing || (not product_ok && (quantity_ok && destination_ok))
    then "pending_product_confirmation"
    else "pending_requirement_confirmation"

-- The verdict on the four tests.
unfoldable pub gate_of : Bool → Bool → Bool → Bool → ExecutionGateResult
gate_of quantity_ok product_ok destination_ok delivery_ok =
    elim (missing_of quantity_ok product_ok destination_ok delivery_ok) [
      | [] ↦ record { ready = true; missing_fields = []; next_action = "proceed" }
      | m ∷ ms ↦ record {
        ready = false;
        missing_fields = m ∷ ms;
        next_action = blocked_action quantity_ok product_ok destination_ok (m ∷ ms);
      }
    ]

unfoldable pub evaluate_requirement_readiness : BuyerRequirement → ExecutionGateResult
unfolding gate_of
evaluate_requirement_readiness r =
    gate_of (is_some r.quantity) (has_authoritative_product r) (has_authoritative_destination r)
      (has_delivery_target r)

pub record Supplier : Type 0 where
  pub supplier_id : String
  pub email : String
  pub past_performance_score : ℕ
  pub delivery_score : ℕ
  pub quality_score : ℕ

abbrev pub has_email : Supplier → Bool
has_email s = nonempty s.email

-- The feasibility and whether the suppliers suffice, by their number.
abbrev pub supplier_verdict : ℕ → String × Bool
supplier_verdict n =
    if n == 0
    then ("none", false)
    else if n == 1
    then ("single", false)
    else if n == 2
    then ("thin", true)
    else ("sufficient", true)

unfoldable pub evaluate_supplier_readiness : List Supplier → String × Bool
evaluate_supplier_readiness suppliers = supplier_verdict (length (keep has_email suppliers))

-- SUPPLIER_FEASIBILITY_ACTION, with the value for a missing key
abbrev pub supplier_action : String → String
supplier_action feasibility =
    if str_eq feasibility "single"
    then "pending_supplier_confirmation"
    else if str_eq feasibility "thin"
    then "proceed"
    else if str_eq feasibility "sufficient"
    then "proceed"
    else "pending_supplier_selection"
