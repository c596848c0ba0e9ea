-- ===== src/Intake/Requirement.antt =====
-- The fields of a BuyerRequirement that decide whether it may be executed, and where their values come
-- from: src/aivan/schemas/requirement.py and src/aivan/rfq/semantic_sources.py.
use abcd_yi.Prelude.{
  ℕ, String, Bool, not, ◌&&◌, Option, none, some, List, [], ◌∷◌, any, keep, contains, str_eq,
  if◌then◌else◌,
}

-- A map from the names of fields to texts.
abbrev pub Sources : Type 0
Sources = List (String × String)

pub record BuyerRequirement : Type 0 where
  pub quantity : Option ℕ
  pub product_type : String
  pub category : String
  pub destination : String
  pub delivery_days : Option ℕ
  pub delivery_deadline_iso : Option String
  -- `extra["product_name"]`, `extra["field_sources"]` and `extra["language_skill"]["field_sources"]`
  pub product_name : Option String
  pub local_sources : Sources
  pub skill_sources : Sources

-- `bool(s)`
abbrev pub nonempty : String → Bool
nonempty s = not (str_eq s "")

-- `m.get(k, default)`
unfoldable pub source_or : String → String → Sources → String
source_or k default [] = default
source_or k default ((j, v) ∷ m) = if str_eq j k then v else source_or k default m

-- `m[k] = v`
unfoldable pub set_source : String → String → Sources → Sources
set_source k v [] = (k, v) ∷ []
set_source k v ((j, w) ∷ m) = if str_eq j k then (j, v) ∷ m else (j, w) ∷ set_source k v m

-- The attribute for a field of trade_rfq.v1.
abbrev pub attr_of : String → String
attr_of rfq_field =
    if str_eq rfq_field "product_name"
    then "product_type"
    else if str_eq rfq_field "product_category"
    then "category"
    else if str_eq rfq_field "lead_time_days"
    then "delivery_days"
    else rfq_field

abbrev pub skill_source : String → String → Sources → String
skill_source attr source merged =
    if nonempty source then "language_skill" else source_or attr "language_skill" merged

-- The loop over the sources that the language skill names.
unfoldable pub merge_skill : Sources → Sources → Sources
merge_skill [] merged = merged
merge_skill ((rfq_field, source) ∷ rest) merged =
    merge_skill rest
      (set_source (attr_of rfq_field) (skill_source (attr_of rfq_field) source merged) merged)

unfoldable pub field_sources : BuyerRequirement → Sources
field_sources r =
    merge_skill r.skill_sources (keep (λ (kv : String × String). nonempty kv.1) r.local_sources)

abbrev pub source_of : BuyerRequirement → String → String
source_of r field = source_or field "" (field_sources r)

abbrev pub authoritative_sources : List String
authoritative_sources =
    "language_skill" ∷ "operator_confirmed" ∷ "product_resolver" ∷ "location_resolver"
    ∷ "giraffe_db_product_reference" ∷ "giraffe_db_location_reference"
    ∷ "giraffe_db_supplier_registry" ∷ []

abbrev pub provisional_sources : List String
provisional_sources = "llm_structured" ∷ "local_llm_candidate" ∷ []

abbrev pub text_or_empty : Option String → String
text_or_empty none = ""
text_or_empty (some s) = s

-- `_field_value`, for the four fields that are asked for
abbrev pub field_value : BuyerRequirement → String → String
field_value r field =
    if str_eq field "product_type"
    then r.product_type
    else if str_eq field "category"
    then r.category
    else if str_eq field "destination"
    then r.destination
    else text_or_empty r.product_name

unfoldable pub is_authoritative : BuyerRequirement → String → Bool
is_authoritative r field =
    nonempty (field_value r field) && contains authoritative_sources (source_of r field)

unfoldable pub is_provisional : BuyerRequirement → String → Bool
is_provisional r field = contains provisional_sources (source_of r field)

abbrev pub has_authoritative_product : BuyerRequirement → Bool
has_authoritative_product r =
    any (is_authoritative r) ("product_name" ∷ "product_type" ∷ "category" ∷ [])

abbrev pub has_authoritative_destination : BuyerRequirement → Bool
has_authoritative_destination r = is_authoritative r "destination"
