-- ===== src/Forms/Extraction.antt =====
-- What is read of an extraction: the tests of src/requirement_extraction/extractor.py and the first
-- half of create_dynamic_form_from_inquiry in src/dynamic_forms/service.py. What the language model
-- extracts from an inquiry is an argument, `none` where the call raises.
use abcd_yi.Prelude.{
  String, Bool, true, false, not, ◌&&◌, ◌||◌, ◌==◌, Option, none, some, List, [], ◌∷◌, map, keep,
  str_eq, codes, if◌then◌else◌,
}
use abcd_yi.Forms.Rows.{Value, null, texts, Fields, assign, filled}

abbrev pub required_fields : List String
required_fields =
    "product_type" ∷ "quantity" ∷ "fabric_type" ∷ "color" ∷ "size_range" ∷ "delivery_deadline"
    ∷ "trade_term" ∷ "destination" ∷ []

unfoldable pub detect_missing_fields : Fields → List String
detect_missing_fields fields = keep (λ k. not (filled fields k)) required_fields

-- The question for a required field.
question_for : String → String
question_for k =
    if str_eq k "product_type"
    then "Please provide: Type of apparel product (e.g. T-shirt, trousers, jacket)"
    else if str_eq k "quantity"
    then "Please provide: Total order quantity in pieces"
    else if str_eq k "fabric_type"
    then "Please provide: Main fabric type (e.g. 100% cotton, polyester blend)"
    else if str_eq k "color"
    then "Please provide: Color or colorway specification"
    else if str_eq k "size_range"
    then "Please provide: Size range required (e.g. XS-XXL, EU 38-46)"
    else if str_eq k "delivery_deadline"
    then "Please provide: Required delivery date (FOB/CIF/DDU as applicable)"
    else if str_eq k "trade_term"
    then "Please provide: Trade term (FOB/CIF/EXW/DDP etc.)"
    else "Please provide: Destination port or address"

unfoldable pub generate_clarification_questions : List String → List String
unfolding question_for
generate_clarification_questions missing = map question_for missing

-- `k.startswith("_")`
abbrev pub is_private : String → Bool
is_private k = elim (codes k) [ [] ↦ false | c ∷ _ ↦ c == 95 ]

abbrev pub not_null : Value → Bool
not_null null = false
not_null _ = true

-- `{k: v for k, v in d.items() if not k.startswith("_")}`
abbrev pub public_fields : Fields → Fields
public_fields = keep (λ (kv : String × Value). not (is_private kv.0))

abbrev pub keys : Fields → List String
keys = map (λ (kv : String × Value). kv.0)

-- What is stored of the result of an extraction: the fields, the names of those that the model gave,
-- and the missing ones.
pub record Extraction : Type 0 where
  pub fields : Fields
  pub ai_generated : List String
  pub missing : List String
  pub is_stub : Bool

unfoldable pub read_extraction : Option Fields → Extraction
read_extraction none = record {
  fields = [];
  ai_generated = [];
  missing = required_fields;
  is_stub = false;
}
read_extraction (some d) =
    if filled d "_stub" || filled d "_error"
    then record {
      fields = public_fields d;
      ai_generated = [];
      missing = required_fields;
      is_stub = filled d "_stub";
    }
    else record {
      fields = public_fields d;
      ai_generated =
          keys (keep (λ (kv : String × Value). not_null kv.1 && not (is_private kv.0)) d);
      missing = detect_missing_fields d;
      is_stub = false;
    }

-- The fields of the first version.
abbrev pub first_fields : Extraction → Fields
first_fields e =
    assign "missing_fields" (texts e.missing) (
      assign "clarification_questions" (texts (generate_clarification_questions e.missing))
        e.fields)
