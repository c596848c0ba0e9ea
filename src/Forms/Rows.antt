-- ===== src/Forms/Rows.antt =====
-- The rows of a form and its versions: src/db/models/dynamic_form.py, with the inquiry of
-- src/db/models/project.py that a form is made from, and the dictionaries of fields.
use abcd_yi.Prelude.{
  ℕ, String, Bool, true, false, not, ◌==◌, Option, none, some, List, [], ◌∷◌, str_eq, if◌then◌else◌,
}
use abcd_yi.Prelude.Table.{Table}
use abcd_yi.Db.{ExecutionEvent}

-- A value of a JSON dictionary, as far as the fields of a form go.
pub data Value : Type 0 where
  null : Value
  flag : Bool → Value
  number : ℕ → Value
  text : String → Value
  texts : List String → Value
  counts : List (String × ℕ) → Value

abbrev pub Fields : Type 0
Fields = List (String × Value)

pub record Form : Type 0 where
  pub project_id : ℕ
  pub current_version : ℕ
  pub is_locked : Bool

pub record Version : Type 0 where
  pub form_id : ℕ
  pub version_number : ℕ
  pub fields : Fields
  pub ai_generated_fields : List String
  pub human_confirmed_fields : List String
  pub missing_fields : List String
  pub created_by : Option ℕ

pub record ClarificationQuestion : Type 0 where
  pub form_id : ℕ
  pub question_text : String
  pub field_reference : Option String
  pub status : String

pub record BuyerInquiry : Type 0 where
  pub project_id : ℕ
  pub raw_text : String

-- The part of the session that this service reads and writes.
pub record FormStore : Type 0 where
  pub inquiries : Table BuyerInquiry
  pub forms : Table Form
  pub versions : Table Version
  pub questions : Table ClarificationQuestion
  pub events : List ExecutionEvent

-- `d.get(k)`
unfoldable pub lookup : String → Fields → Option Value
lookup k [] = none
lookup k ((j, v) ∷ d) = if str_eq j k then some v else lookup k d

-- `d[k] = v`
unfoldable pub assign : String → Value → Fields → Fields
assign k v [] = (k, v) ∷ []
assign k v ((j, w) ∷ d) = if str_eq j k then (j, v) ∷ d else (j, w) ∷ assign k v d

-- `{**d, **updates}`
unfoldable pub merge : Fields → Fields → Fields
merge d [] = d
merge d ((k, v) ∷ updates) = merge (assign k v d) updates

-- `bool(v)`
abbrev pub truthy : Value → Bool
truthy null = false
truthy (flag b) = b
truthy (number n) = not (n == 0)
truthy (text s) = not (str_eq s "")
truthy (texts []) = false
truthy (texts (_ ∷ _)) = true
truthy (counts []) = false
truthy (counts (_ ∷ _)) = true

-- `d.get(k)`, as a test
abbrev pub filled : Fields → String → Bool
filled d k = elim (lookup k d) [ none ↦ false | some v ↦ truthy v ]
