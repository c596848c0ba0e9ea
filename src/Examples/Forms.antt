-- ===== src/Examples/Forms.antt =====
-- A form that is made from an inquiry, updated and locked.
use abcd_yi.Prelude.{
  ◌≡◌, ◌==◌, String, true, false, Option, none, some, [], ◌∷◌, refl, arith, str_eq,
}
use abcd_yi.Prelude.Exec.{ok, ◌>>=◌}
use abcd_yi.Prelude.Table.{find, put, select, matches, one_or_none}
use abcd_yi.Forms.{
  Form, Version, Fields, Value, text, number, FormStore, IsVersioned, SameForm, Steps, here,
  next_call, created, updated, locked, create_dynamic_form_from_inquiry, update_form_fields,
  lock_form, get_current_form, create_form, update_unlocked, create_version_snapshot, latest,
  lookup, current_of, Steps-IsVersioned, Steps-locked, updated_value,
  get_current_form-update_form_fields,
}

abbrev start : FormStore
start = record {
  inquiries = (7, record { project_id = 1; raw_text = "600 red shirts" }) ∷ [];
  forms = [];
  versions = [];
  questions = [];
  events = [];
}

start-IsVersioned : IsVersioned start
unfolding find select
start-IsVersioned = record {
  numbered = λ id. tt;
  current = λ id f h. absurd (ground arith);
  owned = λ id h. refl;
}

abbrev extracted : Option Fields
extracted = some (
    ("product_type", text "shirt")
    ∷ ("quantity", number 600)
    ∷ ("_ai_generated", Value.flag true)
    ∷ [])

abbrev made : FormStore
made = (create_dynamic_form_from_inquiry 100 2 3 1 7 extracted 4 5 start).1

abbrev updates : Fields
updates = ("color", text "red") ∷ ("quantity", number 700) ∷ []

abbrev renewed : FormStore
renewed = (update_form_fields 101 2 4 5 4 updates ("quantity" ∷ []) made).1

abbrev closed : FormStore
closed = (lock_form 2 renewed).1

abbrev form : Form
form = record { project_id = 1; current_version = 1; is_locked = false }

made_form : find 2 made.forms ≡ some form
unfolding create_dynamic_form_from_inquiry create_form find put matches ◌>>=◌
made_form = refl

made_project :
    one_or_none (matches (λ (g : Form). g.project_id == 1) made.forms) ≡ ok (some (2, form))
unfolding create_dynamic_form_from_inquiry create_form find put matches one_or_none ◌>>=◌
made_project = refl

made_versions : find 4 made.versions ≡ none
unfolding create_dynamic_form_from_inquiry create_form create_version_snapshot find put matches
    ◌>>=◌
made_versions = refl

made_by_calls : Steps start made
unfolding find
made_by_calls = next_call here (created 100 2 3 1 7 extracted 4 5 refl refl refl)

closed_by_calls : Steps start closed
closed_by_calls =
    next_call
      (next_call made_by_calls (updated 101 2 4 5 4 updates ("quantity" ∷ []) made_versions refl))
      (locked 2 refl)

made-IsVersioned : IsVersioned made
made-IsVersioned = Steps-IsVersioned made_by_calls start-IsVersioned

Steps-IsVersioned_example : IsVersioned closed
Steps-IsVersioned_example = Steps-IsVersioned closed_by_calls start-IsVersioned

closed_form :
    find 2 closed.forms ≡ some (record { project_id = 1; current_version = 2; is_locked = true })
unfolding create_dynamic_form_from_inquiry create_form update_form_fields update_unlocked lock_form
    create_version_snapshot latest select find put matches ◌>>=◌
closed_form = refl

closed_versions : find 6 closed.versions ≡ none
unfolding create_dynamic_form_from_inquiry create_form update_form_fields update_unlocked lock_form
    create_version_snapshot find put matches ◌>>=◌
closed_versions = refl

Steps-locked_example : SameForm 2 closed (update_form_fields 102 2 6 5 4 updates [] closed).1
Steps-locked_example =
    Steps-locked 2 (record { project_id = 1; current_version = 2; is_locked = true }) closed_form
      refl (next_call here (updated 102 2 6 5 4 updates [] closed_versions refl))

get_current_form-update_form_fields_example :
    (v : Version) × ((update_form_fields 101 2 4 5 4 updates ("quantity" ∷ []) made).0
      ≡ ok (some v))
    × ((get_current_form 1 (update_form_fields 101 2 4 5 4 updates ("quantity" ∷ []) made).1).0
        ≡ ok (some v))
    × ((k : String)
        → str_eq "missing_fields" k ≡ false
        → lookup k v.fields ≡ updated_value k updates (lookup k (current_of 2 made).fields))
get_current_form-update_form_fields_example =
    get_current_form-update_form_fields 101 2 4 5 4 updates ("quantity" ∷ []) made form
      made-IsVersioned made_form made_project refl made_versions
