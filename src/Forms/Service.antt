-- ===== src/Forms/Service.antt =====
-- src/dynamic_forms/service.py with src/field_versions/service.py. The table of the forms has a
-- unique column, the project.
use abcd_yi.Prelude.{
  ℕ, ◌+◌, String, true, false, not, ◌==◌, ltb, Option, none, some, List, [], ◌∷◌, ◌++◌, keep, any,
  contains, is_some, if◌then◌else◌,
}
use abcd_yi.Prelude.Exec.{
  Exec, value_error, integrity_error, pure, gets, lift, modify, require, ◌>>=◌, ◌>>◌,
}
use abcd_yi.Prelude.Table.{find, put, select, matches, one_or_none}
use abcd_yi.Db.{Json, Payload}
use abcd_yi.Forms.Rows.{
  texts, Fields, Form, Version, ClarificationQuestion, FormStore, assign, merge,
}
use abcd_yi.Forms.Extraction.{detect_missing_fields, Extraction, read_extraction, first_fields}

abbrev pub save_form : ℕ → Form → FormStore → FormStore
save_form id f s = record s { forms = put id f s.forms }

abbrev pub log_form : ℕ → String → Payload → ℕ → Option ℕ → ℕ → FormStore → FormStore
log_form now event_type payload tenant_id project_id user_id s = record s {
  events =
      s.events
      ++ record {
        tenant_id = tenant_id;
        project_id = project_id;
        order_id = none;
        participant_id = none;
        event_type = event_type;
        payload = payload;
        triggered_by_user_id = some user_id;
        occurred_at = now;
      }
        ∷ [];
}

unfoldable pub create_version_snapshot : ℕ → Version → Exec FormStore Version
create_version_snapshot id v = do
  modify (λ (s : FormStore). record s { versions = put id v s.versions })
  pure v

unfoldable pub create_form :
    ℕ → ℕ → ℕ → ℕ → ℕ → Extraction → ℕ → ℕ → Exec FormStore (Option Version)
unfolding create_version_snapshot
create_form now form_id version_id project_id inquiry_id e tenant_id user_id = do
  others ← gets (λ (s : FormStore). matches (λ (f : Form). f.project_id == project_id) s.forms)
  require (not (any (λ _. true) others)) integrity_error
  modify (
      save_form form_id
        (record { project_id = project_id; current_version = 1; is_locked = false }))
  version ← create_version_snapshot version_id (record {
    form_id = form_id;
    version_number = 1;
    fields = first_fields e;
    ai_generated_fields = e.ai_generated;
    human_confirmed_fields = [];
    missing_fields = e.missing;
    created_by = some user_id;
  })
  modify (
      log_form now "DYNAMIC_FORM_CREATED"
        (("form_id", Json.key form_id)
          ∷ ("inquiry_id", Json.key inquiry_id)
          ∷ ("version", Json.number 1)
          ∷ ("is_stub", Json.flag e.is_stub)
          ∷ [])
        tenant_id (some project_id) user_id)
  pure (some version)

unfoldable pub create_dynamic_form_from_inquiry :
    ℕ → ℕ → ℕ → ℕ → ℕ → Option Fields → ℕ → ℕ → Exec FormStore (Option Version)
create_dynamic_form_from_inquiry now form_id version_id project_id inquiry_id extracted tenant_id
      user_id =
    do
      inquiry ← gets (λ (s : FormStore). find inquiry_id s.inquiries)
      (if is_some inquiry
          then create_form now form_id version_id project_id inquiry_id (read_extraction extracted)
              tenant_id user_id
          else pure none)

abbrev pub versions_of : ℕ → FormStore → List Version
versions_of form_id s = select (λ (v : Version). v.form_id == form_id) s.versions

-- Of a version and the newest behind it, the newer one.
abbrev pub newer : Version → Option Version → Option Version
newer v none = some v
newer v (some w) = if ltb w.version_number v.version_number then some v else some w

-- `.order_by(version_number.desc()).limit(1)`
unfoldable pub latest : List Version → Option Version
latest [] = none
latest (v ∷ vs) = newer v (latest vs)

unfoldable pub get_current_form : ℕ → Exec FormStore (Option Version)
get_current_form project_id = do
  forms ← gets (λ (s : FormStore). matches (λ (f : Form). f.project_id == project_id) s.forms)
  form ← lift (one_or_none forms)
  elim form [
    | none ↦ pure none
    | some (form_id, _) ↦ gets (λ (s : FormStore). latest (versions_of form_id s))
  ]

-- What a form has before its first version.
abbrev pub no_version : ℕ → Version
no_version form_id = record {
  form_id = form_id;
  version_number = 0;
  fields = [];
  ai_generated_fields = [];
  human_confirmed_fields = [];
  missing_fields = [];
  created_by = none;
}

abbrev pub or_no_version : ℕ → Option Version → Version
or_no_version form_id none = no_version form_id
or_no_version form_id (some v) = v

-- `list(set(l))`: each name once. The order of a set is not the program's.
unfoldable pub once : List String → List String
once [] = []
once (k ∷ l) = let rest = once l in if contains rest k then rest else k ∷ rest

-- The version behind `current`, with the updates and the confirmations.
abbrev pub next_version : ℕ → Version → ℕ → Fields → List String → Version
next_version form_id current user_id field_updates confirmed =
    let merged = merge current.fields field_updates in
    let missing = detect_missing_fields merged in
    record {
      form_id = form_id;
      version_number = current.version_number + 1;
      fields = assign "missing_fields" (texts missing) merged;
      ai_generated_fields = keep (λ k. not (contains confirmed k)) current.ai_generated_fields;
      human_confirmed_fields = once (current.human_confirmed_fields ++ confirmed);
      missing_fields = missing;
      created_by = some user_id;
    }

abbrev pub current_of : ℕ → FormStore → Version
current_of form_id s = or_no_version form_id (latest (versions_of form_id s))

unfoldable pub update_unlocked :
    ℕ → ℕ → Form → ℕ → ℕ → ℕ → Fields → List String → Exec FormStore (Option Version)
unfolding create_version_snapshot
update_unlocked now form_id form version_id user_id tenant_id field_updates confirmed = do
  current ← gets (current_of form_id)
  version ←
      create_version_snapshot version_id
        (next_version form_id current user_id field_updates confirmed)
  modify (save_form form_id (record form { current_version = version.version_number }))
  modify (
      log_form now "DYNAMIC_FORM_UPDATED"
        (("form_id", Json.key form_id)
          ∷ ("version", Json.number version.version_number)
          ∷ ("confirmed_fields", Json.texts confirmed)
          ∷ [])
        tenant_id none user_id)
  pure (some version)

unfoldable pub update_form_fields :
    ℕ → ℕ → ℕ → ℕ → ℕ → Fields → List String → Exec FormStore (Option Version)
update_form_fields now form_id version_id user_id tenant_id field_updates confirmed = do
  found ← gets (λ (s : FormStore). find form_id s.forms)
  elim found [
    | none ↦ pure none
    | some form ↦ do
      require (not form.is_locked) value_error
      update_unlocked now form_id form version_id user_id tenant_id field_updates confirmed
  ]

unfoldable pub lock_form : ℕ → Exec FormStore (Option Form)
lock_form form_id = do
  found ← gets (λ (s : FormStore). find form_id s.forms)
  elim found [
    | none ↦ pure none
    | some form ↦ do
      modify (save_form form_id (record form { is_locked = true }))
      pure (some (record form { is_locked = true }))
  ]

unfoldable pub add_clarification_question :
    ℕ → ℕ → String → Option String → Exec FormStore (Option ClarificationQuestion)
add_clarification_question form_id question_id question_text field_reference = do
  found ← gets (λ (s : FormStore). find form_id s.forms)
  elim found [
    | none ↦ pure none
    | some form ↦ do
      require (not form.is_locked) value_error
      let question : ClarificationQuestion = record {
        form_id = form_id;
        question_text = question_text;
        field_reference = field_reference;
        status = "OPEN";
      }
      modify (λ (s : FormStore). record s { questions = put question_id question s.questions })
      pure (some question)
  ]
