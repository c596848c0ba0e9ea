-- ===== src/Intake/Projects.antt =====
-- The writes of the sales agent to its tables: src/aivan/db/repositories/project_repo.py, draft_repo.py,
-- event_repo.py, preference_repo.py, inbound_event_repo.py and src/aivan/openclaw/binding_store.py; and
-- the choice of the project of an event in src/aivan/execution/rfq_execution.py.
use abcd_yi.Prelude.{
  ℕ, String, Bool, ◌&&◌, ◌+◌, ◌==◌, Option, none, some, List, [], ◌∷◌, ◌++◌, str_eq, if◌then◌else◌,
}
use abcd_yi.Prelude.Exec.{Exec, pure, gets, modify, ◌>>=◌, ◌>>◌}
use abcd_yi.Prelude.Table.{Table, find, put, update}
use abcd_yi.Drafts.{Draft}
use abcd_yi.Intake.Store.{
  OpenClawEvent, Strategy, Backend, ProjectData, Project, AgentEvent, AgentStore,
}
use abcd_yi.Intake.Events.{EventClassification, get_by_conversation, or_else}

-- `d.get(k)` and `d[k] = a`
unfoldable pub entry {ℓ} : {A : Type ℓ} → String → List (String × A) → Option A
entry k [] = none
entry k ((j, a) ∷ m) = if str_eq j k then some a else entry k m

unfoldable pub put_entry {ℓ} : {A : Type ℓ} → String → A → List (String × A) → List (String × A)
put_entry k a [] = (k, a) ∷ []
put_entry k a ((j, b) ∷ m) = if str_eq j k then (k, a) ∷ m else (j, b) ∷ put_entry k a m

module _ {b : Backend} where
  -- ExecutionEventRepository.append
  unfoldable pub add_event : AgentEvent → AgentStore b → AgentStore b
  add_event e s = record s { events = s.events ++ e ∷ [] }

  -- bind_conversation
  unfoldable pub add_binding : String → ℕ → AgentStore b → AgentStore b
  add_binding c id s = record s { bindings = (c, id) ∷ s.bindings }

  unfoldable pub add_project : Project b → AgentStore b → AgentStore b
  add_project p s = record s { next_id = s.next_id + 1; projects = put s.next_id p s.projects }

  unfoldable pub change_project : ℕ → (Project b → Project b) → AgentStore b → AgentStore b
  change_project id f s = elim (find id s.projects) [
    | none ↦ s
    | some p ↦ record s { projects = put id (f p) s.projects }
  ]

  -- DraftRepository.create
  unfoldable pub add_draft : Draft → AgentStore b → AgentStore b
  add_draft d s = record s { next_id = s.next_id + 1; drafts = put s.next_id d s.drafts }

  unfoldable pub change_drafts : (Table Draft → Table Draft) → AgentStore b → AgentStore b
  change_drafts f s = record s { drafts = f s.drafts }

  -- UserPreferenceRepository.upsert, of the strategy of a user
  unfoldable pub learn_strategy_preference : String → Strategy → AgentStore b → AgentStore b
  learn_strategy_preference user strategy s = record s {
    preferences = put_entry user strategy s.preferences;
  }

abbrev pub is_stale_quote : ℕ → Draft → Bool
is_stale_quote project d =
    d.project_id == project
    && (str_eq d.status "pending_approval" && str_eq d.draft_type "customer_quote_email")

abbrev pub superseded_draft : Draft → Draft
superseded_draft d = record d { status = "superseded" }

unfoldable pub supersede_customer_quote_drafts : ℕ → Table Draft → Table Draft
supersede_customer_quote_drafts project t = update (is_stale_quote project) superseded_draft t

-- What is stored for a requirement, without and with the outcome of its execution.
abbrev pub update_requirement : {b : Backend} → ProjectData b → Project b → Project b
update_requirement payload p = record p { requirement_json = some payload }

abbrev pub update_selected_option : {b : Backend} → b.BuyerOption → Project b → Project b
update_selected_option option p = record p { selected_option = some option }

module _ (b : Backend) where
  -- A step that writes a row and answers its id.
  unfoldable pub create_project : Project b → Exec (AgentStore b) ℕ
  unfolding add_project
  create_project p = do id ← gets (λ (s : AgentStore b). s.next_id); modify (add_project p); pure id

  unfoldable pub create_draft : Draft → Exec (AgentStore b) ℕ
  unfolding add_draft
  create_draft d = do id ← gets (λ (s : AgentStore b). s.next_id); modify (add_draft d); pure id

  unfoldable pub append_event : ℕ → String → String → Exec (AgentStore b) (Unit {0})
  unfolding add_event
  append_event project event_type actor =
      modify (add_event (record { project_id = project; event_type = event_type; actor = actor }))

  abbrev pub new_project : OpenClawEvent → Project b
  new_project event = record {
    conversation_id = event.conversation_id;
    customer_id = event.sender_id;
    channel = event.channel;
    channel_account_id = event.channel_account_id;
    requirement_json = none;
    selected_option = none;
  }

  -- The project that the event names or that its conversation is bound to, where it exists, else the last
  -- one of its conversation.
  unfoldable pub project_of :
      OpenClawEvent → EventClassification → AgentStore b → Option (ℕ × Project b)
  project_of event c s =
      let named =
        or_else c.project_id (or_else event.project_id (entry event.conversation_id s.bindings)) in
      let by_conversation = get_by_conversation event.conversation_id s.projects in
      elim named [
        | none ↦ by_conversation
        | some id ↦ elim (find id s.projects) [ some p ↦ some (id, p) | none ↦ by_conversation ]
      ]

  unfoldable pub bind_existing : OpenClawEvent → ℕ × Project b → Exec (AgentStore b) (ℕ × Project b)
  unfolding add_binding
  bind_existing event found = do modify (add_binding event.conversation_id found.0); pure found

  unfoldable pub open_project : OpenClawEvent → Exec (AgentStore b) (ℕ × Project b)
  unfolding create_project append_event add_binding
  open_project event = do
    id ← create_project (new_project event)
    modify (add_binding event.conversation_id id)
    append_event id "PROJECT_CREATED" "aivan_event_api"
    pure (id, new_project event)

  unfoldable pub get_or_create_project :
      OpenClawEvent → EventClassification → Exec (AgentStore b) (ℕ × Project b)
  unfolding bind_existing open_project project_of
  get_or_create_project event c = do
    found ← gets (λ (s : AgentStore b). project_of event c s)
    (elim found [ some it ↦ bind_existing event it | none ↦ open_project event ])
