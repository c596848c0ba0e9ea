-- ===== src/Intake/Kept.antt =====
-- A property of the store that the single writes keep is kept by the handling of an event:
-- src/aivan/execution/rfq_execution.py, errors included.
use abcd_yi.Prelude.{ℕ, String, Option, none, some, List, [], ◌∷◌, Option-cases, inl, inr}
use abcd_yi.Prelude.Exec.{modify, ◌>>=◌}
use abcd_yi.Prelude.Table.{Table, find, put}
use abcd_yi.Prelude.Keeps.{Keeps, Keeps-bind, Keeps-pure, Keeps-gets, Keeps-modify, Keeps-or_raise}
use abcd_yi.Intake.Store.{
  OpenClawEvent, Strategy, Backend, Services, Project, AgentEvent, AgentStore,
}
use abcd_yi.Intake.Requirement.{BuyerRequirement}
use abcd_yi.Intake.Readiness.{Supplier}
use abcd_yi.Intake.Events.{EventClassification}
use abcd_yi.Intake.Projects.{
  add_event, add_binding, add_project, add_draft, change_project, change_drafts,
  learn_strategy_preference, supersede_customer_quote_drafts, create_project, create_draft,
  append_event, bind_existing, open_project, get_or_create_project,
}
use abcd_yi.Intake.Outreach.{
  create_supplier_email_drafts, send_user_control_notification, create_customer_quote_email_draft,
  inquiry_draft, quote_draft,
}

-- What each write is asked to keep.
pub record IsKept {b : Backend} (v : Services b) (P : AgentStore b → Type 0) : Type 0 where
  pub event : (e : AgentEvent) (s : AgentStore b) → P s → P (add_event e s)
  pub binding : (c : String) (id : ℕ) (s : AgentStore b) → P s → P (add_binding c id s)
  pub project : (p : Project b) (s : AgentStore b) → P s → P (add_project p s)
  pub projects : (t : Table (Project b)) (s : AgentStore b) → P s → P (record s { projects = t })
  pub preference :
      (user : String) (x : Strategy) (s : AgentStore b)
      → P s
      → P (learn_strategy_preference user x s)
  pub inquiry :
      (project : ℕ) (event : OpenClawEvent) (x : Supplier) (text : String) (s : AgentStore b)
      → P s
      → P (add_draft (inquiry_draft project event x text) s)
  pub quotation :
      (project : ℕ) (conversation customer text : String) (s : AgentStore b)
      → P s
      → P (add_draft (quote_draft project conversation customer text) s)
  pub supersede :
      (project : ℕ) (s : AgentStore b)
      → P s
      → P (change_drafts (supersede_customer_quote_drafts project) s)
  pub notify :
      (now project : ℕ) (event : OpenClawEvent) (text : String)
      → Keeps P (send_user_control_notification v now project event text)

module _ {b : Backend} (v : Services b) (P : AgentStore b → Type 0) (k : IsKept v P) where
  pub change_project-Keeps :
      (id : ℕ) (f : Project b → Project b) → Keeps P (modify (change_project id f))
  unfolding change_project ◌>>=◌
  change_project-Keeps id f s h = elim (Option-cases (find id s.projects)) [
    | inl e ↦ rw (e, change_project) h
    | inr (p, e) ↦ rw (e, change_project) (k.projects (put id (f p) s.projects) s h)
  ]

  pub append_event-Keeps : (id : ℕ) (e a : String) → Keeps P (append_event b id e a)
  unfolding append_event
  append_event-Keeps id e a = Keeps-modify P _ (k.event _)

  create_project-Keeps : (p : Project b) → Keeps P (create_project b p)
  unfolding create_project
  create_project-Keeps p =
      Keeps-bind P _ _ (Keeps-gets P _)
        (λ id. Keeps-bind P _ _ (Keeps-modify P _ (k.project p)) (λ _. Keeps-pure P _))

  pub create_inquiry-Keeps :
      (project : ℕ) (event : OpenClawEvent) (x : Supplier) (text : String)
      → Keeps P (create_draft b (inquiry_draft project event x text))
  unfolding create_draft
  create_inquiry-Keeps project event x text = Keeps-bind P _ _ (Keeps-gets P _) (λ id.
      Keeps-bind P _ _ (Keeps-modify P _ (k.inquiry project event x text)) (λ _. Keeps-pure P _))

  bind_existing-Keeps :
      (event : OpenClawEvent) (it : ℕ × Project b) → Keeps P (bind_existing b event it)
  unfolding bind_existing
  bind_existing-Keeps event it =
      Keeps-bind P _ _ (Keeps-modify P _ (k.binding event.conversation_id it.0))
        (λ _. Keeps-pure P _)

  open_project-Keeps : (event : OpenClawEvent) → Keeps P (open_project b event)
  unfolding open_project
  open_project-Keeps event = Keeps-bind P _ _ (create_project-Keeps _) (λ id.
      Keeps-bind P _ _ (Keeps-modify P _ (k.binding event.conversation_id id))
        (λ _. Keeps-bind P _ _ (append_event-Keeps id _ _) (λ _. Keeps-pure P _)))

  pub get_or_create_project-Keeps :
      (event : OpenClawEvent) (c : EventClassification) → Keeps P (get_or_create_project b event c)
  unfolding get_or_create_project
  get_or_create_project-Keeps event c =
      Keeps-bind P _ _ (Keeps-gets P _) (λ (found : Option (ℕ × Project b)). branch event c found)
    where
      branch :
          (event : OpenClawEvent) (c : EventClassification) (found : Option (ℕ × Project b))
          → Keeps P
              (elim found [ some it ↦ bind_existing b event it | none ↦ open_project b event ])
      branch event c none = open_project-Keeps event
      branch event c (some it) = bind_existing-Keeps event it

  pub create_supplier_email_drafts-Keeps :
      (project : ℕ) (event : OpenClawEvent) (r : BuyerRequirement) (strategy : Strategy)
      (gltg : b.Gltg) (suppliers : List Supplier) (ids : List String)
      → Keeps P (create_supplier_email_drafts v project event r strategy gltg suppliers ids)
  unfolding create_supplier_email_drafts
  create_supplier_email_drafts-Keeps project event r strategy gltg suppliers [] = Keeps-pure P _
  create_supplier_email_drafts-Keeps project event r strategy gltg suppliers (id ∷ rest) =
      Keeps-bind P _ _ (Keeps-or_raise P _ _) (λ (x : Supplier).
        Keeps-bind P _ _ (create_inquiry-Keeps project event x _) (λ draft.
          Keeps-bind P _ _ (append_event-Keeps project _ _) (λ _.
            Keeps-bind P _ _
              (create_supplier_email_drafts-Keeps project event r strategy gltg suppliers rest)
              (λ drafts. Keeps-pure P _))))

  create_quotation-Keeps :
      (project : ℕ) (conversation customer text : String)
      → Keeps P (create_draft b (quote_draft project conversation customer text))
  unfolding create_draft
  create_quotation-Keeps project conversation customer text =
      Keeps-bind P _ _ (Keeps-gets P _) (λ id.
        Keeps-bind P _ _ (Keeps-modify P _ (k.quotation project conversation customer text))
          (λ _. Keeps-pure P _))

  pub create_customer_quote_email_draft-Keeps :
      (project : ℕ) (p : Project b) (event : OpenClawEvent) (options : List b.BuyerOption)
      → Keeps P (create_customer_quote_email_draft v project p event options)
  unfolding create_customer_quote_email_draft
  create_customer_quote_email_draft-Keeps project p event options =
      Keeps-bind P _ _ (Keeps-modify P _ (k.supersede project)) (λ _.
        Keeps-bind P _ _ (create_quotation-Keeps project _ _ _)
          (λ draft. Keeps-bind P _ _ (append_event-Keeps project _ _) (λ _. Keeps-pure P _)))
