-- ===== src/Monitoring/Milestones.antt =====
-- src/milestones/service.py.
use abcd_yi.Prelude.{
  ℕ, String, Bool, false, Option, none, some, List, [], ◌∷◌, ◌++◌, str_eq, ◌==◌, ◌||◌, ltb, keep,
  length, if◌then◌else◌,
}
use abcd_yi.Prelude.Exec.{Exec, http, pure, gets, or_raise, modify, ◌>>=◌, ◌>>◌}
use abcd_yi.Prelude.Table.{find, put, matches}
use abcd_yi.Db.{Db, Milestone, ProductionUpdate, Json, emit_event}

-- The optional arguments of `update_milestone` that it writes.
pub record MilestoneChange : Type 0 where
  pub status : Option String
  pub actual_date : Option ℕ
  pub predicted_date : Option ℕ
  pub notes : Option String
  pub responsible_participant_id : Option ℕ

-- `if status:` holds of a text that is not empty.
abbrev set_status : Option String → Milestone → Milestone
set_status none m = m
set_status (some s) m = if str_eq s "" then m else record m { status = s }

abbrev set_actual : Option ℕ → Milestone → Milestone
set_actual none m = m
set_actual (some d) m = record m { actual_date = some d }

abbrev is_late : Option ℕ → ℕ → Bool
is_late none predicted = false
is_late (some planned) predicted = ltb planned predicted

-- A predicted date behind the planned one makes the milestone DELAYED.
abbrev set_predicted : Option ℕ → Milestone → Milestone
set_predicted none m = m
set_predicted (some d) m =
    let m' = record m { predicted_date = some d } in
    if is_late m.planned_date d then record m' { status = "DELAYED" } else m'

abbrev set_notes : Option String → Milestone → Milestone
set_notes none m = m
set_notes (some n) m = record m { notes = some n }

abbrev set_responsible : Option ℕ → Milestone → Milestone
set_responsible none m = m
set_responsible (some p) m = record m { responsible_participant_id = some p }

unfoldable pub changed : MilestoneChange → Milestone → Milestone
changed c m = set_responsible c.responsible_participant_id (
    set_notes c.notes
      (set_predicted c.predicted_date (set_actual c.actual_date (set_status c.status m))))

-- `notes or ''`
abbrev or_blank : Option String → String
or_blank none = ""
or_blank (some n) = n

abbrev update_of : ℕ → MilestoneChange → Milestone → ProductionUpdate
update_of milestone_id c m = record {
  order_id = m.order_id;
  milestone_id = some milestone_id;
  update_text = m.milestone_type ∷ m.status ∷ or_blank c.notes ∷ [];
  submitted_by_participant_id = c.responsible_participant_id;
  evidence = [];
}

-- `if tenant_id: await emit_event(...)`
announce : ℕ → ℕ → Milestone → Option ℕ → Option ℕ → Exec Db (Unit {0})
unfolding emit_event
announce now milestone_id m none user_id = pure tt
announce now milestone_id m (some tenant_id) user_id = emit_event (record {
  tenant_id = tenant_id;
  project_id = none;
  order_id = some m.order_id;
  participant_id = none;
  event_type = "MILESTONE_UPDATED";
  payload =
      ("milestone_id", Json.key milestone_id)
      ∷ ("milestone_type", Json.text m.milestone_type)
      ∷ ("status", Json.text m.status)
      ∷ ("order_id", Json.key m.order_id)
      ∷ [];
  triggered_by_user_id = user_id;
  occurred_at = now;
})

unfoldable pub update_milestone : ℕ → ℕ → MilestoneChange → Option ℕ → Option ℕ → Exec Db Milestone
unfolding announce
update_milestone now milestone_id c updated_by_user_id tenant_id = do
  found ← gets (λ (db : Db). find milestone_id db.milestones)
  ms ← or_raise found (http 404)
  let m = changed c ms
  modify (λ (db : Db). record db {
    milestones = put milestone_id m db.milestones;
    production_updates = db.production_updates ++ update_of milestone_id c m ∷ [];
  })
  announce now milestone_id m tenant_id updated_by_user_id
  pure m

unfoldable pub create_production_update : ProductionUpdate → Exec Db ProductionUpdate
create_production_update update = do
  modify (λ (db : Db). record db { production_updates = db.production_updates ++ update ∷ [] })
  pure update

abbrev pub has_status : String → ℕ × Milestone → Bool
has_status s (_, m) = str_eq m.status s

abbrev pub is_pending : ℕ × Milestone → Bool
is_pending (_, m) = str_eq m.status "PENDING" || str_eq m.status "IN_PROGRESS"

abbrev head : List (ℕ × Milestone) → Option (ℕ × Milestone)
head [] = none
head (m ∷ _) = some m

pub record MonitoringView : Type 0 where
  pub milestones : List (ℕ × Milestone)
  pub completed_count : ℕ
  pub delayed_count : ℕ
  pub next_milestone : Option (ℕ × Milestone)

-- `order_by(created_at)` is the order of insertion.
unfoldable pub monitoring_view : ℕ → Db → MonitoringView
monitoring_view order_id db =
    let milestones = matches (λ (m : Milestone). m.order_id == order_id) db.milestones in
    record {
      milestones = milestones;
      completed_count = length (keep (has_status "COMPLETED") milestones);
      delayed_count = length (keep (has_status "DELAYED") milestones);
      next_milestone = head (keep is_pending milestones);
    }
