-- ===== src/Monitoring/Keeps.antt =====
-- What the monitoring services leave behind.
use abcd_yi.Prelude.{ℕ, true, Option, some, ◌≡◌, ◌<◌, arith, inl, inr}
use abcd_yi.Prelude.Exec.{ok, ◌>>=◌, not_returned}
use abcd_yi.Prelude.Table.{find, put, find-put_self}
use abcd_yi.Db.{Db, Milestone, ExpediteAlert, ApprovalRequest, order_belongs_to_tenant}
use abcd_yi.Approvals.{Grants, require_approved_cases, consume}
use abcd_yi.Monitoring.Milestones.{MilestoneChange, changed, update_milestone}
use abcd_yi.Monitoring.Service.{notify, notifying, send_expedite_alert, sent_alert}

update_milestone_saves :
    (now id : ℕ) (c : MilestoneChange) (user tenant : Option ℕ) (db : Db) (m : Milestone)
    → find id db.milestones ≡ some m
    → ((update_milestone now id c user tenant db).0 ≡ ok (changed c m))
      × (find id (update_milestone now id c user tenant db).1.milestones ≡ some (changed c m))
unfolding update_milestone ◌>>=◌
update_milestone_saves now id c user tenant db m f = grind (arith, find-put_self)

changed_delays :
    (c : MilestoneChange) (m : Milestone) (planned predicted : ℕ)
    → m.planned_date ≡ some planned
    → c.predicted_date ≡ some predicted
    → planned < predicted
    → ((changed c m).status ≡ "DELAYED")
      × ((changed c m).order_id ≡ m.order_id)
      × ((changed c m).milestone_type ≡ m.milestone_type)
      × ((changed c m).planned_date ≡ m.planned_date)
unfolding changed
changed_delays c m planned predicted p q late = ground arith

-- A milestone that gets a predicted date behind its planned date is DELAYED from then on, whatever
-- status the caller asked for, and keeps its order, its type and its planned date.
pub update_milestone_delays :
    (now id : ℕ) (c : MilestoneChange) (user tenant : Option ℕ) (db : Db) (m : Milestone)
    (planned predicted : ℕ)
    → find id db.milestones ≡ some m
    → m.planned_date ≡ some planned
    → c.predicted_date ≡ some predicted
    → planned < predicted
    → (m' : Milestone) × ((update_milestone now id c user tenant db).0 ≡ ok m')
      × (find id (update_milestone now id c user tenant db).1.milestones ≡ some m')
      × (m'.status ≡ "DELAYED")
      × (m'.order_id ≡ m.order_id)
      × (m'.milestone_type ≡ m.milestone_type)
      × (m'.planned_date ≡ m.planned_date)
update_milestone_delays now id c user tenant db m planned predicted f p q late =
    let (answered, saved) = update_milestone_saves now id c user tenant db m f in
    let (s, o, t, d) = changed_delays c m planned predicted p q late in
    (changed c m, answered, saved, s, o, t, d)

notify_ok :
    (now id tenant user : ℕ) (db : Db) (r : ExpediteAlert)
    → (notify now id tenant user db).0 ≡ ok r
    → (a : ExpediteAlert) × (find id db.expedite_alerts ≡ some a)
      × (order_belongs_to_tenant db a.order_id tenant ≡ true)
      × (find id (notify now id tenant user db).1.expedite_alerts ≡ some (sent_alert now user a))
unfolding notify ◌>>=◌
notify_ok now id tenant user db r h = grind (arith, find-put_self)

-- An expedite alert that was sent had a granted approval for exactly this alert, is an alert of the
-- tenant, and is marked as sent by this user.
pub send_expedite_alert-Grants :
    (now id approval tenant user : ℕ) (db : Db) (r : ExpediteAlert)
    → (send_expedite_alert now id approval tenant user db).0 ≡ ok r
    → (req : ApprovalRequest) × (a : ExpediteAlert) × (find approval db.approvals ≡ some req)
      × Grants req (notifying tenant id)
      × (find id db.expedite_alerts ≡ some a)
      × (order_belongs_to_tenant db a.order_id tenant ≡ true)
      × (find id (send_expedite_alert now id approval tenant user db).1.expedite_alerts
          ≡ some (sent_alert now user a))
unfolding send_expedite_alert order_belongs_to_tenant
send_expedite_alert-Grants now id approval tenant user db r h =
    elim (require_approved_cases now approval (notifying tenant id) (λ _. notify now id tenant user)
      db) [
        | inl (req, f, g, e) ↦
            let mid : Db = record db { approvals = put approval (consume now req) db.approvals } in
            let (a, found, owned, saved) = notify_ok now id tenant user mid r (rw⁻¹ e h) in
            (req, a, f, g, found, owned, rw e saved)
        | inr e ↦ absurd (not_returned e h)
      ]
