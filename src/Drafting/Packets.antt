-- ===== src/Drafting/Packets.antt =====
-- approve_decision_option of src/decision_packets/service.py.
use abcd_yi.Prelude.{ℕ, none, some, [], ◌∷◌, ◌≡◌, arith, inl, inr}
use abcd_yi.Prelude.Exec.{Exec, ok, http, pure, gets, or_raise, modify, ◌>>=◌, ◌>>◌, not_returned}
use abcd_yi.Prelude.Table.{find, put, find-put_self}
use abcd_yi.Db.{
  Db, DecisionPacket, ApprovalRequest, Json, emit_event, get_owned_packet,
  project_belongs_to_tenant,
}
use abcd_yi.Approvals.{Purpose, Grants, require_approved, require_approved_cases, consume}

abbrev pub approving : ℕ → ℕ → Purpose
approving tenant_id packet_id = record {
  tenant_id = tenant_id;
  action_type = "QUOTE_APPROVE";
  resource_type = "decision_packet";
  resource_id = packet_id;
}

abbrev pub approve_packet : ℕ → DecisionPacket → DecisionPacket
approve_packet option_id p = record p {
  recommended_option_id = some option_id;
  human_approval_status = "APPROVED";
}

-- What `approve_decision_option` does behind its guard.
choose_option : ℕ → ℕ → ℕ → ℕ → ℕ → Exec Db DecisionPacket
unfolding emit_event
choose_option now packet_id option_id reviewed_by tenant_id = do
  found ← gets (λ db. get_owned_packet db packet_id tenant_id)
  packet ← or_raise found (http 404)
  let approved = approve_packet option_id packet
  modify (λ (db : Db). record db { packets = put packet_id approved db.packets })
  emit_event (record {
    tenant_id = tenant_id;
    project_id = some packet.project_id;
    order_id = none;
    participant_id = none;
    event_type = "QUOTE_APPROVED";
    payload = ("packet_id", Json.key packet_id) ∷ ("option_id", Json.key option_id) ∷ [];
    triggered_by_user_id = some reviewed_by;
    occurred_at = now;
  })
  pure approved

unfoldable pub approve_decision_option : ℕ → ℕ → ℕ → ℕ → ℕ → ℕ → Exec Db DecisionPacket
unfolding choose_option
approve_decision_option now packet_id option_id approval_id reviewed_by tenant_id = do
  require_approved now approval_id (approving tenant_id packet_id)
  choose_option now packet_id option_id reviewed_by tenant_id

-- The packet of the tenant that was approved, before and after.
pub record IsApproved (packet_id option_id tenant_id : ℕ) (db db' : Db) : Type 0 where
  pub packet : DecisionPacket
  pub owned : get_owned_packet db packet_id tenant_id ≡ some packet
  pub approved : find packet_id db'.packets ≡ some (approve_packet option_id packet)

module _ (now packet_id option_id user tenant : ℕ) (db : Db) where
  choose_option_ok :
      (r : DecisionPacket)
      → (choose_option now packet_id option_id user tenant db).0 ≡ ok r
      → (p : DecisionPacket) × (get_owned_packet db packet_id tenant ≡ some p)
        × (find packet_id (choose_option now packet_id option_id user tenant db).1.packets
            ≡ some (approve_packet option_id p))
  unfolding choose_option ◌>>=◌
  choose_option_ok r h = grind (arith, find-put_self)

-- A packet that was approved had a granted approval for exactly this packet of this tenant, and now
-- carries the option and the status APPROVED.
pub approve_decision_option-IsApproved :
    (now packet_id option_id approval_id user tenant : ℕ) (db : Db) (r : DecisionPacket)
    → (approve_decision_option now packet_id option_id approval_id user tenant db).0 ≡ ok r
    → (req : ApprovalRequest) × (find approval_id db.approvals ≡ some req)
      × Grants req (approving tenant packet_id)
      × IsApproved packet_id option_id tenant db
          (approve_decision_option now packet_id option_id approval_id user tenant db).1
unfolding approve_decision_option get_owned_packet project_belongs_to_tenant
approve_decision_option-IsApproved now packet_id option_id approval_id user tenant db r h =
    elim (require_approved_cases now approval_id (approving tenant packet_id)
      (λ _. choose_option now packet_id option_id user tenant) db) [
        | inl (req, f, g, e) ↦
            let mid : Db = record db {
              approvals = put approval_id (consume now req) db.approvals;
            } in
            let (p, owned, saved) =
              choose_option_ok now packet_id option_id user tenant mid r (rw⁻¹ e h) in
            (req, f, g, rw e (record { packet = p; owned = owned; approved = saved }))
        | inr e ↦ absurd (not_returned e h)
      ]
