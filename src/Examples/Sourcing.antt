-- ===== src/Examples/Sourcing.antt =====
-- An RFQ that is sent, a packet that is approved and the order that is drafted from it.
use abcd_yi.Prelude.{◌≤◌, String, none, some, [], ◌∷◌, ◌≡◌, ◌↔◌, refl, true}
use abcd_yi.Prelude.Exec.{ok, ◌>>=◌}
use abcd_yi.Prelude.Table.{find, put, update, matches, one_or_none}
use abcd_yi.Fsm.{allowed}
use abcd_yi.Db.{
  Db, ApprovalRequest, Rfq, Order, DecisionPacket, DecisionOption, LeadTimes, get_owned_packet,
  project_belongs_to_tenant, emit_event,
}
use abcd_yi.Approvals.{Grants, require_approved}
use abcd_yi.Orders.{rfq_transitions, rfq_transition}
use abcd_yi.Rfqs.{send_rfq, send_rfq-IsSent, IsSent, sending_of, send_approved, move_to_sent}
use abcd_yi.Drafting.{
  approve_decision_option, IsApproved, approve_decision_option-IsApproved, approving,
  create_order_from_approved_option, create_order_approved, current_version, plan, plan-Ordered,
  Ordered, from_cutting, drafted_order,
}
use abcd_yi.Examples.Data.{granted, session, rfq, tenant, user, project}

abbrev waiting_rfq : Rfq
waiting_rfq = record {
  project_id = project;
  form_version_id = 2;
  status = "PENDING_APPROVAL";
  rfq_subject = "600 shirts";
  ai_generated = true;
  human_approved_by = none;
  sent_at = none;
}

abbrev start : Db
start = record (session "CONFIRMED") { rfqs = (rfq, waiting_rfq) ∷ [] }

sent :
    (send_rfq 100 rfq 5 tenant user start).0
    ≡ ok (record waiting_rfq { status = "SENT"; sent_at = some 100; human_approved_by = some user })
unfolding send_rfq require_approved send_approved move_to_sent rfq_transition rfq_transitions
    allowed find put update emit_event ◌>>=◌
sent = refl

send_rfq-IsSent_example :
    (req : ApprovalRequest) × (find 5 start.approvals ≡ some req)
    × Grants req (sending_of tenant rfq)
    × IsSent 100 rfq user start (send_rfq 100 rfq 5 tenant user start).1
send_rfq-IsSent_example =
    send_rfq-IsSent 100 rfq 5 tenant user start
      (record waiting_rfq { status = "SENT"; sent_at = some 100; human_approved_by = some user })
      sent

abbrev lead_times : LeadTimes
lead_times = record {
  fabric = some 20;
  trim = some 10;
  production = some 30;
  qc = some 2;
  logistics = some 21;
}

abbrev an_option : DecisionOption
an_option = record {
  packet_id = 11;
  supplier_combination = some 9 ∷ [];
  unit_price = some 450;
  currency = some "USD";
  lead_time_breakdown = lead_times;
}

abbrev a_packet : String → DecisionPacket
a_packet status = record {
  project_id = project;
  human_approval_status = status;
  recommended_option_id = none;
}

abbrev offered : String → Db
offered status = record (session "CONFIRMED") {
  packets = (11, a_packet status) ∷ [];
  options = (12, an_option) ∷ [];
  approvals =
      (
        5,
        record granted {
          action_type = "QUOTE_APPROVE";
          resource_type = "decision_packet";
          resource_id = 11;
        },
      )
      ∷ [];
}

chosen :
    (approve_decision_option 100 11 12 5 user tenant (offered "PENDING")).0
    ≡ ok (record (a_packet "APPROVED") { recommended_option_id = some 12 })
unfolding approve_decision_option require_approved find put get_owned_packet
    project_belongs_to_tenant emit_event ◌>>=◌
chosen = refl

approve_decision_option-IsApproved_example :
    (req : ApprovalRequest) × (find 5 (offered "PENDING").approvals ≡ some req)
    × Grants req (approving tenant 11)
    × IsApproved 11 12 tenant
        (offered "PENDING")
        (approve_decision_option 100 11 12 5 user tenant (offered "PENDING")).1
approve_decision_option-IsApproved_example =
    approve_decision_option-IsApproved 100 11 12 5 user tenant (offered "PENDING")
      (record (a_packet "APPROVED") { recommended_option_id = some 12 }) chosen

abbrev new_order : Order
new_order = drafted_order project 12 none "ORD-2026-0002"

created :
    (create_order_from_approved_option 100 13
      (14 ∷ 15 ∷ [])
      "ORD-2026-0002"
      project
      11
      12
      tenant
      user
      (offered "APPROVED")).0
    ≡ ok new_order
unfolding create_order_from_approved_option current_version find put matches one_or_none
    get_owned_packet project_belongs_to_tenant emit_event ◌>>=◌
created = refl

create_order_approved_example :
    let out =
      create_order_from_approved_option 100 13
        (14 ∷ 15 ∷ [])
        "ORD-2026-0002"
        project
        11
        12
        tenant
        user
        (offered "APPROVED") in
    (p : DecisionPacket) × (q : DecisionOption) × (get_owned_packet (offered "APPROVED") 11 tenant
      ≡ some p)
    × (p.human_approval_status ≡ "APPROVED")
    × (find 12 (offered "APPROVED").options ≡ some q)
    × (q.packet_id ≡ 11)
    × (new_order.status ≡ "DRAFT_FROM_APPROVED_QUOTE")
    × (new_order.approved_option_id ≡ some 12)
    × (find 13 out.1.orders ≡ some new_order)
create_order_approved_example =
    create_order_approved 100 13 (14 ∷ 15 ∷ []) "ORD-2026-0002" project 11 12 tenant user
      (offered "APPROVED") new_order created

plan-Ordered_example :
    Ordered (
      from_cutting (
        plan (record {
          fabric = some 20;
          trim = some 10;
          production = some 30;
          qc = some 2;
          logistics = some 21;
        })))
    ↔ ((3 ≤ 2) × (3 ≤ 21))
plan-Ordered_example = plan-Ordered 19 30 2 21 (some 10)
