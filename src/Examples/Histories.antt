-- ===== src/Examples/Histories.antt =====
-- An order from its draft to the request for its inspection.
use abcd_yi.Prelude.{none, some, [], ◌∷◌}
use abcd_yi.Db.{Db, Order}
use abcd_yi.Drafting.{create_order_from_approved_option, drafted_order}
use abcd_yi.Orders.{confirm_order, request_qc, create_shipment}
use abcd_yi.Examples.Data.{project, session, a_shipment, tenant, user}

-- A packet of the tenant that is approved, and no order yet.
abbrev start : Db
start = record (session "CONFIRMED") {
  orders = [];
  packets =
      (
        11,
        record {
          project_id = project;
          human_approval_status = "APPROVED";
          recommended_option_id = some 12;
        },
      )
      ∷ [];
  options =
      (
        12,
        record {
          packet_id = 11;
          supplier_combination = some 9 ∷ [];
          unit_price = none;
          currency = none;
          lead_time_breakdown = record {
            fabric = none;
            trim = none;
            production = none;
            qc = none;
            logistics = none;
          };
        },
      )
      ∷ [];
}

abbrev after_draft : Db
after_draft =
    (create_order_from_approved_option 99 10 [] "ORD-2026-0001" project 11 12 tenant user start).1

abbrev after_confirm : Db
after_confirm = (confirm_order 100 10 tenant user after_draft).1

abbrev after_request : Db
after_request = (request_qc 101 10 tenant user after_confirm).1

-- It is too early for a shipment.
abbrev after_refusal : Db
after_refusal = (create_shipment 103 70 10 a_shipment tenant user after_request).1

abbrev requested : Order
requested = record (drafted_order project 12 none "ORD-2026-0001") {
  status = "QC_PENDING";
  confirmed_at = some 100;
}
