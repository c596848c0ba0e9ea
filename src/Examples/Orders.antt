-- ===== src/Examples/Orders.antt =====
-- Orders that are confirmed, shipped, delivered and signed off.
use abcd_yi.Prelude.{none, some, [], ◌∷◌, ◌≡◌, refl, true, upper_is}
use abcd_yi.Prelude.Exec.{ok, ◌>>=◌}
use abcd_yi.Prelude.Table.{find, put}
use abcd_yi.Db.{
  Db, Order, ShipmentTrackingEvent, get_owned_order, project_belongs_to_tenant, emit_event,
}
use abcd_yi.Fsm.{allowed}
use abcd_yi.Orders.{
  order_transitions, transition, move_order, log_event, confirm_order, create_shipment, is_delivery,
  LatestRecipient, buyer_sign_off, update_supplier_memory_after_signoff, remember, participants_of,
}
use abcd_yi.Examples.Data.{session, an_order, a_shipment, tenant, user}

abbrev confirmed : Order
confirmed = record (an_order "IN_PRODUCTION") { confirmed_at = some 100 }

it_confirms :
    (confirm_order 100 10 tenant user (session "DRAFT_FROM_APPROVED_QUOTE")).0 ≡ ok confirmed
unfolding confirm_order get_owned_order project_belongs_to_tenant move_order transition allowed
    order_transitions log_event emit_event find put ◌>>=◌
it_confirms = refl

-- A database that answers the query of the latest response with no row.
abbrev no_recipient : LatestRecipient
no_recipient participant recipients = none

abbrev signed : Order
signed = record (an_order "BUYER_SIGNED_OFF") { buyer_signed_off_at = some 100 }

it_signs : (buyer_sign_off no_recipient 100 10 tenant user (session "DELIVERED")).0 ≡ ok signed
unfolding buyer_sign_off update_supplier_memory_after_signoff participants_of remember
    get_owned_order project_belongs_to_tenant move_order transition allowed order_transitions
    log_event emit_event find put ◌>>=◌
it_signs = refl

it_ships :
    (create_shipment 100 70 10 a_shipment tenant user (session "READY_TO_SHIP")).0 ≡ ok a_shipment
unfolding create_shipment move_order transition allowed order_transitions log_event emit_event find
    put ◌>>=◌
it_ships = refl

abbrev pod : ShipmentTrackingEvent
pod = record {
  shipment_id = 0;
  event_type = "pod";
  location = none;
  description = none;
  occurred_at = 95;
}

abbrev under_way : Db
under_way = record (session "SHIPPED") { shipments = (70, a_shipment) ∷ [] }

its_shipment : find 70 under_way.shipments ≡ some a_shipment
unfolding find
its_shipment = refl

its_order : find 10 under_way.orders ≡ some (an_order "SHIPPED")
unfolding find
its_order = refl

pod_delivers : is_delivery "pod" ≡ true
unfolding is_delivery upper_is
pod_delivers = refl
