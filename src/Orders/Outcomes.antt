-- ===== src/Orders/Outcomes.antt =====
-- What the order services did when they returned.
use abcd_yi.Prelude.{
  ℕ, String, true, none, some, [], ◌∷◌, ◌++◌, ◌≡◌, refl, arith, str_eq, eq_iff, not, ◌||◌,
}
use abcd_yi.Prelude.Exec.{ok, ◌>>=◌}
use abcd_yi.Prelude.Table.{find, find-put_self}
use abcd_yi.Db.{Db, Order, Shipment, ShipmentTrackingEvent, get_owned_order}
use abcd_yi.Fsm.{allowed, every_edge, every_edge-allowed}
use abcd_yi.Orders.Machine.{order_transitions, transition}
use abcd_yi.Orders.Service.{
  confirm_order, move_order, log_event, create_shipment, add_tracking_event, deliver, is_delivery,
}
use abcd_yi.Orders.SignOff.{LatestRecipient, buyer_sign_off}

shipped_edge : allowed order_transitions "SHIPPED" "DELIVERED" ≡ true
unfolding allowed order_transitions
shipped_edge = refl

-- PENDING_BUYER_CONFIRMATION is entered from a draft only.
draft_edge :
    (s : String)
    → allowed order_transitions s "PENDING_BUYER_CONFIRMATION" ≡ true
    → s ≡ "DRAFT_FROM_APPROVED_QUOTE"
unfolding every_edge order_transitions
draft_edge s h = (eq_iff s "DRAFT_FROM_APPROVED_QUOTE").0 (
    ground (
      arith,
      every_edge-allowed
          (λ a b.
            not (str_eq b "PENDING_BUYER_CONFIRMATION") || str_eq a "DRAFT_FROM_APPROVED_QUOTE")
          order_transitions s "PENDING_BUYER_CONFIRMATION" refl h,
    ))

-- An order that was confirmed is an order of the tenant, was a draft, and now is in production with
-- the time of its confirmation.
pub confirm_order_draft :
    (now id tenant user : ℕ) (db : Db) (o : Order)
    → (confirm_order now id tenant user db).0 ≡ ok o
    → (q : Order) × (get_owned_order db id tenant ≡ some q)
      × (q.status ≡ "DRAFT_FROM_APPROVED_QUOTE")
      × (o ≡ record q { status = "IN_PRODUCTION"; confirmed_at = some now })
      × (find id (confirm_order now id tenant user db).1.orders ≡ some o)
unfolding confirm_order move_order transition log_event ◌>>=◌
confirm_order_draft now id tenant user db o h = grind (arith, find-put_self, draft_edge)

-- An order that was signed off is an order of the tenant and was delivered.
pub buyer_sign_off_delivered :
    (l : LatestRecipient) (now id tenant user : ℕ) (db : Db) (o : Order)
    → (buyer_sign_off l now id tenant user db).0 ≡ ok o
    → (q : Order) × (get_owned_order db id tenant ≡ some q)
      × (q.status ≡ "DELIVERED")
      × (o ≡ record q { status = "BUYER_SIGNED_OFF"; buyer_signed_off_at = some now })
unfolding buyer_sign_off move_order transition log_event ◌>>=◌
buyer_sign_off_delivered l now id tenant user db o h = grind (arith, eq_iff)

-- A shipment that was created is one of an order that was ready to ship, and now is shipped.
pub create_shipment_ready :
    (now new_id id : ℕ) (s : Shipment) (tenant user : ℕ) (db : Db) (r : Shipment)
    → (create_shipment now new_id id s tenant user db).0 ≡ ok r
    → (q : Order) × (find id db.orders ≡ some q)
      × (q.status ≡ "READY_TO_SHIP")
      × (find id (create_shipment now new_id id s tenant user db).1.orders
          ≡ some (record q { status = "SHIPPED" }))
      × (find new_id (create_shipment now new_id id s tenant user db).1.shipments ≡ some r)
      × (r ≡ record s { order_id = id; actual_arrival_date = none })
unfolding create_shipment move_order transition log_event ◌>>=◌
create_shipment_ready now new_id id s tenant user db r h = grind (arith, eq_iff, find-put_self)

-- A delivery event on the shipment of an order under way: the order is delivered, the shipment
-- arrived when the event says, and the event is kept.
pub add_tracking_event_delivers :
    (now id : ℕ) (e : ShipmentTrackingEvent) (tenant user : ℕ) (db : Db) (s : Shipment) (o : Order)
    → find id db.shipments ≡ some s
    → find s.order_id db.orders ≡ some o
    → o.status ≡ "SHIPPED"
    → is_delivery e.event_type ≡ true
    → let out = add_tracking_event now id e tenant user db in
      (out.0 ≡ ok (record e { shipment_id = id }))
      × (find s.order_id out.1.orders ≡ some (record o { status = "DELIVERED" }))
      × (find id out.1.shipments ≡ some (record s { actual_arrival_date = some e.occurred_at }))
      × (out.1.tracking_events ≡ db.tracking_events ++ record e { shipment_id = id } ∷ [])
unfolding add_tracking_event deliver move_order transition log_event ◌>>=◌
add_tracking_event_delivers now id e tenant user db s o f g st d =
    let edge : allowed order_transitions o.status "DELIVERED" ≡ true = rw st shipped_edge in
    let on_the_way : str_eq o.status "SHIPPED" ≡ true = rw st refl in
    grind (arith, find-put_self, edge, on_the_way)
