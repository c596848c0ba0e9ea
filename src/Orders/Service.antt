-- ===== src/Orders/Service.antt =====
-- The operations that move an order: src/order_confirmation/service.py (confirm_order and the
-- sign-off itself), src/orders/service.py, src/logistics/service.py. `now` is the clock's reading
-- and `new_id` the UUID of a new row.
use abcd_yi.Prelude.{
  ℕ, String, Bool, Option, none, some, List, [], ◌∷◌, ◌++◌, any, upper_is, str_eq, if◌then◌else◌,
}
use abcd_yi.Prelude.Exec.{
  Exec, Result, ok, err, http, pure, raise, gets, lift, or_raise, modify, require, ◌>>=◌, ◌>>◌,
}
use abcd_yi.Prelude.Table.{find, put}
use abcd_yi.Db.{
  Db, Order, Shipment, ShipmentTrackingEvent, Payload, Json, emit_event, get_owned_order,
}
use abcd_yi.Orders.Machine.{transition}

abbrev pub save_order : ℕ → Order → Db → Db
save_order id o db = record db { orders = put id o db.orders }

-- `order.status = transition(order.status, target)`
unfoldable pub move_order : ℕ → Order → String → Exec Db Order
move_order id o target = do
  s ← lift (transition o.status target)
  let o' = record o { status = s }
  modify (save_order id o')
  pure o'

-- The event that every operation ends with.
unfoldable pub log_event : ℕ → String → Payload → ℕ → Option ℕ → ℕ → ℕ → Exec Db (Unit {0})
unfolding emit_event
log_event now event_type payload tenant_id project_id order_id user_id = emit_event (record {
  tenant_id = tenant_id;
  project_id = project_id;
  order_id = some order_id;
  participant_id = none;
  event_type = event_type;
  payload = payload;
  triggered_by_user_id = some user_id;
  occurred_at = now;
})

unfoldable pub confirm_order : ℕ → ℕ → ℕ → ℕ → Exec Db Order
unfolding log_event
confirm_order now order_id tenant_id user_id = do
  found ← gets (λ db. get_owned_order db order_id tenant_id)
  order ← or_raise found (http 404)
  pending ← move_order order_id order "PENDING_BUYER_CONFIRMATION"
  confirmed ← move_order order_id pending "CONFIRMED"
  let stamped = record confirmed { confirmed_at = some now }
  modify (save_order order_id stamped)
  log_event now "ORDER_CONFIRMED"
      (("order_id", Json.key order_id) ∷ ("order_number", Json.text order.order_number) ∷ [])
      tenant_id (some order.project_id) order_id user_id
  move_order order_id stamped "IN_PRODUCTION"

-- A move that the machine refuses is answered with 409.
unfoldable pub or_conflict : Result String → Exec Db String
or_conflict (ok s) = pure s
or_conflict (err e) = raise (http 409)

unfoldable pub request_qc : ℕ → ℕ → ℕ → ℕ → Exec Db Order
unfolding log_event
request_qc now order_id tenant_id user_id = do
  found ← gets (λ db. get_owned_order db order_id tenant_id)
  order ← or_raise found (http 404)
  next ← or_conflict (transition order.status "QC_PENDING")
  let order' = record order { status = next }
  modify (save_order order_id order')
  log_event now "QC_REQUESTED"
      (("order_id", Json.key order_id)
        ∷ ("previous_status", Json.text order.status)
        ∷ ("status", Json.text next)
        ∷ [])
      tenant_id (some order.project_id) order_id user_id
  pure order'

-- `shipment_data` is the shipment with `order_id` and `actual_arrival_date` still to be set.
unfoldable pub create_shipment : ℕ → ℕ → ℕ → Shipment → ℕ → ℕ → Exec Db Shipment
unfolding log_event
create_shipment now new_id order_id shipment_data tenant_id user_id = do
  found ← gets (λ (db : Db). find order_id db.orders)
  order ← or_raise found (http 404)
  require (str_eq order.status "READY_TO_SHIP") (http 409)
  let shipment = record shipment_data { order_id = order_id; actual_arrival_date = none }
  modify (λ (db : Db). record db { shipments = put new_id shipment db.shipments })
  move_order order_id order "SHIPPED"
  log_event now "LOGISTICS_HANDOVER_CREATED"
      (("shipment_id", Json.key new_id) ∷ ("order_id", Json.key order_id) ∷ []) tenant_id none
      order_id user_id
  pure shipment

abbrev pub delivery_event_types : List String
delivery_event_types = "DELIVERED" ∷ "ARRIVAL" ∷ "POD" ∷ "PROOF_OF_DELIVERY" ∷ []

-- `event_type.upper() in DELIVERY_EVENT_TYPES`
unfoldable pub is_delivery : String → Bool
is_delivery event_type = any (upper_is event_type) delivery_event_types

-- The order of a delivered shipment, if there is one and it is under way.
unfoldable pub deliver : ℕ → ℕ → Shipment → Option Order → Exec Db (Unit {0})
deliver occurred_at shipment_id shipment none = pure tt
deliver occurred_at shipment_id shipment (some order) =
    if str_eq order.status "SHIPPED"
    then (do
      move_order shipment.order_id order "DELIVERED"
      let arrived = record shipment { actual_arrival_date = some occurred_at }
      modify (λ (db : Db). record db { shipments = put shipment_id arrived db.shipments }))
    else pure tt

unfoldable pub add_tracking_event :
    ℕ → ℕ → ShipmentTrackingEvent → ℕ → ℕ → Exec Db ShipmentTrackingEvent
unfolding log_event
add_tracking_event now shipment_id event tenant_id user_id = do
  found ← gets (λ (db : Db). find shipment_id db.shipments)
  shipment ← or_raise found (http 404)
  let tracking_event = record event { shipment_id = shipment_id }
  modify (λ (db : Db). record db { tracking_events = db.tracking_events ++ tracking_event ∷ [] })
  order ← gets (λ (db : Db). find shipment.order_id db.orders)
  (if is_delivery event.event_type
      then deliver event.occurred_at shipment_id shipment order
      else pure tt)
  log_event now "SHIPMENT_UPDATED"
      (("shipment_id", Json.key shipment_id)
        ∷ ("event_type", Json.text event.event_type)
        ∷ ("order_id", Json.key shipment.order_id)
        ∷ [])
      tenant_id none shipment.order_id user_id
  pure tracking_event
