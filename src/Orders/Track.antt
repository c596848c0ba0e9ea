-- ===== src/Orders/Track.antt =====
-- Every operation of the services moves orders along their machine only.
use abcd_yi.Prelude.{
  ℕ, String, Bool, true, false, Option, none, some, ◌≡◌, refl, ap, arith, inl, inr, str_eq,
  Bool-cases, if◌then◌else◌,
}
use abcd_yi.Prelude.Exec.{Exec, ◌>>=◌, ok, pure}
use abcd_yi.Prelude.Table.{find}
use abcd_yi.Db.{Db, Order, Shipment, ShipmentTrackingEvent, order_belongs}
use abcd_yi.Orders.Service.{
  or_conflict, is_delivery, deliver, confirm_order, request_qc, create_shipment, add_tracking_event,
}
use abcd_yi.Fsm.{allowed}
use abcd_yi.Orders.Machine.{order_transitions, transition}
use abcd_yi.Orders.Moves.{
  Moved, Moved-same, Moved-bind, Moved-fetch, Moved-modify, Moved-move, Moved-write, Moved-require,
  Moved-gets, Moved-last, Moved-pure, Way-on, move_order-Moved, Way-here,
}

pub confirm_order-Moved :
    (now id tenant user : ℕ) (db : Db) → Moved db (confirm_order now id tenant user db).1
unfolding confirm_order
confirm_order-Moved now id tenant user db = Moved-fetch _ _ _ db λ o e.
    Moved-move id o _ _ db (order_belongs db id tenant o e).0 λ p db₁ fp _.
      Moved-move id p _ _ db₁ fp λ c db₂ fc _.
        Moved-write id c _ _ db₂ fc (Way-here c.status)
          λ fs. Moved-modify _ _ _ refl (move_order-Moved id _ _ _ fs)

-- A move that `or_conflict` let pass is one of the machine's.
or_conflict-allowed :
    (a b c : String) (db : Db)
    → (or_conflict (transition a b) db).0 ≡ ok c
    → (allowed order_transitions a c ≡ true)
unfolding or_conflict transition ◌>>=◌
or_conflict-allowed a b c db h = ground arith

or_conflict_frame : (a b : String) (db : Db) → (or_conflict (transition a b) db).1 ≡ db
unfolding or_conflict transition ◌>>=◌
or_conflict_frame a b db = ground arith

pub request_qc-Moved :
    (now id tenant user : ℕ) (db : Db) → Moved db (request_qc now id tenant user db).1
unfolding request_qc
request_qc-Moved now id tenant user db = Moved-fetch _ _ _ db λ o e.
    let f = (order_belongs db id tenant o e).0 in
    let frame = or_conflict_frame o.status "QC_PENDING" db in
    Moved-bind (or_conflict (transition o.status "QC_PENDING")) _ db
      (Moved-same _ _ (ap (λ (t : Db). t.orders) frame))
      λ next h.
        Moved-write id o _ _ _ (rw frame f)
          (Way-on (Way-here o.status) next (or_conflict-allowed _ _ next db h))
          λ _. Moved-modify _ _ _ refl (Moved-pure _ _)

pub create_shipment-Moved :
    (now new_id id : ℕ) (sh : Shipment) (tenant user : ℕ) (db : Db)
    → Moved db (create_shipment now new_id id sh tenant user db).1
unfolding create_shipment
create_shipment-Moved now new_id id sh tenant user db = Moved-fetch _ _ _ db λ o e.
    Moved-require _ _ _ db λ _.
      Moved-modify _ _ db refl
        (Moved-move id o _ _ _ e λ p db₁ fp _. Moved-modify _ _ db₁ refl (Moved-pure _ _))

deliver-Moved :
    (at id : ℕ) (sh : Shipment) (o : Option Order) (db : Db)
    → find sh.order_id db.orders ≡ o
    → Moved db (deliver at id sh o db).1
unfolding deliver
deliver-Moved at id sh none db f = Moved-pure _ db
deliver-Moved at id sh (some o) db f = elim (Bool-cases (str_eq o.status "SHIPPED")) [
  | inl t ↦ rw t (Moved-move sh.order_id o _ _ db f λ _ db₁ _ _. Moved-last _ db₁ refl)
  | inr t ↦ rw t (Moved-pure _ db)
]

deliver_if : Bool → ℕ → ℕ → Shipment → Option Order → Exec Db (Unit {0})
deliver_if test at id sh o = if test then deliver at id sh o else pure tt

deliver_if-Moved :
    (test : Bool) (at id : ℕ) (sh : Shipment) (o : Option Order) (db : Db)
    → find sh.order_id db.orders ≡ o
    → Moved db (deliver_if test at id sh o db).1
unfolding deliver_if
deliver_if-Moved true at id sh o db f = deliver-Moved at id sh o db f
deliver_if-Moved false at id sh o db f = Moved-pure tt db

pub add_tracking_event-Moved :
    (now id : ℕ) (event : ShipmentTrackingEvent) (tenant user : ℕ) (db : Db)
    → Moved db (add_tracking_event now id event tenant user db).1
unfolding add_tracking_event deliver_if
add_tracking_event-Moved now id event tenant user db = Moved-fetch _ _ _ db λ sh e.
    Moved-modify _ _ db refl (
      Moved-gets _ _ _ (
        Moved-bind (deliver_if (is_delivery event.event_type) event.occurred_at id sh _) _ _
          (deliver_if-Moved _ _ id sh _ _ refl) λ _ _. Moved-modify _ _ _ refl (Moved-pure _ _)))
