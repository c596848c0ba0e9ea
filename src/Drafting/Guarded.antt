-- ===== src/Drafting/Guarded.antt =====
-- An order is created only from an approved packet.
use abcd_yi.Prelude.{ℕ, String, some, List, ◌≡◌, arith, eq_iff}
use abcd_yi.Prelude.Exec.{Error, err, ok, ◌>>=◌}
use abcd_yi.Prelude.Table.{put, find, find-put_self}
use abcd_yi.Db.{Db, Order, DecisionPacket, DecisionOption, get_owned_packet}
use abcd_yi.Drafting.Service.{create_order_from_approved_option, current_version}

-- An order that was created has a packet of the tenant behind it that is approved, and an option of
-- that packet; it starts as a draft with that option.
pub create_order_approved :
    (now order_id : ℕ) (milestone_ids : List ℕ) (number : String)
    (project packet_id option_id tenant user : ℕ) (db : Db) (o : Order)
    → (create_order_from_approved_option now order_id milestone_ids number project packet_id
        option_id tenant user db).0
      ≡ ok o
    → (p : DecisionPacket) × (q : DecisionOption) × (get_owned_packet db packet_id tenant ≡ some p)
      × (p.human_approval_status ≡ "APPROVED")
      × (find option_id db.options ≡ some q)
      × (q.packet_id ≡ packet_id)
      × (o.status ≡ "DRAFT_FROM_APPROVED_QUOTE")
      × (o.approved_option_id ≡ some option_id)
      × (find order_id
            (create_order_from_approved_option now order_id milestone_ids number project packet_id
              option_id tenant user db).1.orders
          ≡ some o)
unfolding create_order_from_approved_option current_version ◌>>=◌
create_order_approved now order_id ms number project packet_id option_id tenant user db o h =
    grind (arith, eq_iff, find-put_self)

module _ (now id : ℕ) (ids : List ℕ) (number : String) (project packet option tenant user : ℕ)
    (db : Db) where
  -- A creation that returned wrote one drafted order, and one that was refused none.
  pub orders-created :
      (o : Order)
      → (create_order_from_approved_option now id ids number project packet option tenant user db).0
        ≡ ok o
      → (o.status ≡ "DRAFT_FROM_APPROVED_QUOTE")
        × ((create_order_from_approved_option now id ids number project packet option tenant user
              db).1.orders
            ≡ put id o db.orders)
  unfolding create_order_from_approved_option current_version ◌>>=◌
  orders-created o h = ground arith

  pub orders-refused :
      (e : Error)
      → (create_order_from_approved_option now id ids number project packet option tenant user db).0
        ≡ err e
      → (create_order_from_approved_option now id ids number project packet option tenant user
          db).1.orders
        ≡ db.orders
  unfolding create_order_from_approved_option current_version ◌>>=◌
  orders-refused e h = ground arith
