-- ===== src/Orders/SignOffTrack.antt =====
-- The buyer's sign-off moves the order along its machine, and what it remembers touches no order.
use abcd_yi.Prelude.{ℕ, List, [], ◌∷◌, refl}
use abcd_yi.Db.{Db, order_belongs}
use abcd_yi.Orders.SignOff.{
  LatestRecipient, remember, remember_one, update_supplier_memory_after_signoff, buyer_sign_off,
}
use abcd_yi.Orders.Moves.{
  Moved, Moved-bind, Moved-fetch, Moved-modify, Moved-move, Moved-write, Moved-require, Moved-gets,
  Moved-lift, Moved-last, Moved-pure, Way-here,
}

remember_one-Moved :
    (l : LatestRecipient) (id k : ℕ) (db : Db) → Moved db (remember_one l id k db).1
unfolding remember_one
remember_one-Moved l id k db = Moved-gets _ _ db (Moved-lift _ _ db λ s _. Moved-last _ db refl)

remember-Moved :
    (l : LatestRecipient) (id : ℕ) (ks : List ℕ) (db : Db) → Moved db (remember l id ks db).1
unfolding remember
remember-Moved l id [] db = Moved-pure _ db
remember-Moved l id (k ∷ ks) db =
    Moved-bind _ _ db (remember_one-Moved l id k db) λ _ _. remember-Moved l id ks _

pub buyer_sign_off-Moved :
    (l : LatestRecipient) (now id tenant user : ℕ) (db : Db)
    → Moved db (buyer_sign_off l now id tenant user db).1
unfolding buyer_sign_off update_supplier_memory_after_signoff
buyer_sign_off-Moved l now id tenant user db = Moved-fetch _ _ _ db λ o e.
    Moved-require _ _ _ db λ _.
      Moved-move id o _ _ db (order_belongs db id tenant o e).0 λ p db₁ fp _.
        Moved-write id p _ _ db₁ fp (Way-here p.status) λ fs. Moved-modify _ _ _ refl (
          Moved-bind _ _ _ (Moved-gets _ _ _ (Moved-gets _ _ _ (remember-Moved l id _ _)))
            λ _ _. Moved-pure _ _)
