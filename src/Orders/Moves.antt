-- ===== src/Orders/Moves.antt =====
-- Every operation moves orders along their machine only, and no order disappears.
use abcd_yi.Prelude.{
  none, ℕ, String, Bool, true, false, Option, some, List, [], ◌∷◌, ◌++◌, ◌≡◌, refl, arith, inl, inr,
  ◌==◌, Bool-cases, Option-cases,
}
use abcd_yi.Prelude.Exec.{
  Exec, ◌>>=◌, ◌>>◌, Error, ok, err, Result, Result-cases, gets, lift, or_raise, modify, pure,
  require,
}
use abcd_yi.Prelude.Table.{find, find-put, find-put_self}
use abcd_yi.Db.{Db, Order}
use abcd_yi.Fsm.{Run, Run_append, allowed}
use abcd_yi.Orders.Machine.{order_transitions, transition}
use abcd_yi.Orders.Service.{save_order, move_order}

-- The moves that lead from one status to another.
pub record Way (a b : String) : Type 0 where
  pub visited : List String
  pub run : Run order_transitions a visited b

pub Way-here : (a : String) → Way a a
Way-here a = record { visited = []; run = Run.start }

pub Way-on :
    {a b : String} → Way a b → (c : String) → allowed order_transitions b c ≡ true → Way a c
Way-on w c h = record { visited = c ∷ w.visited; run = Run.move w.run c h }

pub Way-trans : {a b c : String} → Way a b → Way b c → Way a c
Way-trans w v = record {
  visited = v.visited ++ w.visited;
  run = Run_append order_transitions w.run v.run;
}

-- What a session change may do to the orders.
pub record Moved (db db' : Db) : Type 0 where
  pub at :
      (k : ℕ) (o : Order)
      → find k db.orders ≡ some o
      → (o' : Order) × (find k db'.orders ≡ some o') × Way o.status o'.status
  pub absent : (k : ℕ) → find k db.orders ≡ none → find k db'.orders ≡ none

pub Moved-same : (db db' : Db) → db'.orders ≡ db.orders → Moved db db'
Moved-same db db' e = record {
  at = λ k o f. (o, rw e f, Way-here o.status);
  absent = λ k f. rw e f;
}

pub Moved-trans : (db db' db'' : Db) → Moved db db' → Moved db' db'' → Moved db db''
Moved-trans db db' db'' m n = record {
  at = λ k o f.
      let (o', f', w) = m.at k o f in let (o'', f'', v) = n.at k o' f' in (o'', f'', Way-trans w v);
  absent = λ k f. n.absent k (m.absent k f);
}

pub Moved-save :
    (id : ℕ) (o o' : Order) (db : Db)
    → find id db.orders ≡ some o
    → Way o.status o'.status
    → Moved db (save_order id o' db)
Moved-save id o o' db f w = record {
  at = λ k q g. elim (Bool-cases (id == k)) [
    | inl e ↦ (o', rw (find-put, e), let same : q.status ≡ o.status = ground arith in rw same w)
    | inr e ↦ (q, rw (find-put, e) g, Way-here q.status)
  ];
  absent = λ k g. grind (arith, find-put);
}

module _ {A B : Type 0} (m : Exec Db A) (f : A → Exec Db B) (db : Db) where
  -- A sequence moves orders along their machine if its parts do, the second from what the first left.
  pub Moved-bind :
      Moved db (m db).1
      → ((a : A) → (m db).0 ≡ ok a → Moved (m db).1 (f a (m db).1).1)
      → Moved db ((m >>= f) db).1
  unfolding ◌>>=◌
  Moved-bind first second = elim (Result-cases (m db).0) [
    | inl (a, e) ↦ rw (e, ◌>>=◌) (Moved-trans db (m db).1 _ first (second a e))
    | inr (x, e) ↦ rw (e, ◌>>=◌) first
  ]

module _ (id : ℕ) (o : Order) (target : String) (db : Db) (f : find id db.orders ≡ some o) where
  pub move_order-Moved : Moved db (move_order id o target db).1
  unfolding move_order transition ◌>>=◌
  move_order-Moved = elim (Bool-cases (allowed order_transitions o.status target)) [
    | inl h ↦
        rw h (
          Moved-save id o (record o { status = target }) db f (Way-on (Way-here o.status) target h))
    | inr h ↦ rw h (Moved-same db db refl)
  ]

  pub find-move_order :
      (o' : Order)
      → (move_order id o target db).0 ≡ ok o'
      → (find id (move_order id o target db).1.orders ≡ some o') × (o'.status ≡ target)
  unfolding move_order transition ◌>>=◌
  find-move_order o' h = grind (arith, find-put_self)

-- A row that is fetched, and 404 (or the like) where there is none.
pub Moved-fetch :
    {A B : Type 0} (g : Db → Option A) (x : Error) (f : A → Exec Db B) (db : Db)
    → ((a : A) → g db ≡ some a → Moved db (f a db).1)
    → Moved db ((gets g >>= λ found. or_raise found x >>= f) db).1
unfolding ◌>>=◌
Moved-fetch g x f db k = elim (Option-cases (g db)) [
  | inl e ↦ rw (e, or_raise) (Moved-same db db refl)
  | inr (a, e) ↦ rw (e, or_raise) (k a e)
]

-- What writes no order moves none.
pub Moved-modify :
    {B : Type 0} (h : Db → Db) (f : Exec Db B) (db : Db)
    → (h db).orders ≡ db.orders
    → Moved (h db) (f (h db)).1
    → Moved db ((modify h >> f) db).1
unfolding ◌>>=◌
Moved-modify h f db e k = Moved-trans db (h db) _ (Moved-same db (h db) e) k

-- A write of the current row of an order; the rest of the block starts from it.
pub Moved-write :
    {B : Type 0} (id : ℕ) (o o' : Order) (f : Exec Db B) (db : Db)
    → find id db.orders ≡ some o
    → Way o.status o'.status
    → (find id (save_order id o' db).orders ≡ some o'
        → Moved (save_order id o' db) (f (save_order id o' db)).1)
    → Moved db ((modify (save_order id o') >> f) db).1
unfolding ◌>>=◌
Moved-write id o o' f db found w k =
    Moved-trans db (save_order id o' db) _ (Moved-save id o o' db found w) (k (find-put_self _ _ _))

-- The current row of an order is moved; the rest of the block starts from what the move left.
pub Moved-move :
    {B : Type 0} (id : ℕ) (o : Order) (target : String) (f : Order → Exec Db B) (db : Db)
    → find id db.orders ≡ some o
    → ((o' : Order) (db' : Db)
        → find id db'.orders ≡ some o'
        → o'.status ≡ target
        → Moved db' (f o' db').1)
    → Moved db ((move_order id o target >>= f) db).1
Moved-move id o target f db found k =
    Moved-bind (move_order id o target) f db (move_order-Moved id o target db found)
      λ o' e. let (found', moved) = find-move_order id o target db found o' e in k o' _ found' moved

pub Moved-pure : {B : Type 0} (b : B) (db : Db) → Moved db (pure b db).1
unfolding ◌>>=◌
Moved-pure b db = Moved-same db db refl

-- A guard: the rest of the block runs only where the test passes.
pub Moved-require :
    {B : Type 0} (test : Bool) (x : Error) (f : Exec Db B) (db : Db)
    → (test ≡ true → Moved db (f db).1)
    → Moved db ((require test x >> f) db).1
unfolding ◌>>=◌
Moved-require true x f db k = k refl
Moved-require false x f db k = Moved-same db db refl

pub Moved-gets :
    {A B : Type 0} (g : Db → A) (f : A → Exec Db B) (db : Db)
    → Moved db (f (g db) db).1
    → Moved db ((gets g >>= f) db).1
unfolding ◌>>=◌
Moved-gets g f db k = k

pub Moved-lift :
    {A B : Type 0} (r : Result A) (f : A → Exec Db B) (db : Db)
    → ((a : A) → r ≡ ok a → Moved db (f a db).1)
    → Moved db ((lift r >>= f) db).1
unfolding ◌>>=◌
Moved-lift (ok a) f db k = k a refl
Moved-lift (err x) f db k = Moved-same db db refl

pub Moved-last : (h : Db → Db) (db : Db) → (h db).orders ≡ db.orders → Moved db (modify h db).1
unfolding ◌>>=◌
Moved-last h db e = Moved-same db (h db) e
