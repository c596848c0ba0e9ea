-- ===== src/Fsm/Edges.antt =====
-- What holds of every edge of a table holds of every move that the table allows.
use abcd_yi.Prelude.{
  String, ◌≡◌, Bool, true, List, [], ◌∷◌, contains, all, str_eq, eq_iff, arith, &&-true, inl, inr,
  Bool-cases,
}
use abcd_yi.Fsm.Defs.{Transitions, allowed, every_edge}

all-contains :
    (p : String → Bool) (l : List String) (x : String)
    → all p l ≡ true
    → contains l x ≡ true
    → p x ≡ true
all-contains p [] x h m = ground arith
all-contains p (y ∷ l) x h m = elim (Bool-cases (str_eq y x)) [
  | inl e ↦ ground (arith, &&-true (p y) (all p l) h, (eq_iff y x).0 e)
  | inr e ↦ all-contains p l x (&&-true (p y) (all p l) h).1 (ground arith)
]

pub every_edge-allowed :
    (p : String → String → Bool) (t : Transitions) (a b : String)
    → every_edge p t ≡ true
    → allowed t a b ≡ true
    → p a b ≡ true
unfolding allowed every_edge
every_edge-allowed p [] a b h m = ground arith
every_edge-allowed p ((s, l) ∷ t) a b h m = elim (Bool-cases (str_eq s a)) [
  | inl e ↦
      ground
        (arith, all-contains (p s) l b, &&-true (all (p s) l) (every_edge p t) h, (eq_iff s a).0 e)
  | inr e ↦ every_edge-allowed p t a b (&&-true (all (p s) l) (every_edge p t) h).1 (ground arith)
]
