-- ===== src/Fsm/Paths.antt =====
-- Runs of a state machine: what every run keeps, and what every run must pass.
use abcd_yi.Prelude.{
  String, ◌≡◌, Bool, true, not, ◌||◌, List, [], ◌∷◌, ◌++◌, contains, str_eq, arith, ◌⊎◌, inl, inr,
}
use abcd_yi.Fsm.Defs.{Transitions, allowed, every_edge}
use abcd_yi.Fsm.Edges.{every_edge-allowed}

-- `Run t a visited b`: from `a` the machine reaches `b`, entering the states of `visited` in turn.
pub data Run (t : Transitions) (a : String) : List String → String → Type 0 where
  start : Run t a [] a
  move :
      {visited : List String} {b : String}
      → Run t a visited b
      → (c : String) → allowed t b c ≡ true
      → Run t a (c ∷ visited) c

-- `region` is left only into `gate`.
abbrev pub guarded : (String → Bool) → String → String → String → Bool
guarded region gate a b = not (region a) || (region b || str_eq b gate)

-- A run that starts in a region and ends outside it has entered the gate.
pub Run_gate :
    (t : Transitions) (region : String → Bool) (gate : String)
    → every_edge (guarded region gate) t ≡ true
    → {a b : String} {visited : List String} → region a ≡ true
    → Run t a visited b
    → (region b ≡ true) ⊎ (contains visited gate ≡ true)
Run_gate t region gate closed inside start = inl inside
Run_gate t region gate closed inside (move {visited} {b} r c step) =
    elim (Run_gate t region gate closed inside r) [
      | inl h ↦ ground (arith, every_edge-allowed (guarded region gate) t b c closed step)
      | inr h ↦ inr (ground arith)
    ]

-- A region with no edge out of it is never left.
pub Run_closed :
    (t : Transitions) (region : String → Bool)
    → every_edge (λ a b. not (region a) || region b) t ≡ true
    → {a b : String} {visited : List String} → region a ≡ true
    → Run t a visited b
    → region b ≡ true
Run_closed t region closed inside start = inside
Run_closed t region closed inside (move {visited} {b} r c step) = ground (
  arith,
  every_edge-allowed (λ a b. not (region a) || region b) t b c closed step,
  Run_closed t region closed inside r,
)

pub Run_append :
    (t : Transitions) {a b c : String} {early late : List String}
    → Run t a early b
    → Run t b late c
    → Run t a (late ++ early) c
Run_append t r start = r
Run_append t r (move q c h) = move (Run_append t r q) c h
