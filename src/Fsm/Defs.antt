-- ===== src/Fsm/Defs.antt =====
-- A transition table, the test that the program makes on it, and a check of all its edges.
use abcd_yi.Prelude.{
  String, Bool, true, false, ◌&&◌, List, [], ◌∷◌, contains, all, str_eq, if◌then◌else◌,
}

abbrev pub Transitions : Type 0
Transitions = List (String × List String)

-- `target in VALID_TRANSITIONS.get(current, [])`
unfoldable pub allowed : Transitions → String → String → Bool
allowed [] current target = false
allowed ((s, targets) ∷ t) current target =
    if str_eq s current then contains targets target else allowed t current target

-- A Boolean test of every edge of the table.
unfoldable pub every_edge : (String → String → Bool) → Transitions → Bool
every_edge p [] = true
every_edge p ((s, targets) ∷ t) = all (p s) targets && every_edge p t
