-- ===== src/Examples/Flows.antt =====
-- A conversation that begins, and an order of the merchandiser that is cancelled.
use abcd_yi.Prelude.{[], ◌∷◌, ◌≡◌, refl, false, true}
use abcd_yi.Prelude.Table.{find}
use abcd_yi.Fsm.{Run, allowed}
use abcd_yi.Flows.{
  Store, Trail, IsTraced, transition_state, transition_state-IsTraced, Trail_approvals, entered,
  before_sending, before_rollup, send_receive_transitions, change, execution_transitions,
  confirmed_start,
}

abbrev no_machines : Store
no_machines = record { machines = []; events = [] }

nothing-IsTraced : IsTraced no_machines
unfolding find
nothing-IsTraced project m f = cc

transition_state-IsTraced_example :
    IsTraced (transition_state 100 1 "BUYER_INQUIRY_RECEIVED" "mail" no_machines).1
transition_state-IsTraced_example =
    transition_state-IsTraced 100 1 "BUYER_INQUIRY_RECEIVED" "mail" no_machines nothing-IsTraced

one_move :
    Trail
      (change 100 "WAITING_FOR_BUYER_INQUIRY" "BUYER_INQUIRY_RECEIVED" "mail" ∷ [])
      "BUYER_INQUIRY_RECEIVED"
unfolding send_receive_transitions allowed
one_move = Trail.more Trail.start 100 "BUYER_INQUIRY_RECEIVED" "mail" refl

Trail_approvals_example :
    let h = change 100 "WAITING_FOR_BUYER_INQUIRY" "BUYER_INQUIRY_RECEIVED" "mail" ∷ [] in
    (before_sending "BUYER_INQUIRY_RECEIVED" ≡ false
      → entered "AWAITING_MAIN_SUPPLIER_SEND_APPROVAL" h ≡ true)
    × (before_rollup "BUYER_INQUIRY_RECEIVED" ≡ false → entered "AWAITING_ROLLUP_APPROVAL" h ≡ true)
Trail_approvals_example = Trail_approvals one_move

cancelled :
    Run execution_transitions confirmed_start
      ("CANCELLED" ∷ "SUPPLIER_ACCEPTANCE_PENDING" ∷ [])
      "CANCELLED"
unfolding execution_transitions allowed
cancelled = Run.move (Run.move Run.start "SUPPLIER_ACCEPTANCE_PENDING" refl) "CANCELLED" refl
