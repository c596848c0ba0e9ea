-- ===== src/Flows/History.antt =====
-- The history that a machine keeps is the way that it took, and what every way passes.
use abcd_yi.Prelude.{
  ℕ, String, Bool, true, false, none, some, List, [], ◌∷◌, ◌++◌, ◌≡◌, ◌∙◌, refl, sym, ap, arith,
  inl, inr, ◌⊎◌, ◌||◌, any, contains, str_eq, Option-cases,
}
use abcd_yi.Prelude.Exec.{◌>>=◌}
use abcd_yi.Prelude.Table.{find, find-put}
use abcd_yi.Fsm.{allowed, every_edge, guarded, Run, Run_gate}
use abcd_yi.Flows.SendReceive.{
  send_receive_transitions, initial_state, Change, Machine, Store, moved, change, new_machine,
  transition_state, get_send_receive_machine, create_send_receive_machine,
}

-- A history that starts in the initial state, and each of whose changes the table allows.
pub data Trail : List Change → String → Type 0 where
  start : Trail [] initial_state
  more :
      {h : List Change} {s : String}
      → Trail h s
      → (now : ℕ) (t reason : String) → allowed send_receive_transitions s t ≡ true
      → Trail (h ++ change now s t reason ∷ []) t

abbrev pub IsTraced : Store → Type 0
IsTraced s =
    (project : ℕ) (m : Machine) → find project s.machines ≡ some m → Trail m.history m.current_state

-- Whether a history has entered a state.
abbrev pub entered : String → List Change → Bool
entered g h = any (λ (c : Change). str_eq c.after g) h

entered-append :
    (g : String) (h : List Change) (c : Change)
    → entered g (h ++ c ∷ []) ≡ (str_eq c.after g || entered g h)
entered-append g [] c = ground arith
entered-append g (d ∷ h) c = ground (arith, entered-append g h c)

Trail-Run :
    {h : List Change} {s : String}
    → Trail h s
    → (visited : List String) × Run send_receive_transitions initial_state visited s
      × ((g : String) → contains visited g ≡ entered g h)
Trail-Run start = ([], Run.start, λ g. refl)
Trail-Run (more {h} {s} tr now t reason step) =
    let (visited, r, same) = Trail-Run tr in
    (
      t ∷ visited,
      Run.move r t step,
      λ g. ap (λ b. str_eq t g || b) (same g) ∙ sym (entered-append g h (change now s t reason)),
    )

abbrev stored : ℕ → ℕ → Store → Machine
stored now project s = elim (find project s.machines) [ none ↦ new_machine now | some m ↦ m ]

-- Every machine after a transition was there before, is new, or made one allowed move.
after-transition_state :
    (now project : ℕ) (t reason : String) (s : Store) (k : ℕ) (n : Machine)
    → find k (transition_state now project t reason s).1.machines ≡ some n
    → (find k s.machines ≡ some n)
      ⊎ (n ≡ new_machine now)
      ⊎ ((n ≡ moved now t reason (stored now project s))
          × (allowed send_receive_transitions (stored now project s).current_state t ≡ true))
unfolding transition_state get_send_receive_machine create_send_receive_machine ◌>>=◌
after-transition_state now project t reason s k n h =
    elim (Option-cases (find project s.machines)) [
      | inl e ↦ rw (stored, e) (grind (arith, find-put))
      | inr (m, e) ↦ rw (stored, e) (grind (arith, find-put))
    ]

stored-Trail :
    (now project : ℕ) (s : Store)
    → IsTraced s
    → Trail (stored now project s).history (stored now project s).current_state
stored-Trail now project s inv = elim (Option-cases (find project s.machines)) [
  | inl e ↦ rw (stored, e) Trail.start
  | inr (m, e) ↦ rw (stored, e) (inv project m e)
]

-- Whatever transition is asked for, allowed or not, every machine's history stays the way that led
-- from the initial state to its current state.
pub transition_state-IsTraced :
    (now project : ℕ) (t reason : String) (s : Store)
    → IsTraced s
    → IsTraced (transition_state now project t reason s).1
transition_state-IsTraced now project t reason s inv k n h =
    elim (after-transition_state now project t reason s k n h) [
      | inl e ↦ inv k n e
      | inr (inl e) ↦ rw e Trail.start
      | inr (inr (e, step)) ↦ rw e (Trail.more (stored-Trail now project s inv) now t reason step)
    ]

abbrev pub before_sending : String → Bool
before_sending =
    contains
      ("WAITING_FOR_BUYER_INQUIRY" ∷ "BUYER_INQUIRY_RECEIVED" ∷ "PREPARING_UPSTREAM_INQUIRIES" ∷ [])

abbrev pub before_rollup : String → Bool
before_rollup = contains (
    "WAITING_FOR_BUYER_INQUIRY" ∷ "BUYER_INQUIRY_RECEIVED" ∷ "PREPARING_UPSTREAM_INQUIRIES"
    ∷ "AWAITING_MAIN_SUPPLIER_SEND_APPROVAL" ∷ "SENDING_UPSTREAM_INQUIRIES"
    ∷ "WAITING_FOR_UPSTREAM_RESPONSES" ∷ "UPSTREAM_RESPONSES_RECEIVED"
    ∷ "PREPARING_UPSTREAM_OPTIONS" ∷ "AWAITING_OPTION_APPROVAL" ∷ "GENERATING_BUYER_ROLLUP" ∷ [])

sending_gate :
    every_edge
      (guarded before_sending "AWAITING_MAIN_SUPPLIER_SEND_APPROVAL")
      send_receive_transitions
    ≡ true
unfolding every_edge send_receive_transitions
sending_gate = refl

rollup_gate :
    every_edge (guarded before_rollup "AWAITING_ROLLUP_APPROVAL") send_receive_transitions ≡ true
unfolding every_edge send_receive_transitions
rollup_gate = refl

-- A machine that sends to suppliers or is beyond that has waited for the approval of the sending,
-- and one that sends a rollup to the buyer or is beyond that has waited for the rollup's approval.
pub Trail_approvals :
    {h : List Change} {s : String}
    → Trail h s
    → (before_sending s ≡ false → entered "AWAITING_MAIN_SUPPLIER_SEND_APPROVAL" h ≡ true)
      × (before_rollup s ≡ false → entered "AWAITING_ROLLUP_APPROVAL" h ≡ true)
Trail_approvals {h} {s} tr =
    let (visited, r, same) = Trail-Run tr in
    (
      (λ out.
          elim (Run_gate send_receive_transitions before_sending
            "AWAITING_MAIN_SUPPLIER_SEND_APPROVAL" sending_gate refl r) [
              | inl i ↦ cc
              | inr e ↦ sym (same "AWAITING_MAIN_SUPPLIER_SEND_APPROVAL") ∙ e
            ]),
      (λ out.
          elim (Run_gate send_receive_transitions before_rollup "AWAITING_ROLLUP_APPROVAL"
            rollup_gate refl r) [ inl i ↦ cc | inr e ↦ sym (same "AWAITING_ROLLUP_APPROVAL") ∙ e ]),
    )
