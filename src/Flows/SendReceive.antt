-- ===== src/Flows/SendReceive.antt =====
-- src/m_side/communication/send_receive_state_machine.py. The JSON files of the projects are a table
-- by project; writing and reading a record back gives the same record.
use abcd_yi.Prelude.{ℕ, String, Option, none, some, List, [], ◌∷◌, ◌++◌}
use abcd_yi.Prelude.Exec.{Exec, value_error, pure, gets, modify, require, ◌>>=◌, ◌>>◌}
use abcd_yi.Prelude.Table.{Table, find, put}
use abcd_yi.Fsm.{Transitions, allowed}

unfoldable pub send_receive_transitions : Transitions
send_receive_transitions =
    ("WAITING_FOR_BUYER_INQUIRY", "BUYER_INQUIRY_RECEIVED" ∷ [])
    ∷ ("BUYER_INQUIRY_RECEIVED", "PREPARING_UPSTREAM_INQUIRIES" ∷ [])
    ∷ ("PREPARING_UPSTREAM_INQUIRIES", "AWAITING_MAIN_SUPPLIER_SEND_APPROVAL" ∷ [])
    ∷ ("AWAITING_MAIN_SUPPLIER_SEND_APPROVAL", "SENDING_UPSTREAM_INQUIRIES" ∷ [])
    ∷ ("SENDING_UPSTREAM_INQUIRIES", "WAITING_FOR_UPSTREAM_RESPONSES" ∷ [])
    ∷ ("WAITING_FOR_UPSTREAM_RESPONSES", "UPSTREAM_RESPONSES_RECEIVED" ∷ [])
    ∷ ("UPSTREAM_RESPONSES_RECEIVED", "PREPARING_UPSTREAM_OPTIONS" ∷ [])
    ∷ ("PREPARING_UPSTREAM_OPTIONS", "AWAITING_OPTION_APPROVAL" ∷ [])
    ∷ ("AWAITING_OPTION_APPROVAL", "GENERATING_BUYER_ROLLUP" ∷ [])
    ∷ ("GENERATING_BUYER_ROLLUP", "AWAITING_ROLLUP_APPROVAL" ∷ [])
    ∷ ("AWAITING_ROLLUP_APPROVAL", "SENDING_ROLLUP_TO_BUYER" ∷ [])
    ∷ ("SENDING_ROLLUP_TO_BUYER", "WAITING_FOR_BUYER_CONFIRMATION" ∷ [])
    ∷ ("WAITING_FOR_BUYER_CONFIRMATION", "ORDER_CONFIRMED" ∷ [])
    ∷ ("ORDER_CONFIRMED", "EXECUTION_IN_PROGRESS" ∷ [])
    ∷ ("EXECUTION_IN_PROGRESS", "LOGISTICS_HANDOVER_PENDING" ∷ "EXCEPTION" ∷ [])
    ∷ ("LOGISTICS_HANDOVER_PENDING", "LOGISTICS_TRACKING_ACTIVE" ∷ [])
    ∷ ("LOGISTICS_TRACKING_ACTIVE", "BUYER_SIGNOFF_PENDING" ∷ [])
    ∷ ("BUYER_SIGNOFF_PENDING", "CLOSED" ∷ [])
    ∷ ("CLOSED", [])
    ∷ ("EXCEPTION", "EXECUTION_IN_PROGRESS" ∷ "CLOSED" ∷ [])
    ∷ []

abbrev pub initial_state : String
initial_state = "WAITING_FOR_BUYER_INQUIRY"

-- One entry of a machine's history.
pub record Change : Type 0 where
  pub before : String
  pub after : String
  pub reason : String
  pub at : ℕ

pub record Machine : Type 0 where
  pub current_state : String
  pub history : List Change
  pub created_at : ℕ
  pub updated_at : ℕ

-- The files and the log of M-side events, of which the project, the two states and the reason stand.
pub record Store : Type 0 where
  pub machines : Table Machine
  pub events : List (ℕ × Change)

abbrev pub new_machine : ℕ → Machine
new_machine now = record {
  current_state = initial_state;
  history = [];
  created_at = now;
  updated_at = now;
}

abbrev pub save : ℕ → Machine → Store → Store
save project_id m s = record s { machines = put project_id m s.machines }

unfoldable pub create_send_receive_machine : ℕ → ℕ → Exec Store Machine
create_send_receive_machine now project_id = do
  modify (save project_id (new_machine now))
  pure (new_machine now)

abbrev stored_or_new : ℕ → ℕ → Option Machine → Exec Store Machine
stored_or_new now project_id none = create_send_receive_machine now project_id
stored_or_new now project_id (some m) = pure m

unfoldable pub get_send_receive_machine : ℕ → ℕ → Exec Store Machine
get_send_receive_machine now project_id = do
  found ← gets (λ (s : Store). find project_id s.machines)
  stored_or_new now project_id found

abbrev pub change : ℕ → String → String → String → Change
change now old_state new_state reason = record {
  before = old_state;
  after = new_state;
  reason = reason;
  at = now;
}

abbrev pub moved : ℕ → String → String → Machine → Machine
moved now new_state reason m = record m {
  current_state = new_state;
  history = m.history ++ change now m.current_state new_state reason ∷ [];
  updated_at = now;
}

unfoldable pub transition_state : ℕ → ℕ → String → String → Exec Store Machine
transition_state now project_id new_state reason = do
  rec ← get_send_receive_machine now project_id
  require (allowed send_receive_transitions rec.current_state new_state) value_error
  let rec' = moved now new_state reason rec
  modify (λ (s : Store). record s {
    machines = put project_id rec' s.machines;
    events = s.events ++ (project_id, change now rec.current_state new_state reason) ∷ [];
  })
  pure rec'
