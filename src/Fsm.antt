-- ===== src/Fsm.antt =====
-- The state machines of the program: a dict from a state to the states it may move to, read with
-- `.get(current, [])` and the `in` test. Orders, RFQs, merchandiser plans and send/receive
-- conversations each have such a table.
mod Defs
mod Edges
mod Paths
pub use Defs.{Transitions}
unfoldable pub use Defs.{allowed, every_edge}
pub use Edges.*
pub use Paths.*
