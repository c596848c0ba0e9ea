-- ===== src/Db.antt =====
-- The session of the backend (src/db/models/*.py): one table for each model that the services use,
-- and the writer of execution events. Primary keys and foreign keys (UUIDs) and points in time
-- (seconds) are numbers. `created_at` and `updated_at`, which the database server fills, are left
-- out.
mod Rows
mod Sourcing
mod Session
mod Tenancy
pub use Rows.*
pub use Sourcing.*
pub use Session.{Db, empty}
unfoldable pub use Session.{emit_event}
pub use Tenancy.{order_belongs, packet_belongs}
unfoldable pub use Tenancy.{
  order_belongs_to_tenant, get_owned_order, get_owned_packet, project_belongs_to_tenant,
}
