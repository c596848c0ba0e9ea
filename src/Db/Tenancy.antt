-- ===== src/Db/Tenancy.antt =====
-- src/db/tenant_scope.py: a row is found only by the tenant that owns its project.
use abcd_yi.Prelude.{ℕ, ◌≡◌, Bool, true, Option, none, some, arith, opt_eq, if◌then◌else◌}
use abcd_yi.Prelude.Table.{find}
use abcd_yi.Db.Rows.{Order, DecisionPacket, Project}
use abcd_yi.Db.Session.{Db}

tenant_of : Option Project → Option ℕ
tenant_of none = none
tenant_of (some p) = p.tenant_id

project_tenant_id : Db → ℕ → Option ℕ
unfolding tenant_of
project_tenant_id db project_id = tenant_of (find project_id db.projects)

unfoldable pub project_belongs_to_tenant : Db → ℕ → ℕ → Bool
unfolding project_tenant_id
project_belongs_to_tenant db project_id tenant_id =
    opt_eq (project_tenant_id db project_id) (some tenant_id)

project_of : Option Order → Option ℕ
project_of none = none
project_of (some o) = some o.project_id

-- The tenant of the order's project, if there are both.
order_tenant_id : Db → ℕ → Option ℕ
unfolding project_of project_tenant_id
order_tenant_id db order_id = elim (project_of (find order_id db.orders)) [
  | none ↦ none
  | some p ↦ project_tenant_id db p
]

unfoldable pub order_belongs_to_tenant : Db → ℕ → ℕ → Bool
unfolding order_tenant_id
order_belongs_to_tenant db order_id tenant_id =
    opt_eq (order_tenant_id db order_id) (some tenant_id)

-- `get_project_owned` for each model that the services fetch with it
unfoldable pub get_owned_order : Db → ℕ → ℕ → Option Order
get_owned_order db order_id tenant_id = elim (find order_id db.orders) [
  | none ↦ none
  | some o ↦ if project_belongs_to_tenant db o.project_id tenant_id then some o else none
]

unfoldable pub get_owned_packet : Db → ℕ → ℕ → Option DecisionPacket
get_owned_packet db packet_id tenant_id = elim (find packet_id db.packets) [
  | none ↦ none
  | some p ↦ if project_belongs_to_tenant db p.project_id tenant_id then some p else none
]

pub order_belongs :
    (db : Db) (order_id tenant_id : ℕ) (o : Order)
    → get_owned_order db order_id tenant_id ≡ some o
    → (find order_id db.orders ≡ some o)
      × (project_belongs_to_tenant db o.project_id tenant_id ≡ true)
unfolding get_owned_order
order_belongs db order_id tenant_id o h = ground arith

pub packet_belongs :
    (db : Db) (packet_id tenant_id : ℕ) (p : DecisionPacket)
    → get_owned_packet db packet_id tenant_id ≡ some p
    → (find packet_id db.packets ≡ some p)
      × (project_belongs_to_tenant db p.project_id tenant_id ≡ true)
unfolding get_owned_packet
packet_belongs db packet_id tenant_id p h = ground arith
