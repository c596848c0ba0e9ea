-- ===== src/Lifecycle.antt =====
-- Orders over a whole history of the backend's operations, in any order and with any arguments:
-- src/order_confirmation/{service,provider_handoff}.py, src/orders/service.py, src/qc/service.py,
-- src/logistics/service.py and src/quality_ledger/service.py on one session.
use abcd_yi.Prelude.{
  ◌⊎◌, some, ◌==◌, [], ◌∷◌, Bool, ◌||◌, ℕ, String, Option, some, List, ◌≡◌, true, false,
}
use abcd_yi.Prelude.Exec.{Result}
use abcd_yi.Prelude.Table.{Table, find}
use abcd_yi.Drafting.{
  create_order_from_approved_option, ProviderOrderAssociation, ConfirmedSource, Readback,
  Identities, import_confirmed_order,
}
use abcd_yi.Db.{Db, Order, Shipment, ShipmentTrackingEvent, QualityIncident}
use abcd_yi.Orders.{
  Way, LatestRecipient, buyer_sign_off, confirm_order, request_qc, create_shipment,
  add_tracking_event, drafted,
}
use abcd_yi.Quality.{create_quality_incident}
use abcd_yi.Qc.{NewIds, Inspection, record_qc_result}

-- One call that imports no order, whatever it answers.
pub data Step (db : Db) : Db → Type 0 where
  confirm : (now id tenant user : ℕ) → Step db (confirm_order now id tenant user db).1
  ask_inspection : (now id tenant user : ℕ) → Step db (request_qc now id tenant user db).1
  inspect :
      (now : ℕ) (ids : NewIds) (id : ℕ) (i : Inspection) (p inspector : Option ℕ) (tenant user : ℕ)
      → Step db (record_qc_result now ids id i p inspector tenant user db).1
  ship :
      (now new_id id : ℕ) (s : Shipment) (tenant user : ℕ)
      → Step db (create_shipment now new_id id s tenant user db).1
  follow :
      (now id : ℕ) (e : ShipmentTrackingEvent) (tenant user : ℕ)
      → Step db (add_tracking_event now id e tenant user db).1
  sign_off :
      (l : LatestRecipient) (now id tenant user : ℕ)
      → Step db (buyer_sign_off l now id tenant user db).1
  draft :
      (now id : ℕ) (ids : List ℕ) (number : String) (project packet option tenant user : ℕ)
      → Step db
          (create_order_from_approved_option now id ids number project packet option tenant user
            db).1
  complain :
      (now new_id alert_id : ℕ) (i : QualityIncident) (tenant : ℕ)
      → Step db (create_quality_incident now new_id alert_id i tenant db).1

-- A history of calls, with the ids under which it tried to import an order.
pub data Steps (db : Db) : List ℕ → Db → Type 0 where
  here : Steps db [] db
  step :
      {imports : List ℕ} {db' db'' : Db}
      → Steps db imports db'
      → Step db' db''
      → Steps db imports db''
  import_order :
      {imports : List ℕ} {db' : Db}
      → Steps db imports db'
      → (now : ℕ) (ids : Identities) (tenant_exists : Bool) (get_order : Result ConfirmedSource)
        (associate : ConfirmedSource → Result Readback) (provider_tenant title number : String)
        (tenant user : ℕ) (associations : Table ProviderOrderAssociation)
      → Steps db
          (ids.order ∷ imports)
          (import_confirmed_order now ids tenant_exists get_order associate provider_tenant title
            number tenant user
            (record { db = db'; associations = associations })).1.db

abbrev pub is_import : List ℕ → ℕ → Bool
is_import [] k = false
is_import (j ∷ imports) k = j == k || is_import imports k

-- An order has come along the machine from a draft, or from an import.
abbrev pub Came : List ℕ → ℕ → String → Type 0
Came imports k status =
    Way drafted status ⊎ ((is_import imports k ≡ true) × Way "IN_PRODUCTION" status)

-- Every order of the session has come from a draft or from an import along the machine.
abbrev pub FromDraft : List ℕ → Db → Type 0
FromDraft imports db = (k : ℕ) (o : Order) → find k db.orders ≡ some o → Came imports k o.status
