-- ===== src/Drafting/Handoff.antt =====
-- import_confirmed_order of src/order_confirmation/provider_handoff.py. What the provider and `_source`
-- give for the order, or the error that they raise, is an argument, and so are the answer of the
-- provider to the association, the ids (UUIDs of the source's names) and whether the tenant exists.
-- The participants of the import, the JSON copies of the source and the event's payload are left out.
use abcd_yi.Prelude.{
  ℕ, String, Bool, true, false, not, Option, none, some, List, [], ◌∷◌, ◌++◌, is_some, str_eq, ◌==◌,
  ◌&&◌, ◌||◌, leb, map,
}
use abcd_yi.Prelude.Exec.{
  Exec, Result, http, pure, gets, lift, or_raise, modify, require, ◌>>=◌, ◌>>◌,
}
use abcd_yi.Prelude.Table.{Table, find, put}
use abcd_yi.Db.{Db, Order, OrderLine, Milestone, FormFields}
use abcd_yi.Drafting.Plan.{ordered_milestones}
use abcd_yi.Drafting.Service.{put_all}

pub record ProviderOrderAssociation : Type 0 where
  pub order_id : ℕ
  pub tenant_id : ℕ
  pub provider_tenant_id : String
  pub source_snapshot_hash : String

-- The confirmed order of the provider, as `_source` reads it.
pub record ConfirmedSource : Type 0 where
  pub source_snapshot_hash : String
  pub product_type : String
  pub quantity : ℕ
  pub unit_price : ℕ
  pub currency : String
  pub confirmed_at : ℕ

-- The provider's answer to the association; `state_agrees` is whether its state is a dict with the
-- values that were sent.
pub record Readback : Type 0 where
  pub source_snapshot_hash : String
  pub revision : ℕ
  pub state_agrees : Bool

-- _identities, and the ids of the milestones
pub record Identities : Type 0 where
  pub project : ℕ
  pub order : ℕ
  pub form : ℕ
  pub form_version : ℕ
  pub packet : ℕ
  pub option : ℕ
  pub supplier : ℕ
  pub milestones : List ℕ

pub record HandoffStore : Type 0 where
  pub db : Db
  pub associations : Table ProviderOrderAssociation

abbrev pub is_changed : ℕ → String → ConfirmedSource → Option ProviderOrderAssociation → Bool
is_changed tenant provider_tenant source none = false
is_changed tenant provider_tenant source (some a) =
    not (a.tenant_id == tenant)
    || not (str_eq a.source_snapshot_hash source.source_snapshot_hash)
    || not (str_eq a.provider_tenant_id provider_tenant)

abbrev pub is_verified : ConfirmedSource → Readback → Bool
is_verified source r =
    str_eq r.source_snapshot_hash source.source_snapshot_hash && leb 1 r.revision && r.state_agrees

abbrev pub imported_order : Identities → ConfirmedSource → String → Order
imported_order ids source number = record {
  project_id = ids.project;
  approved_option_id = some ids.option;
  locked_form_version_id = some ids.form_version;
  status = "IN_PRODUCTION";
  order_number = number;
  confirmed_at = some source.confirmed_at;
  buyer_signed_off_at = none;
}

abbrev imported_milestone : ℕ → String → Milestone
imported_milestone order_id milestone_type = record {
  order_id = order_id;
  milestone_type = milestone_type;
  planned_date = none;
  predicted_date = none;
  actual_date = none;
  status = "PENDING";
  responsible_participant_id = none;
  notes = some "No execution date has been recorded for this imported order.";
}

abbrev imported_fields : ConfirmedSource → FormFields
imported_fields source = record {
  product_type = some source.product_type;
  quantity = some source.quantity;
  delivery_deadline = none;
}

abbrev imported_line : Identities → ConfirmedSource → OrderLine
imported_line ids source = record {
  order_id = ids.order;
  line_number = 1;
  description = source.product_type;
  quantity = source.quantity;
  unit = "pcs";
  unit_price = some source.unit_price;
  currency = some source.currency;
  form_fields_snapshot = imported_fields source;
}

-- The writes of the rows, in the session of the database.
abbrev pub add_imported : ℕ → Identities → ConfirmedSource → String → String → ℕ → ℕ → Db → Db
add_imported now ids source title number tenant user db = record db {
  projects =
      put ids.project (record { tenant_id = some tenant; title = some title; status = "OPEN" })
        db.projects;
  forms =
      put ids.form (record { project_id = ids.project; current_version = 1; is_locked = true })
        db.forms;
  form_versions =
      put ids.form_version
        (record { form_id = ids.form; version_number = 1; fields = imported_fields source })
        db.form_versions;
  packets =
      put ids.packet
        (record {
          project_id = ids.project;
          human_approval_status = "APPROVED";
          recommended_option_id = some ids.option;
        })
        db.packets;
  options =
      put ids.option
        (record {
          packet_id = ids.packet;
          supplier_combination = some ids.supplier ∷ [];
          unit_price = some source.unit_price;
          currency = some source.currency;
          lead_time_breakdown = record {
            fabric = none;
            trim = none;
            production = none;
            qc = none;
            logistics = none;
          };
        })
        db.options;
  orders = put ids.order (imported_order ids source number) db.orders;
  order_lines = db.order_lines ++ imported_line ids source ∷ [];
  milestones =
      put_all ids.milestones (map (imported_milestone ids.order) ordered_milestones) db.milestones;
  events =
      db.events
      ++ record {
        tenant_id = tenant;
        project_id = some ids.project;
        order_id = some ids.order;
        participant_id = none;
        event_type = "PROVIDER_CONFIRMED_ORDER_IMPORTED";
        payload = [];
        triggered_by_user_id = some user;
        occurred_at = now;
      }
        ∷ [];
}

abbrev pub association : ℕ → String → Identities → ConfirmedSource → ProviderOrderAssociation
association tenant provider_tenant ids source = record {
  order_id = ids.order;
  tenant_id = tenant;
  provider_tenant_id = provider_tenant;
  source_snapshot_hash = source.source_snapshot_hash;
}

-- The last part, for an order without an association.
unfoldable pub import_new :
    ℕ → Identities → ConfirmedSource → String → String → String → ℕ → ℕ → Exec HandoffStore Order
import_new now ids source provider_tenant title number tenant user = do
  taken ← gets (λ (h : HandoffStore).
      is_some (find ids.order h.db.orders) || is_some (find ids.project h.db.projects))
  require (not taken) (http 409)
  modify (λ (h : HandoffStore). record h {
    db = add_imported now ids source title number tenant user h.db;
    associations = put ids.order (association tenant provider_tenant ids source) h.associations;
  })
  pure (imported_order ids source number)

-- The order of an association that was made before.
unfoldable pub imported_before : ProviderOrderAssociation → Exec HandoffStore Order
imported_before a = do
  found ← gets (λ (h : HandoffStore). find a.order_id h.db.orders)
  or_raise found (http 409)

unfoldable pub import_confirmed_order :
    ℕ
    → Identities
    → Bool
    → Result ConfirmedSource
    → (ConfirmedSource → Result Readback)
    → String
    → String
    → String
    → ℕ
    → ℕ
    → Exec HandoffStore Order
import_confirmed_order now ids tenant_exists get_order associate provider_tenant title number tenant
      user =
    do
      require tenant_exists (http 404)
      source ← lift get_order
      existing ← gets (λ (h : HandoffStore). find ids.order h.associations)
      require (not (is_changed tenant provider_tenant source existing)) (http 409)
      readback ← lift (associate source)
      require (is_verified source readback) (http 409)
      elim existing [
        | some a ↦ imported_before a
        | none ↦ import_new now ids source provider_tenant title number tenant user
      ]
