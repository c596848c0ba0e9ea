-- ===== src/Drafting/Service.antt =====
-- create_order_from_approved_option of src/order_confirmation/service.py. The ids of the new rows
-- are arguments, and so is the order's number, which `_generate_order_number` prints. The quantity of a
-- form is a whole number, for which `int` is the identity, and its product type is a text or absent: a
-- null under that key, which the source prints as None, is left out.
use abcd_yi.Prelude.{
  ℕ, String, Bool, true, Option, none, some, List, [], ◌∷◌, ◌++◌, str_eq, ◌==◌, ◌&&◌, if◌then◌else◌,
}
use abcd_yi.Prelude.Exec.{Exec, http, pure, gets, lift, or_raise, modify, require, ◌>>=◌, ◌>>◌}
use abcd_yi.Prelude.Table.{Table, find, put, matches, one_or_none}
use abcd_yi.Db.{
  Db, Order, OrderLine, Milestone, DecisionOption, DynamicOrderForm, DynamicOrderFormVersion,
  FormFields, Json, emit_event, get_owned_packet,
}
use abcd_yi.Drafting.Plan.{plan, days_of, planned}

-- `option.packet_id != packet.id` is answered like a missing option.
abbrev option_of : Option DecisionOption → ℕ → Option DecisionOption
option_of none packet_id = none
option_of (some o) packet_id = if o.packet_id == packet_id then some o else none

abbrev no_fields : FormFields
no_fields = record { product_type = none; quantity = none; delivery_deadline = none }

abbrev is_current : ℕ × DynamicOrderForm → DynamicOrderFormVersion → Bool
is_current (form_id, form) v = v.form_id == form_id && v.version_number == form.current_version

-- The current version of the project's form, if it has one.
unfoldable pub current_version :
    Option (ℕ × DynamicOrderForm) → Exec Db (Option (ℕ × DynamicOrderFormVersion))
current_version none = pure none
current_version (some form) = do
  versions ← gets (λ (db : Db). matches (is_current form) db.form_versions)
  lift (one_or_none versions)

abbrev version_id : Option (ℕ × DynamicOrderFormVersion) → Option ℕ
version_id none = none
version_id (some (k, _)) = some k

abbrev version_fields : Option (ℕ × DynamicOrderFormVersion) → FormFields
version_fields none = no_fields
version_fields (some (_, v)) = v.fields

abbrev product_or_apparel : Option String → String
product_or_apparel none = "Apparel"
product_or_apparel (some t) = t

-- `quantity or 1`
abbrev quantity_or_one : Option ℕ → ℕ
quantity_or_one none = 1
quantity_or_one (some n) = if n == 0 then 1 else n

abbrev order_line : ℕ → FormFields → DecisionOption → OrderLine
order_line order_id fields option = record {
  order_id = order_id;
  line_number = 1;
  description = product_or_apparel fields.product_type;
  quantity = quantity_or_one fields.quantity;
  unit = "pcs";
  unit_price = option.unit_price;
  currency = option.currency;
  form_fields_snapshot = fields;
}

-- `form.is_locked = True`
abbrev lock_form : Option (ℕ × DynamicOrderForm) → Table DynamicOrderForm → Table DynamicOrderForm
lock_form none t = t
lock_form (some (k, form)) t = put k (record form { is_locked = true }) t

-- The new rows under the new ids, as many as there are of both.
unfoldable pub put_all : List ℕ → List Milestone → Table Milestone → Table Milestone
put_all (k ∷ ks) (m ∷ ms) t = put_all ks ms (put k m t)
put_all _ _ t = t

abbrev pub drafted_order : ℕ → ℕ → Option ℕ → String → Order
drafted_order project_id option_id version order_number = record {
  project_id = project_id;
  approved_option_id = some option_id;
  locked_form_version_id = version;
  status = "DRAFT_FROM_APPROVED_QUOTE";
  order_number = order_number;
  confirmed_at = none;
  buyer_signed_off_at = none;
}

-- The writes of the rows: the order, its line, the lock of the form and the milestones.
abbrev pub add_order :
    ℕ → ℕ → List ℕ → Order → FormFields → DecisionOption → Option (ℕ × DynamicOrderForm) → Db → Db
add_order now order_id milestone_ids order fields option form db = record db {
  orders = put order_id order db.orders;
  order_lines = db.order_lines ++ order_line order_id fields option ∷ [];
  forms = lock_form form db.forms;
  milestones =
      put_all milestone_ids (planned now order_id (days_of (plan option.lead_time_breakdown)))
        db.milestones;
}

unfoldable pub create_order_from_approved_option :
    ℕ → ℕ → List ℕ → String → ℕ → ℕ → ℕ → ℕ → ℕ → Exec Db Order
unfolding emit_event
create_order_from_approved_option now order_id milestone_ids order_number project_id packet_id
      option_id tenant_id user_id =
    do
      found ← gets (λ db. get_owned_packet db packet_id tenant_id)
      packet ← or_raise found (http 404)
      require (str_eq packet.human_approval_status "APPROVED") (http 403)
      found_option ← gets (λ (db : Db). option_of (find option_id db.options) packet_id)
      option ← or_raise found_option (http 404)
      forms ←
          gets
            (λ (db : Db). matches (λ (f : DynamicOrderForm). f.project_id == project_id) db.forms)
      form ← lift (one_or_none forms)
      version ← current_version form
      let order = drafted_order project_id option_id (version_id version) order_number
      modify (add_order now order_id milestone_ids order (version_fields version) option form)
      emit_event (record {
        tenant_id = tenant_id;
        project_id = some project_id;
        order_id = some order_id;
        participant_id = none;
        event_type = "ORDER_CREATED";
        payload =
            ("order_id", Json.key order_id)
            ∷ ("order_number", Json.text order_number)
            ∷ ("project_id", Json.key project_id)
            ∷ [];
        triggered_by_user_id = some user_id;
        occurred_at = now;
      })
      pure order
