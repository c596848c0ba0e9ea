-- ===== src/Orders/SignOff.antt =====
-- buyer_sign_off of src/order_confirmation/service.py and, after it,
-- update_supplier_memory_after_signoff of src/supplier_memory/service.py.
use abcd_yi.Prelude.{
  ℕ, ◌+◌, Bool, Option, none, some, List, [], ◌∷◌, ◌++◌, str_eq, ◌==◌, ◌&&◌, opt_eq, leb, length,
  any, if◌then◌else◌,
}
use abcd_yi.Prelude.Exec.{Exec, http, pure, gets, lift, or_raise, modify, require, ◌>>=◌, ◌>>◌}
use abcd_yi.Prelude.Table.{Table, find, select, matches, one_or_none}
use abcd_yi.Db.{
  Db, Order, Milestone, QcRecord, RfqRecipient, DecisionOption, SupplierMemoryRecord, Json,
  get_owned_order,
}
use abcd_yi.Orders.Service.{move_order, save_order, log_event}

-- A set of identifiers, in the order in which they were added.
abbrev add : ℕ → List ℕ → List ℕ
add k ks = if any (λ j. j == k) ks then ks else ks ++ k ∷ []

-- The loop over the values of `supplier_combination`; what is no UUID is passed over.
unfoldable pub participants : List (Option ℕ) → List ℕ → List ℕ
participants [] ks = ks
participants (none ∷ rest) ks = participants rest ks
participants (some k ∷ rest) ks = participants rest (add k ks)

abbrev combination : Option DecisionOption → List (Option ℕ)
combination none = []
combination (some o) = o.supplier_combination

unfoldable pub participants_of : Order → Db → List ℕ
participants_of order db = elim order.approved_option_id [
  | none ↦ []
  | some k ↦ participants (combination (find k db.options)) []
]

abbrev on_time_dates : Option ℕ → Option ℕ → Option Bool
on_time_dates (some actual) (some planned) = some (leb actual planned)
on_time_dates _ _ = none

-- The shipment milestone's actual date against its planned date.
abbrev on_time : Option (ℕ × Milestone) → Option Bool
on_time none = none
on_time (some (_, m)) = on_time_dates m.actual_date m.planned_date

abbrev passed : List QcRecord → ℕ
passed [] = 0
passed (r ∷ rs) = (if str_eq r.result "QC_PASSED" then 1 else 0) + passed rs

abbrev pass_rate : List QcRecord → Option (ℕ × ℕ)
pass_rate [] = none
pass_rate (r ∷ rs) = some (passed (r ∷ rs), length (r ∷ rs))

abbrev both : Option ℕ → Option ℕ → Option (ℕ × ℕ)
both (some sent) (some responded) = some (sent, responded)
both _ _ = none

abbrev response_times : Option RfqRecipient → Option (ℕ × ℕ)
response_times none = none
response_times (some r) = both r.sent_at r.responded_at

-- The recipient that the query of a participant's latest response answers with, by
-- `ORDER BY responded_at DESC LIMIT 1`: where a NULL stands in that order is the database's choice.
abbrev pub LatestRecipient : Type 0
LatestRecipient = ℕ → Table RfqRecipient → Option RfqRecipient

abbrev memory_of : LatestRecipient → ℕ → ℕ → Option (ℕ × Milestone) → Db → SupplierMemoryRecord
memory_of latest_recipient order_id participant_id shipment db = record {
  participant_id = participant_id;
  order_id = order_id;
  on_time_delivery = on_time shipment;
  qc_pass_rate = pass_rate (
      select
        (λ (r : QcRecord).
          r.order_id == order_id && opt_eq r.responsible_participant_id (some participant_id))
        db.qc_records);
  response_times = response_times (latest_recipient participant_id db.rfq_recipients);
}

-- One pass of the loop over the participants.
unfoldable pub remember_one : LatestRecipient → ℕ → ℕ → Exec Db (Unit {0})
remember_one latest_recipient order_id participant_id = do
  shipments ← gets (λ (db : Db).
      matches (λ (m : Milestone). m.order_id == order_id && str_eq m.milestone_type "SHIPMENT")
        db.milestones)
  shipment ← lift (one_or_none shipments)
  modify (λ (db : Db). record db {
    supplier_memory =
        db.supplier_memory ++ memory_of latest_recipient order_id participant_id shipment db ∷ [];
  })

unfoldable pub remember : LatestRecipient → ℕ → List ℕ → Exec Db (Unit {0})
remember latest_recipient order_id [] = pure tt
remember latest_recipient order_id (k ∷ ks) = do
  remember_one latest_recipient order_id k
  remember latest_recipient order_id ks

abbrev participants_of_found : Option Order → Db → List ℕ
participants_of_found none db = []
participants_of_found (some order) db = participants_of order db

unfoldable pub update_supplier_memory_after_signoff : LatestRecipient → ℕ → Exec Db (Unit {0})
update_supplier_memory_after_signoff latest_recipient order_id = do
  found ← gets (λ (db : Db). find order_id db.orders)
  ids ← gets (participants_of_found found)
  remember latest_recipient order_id ids

unfoldable pub buyer_sign_off : LatestRecipient → ℕ → ℕ → ℕ → ℕ → Exec Db Order
unfolding log_event
buyer_sign_off latest_recipient now order_id tenant_id user_id = do
  found ← gets (λ db. get_owned_order db order_id tenant_id)
  order ← or_raise found (http 404)
  require (str_eq order.status "DELIVERED") (http 409)
  moved ← move_order order_id order "BUYER_SIGNED_OFF"
  let signed = record moved { buyer_signed_off_at = some now }
  modify (save_order order_id signed)
  log_event now "BUYER_SIGNED_OFF" (("order_id", Json.key order_id) ∷ []) tenant_id
      (some order.project_id) order_id user_id
  update_supplier_memory_after_signoff latest_recipient order_id
  pure signed
