-- ===== src/Intake/Justified.antt =====
-- What stands behind a result that asks for the approval of inquiries to suppliers:
-- src/aivan/execution/rfq_execution.py.
use abcd_yi.Prelude.{
  ℕ, zero, suc, String, true, inl, inr, Option, some, Bool-cases, List, [], ◌∷◌, keep, length, leb,
  ◌≡◌, ◌≤◌, refl, ap, ◌∙◌, if◌then◌else◌, arith,
}
use abcd_yi.Prelude.Exec.{ok}
use abcd_yi.Prelude.Sorting.{sort_by, insert_by}
use abcd_yi.Intake.Store.{OpenClawEvent, Backend, Services, RfqExecutionResult, AgentStore}
use abcd_yi.Intake.Requirement.{BuyerRequirement}
use abcd_yi.Intake.Readiness.{Supplier, has_email, evaluate_requirement_readiness}
use abcd_yi.Intake.Events.{interpret_strategy}
use abcd_yi.Intake.Drafted.{AreDrafted}
use abcd_yi.Intake.Outreach.{create_supplier_email_drafts, select_suppliers, not_behind, take, ids}

-- What was answered before: a requirement that is ready, suppliers two of which can be written to, and
-- the lead time; two to five suppliers are selected, and the loop over them returned the reported ids,
-- of which each is the key of an inquiry to its supplier wherever the loop returns them.
pub record IsJustified {b : Backend} (v : Services b) (event : OpenClawEvent)
    (result : RfqExecutionResult b) : Type 0 where
  pub requirement : BuyerRequirement
  pub existing : Option BuyerRequirement
  pub customer : String
  pub user : String
  pub suppliers : List Supplier
  pub gltg : b.Gltg
  pub structured : v.structure_requirement event existing result.project_id ≡ ok requirement
  pub is_ready : (evaluate_requirement_readiness requirement).ready ≡ true
  pub in_context : v.build_context requirement customer user ≡ ok suppliers
  pub enough : 2 ≤ length (keep has_email suppliers)
  pub with_lead_time :
      v.simulate (some requirement) (interpret_strategy v event.message_text) (length suppliers)
      ≡ ok gltg
  pub reported : result.gltg_simulation ≡ some gltg
  pub two_suppliers : 2 ≤ length result.selected_supplier_ids
  pub five_suppliers : length result.selected_supplier_ids ≤ 5
  pub one_draft_each : length result.drafts_created ≡ length result.selected_supplier_ids
  pub selected : result.selected_supplier_ids ≡ (select_suppliers suppliers).selected_supplier_ids
  pub looped_in : AgentStore b
  pub looped :
      (create_supplier_email_drafts v result.project_id event requirement
        (interpret_strategy v event.message_text)
        gltg
        suppliers
        result.selected_supplier_ids
        looped_in).0
      ≡ ok result.drafts_created
  pub drafted :
      (t : AgentStore b)
      → (create_supplier_email_drafts v result.project_id event requirement
          (interpret_strategy v event.message_text)
          gltg
          suppliers
          result.selected_supplier_ids
          t).0
        ≡ ok result.drafts_created
      → AreDrafted suppliers result.selected_supplier_ids result.drafts_created
          (create_supplier_email_drafts v result.project_id event requirement
            (interpret_strategy v event.message_text)
            gltg
            suppliers
            result.selected_supplier_ids
            t).1.drafts

-- The action is another one, or the result is justified.
abbrev pub Answers : {b : Backend} → Services b → OpenClawEvent → RfqExecutionResult b → Type 0
Answers v event result = result.action ≡ "pending_email_approval" → IsJustified v event result

length-take :
    {A : Type 0} (n : ℕ) (l : List A)
    → length (take n l) ≡ (if leb (length l) n then length l else n)
unfolding take
length-take zero [] = refl
length-take (suc n) [] = ground arith
length-take zero (x ∷ l) = ground arith
length-take (suc n) (x ∷ l) = ground (arith, length-take n l)

length-ids : (l : List Supplier) → length (ids l) ≡ length l
length-ids [] = refl
length-ids (x ∷ l) = ap suc (length-ids l)

length-keep-insert_by :
    (x : Supplier) (l : List Supplier)
    → length (keep has_email (insert_by not_behind x l)) ≡ length (keep has_email (x ∷ l))
unfolding insert_by keep
length-keep-insert_by x [] = refl
length-keep-insert_by x (y ∷ l) = elim (Bool-cases (not_behind x y)) [
  | inl e ↦ rw e refl
  | inr e ↦ rw e (ground (arith, length-keep-insert_by x l))
]

length-keep-sort_by :
    (l : List Supplier) → length (keep has_email (sort_by not_behind l)) ≡ length (keep has_email l)
unfolding sort_by keep
length-keep-sort_by [] = refl
length-keep-sort_by (x ∷ l) =
    length-keep-insert_by x (sort_by not_behind l) ∙ ground (arith, length-keep-sort_by l)

-- Of enough suppliers two to five are selected.
pub selected-few :
    (l : List Supplier)
    → 2 ≤ length (keep has_email l)
    → (2 ≤ length (select_suppliers l).selected_supplier_ids)
      × (length (select_suppliers l).selected_supplier_ids ≤ 5)
unfolding select_suppliers
selected-few l h =
    let m = ids (keep has_email (sort_by not_behind l)) in
    let n : length m ≡ length (keep has_email l) =
      length-ids (keep has_email (sort_by not_behind l)) ∙ length-keep-sort_by l in
    ground (arith, n, length-take 5 m)
