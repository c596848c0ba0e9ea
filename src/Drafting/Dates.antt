-- ===== src/Drafting/Dates.antt =====
-- When the planned dates of an order are complete and in order.
use abcd_yi.Prelude.{
  ℕ, suc, ◌≤◌, String, Bool, true, Option, none, some, List, [], ◌∷◌, ◌≡◌, ◌↔◌, refl, arith,
  is_some, ◌&&◌, map, all, not, str_eq, ◌==◌, if◌then◌else◌,
}
use abcd_yi.Db.{LeadTimes, Milestone}
use abcd_yi.Drafting.Plan.{Plan, plan, days_of, cutting_days, planned, ordered_milestones}

abbrev pub Ordered : List (Option ℕ) → Type 0
Ordered [] = Unit
Ordered (d ∷ []) = Unit
Ordered (some a ∷ some b ∷ rest) = (a ≤ b) × Ordered (some b ∷ rest)
Ordered (none ∷ d ∷ rest) = Ordered (d ∷ rest)
Ordered (some a ∷ none ∷ rest) = Unit

abbrev pub from_cutting : Plan → List (Option ℕ)
from_cutting p =
    p.cutting ∷ p.sewing ∷ p.washing ∷ p.inline_qc ∷ p.final_qc ∷ p.packing ∷ p.handover
    ∷ p.shipment ∷ p.sign_off ∷ []

-- With all lead times known and a fabric lead time of at least a day, the dates from the cutting to
-- the sign-off follow one another exactly where inspection and logistics take three days or more.
pub plan-Ordered :
    (f p q g : ℕ) (trim : Option ℕ)
    → Ordered (
        from_cutting (
          plan (record {
            fabric = some (suc f);
            trim = trim;
            production = some p;
            qc = some q;
            logistics = some g;
          })))
      ↔ ((3 ≤ q) × (3 ≤ g))
unfolding plan
plan-Ordered f p q g trim = ground arith

abbrev pub complete : List (String × Option ℕ) → Bool
complete [] = true
complete ((m, d) ∷ rest) = is_some d && complete rest

-- Every milestone has a date exactly where all five lead times are known and the fabric's is not 0.
pub plan-complete :
    (l : LeadTimes)
    → (complete (days_of (plan l)) ≡ true) ↔ (
        (is_some (cutting_days l.fabric) ≡ true)
        × (is_some l.trim ≡ true)
        × (is_some l.production ≡ true)
        × (is_some l.qc ≡ true)
        × (is_some l.logistics ≡ true))
unfolding plan
plan-complete l = ground arith

-- The milestone is pending and of that order, and has a note exactly where it has no date.
abbrev pub noted : ℕ → Milestone → Bool
noted order_id m =
    m.order_id == order_id
    && (str_eq m.status "PENDING"
        && (if is_some m.planned_date then not (is_some m.notes) else is_some m.notes))

planned-noted :
    (base order_id : ℕ) (ds : List (String × Option ℕ))
    → all (noted order_id) (planned base order_id ds) ≡ true
unfolding planned
planned-noted base order_id [] = refl
planned-noted base order_id ((m, none) ∷ ds) = ground (arith, planned-noted base order_id ds)
planned-noted base order_id ((m, some d) ∷ ds) = ground (arith, planned-noted base order_id ds)

-- An order has its twelve milestones in the order of the source's list, each of them pending, its
-- own, and with a note exactly where it has no date.
pub planned_milestones :
    (base order_id : ℕ) (l : LeadTimes)
    → (map (λ (m : Milestone). m.milestone_type) (planned base order_id (days_of (plan l)))
        ≡ ordered_milestones)
      × (all (noted order_id) (planned base order_id (days_of (plan l))) ≡ true)
unfolding planned
planned_milestones base order_id l = (refl, planned-noted base order_id (days_of (plan l)))
