-- ===== src/Drafting/Plan.antt =====
-- The milestones of a new order and their dates: src/milestones/constants.py and
-- create_order_from_approved_option. Dates are points in time in seconds.
use abcd_yi.Prelude.{ℕ, zero, suc, ◌+◌, ◌*◌, String, Option, none, some, List, [], ◌∷◌}
use abcd_yi.Db.{LeadTimes, Milestone}

abbrev pub ordered_milestones : List String
ordered_milestones =
    "SAMPLE_CONFIRMATION" ∷ "FABRIC_BOOKING" ∷ "TRIM_BOOKING" ∷ "CUTTING" ∷ "SEWING"
    ∷ "WASHING_OR_FINISHING" ∷ "INLINE_QC" ∷ "FINAL_QC" ∷ "PACKING" ∷ "LOGISTICS_HANDOVER"
    ∷ "SHIPMENT" ∷ "BUYER_SIGN_OFF" ∷ []

abbrev pub seconds_per_day : ℕ
seconds_per_day = 86400

-- _planned_date
abbrev pub planned_date : ℕ → Option ℕ → Option ℕ
planned_date base none = none
planned_date base (some days) = some (base + seconds_per_day * days)

-- `(fabric_lt or 0) + 3 if fabric_lt else None`: a lead time of 0 days is false.
abbrev pub cutting_days : Option ℕ → Option ℕ
cutting_days none = none
cutting_days (some zero) = none
cutting_days (some (suc days)) = some (suc days + 3)

-- The days from today, where there are any.
pub record Plan : Type 0 where
  pub sample : Option ℕ
  pub fabric : Option ℕ
  pub trim : Option ℕ
  pub cutting : Option ℕ
  pub sewing : Option ℕ
  pub washing : Option ℕ
  pub inline_qc : Option ℕ
  pub final_qc : Option ℕ
  pub packing : Option ℕ
  pub handover : Option ℕ
  pub shipment : Option ℕ
  pub sign_off : Option ℕ

abbrev with_shipment : Option ℕ → ℕ → Plan → Plan
with_shipment none final p = p
with_shipment (some logistics) final p = record p {
  shipment = some (final + logistics);
  sign_off = some (final + logistics + 7);
}

abbrev with_final_qc : Option ℕ → Option ℕ → ℕ → Plan → Plan
with_final_qc none logistics sewing p = p
with_final_qc (some qc) logistics sewing p = with_shipment logistics (sewing + qc) (record p {
  final_qc = some (sewing + qc);
  packing = some (sewing + qc + 2);
  handover = some (sewing + qc + 3);
})

-- The nested tests of the source, from the cutting on.
abbrev with_sewing : Option ℕ → Option ℕ → Option ℕ → Option ℕ → Plan → Plan
with_sewing (some cutting) (some production) qc logistics p =
    with_final_qc qc logistics (cutting + production) (record p {
      sewing = some (cutting + production);
      washing = some (cutting + production + 2);
      inline_qc = some (cutting + production + 3);
    })
with_sewing _ _ qc logistics p = p

unfoldable pub plan : LeadTimes → Plan
plan l = with_sewing (cutting_days l.fabric) l.production l.qc l.logistics (record {
  sample = some 7;
  fabric = l.fabric;
  trim = l.trim;
  cutting = cutting_days l.fabric;
  sewing = none;
  washing = none;
  inline_qc = none;
  final_qc = none;
  packing = none;
  handover = none;
  shipment = none;
  sign_off = none;
})

-- `milestone_dates`, in the order of the milestones.
abbrev pub days_of : Plan → List (String × Option ℕ)
days_of p =
    ("SAMPLE_CONFIRMATION", p.sample)
    ∷ ("FABRIC_BOOKING", p.fabric)
    ∷ ("TRIM_BOOKING", p.trim)
    ∷ ("CUTTING", p.cutting)
    ∷ ("SEWING", p.sewing)
    ∷ ("WASHING_OR_FINISHING", p.washing)
    ∷ ("INLINE_QC", p.inline_qc)
    ∷ ("FINAL_QC", p.final_qc)
    ∷ ("PACKING", p.packing)
    ∷ ("LOGISTICS_HANDOVER", p.handover)
    ∷ ("SHIPMENT", p.shipment)
    ∷ ("BUYER_SIGN_OFF", p.sign_off)
    ∷ []

abbrev date_missing : Option ℕ → Option String
date_missing none = some "Planned date not set — lead time missing"
date_missing (some _) = none

abbrev planned_milestone : ℕ → ℕ → String → Option ℕ → Milestone
planned_milestone base order_id milestone_type days = record {
  order_id = order_id;
  milestone_type = milestone_type;
  planned_date = planned_date base days;
  predicted_date = none;
  actual_date = none;
  status = "PENDING";
  responsible_participant_id = none;
  notes = date_missing days;
}

-- One row for each milestone.
unfoldable pub planned : ℕ → ℕ → List (String × Option ℕ) → List Milestone
planned base order_id [] = []
planned base order_id ((milestone_type, days) ∷ rest) =
    planned_milestone base order_id milestone_type days ∷ planned base order_id rest
