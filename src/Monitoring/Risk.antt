-- ===== src/Monitoring/Risk.antt =====
-- What a prediction says of the milestones and of the deadline.
use abcd_yi.Prelude.{
  ℕ, suc, Option-cases, ◌+◌, ◌≤◌, Bool, true, false, Option, none, some, List, ◌≡◌, ◌↔◌, ◌∙◌, refl,
  sym, ap, arith, inl, inr, not, Bool-cases, ◌-◌, ◌/◌, ◌≢◌, leb, ltb, [], ◌∷◌, ◌++◌, str_eq, ◌⊎◌,
  if◌then◌else◌,
}
use abcd_yi.Prelude.Int.{ℤ, pos, negsuc, floor_div_sub}
use abcd_yi.Db.{Milestone}
use abcd_yi.Monitoring.Predict.{
  Scan, scan, latest, empty_scan, is_behind, take_candidate, scan_one, or_else, count_one,
  delay_days, risk_level, needs_expediting, predict_completion_date,
}

-- An alert is needed exactly where the delay is eight full days or more.
needs_expediting-risk_level : (n : ℕ) → needs_expediting (risk_level (some (pos n))) ≡ not (leb n 7)
unfolding risk_level
needs_expediting-risk_level n = elim (Bool-cases (leb n 0)) [
  | inl a ↦ rw a (ground arith)
  | inr a ↦ elim (Bool-cases (leb n 3)) [
    | inl b ↦ rw (a, b) (ground arith)
    | inr b ↦ elim (Bool-cases (leb n 7)) [
      | inl c ↦ rw (a, b, c) refl
      | inr c ↦ elim (Bool-cases (leb n 14)) [
        | inl d ↦ rw (a, b, c, d) refl
        | inr d ↦ rw (a, b, c, d) refl
      ]
    ]
  ]
]

risk_level_iff :
    (n : ℤ) → (needs_expediting (risk_level (some n)) ≡ true) ↔ ((k : ℕ) × (n ≡ pos k) × (8 ≤ k))
unfolding risk_level
risk_level_iff (negsuc n) = ground arith
risk_level_iff (pos n) =
    let e = needs_expediting-risk_level n in
    (
      (λ h. (n, refl, let f : not (leb n 7) ≡ true = sym e ∙ h in ground arith)),
      (λ h. e ∙ ground arith),
    )

floor_iff : (a b : ℕ) → ((k : ℕ) × (floor_div_sub a b 86400 ≡ pos k) × (8 ≤ k)) ↔ (b + 691200 ≤ a)
unfolding floor_div_sub
floor_iff a b = ((λ h. ground arith), (λ h. ((a - b) / 86400, ground arith, omega arith)))

-- The date is the deadline's eighth day of delay or later.
abbrev pub IsLate : Option ℕ → Option ℕ → Type 0
IsLate predicted deadline =
    (p : ℕ) × (d : ℕ) × (predicted ≡ some p) × (deadline ≡ some d) × (d + 691200 ≤ p)

false-ne-true : ◌≢◌ {A = Bool} false true
false-ne-true h = cc

on_track :
    {L : Type 0} → (L → ◌≡◌ {A = Bool} false true) → (needs_expediting (risk_level none) ≡ true) ↔ L
unfolding risk_level
on_track n = ((λ h. absurd (false-ne-true h)), (λ l. n l))

IsLate-iff :
    (predicted deadline : Option ℕ)
    → (needs_expediting (risk_level (delay_days predicted deadline)) ≡ true)
      ↔ IsLate predicted deadline
unfolding delay_days
IsLate-iff none deadline = on_track ((λ l. ground arith))
IsLate-iff (some p) none = on_track ((λ l. ground arith))
IsLate-iff (some p) (some d) = (
  (λ h. (p, d, refl, refl, (floor_iff p d).0 ((risk_level_iff _).0 h))),
  (λ l. (risk_level_iff _).1 ((floor_iff p d).1 (ground arith))),
)

-- The dates that a milestone adds: none where it is completed, else the predicted one or, where there
-- is none, the planned one.
abbrev pub dated : Option ℕ → Option ℕ → List ℕ
dated (some predicted) planned = predicted ∷ []
dated none (some planned) = planned ∷ []
dated none none = []

abbrev pub due : Milestone → List ℕ
due m = if str_eq m.status "COMPLETED" then [] else dated m.predicted_date m.planned_date

abbrev pub remaining_dates : List Milestone → List ℕ
remaining_dates [] = []
remaining_dates (m ∷ ms) = due m ++ remaining_dates ms

-- Some date of the list is `n` or later.
abbrev pub HasFrom : ℕ → List ℕ → Type 0
HasFrom n [] = ⊥
HasFrom n (x ∷ xs) = (n ≤ x) ⊎ HasFrom n xs

append_nil : (l : List ℕ) → l ++ [] ≡ l
append_nil [] = refl
append_nil (x ∷ l) = ap (λ r. x ∷ r) (append_nil l)

append_assoc : (k l m : List ℕ) → (k ++ l) ++ m ≡ k ++ (l ++ m)
append_assoc [] l m = refl
append_assoc (x ∷ k) l m = ap (λ r. x ∷ r) (append_assoc k l m)

take_candidate-dates :
    (m : Milestone) (o : Option ℕ) (s : Scan)
    → (take_candidate m o s).predicted_dates
      ≡ s.predicted_dates ++ elim o [ some p ↦ p ∷ [] | none ↦ [] ]
take_candidate-dates m none s = sym (append_nil s.predicted_dates)
take_candidate-dates m (some p) s = elim (Bool-cases (is_behind m.planned_date p)) [
  | inl e ↦ rw e refl
  | inr e ↦ rw e refl
]

candidate-dated :
    (predicted planned : Option ℕ)
    → elim (or_else predicted planned) as (λ _. List ℕ) [ some p ↦ p ∷ [] | none ↦ [] ]
      ≡ dated predicted planned
candidate-dated (some p) planned = refl
candidate-dated none (some p) = refl
candidate-dated none none = refl

scan_one-due :
    (m : Milestone) (s : Scan)
    → (if str_eq m.status "COMPLETED" then s else scan_one m s).predicted_dates
      ≡ s.predicted_dates ++ due m
scan_one-due m s = elim (Bool-cases (str_eq m.status "COMPLETED")) [
  | inl e ↦ rw (e, append_nil s.predicted_dates) refl
  | inr e ↦ rw e (
      take_candidate-dates m (or_else m.predicted_date m.planned_date) (record s {
        total_remaining = suc s.total_remaining;
        has_predicted_dates = count_one m.predicted_date s.has_predicted_dates;
      })
      ∙ ap (λ l. s.predicted_dates ++ l) (candidate-dated m.predicted_date m.planned_date))
]

scan-remaining_dates :
    (ms : List Milestone) (s : Scan)
    → (scan ms s).predicted_dates ≡ s.predicted_dates ++ remaining_dates ms
unfolding scan
scan-remaining_dates [] s = sym (append_nil s.predicted_dates)
scan-remaining_dates (m ∷ ms) s =
    scan-remaining_dates ms (if str_eq m.status "COMPLETED" then s else scan_one m s)
    ∙ ap (λ l. l ++ remaining_dates ms) (scan_one-due m s)
    ∙ append_assoc s.predicted_dates (due m) (remaining_dates ms)

latest_iff : (n : ℕ) (l : List ℕ) → ((p : ℕ) × (latest l ≡ some p) × (n ≤ p)) ↔ HasFrom n l
unfolding latest
latest_iff n [] = ((λ h. ground arith), (λ h. absurd h))
latest_iff n (x ∷ l) = elim (Option-cases (latest l)) [
  | inl e ↦
      let f = latest_iff n l in
      rw (e, latest)
        (
          (λ h. inl (ground arith)),
          (λ h. elim h [
            | inl k ↦ (x, refl, k)
            | inr k ↦ let (p, a, b) = f.1 k in absurd (ground arith)
          ]),
        )
  | inr (p, e) ↦
      let f = latest_iff n l in
      rw (e, latest)
        (later_iff p (λ k. f.0 (p, e, k))
          (λ h. let (q, a, b) = f.1 h in let same : some p ≡ some q = sym e ∙ a in ground arith))
]
  where
    later_iff :
        (p : ℕ)
        → (n ≤ p → HasFrom n l)
        → (HasFrom n l → n ≤ p)
        → ((q : ℕ) × (some (if ltb x p then p else x) ≡ some q) × (n ≤ q)) ↔ HasFrom n (x ∷ l)
    later_iff p up down = elim (Bool-cases (ltb x p)) [
      | inl t ↦ rw t (
        (λ h. let (q, a, b) = h in inr (up (ground arith))),
        (λ h. elim h [ inl k ↦ (p, refl, ground arith) | inr k ↦ (p, refl, down k) ]),
      )
      | inr t ↦ rw t (
        (λ h. let (q, a, b) = h in inl (ground arith)),
        (λ h. elim h [ inl k ↦ (x, refl, k) | inr k ↦ (x, refl, ground (arith, down k)) ]),
      )
    ]

-- An alert is required exactly where there is a deadline and some milestone that is not completed has a
-- date, the predicted one or else the planned one, eight full days or more behind it.
pub expedite_iff :
    (ms : List Milestone) (deadline : Option ℕ)
    → ((predict_completion_date ms deadline).expedite_alert_required ≡ true)
      ↔ ((d : ℕ) × (deadline ≡ some d) × HasFrom (d + 691200) (remaining_dates ms))
unfolding predict_completion_date
expedite_iff ms deadline = rw (scan-remaining_dates ms empty_scan) (
  (λ h.
      let (p, d, e, k, n) = (IsLate-iff (latest (remaining_dates ms)) deadline).0 h in
      (d, k, (latest_iff (d + 691200) (remaining_dates ms)).0 (p, e, n))),
  (λ h.
      let (d, k, some_late) = h in
      let (p, e, n) = (latest_iff (d + 691200) (remaining_dates ms)).1 some_late in
      (IsLate-iff (latest (remaining_dates ms)) deadline).1 (p, d, e, k, n)),
)
