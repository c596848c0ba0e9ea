-- ===== src/Qc/Criteria.antt =====
-- An order passes its inspection exactly when every criterion of the standard is met.
use abcd_yi.Prelude.{
  ℕ, suc, ◌*◌, ◌≤◌, String, Bool, true, false, Option, none, some, List, [], ◌∷◌, ◌++◌, ◌≡◌, ◌≢◌,
  ◌↔◌, ◌⊎◌, inl, inr, refl, sym, eq_iff, arith, ltb, if◌then◌else◌,
}
use abcd_yi.Prelude.Exec.{Result, ok, err, value_error}
use abcd_yi.Db.{Fraction}
use abcd_yi.Qc.Evaluate.{
  Reading, unreadable, not_a_number, infinite, finite, Check, Inspection, Standard, Report, Verdict,
  get, get_or, no_limit, exceeds, out_of_tolerance, noting, check_defects, check_flag, check_sizes,
  check_colors, run_checks, verdict_of, evaluate_qc_record, is_empty, note,
}

abbrev pub All : {A : Type 0} → (A → Type 0) → List A → Type 0
All P [] = Unit
All P (x ∷ xs) = P x × All P xs

-- The reading is a number within the limit, or a nan, which no limit stops.
abbrev pub Within : Fraction → Reading → Type 0
Within limit unreadable = ⊥
Within limit not_a_number = Unit
Within limit infinite = ⊥
Within limit (finite n below) = n * suc limit.below ≤ limit.numerator * suc below

abbrev pub WithinAny : Option Fraction → Reading → Type 0
WithinAny none v = Unit
WithinAny (some tolerance) v = Within tolerance v

-- The criteria: defects within their limits (0 where the standard names none), no declared
-- non-compliance, deviations within their limits (999 where it names none), and colours within the
-- tolerances that it names.
pub record Meets (i : Inspection) (s : Standard) : Type 0 where
  pub defects : All (λ (d : String × ℕ). d.1 ≤ get_or d.0 0 s.fabric_defect_limits) i.fabric_defects
  pub label : i.label_compliance ≢ some false
  pub packaging : i.packaging_compliance ≢ some false
  pub sizes :
      All
        (λ (d : String × Reading). Within (get_or d.0 no_limit s.size_deviation_limits) d.1)
        i.size_deviation
  pub colors :
      All
        (λ (d : String × Reading). WithinAny (get d.0 s.color_difference_tolerance) d.1)
        i.color_difference

-- Some deviation, or some colour that has a tolerance, is no number.
abbrev pub HasUnreadableSize : List (String × Reading) → Type 0
HasUnreadableSize [] = ⊥
HasUnreadableSize (d ∷ l) = (d.1 ≡ unreadable) ⊎ HasUnreadableSize l

abbrev pub HasUnreadableColor : List (String × Fraction) → List (String × Reading) → Type 0
HasUnreadableColor tolerances [] = ⊥
HasUnreadableColor tolerances (d ∷ l) =
    ((get d.0 tolerances ≢ none) × (d.1 ≡ unreadable)) ⊎ HasUnreadableColor tolerances l

append-nil_parts : (xs : List Check) (c : Check) → xs ++ c ∷ [] ≢ []
append-nil_parts [] c e = cc
append-nil_parts (x ∷ xs) c e = cc

note-failures :
    (b : Bool) (c : Check) (r : Report)
    → ((note b c r).failures ≡ []) ↔ ((r.failures ≡ []) × (b ≡ false))
note-failures true c r = ((λ e. absurd (append-nil_parts r.failures c e)), (λ e. cc))
note-failures false c r = ((λ e. (e, refl)), (λ e. e.0))

-- One more criterion in front of the rest of a list.
chain {ℓ κ} :
    {P Q : Type 0} {R : Type ℓ} {S : Type κ} {a b : Type 0}
    → P ↔ (Q × S)
    → Q ↔ (a × R)
    → (R ↔ b)
    → P ↔ (a × (b × S))
chain f g h = (
  (λ p. let (q, s) = f.0 p in let (x, r) = g.0 q in (x, (h.0 r, s))),
  (λ t. f.1 (g.1 (t.0, h.1 t.1.0), t.1.1)),
)

-- A pass leaves no failure exactly where there was none and its criteria are met.
defects_iff :
    (limits : List (String × ℕ)) (l : List (String × ℕ)) (r : Report)
    → ((check_defects limits l r).failures ≡ [])
      ↔ ((r.failures ≡ []) × All (λ (d : String × ℕ). d.1 ≤ get_or d.0 0 limits) l)
unfolding check_defects
defects_iff limits [] r = ((λ e. (e, tt)), (λ e. e.0))
defects_iff limits ((n, c) ∷ l) r =
    chain (defects_iff limits l _)
      (note-failures (ltb (get_or n 0 limits) c) (Check.fabric_defect n c (get_or n 0 limits)) r)
      (ground arith)

flag_iff :
    (c : Check) (o : Option Bool) (r : Report)
    → ((check_flag c o r).failures ≡ []) ↔ ((r.failures ≡ []) × (o ≢ some false))
unfolding check_flag
flag_iff c none r = ((λ e. (e, λ h. cc)), (λ e. e.0))
flag_iff c (some true) r = ((λ e. (e, λ h. cc)), (λ e. e.0))
flag_iff c (some false) r =
    ((λ e. absurd (append-nil_parts r.failures c e)), (λ e. absurd (e.1 refl)))

-- A pass returns, with no failure exactly where there was none and its criteria are met, or raises.
abbrev Passes : Result Report → Report → Type 0 → Type 0 → Type 0
Passes out r Criteria Unreadable =
    ((q : Report) × (out ≡ ok q) × ((q.failures ≡ []) ↔ ((r.failures ≡ []) × Criteria)))
    ⊎ ((out ≡ err value_error) × Unreadable)

exceeds_cases :
    (v : Reading) (limit : Fraction)
    → ((b : Bool) × (exceeds v limit ≡ ok b) × ((b ≡ false) ↔ Within limit v))
      ⊎ ((exceeds v limit ≡ err value_error) × (v ≡ unreadable))
exceeds_cases unreadable limit = inr (refl, refl)
exceeds_cases not_a_number limit = inl (false, refl, ((λ _. tt), (λ _. refl)))
exceeds_cases infinite limit = inl (true, refl, ((λ h. cc), (λ h. absurd h)))
exceeds_cases (finite n below) limit =
    inl (ltb (limit.numerator * suc below) (n * suc limit.below), refl, ground arith)

out_of_tolerance_cases :
    (v : Reading) (o : Option Fraction)
    → ((b : Bool) × (out_of_tolerance o v ≡ ok b) × ((b ≡ false) ↔ WithinAny o v))
      ⊎ ((out_of_tolerance o v ≡ err value_error) × ((o ≢ none) × (v ≡ unreadable)))
out_of_tolerance_cases v none = inl (false, refl, ((λ _. tt), (λ _. refl)))
out_of_tolerance_cases v (some t) = elim (exceeds_cases v t) [
  | inl h ↦ inl h
  | inr (e, u) ↦ inr (e, ((λ n. cc), u))
]

-- One line more in a pass.
noting_Passes :
    {W U Criteria Unreadable : Type 0} (t : Result Bool) (c : Check) (rest : Report → Result Report)
    (r : Report)
    → ((b : Bool) × (t ≡ ok b) × ((b ≡ false) ↔ W)) ⊎ ((t ≡ err value_error) × U)
    → ((q : Report) → Passes (rest q) q Criteria Unreadable)
    → Passes (noting t c rest r) r (W × Criteria) (U ⊎ Unreadable)
noting_Passes t c rest r test next = elim test [
  | inr (e, u) ↦ rw e (inr (refl, inl u))
  | inl (b, e, f) ↦ elim (next (note b c r)) [
    | inr (k, u) ↦ rw e (inr (k, inr u))
    | inl (q, k, g) ↦ rw e (inl (q, k, chain g (note-failures b c r) f))
  ]
]

check_sizes_Passes :
    (limits : List (String × Fraction)) (l : List (String × Reading)) (r : Report)
    → Passes
        (check_sizes limits l r)
        r
        (All (λ (d : String × Reading). Within (get_or d.0 no_limit limits) d.1) l)
        (HasUnreadableSize l)
unfolding check_sizes
check_sizes_Passes limits [] r = inl (r, refl, ((λ e. (e, tt)), (λ e. e.0)))
check_sizes_Passes limits ((n, v) ∷ l) r =
    noting_Passes (exceeds v (get_or n no_limit limits)) (Check.size_deviation n v)
      (check_sizes limits l) r (exceeds_cases v (get_or n no_limit limits))
      (check_sizes_Passes limits l)

check_colors_Passes :
    (tolerances : List (String × Fraction)) (l : List (String × Reading)) (r : Report)
    → Passes
        (check_colors tolerances l r)
        r
        (All (λ (d : String × Reading). WithinAny (get d.0 tolerances) d.1) l)
        (HasUnreadableColor tolerances l)
unfolding check_colors
check_colors_Passes tolerances [] r = inl (r, refl, ((λ e. (e, tt)), (λ e. e.0)))
check_colors_Passes tolerances ((n, v) ∷ l) r =
    noting_Passes (out_of_tolerance (get n tolerances) v) (Check.color_difference n v)
      (check_colors tolerances l) r (out_of_tolerance_cases v (get n tolerances))
      (check_colors_Passes tolerances l)

run_checks_cases :
    (i : Inspection) (s : Standard)
    → ((q : Report) × (run_checks i s ≡ ok q) × ((q.failures ≡ []) ↔ Meets i s))
      ⊎ ((run_checks i s ≡ err value_error)
          × (HasUnreadableSize i.size_deviation
              ⊎ HasUnreadableColor s.color_difference_tolerance i.color_difference))
unfolding run_checks
run_checks_cases i s =
    let start : Report = record { failures = []; passed = [] } in
    let defects = check_defects s.fabric_defect_limits i.fabric_defects start in
    let label = check_flag Check.label_compliance i.label_compliance defects in
    let packaging = check_flag Check.packaging_compliance i.packaging_compliance label in
    let f₁ = defects_iff s.fabric_defect_limits i.fabric_defects start in
    let f₂ = flag_iff Check.label_compliance i.label_compliance defects in
    let f₃ = flag_iff Check.packaging_compliance i.packaging_compliance label in
    elim (check_sizes_Passes s.size_deviation_limits i.size_deviation packaging) [
      | inr (e, u) ↦ inr (rw (e, run_checks) refl, inl u)
      | inl (sizes, e, f₄) ↦
          elim (check_colors_Passes s.color_difference_tolerance i.color_difference sizes) [
            | inr (k, u) ↦ inr (rw (e, k, run_checks) refl, inr u)
            | inl (q, k, f₅) ↦ inl (
              q,
              rw (e, k, run_checks) refl,
              (
                (λ h.
                    let (e₄, c) = f₅.0 h in
                    let (e₃, z) = f₄.0 e₄ in
                    let (e₂, p) = f₃.0 e₃ in
                    let (e₁, l) = f₂.0 e₂ in
                    record {
                      defects = (f₁.0 e₁).1;
                      label = l;
                      packaging = p;
                      sizes = z;
                      colors = c;
                    }),
                (λ m. f₅.1 (
                  f₄.1 (f₃.1 (f₂.1 (f₁.1 (refl, m.defects), m.label), m.packaging), m.sizes),
                  m.colors,
                )),
              ),
            )
          ]
    ]

is_empty_iff : (l : List Check) → (is_empty l ≡ true) ↔ (l ≡ [])
is_empty_iff [] = ((λ _. refl), (λ _. refl))
is_empty_iff (x ∷ l) = ((λ e. cc), (λ e. cc))

abbrev outcome : Bool → String
outcome b = if b then "QC_PASSED" else "QC_FAILED"

failed-ne-passed : ◌≢◌ {A = String} "QC_FAILED" "QC_PASSED"
failed-ne-passed = ground (arith, eq_iff "QC_FAILED" "QC_PASSED")

outcome_iff :
    {m : Type 0} (b : Bool)
    → (b ≡ true) ↔ m
    → ((outcome b ≡ "QC_PASSED") ↔ m)
      × ((outcome b ≡ "QC_FAILED") ↔ (¬ m))
      × (((if b then false else true) ≡ false) ↔ m)
outcome_iff true f = (
  ((λ _. f.0 refl), (λ _. refl)),
  ((λ e h. failed-ne-passed (sym e)), (λ n. absurd (n (f.0 refl)))),
  ((λ _. f.0 refl), (λ _. refl)),
)
outcome_iff false f = (
  ((λ e. absurd (failed-ne-passed e)), (λ h. cc (f.1 h))),
  ((λ _ h. cc (f.1 h)), (λ _. refl)),
  ((λ e. cc), (λ h. cc (f.1 h))),
)

-- What a verdict says, by the criteria.
abbrev pub Judges : Inspection → Standard → Verdict → Type 0
Judges i s v =
    ((v.result ≡ "QC_PASSED") ↔ Meets i s)
    × ((v.result ≡ "QC_FAILED") ↔ (¬ Meets i s))
    × ((v.rework_required ≡ false) ↔ Meets i s)
    × ((v.failure_reasons ≡ []) ↔ Meets i s)

verdict_of-Judges :
    (i : Inspection) (s : Standard) (q : Report)
    → (q.failures ≡ []) ↔ Meets i s
    → Judges i s (verdict_of q)
verdict_of-Judges i s q f =
    let e = is_empty_iff q.failures in
    let (passed, failed, rework) =
      outcome_iff (is_empty q.failures) ((λ h. f.0 (e.0 h)), (λ m. e.1 (f.1 m))) in
    (passed, failed, rework, f)

pub evaluate_qc_record_exact :
    (i : Inspection) (s : Standard)
    → ((v : Verdict) × (evaluate_qc_record i s ≡ ok v) × Judges i s v)
      ⊎ ((evaluate_qc_record i s ≡ err value_error)
          × (HasUnreadableSize i.size_deviation
              ⊎ HasUnreadableColor s.color_difference_tolerance i.color_difference))
unfolding evaluate_qc_record
evaluate_qc_record_exact i s = elim (run_checks_cases i s) [
  | inl (q, e, f) ↦ inl (verdict_of q, rw (e, evaluate_qc_record) refl, verdict_of-Judges i s q f)
  | inr (e, u) ↦ inr (rw (e, evaluate_qc_record) refl, u)
]
