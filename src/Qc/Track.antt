-- ===== src/Qc/Track.antt =====
-- What the result of an inspection makes of the order.
use mathlib.Core.Path.{subst}
use abcd_yi.Prelude.{
  ℕ, sym, true, false, ◌⊎◌, eq_iff, arith, String, Option, none, some, List, [], ◌≡◌, ◌∙◌, ◌==◌,
  refl, ap, inl, inr, str_eq, Bool-cases,
}
use abcd_yi.Prelude.Exec.{
  state_found, state_gets, state_lift, state_then, ◌>>=◌, ok, err, ok_inj, value_error,
  state-then_pure,
}
use abcd_yi.Prelude.Table.{find, find-put_self, matches, one_or_none}
use abcd_yi.Db.{Db, Order, QcRecord, QcStandard, emit_event}
use abcd_yi.Orders.{
  Moved, Moved-same, Moved-bind, Moved-fetch, Moved-modify, Moved-move, Moved-gets, Moved-lift,
  Moved-last, Moved-pure, move_order, move_order-Moved, log_event, order_transitions, transition,
}
use abcd_yi.Fsm.{allowed}
use abcd_yi.Quality.{create_quality_incident, incident_orders, incident_qc_records}
use abcd_yi.Qc.Evaluate.{Inspection, Standard, Verdict, evaluate_qc_record}
use abcd_yi.Qc.Criteria.{Meets, Judges, evaluate_qc_record_exact}
use abcd_yi.Qc.Service.{
  NewIds, qc_passed, qc_failed, conclude, add_qc_record, evaluated, blame, std_dict,
  record_qc_result,
}

blame_orders :
    (now : ℕ) (ids : NewIds) (id : ℕ) (p : Option ℕ) (reasons : List String) (tenant : ℕ) (db : Db)
    → (blame now ids id p reasons tenant db).1.orders ≡ db.orders
unfolding blame ◌>>=◌
blame_orders now ids id none reasons tenant db = refl
blame_orders now ids id (some p) reasons tenant db =
    ap (λ (d : Db). d.orders)
      (state-then_pure (create_quality_incident now ids.incident ids.alert _ tenant) tt db)
    ∙ incident_orders now ids.incident ids.alert _ tenant db

blame_records :
    (now : ℕ) (ids : NewIds) (id : ℕ) (p : Option ℕ) (reasons : List String) (tenant : ℕ) (db : Db)
    → (blame now ids id p reasons tenant db).1.qc_records ≡ db.qc_records
unfolding blame ◌>>=◌
blame_records now ids id none reasons tenant db = refl
blame_records now ids id (some p) reasons tenant db =
    ap (λ (d : Db). d.qc_records)
      (state-then_pure (create_quality_incident now ids.incident ids.alert _ tenant) tt db)
    ∙ incident_qc_records now ids.incident ids.alert _ tenant db

module _ (now record_id : ℕ) (ids : NewIds) (id : ℕ) (o : Order) (p : Option ℕ)
    (reasons : List String) (tenant user : ℕ) where
  qc_passed-Moved :
      (db : Db)
      → find id db.orders ≡ some o
      → Moved db (qc_passed now record_id id o tenant user db).1
  unfolding qc_passed log_event
  qc_passed-Moved db f = elim (Bool-cases (str_eq o.status "QC_PENDING")) [
    | inl t ↦ rw t (
        Moved-bind _ _ db (Moved-move id o _ _ db f λ q db₁ fq _. move_order-Moved id q _ db₁ fq)
          λ _ _. Moved-last _ _ refl)
    | inr t ↦ rw t (Moved-bind _ _ db (Moved-pure o db) λ _ _. Moved-last _ _ refl)
  ]

  qc_failed-Moved :
      (db : Db)
      → find id db.orders ≡ some o
      → Moved db (qc_failed now ids id o p reasons tenant user db).1
  unfolding qc_failed log_event
  qc_failed-Moved db f = elim (Bool-cases (str_eq o.status "QC_PENDING")) [
    | inl t ↦ rw t (
        Moved-bind _ _ db (move_order-Moved id o _ db f) λ _ _.
          Moved-modify _ _ _ refl (Moved-same _ _ (blame_orders now ids id p reasons tenant _)))
    | inr t ↦ rw t (
        Moved-bind _ _ db (Moved-pure o db) λ _ _.
          Moved-modify _ _ _ refl (Moved-same _ _ (blame_orders now ids id p reasons tenant _)))
  ]

  qc_passed_ready :
      (db : Db)
      → o.status ≡ "QC_PENDING"
      → find id (qc_passed now record_id id o tenant user db).1.orders
        ≡ some (record o { status = "READY_TO_SHIP" })
  unfolding qc_passed log_event move_order transition ◌>>=◌ allowed order_transitions
  qc_passed_ready db h = rw h (find-put_self id _ _)

  qc_failed_status :
      (db : Db)
      → o.status ≡ "QC_PENDING"
      → find id (qc_failed now ids id o p reasons tenant user db).1.orders
        ≡ some (record o { status = "QC_FAILED" })
  unfolding qc_failed log_event move_order transition ◌>>=◌ allowed order_transitions
  qc_failed_status db h = rw (h, blame_orders) (find-put_self id _ _)

  qc_passed_records :
      (db : Db)
      → o.status ≡ "QC_PENDING"
      → (qc_passed now record_id id o tenant user db).1.qc_records ≡ db.qc_records
  unfolding qc_passed log_event move_order transition ◌>>=◌ allowed order_transitions
  qc_passed_records db h = rw h refl

  qc_failed_records :
      (db : Db)
      → o.status ≡ "QC_PENDING"
      → (qc_failed now ids id o p reasons tenant user db).1.qc_records ≡ db.qc_records
  unfolding qc_failed log_event move_order transition ◌>>=◌ allowed order_transitions
  qc_failed_records db h = rw (h, blame_records) refl

conclude-Moved :
    (now : ℕ) (ids : NewIds) (id : ℕ) (o : Order) (v : Verdict) (p : Option ℕ) (tenant user : ℕ)
    (db : Db)
    → find id db.orders ≡ some o
    → Moved db (conclude now ids id o v p tenant user db).1
unfolding conclude
conclude-Moved now ids id o v p tenant user db f = elim (Bool-cases (str_eq v.result "QC_PASSED")) [
  | inl t ↦ rw t (qc_passed-Moved now ids.qc_record ids id o p [] tenant user db f)
  | inr t ↦ rw t (qc_failed-Moved now ids.qc_record ids id o p _ tenant user db f)
]

conclude_records :
    (now : ℕ) (ids : NewIds) (id : ℕ) (o : Order) (v : Verdict) (p : Option ℕ) (tenant user : ℕ)
    (db : Db)
    → o.status ≡ "QC_PENDING"
    → (conclude now ids id o v p tenant user db).1.qc_records ≡ db.qc_records
unfolding conclude
conclude_records now ids id o v p tenant user db h =
    elim (Bool-cases (str_eq v.result "QC_PASSED")) [
      | inl t ↦ rw t (qc_passed_records now ids.qc_record ids id o p [] tenant user db h)
      | inr t ↦ rw t (qc_failed_records now ids.qc_record ids id o p _ tenant user db h)
    ]

add_qc_record_saved :
    (now : ℕ) (ids : NewIds) (id : ℕ) (r : QcRecord) (tenant user : ℕ) (db : Db)
    → find ids.qc_record (add_qc_record now ids.qc_record id r tenant user db).1.qc_records ≡ some r
unfolding add_qc_record log_event emit_event ◌>>=◌
add_qc_record_saved now ids id r tenant user db = find-put_self ids.qc_record r db.qc_records

add_qc_record_orders :
    (now : ℕ) (ids : NewIds) (id : ℕ) (r : QcRecord) (tenant user : ℕ) (db : Db)
    → (add_qc_record now ids.qc_record id r tenant user db).1.orders ≡ db.orders
unfolding add_qc_record log_event emit_event ◌>>=◌
add_qc_record_orders now ids id r tenant user db = refl

add_qc_record_ok :
    (now : ℕ) (ids : NewIds) (id : ℕ) (r : QcRecord) (tenant user : ℕ) (db : Db)
    → (add_qc_record now ids.qc_record id r tenant user db).0 ≡ ok tt
unfolding add_qc_record log_event emit_event ◌>>=◌
add_qc_record_ok now ids id r tenant user db = refl

pub record_qc_result-Moved :
    (now : ℕ) (ids : NewIds) (id : ℕ) (i : Inspection) (p inspector : Option ℕ) (tenant user : ℕ)
    (db : Db)
    → Moved db (record_qc_result now ids id i p inspector tenant user db).1
unfolding record_qc_result
record_qc_result-Moved now ids id i p inspector tenant user db = Moved-fetch _ _ _ db λ o f.
    Moved-gets _ _ db (
      Moved-lift _ _ db λ s _. Moved-lift _ _ db λ v _.
        let frame =
          add_qc_record_orders now ids id (evaluated now id v s p inspector) tenant user db in
        Moved-bind _ _ db (Moved-same _ _ frame) λ _ _.
          (Moved-bind _ _ _ (conclude-Moved now ids id o _ p tenant user _ (rw frame f))
            λ _ _. Moved-pure _ _))

-- With the order and its standard found and a verdict given, what remains is the conclusion.
record_qc_result_concludes :
    (now : ℕ) (ids : NewIds) (id : ℕ) (i : Inspection) (p inspector : Option ℕ) (tenant user : ℕ)
    (db : Db) (o : Order) (standard : Option (ℕ × QcStandard)) (v : Verdict)
    → find id db.orders ≡ some o
    → one_or_none (matches (λ (s : QcStandard). s.order_id == id) db.qc_standards) ≡ ok standard
    → evaluate_qc_record i (std_dict standard) ≡ ok v
    → let mid =
        (add_qc_record now ids.qc_record id
          (evaluated now id v standard p inspector)
          tenant
          user
          db).1 in
      (record_qc_result now ids id i p inspector tenant user db).1
      ≡ (conclude now ids id o v p tenant user mid).1
unfolding record_qc_result
record_qc_result_concludes now ids id i p inspector tenant user db o standard v f s e =
    state_found _ db _ _ o f (
      state_gets _ db _ (
        state_lift _ db _ standard s (
          state_lift _ db _ v e (
            state_then _ _ db _ tt (add_qc_record_ok now ids id _ tenant user db)
              (state-then_pure (conclude now ids id o v p tenant user) _ _)))))

-- What a verdict that is given says of the criteria.
verdict_cases :
    (i : Inspection) (s : Standard) (v : Verdict)
    → evaluate_qc_record i s ≡ ok v
    → (Meets i s × (v.result ≡ "QC_PASSED")) ⊎ ((¬ Meets i s) × (v.result ≡ "QC_FAILED"))
verdict_cases i s v e = elim (evaluate_qc_record_exact i s) [
  | inr (k, u) ↦ let no : ok v ≡ err value_error = sym e ∙ k in ground arith
  | inl (w, k, judges) ↦
      let same : w ≡ v = ok_inj (sym k ∙ e) in
      let (passed, failed, _, _) = subst (Judges i s) same judges in
      elim (Bool-cases (str_eq v.result "QC_PASSED")) [
        | inl t ↦
            let r : v.result ≡ "QC_PASSED" = (eq_iff v.result "QC_PASSED").0 t in
            inl (passed.0 r, r)
        | inr t ↦
            let n : ¬ Meets i s = λ m.
              let no : true ≡ false = sym ((eq_iff v.result "QC_PASSED").1 (passed.1 m)) ∙ t in
              cc in
            inr (n, failed.1 n)
      ]
]

-- An inspection of an order that awaits it, of which the evaluation gives a verdict, decides the order: it
-- becomes ready to ship where every criterion of its standard is met, and QC_FAILED otherwise, and the
-- new QC record has that result.
pub record_qc_result_decides :
    (now : ℕ) (ids : NewIds) (id : ℕ) (i : Inspection) (p inspector : Option ℕ) (tenant user : ℕ)
    (db : Db) (o : Order) (standard : Option (ℕ × QcStandard)) (v : Verdict)
    → find id db.orders ≡ some o
    → o.status ≡ "QC_PENDING"
    → one_or_none (matches (λ (s : QcStandard). s.order_id == id) db.qc_standards) ≡ ok standard
    → evaluate_qc_record i (std_dict standard) ≡ ok v
    → let db' = (record_qc_result now ids id i p inspector tenant user db).1 in
      (r : QcRecord) × (find ids.qc_record db'.qc_records ≡ some r)
      × (r.order_id ≡ id)
      × ((Meets i (std_dict standard)
            × (find id db'.orders ≡ some (record o { status = "READY_TO_SHIP" }))
            × (r.result ≡ "QC_PASSED"))
          ⊎ ((¬ Meets i (std_dict standard))
              × (find id db'.orders ≡ some (record o { status = "QC_FAILED" }))
              × (r.result ≡ "QC_FAILED")))
unfolding conclude
record_qc_result_decides now ids id i p inspector tenant user db o standard v f pending s e =
    let c = record_qc_result_concludes now ids id i p inspector tenant user db o standard v f s e in
    let row = evaluated now id v standard p inspector in
    let saved =
      ap (λ (d : Db). find ids.qc_record d.qc_records) c
      ∙ ap (λ t. find ids.qc_record t) (conclude_records now ids id o v p tenant user _ pending)
      ∙ add_qc_record_saved now ids id row tenant user db in
    (
      row,
      saved,
      refl,
      elim (verdict_cases i (std_dict standard) v e) [
        | inl (m, r) ↦ inl (
          m,
          rw (c, r) (qc_passed_ready now ids.qc_record ids id o p [] tenant user _ pending),
          r,
        )
        | inr (n, r) ↦ inr (
          n,
          rw (c, r) (qc_failed_status now ids.qc_record ids id o p _ tenant user _ pending),
          r,
        )
      ],
    )
