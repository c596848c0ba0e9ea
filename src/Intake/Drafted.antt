-- ===== src/Intake/Drafted.antt =====
-- The inquiries to suppliers that create_supplier_email_drafts of
-- src/aivan/execution/rfq_execution.py puts among the drafts.
use abcd_yi.Prelude.{
  ℕ, ◌<◌, String, false, inl, inr, none, some, Option-cases, List, [], ◌∷◌, ◌==◌, ◌≡◌, ◌≢◌, refl,
  sym, ap, ◌∙◌, arith,
}
use abcd_yi.Prelude.Exec.{Error, Result, ok, err, ok_inj, key_error, Result-cases, ◌>>=◌}
use abcd_yi.Prelude.Table.{Table, find, put, find-put, find-put_self}
use abcd_yi.Drafts.{Draft}
use abcd_yi.Intake.Store.{OpenClawEvent, Strategy, Backend, Services, AgentStore}
use abcd_yi.Intake.Requirement.{BuyerRequirement}
use abcd_yi.Intake.Readiness.{Supplier}
use abcd_yi.Intake.Projects.{add_draft, add_event, create_draft, append_event}
use abcd_yi.Intake.Outreach.{supplier_by_id, inquiry_draft, create_supplier_email_drafts}

-- The row of that key is an inquiry to the supplier that waits for approval.
pub record IsInquiry (x : Supplier) (k : ℕ) (l : Table Draft) : Type 0 where
  pub row : Draft
  pub found : find k l ≡ some row
  pub addressed : row.target_peer_id ≡ x.email
  pub by_email : row.channel ≡ "email"
  pub to_supplier : row.target_role ≡ "supplier"
  pub waits : row.status ≡ "pending_approval"

-- Each name is that of a supplier, for which the key at the same place is that of an inquiry.
abbrev pub AreDrafted : List Supplier → List String → List ℕ → Table Draft → Type 0
AreDrafted suppliers [] [] l = Unit
AreDrafted suppliers (name ∷ names) (k ∷ ks) l =
    ((x : Supplier) × (supplier_by_id name suppliers ≡ some x) × IsInquiry x k l)
    × AreDrafted suppliers names ks l
AreDrafted suppliers [] (_ ∷ _) l = ⊥
AreDrafted suppliers (_ ∷ _) [] l = ⊥

err-ne-ok : (e : Error) (ks : List ℕ) → ◌≢◌ {A = Result (List ℕ)} (err e) (ok ks)
err-ne-ok e ks h = cc

module _ {b : Backend} (v : Services b) (project : ℕ) (event : OpenClawEvent) (r : BuyerRequirement)
    (strategy : Strategy) (gltg : b.Gltg) (suppliers : List Supplier) where
  abbrev run : List String → AgentStore b → Result (List ℕ) × AgentStore b
  run = create_supplier_email_drafts v project event r strategy gltg suppliers

  abbrev inquiry : Supplier → Draft
  inquiry x = inquiry_draft project event x (v.supplier_email r strategy x gltg)

  -- The store after the first of the suppliers.
  abbrev next : Supplier → AgentStore b → AgentStore b
  next x s =
      add_event
        (record {
          project_id = project;
          event_type = "PENDING_EMAIL_DRAFT_CREATED";
          actor = "aivan_rfq_execution";
        })
        (add_draft (inquiry x) s)

  run_unknown :
      (name : String) (names : List String) (s : AgentStore b)
      → supplier_by_id name suppliers ≡ none
      → run (name ∷ names) s ≡ (err key_error, s)
  unfolding create_supplier_email_drafts ◌>>=◌
  run_unknown name names s e = ground arith

  run_known :
      (name : String) (names : List String) (s : AgentStore b) (x : Supplier)
      → supplier_by_id name suppliers ≡ some x
      → (ks : List ℕ) → (run names (next x s)).0 ≡ ok ks
      → run (name ∷ names) s ≡ (ok (s.next_id ∷ ks), (run names (next x s)).1)
  unfolding create_supplier_email_drafts create_draft append_event ◌>>=◌
  run_known name names s x e ks h = ground arith

  run_failed :
      (name : String) (names : List String) (s : AgentStore b) (x : Supplier)
      → supplier_by_id name suppliers ≡ some x
      → (a : Error) → (run names (next x s)).0 ≡ err a
      → run (name ∷ names) s ≡ (err a, (run names (next x s)).1)
  unfolding create_supplier_email_drafts create_draft append_event ◌>>=◌
  run_failed name names s x e a h = ground arith

  -- A row that was there stays.
  run_older :
      (names : List String) (s : AgentStore b) (k : ℕ)
      → k < s.next_id
      → find k (run names s).1.drafts ≡ find k s.drafts
  unfolding create_supplier_email_drafts add_draft add_event ◌>>=◌
  run_older [] s k older = refl
  run_older (name ∷ names) s k older = elim (Option-cases (supplier_by_id name suppliers)) [
    | inl e ↦
        ap (λ (out : Result (List ℕ) × AgentStore b). find k out.1.drafts)
          (run_unknown name names s e)
    | inr (x, e) ↦ elim (Result-cases (run names (next x s)).0) [
      | inl (ks, f) ↦
          ap (λ (out : Result (List ℕ) × AgentStore b). find k out.1.drafts)
            (run_known name names s x e ks f)
          ∙ (run_older names (next x s) k (omega (arith, older)) ∙ kept x)
      | inr (a, f) ↦
          ap (λ (out : Result (List ℕ) × AgentStore b). find k out.1.drafts)
            (run_failed name names s x e a f)
          ∙ (run_older names (next x s) k (omega (arith, older)) ∙ kept x)
    ]
  ]
    where
      kept : (x : Supplier) → find k (put s.next_id (inquiry x) s.drafts) ≡ find k s.drafts
      kept x =
          let other : (s.next_id == k) ≡ false = ground arith in
          find-put s.next_id k (inquiry x) s.drafts ∙ rw other refl

  run_first :
      (names : List String) (s : AgentStore b) (x : Supplier)
      → IsInquiry x s.next_id (run names (next x s)).1.drafts
  unfolding add_draft add_event
  run_first names s x = record {
    row = inquiry x;
    found =
        run_older names (next x s) s.next_id (omega arith)
        ∙ find-put_self s.next_id (inquiry x) s.drafts;
    addressed = refl;
    by_email = refl;
    to_supplier = refl;
    waits = refl;
  }

  -- Where the loop returns, each of the ids that it returns is the key of an inquiry that waits.
  pub run-AreDrafted :
      (names : List String) (s : AgentStore b) (ks : List ℕ)
      → (run names s).0 ≡ ok ks
      → AreDrafted suppliers names ks (run names s).1.drafts
  unfolding create_supplier_email_drafts ◌>>=◌
  run-AreDrafted [] s ks h = let same : [] ≡ ks = ok_inj h in rw (← same) tt
  run-AreDrafted (name ∷ names) s ks h = elim (Option-cases (supplier_by_id name suppliers)) [
    | inl e ↦ absurd (
        err-ne-ok key_error ks (
          sym (ap (λ (out : Result (List ℕ) × AgentStore b). out.0) (run_unknown name names s e))
          ∙ h))
    | inr (x, e) ↦ elim (Result-cases (run names (next x s)).0) [
      | inl (ks', f) ↦
          let known = run_known name names s x e ks' f in
          let same : s.next_id ∷ ks' ≡ ks =
            ok_inj (sym (ap (λ (out : Result (List ℕ) × AgentStore b). out.0) known) ∙ h) in
          rw (← same)
            (rw known ((x, e, run_first names s x), run-AreDrafted names (next x s) ks' f))
      | inr (a, f) ↦ absurd (
          err-ne-ok a ks (
            sym (
              ap (λ (out : Result (List ℕ) × AgentStore b). out.0)
                (run_failed name names s x e a f))
            ∙ h))
    ]
  ]
