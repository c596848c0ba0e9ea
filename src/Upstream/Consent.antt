-- ===== src/Upstream/Consent.antt =====
-- Who can approve an option.
use mathlib.Core.Path.{subst}
use abcd_yi.Prelude.{
  ℕ, String, Bool, true, false, not, ◌≡◌, refl, sym, ap, ◌∙◌, arith, ◌||◌, none, some, List, any,
  inl, inr, ◌⊎◌, Bool-cases, Option-cases, if◌then◌else◌,
}
use abcd_yi.Prelude.Exec.{ok_inj, not_returned, ok, err, value_error, ◌>>=◌}
use abcd_yi.Upstream.Options.{UpstreamOption}
use abcd_yi.Upstream.Approval.{
  ApprovalMode, human, authorized_agent, approved, OptionRequest, OptionApproval, is_high_risk,
  request_upstream_option_approval, find_option, mode_permitted, approve_upstream_option,
}

permits_human : (mode : ApprovalMode) → mode_permitted human mode ≡ true → mode ≡ human
permits_human human h = refl
permits_human authorized_agent h = absurd (ground arith)

module _ {F : Type 0} (option_id : ℕ) (approved_by : String) (mode : ApprovalMode)
    (r : OptionRequest F) where
  -- An approval succeeds exactly where the request lets this kind of approver in and has the option;
  -- otherwise it raises and changes nothing. The request's status has no part in it.
  approve_upstream_option_cases :
      ((mode_permitted r.required_approval_mode mode ≡ true)
        × ((o : UpstreamOption F) × (find_option option_id r.options ≡ some o)
            × (approve_upstream_option option_id approved_by mode r ≡ (
              ok (record {
                approval_request_id = r.approval_request_id;
                approved_option = o;
                approved_by = approved_by;
                mode = mode;
              }),
              record r { status = approved },
            ))))
      ⊎ (((mode_permitted r.required_approval_mode mode ≡ false)
            ⊎ (find_option option_id r.options ≡ none))
          × (approve_upstream_option option_id approved_by mode r ≡ (err value_error, r)))
  unfolding approve_upstream_option ◌>>=◌
  approve_upstream_option_cases = elim (Bool-cases (mode_permitted r.required_approval_mode mode)) [
    | inl p ↦ elim (Option-cases (find_option option_id r.options)) [
      | inl e ↦ inr (inr e, ground arith)
      | inr (o, e) ↦ inl (p, (o, e, ground arith))
    ]
    | inr p ↦ inr (inl p, ground arith)
  ]

-- Where an option has a high risk, or approvals by agents are not enabled, only a human can approve
-- one of the options of the request.
pub approved_by_human :
    {F : Type 0} (auto : Bool) (id : ℕ) (project_id dependency_id dependency_type : String)
    (options : List (UpstreamOption F)) (option_id : ℕ) (approved_by : String) (mode : ApprovalMode)
    (a : OptionApproval F)
    → (any is_high_risk options || not auto) ≡ true
    → (approve_upstream_option option_id approved_by mode (
        request_upstream_option_approval auto id project_id dependency_id dependency_type
          options)).0
      ≡ ok a
    → (mode ≡ human) × (a.mode ≡ human) × (find_option option_id options ≡ some a.approved_option)
unfolding request_upstream_option_approval
approved_by_human {F} auto id project_id dependency_id dependency_type options option_id approved_by
      mode a risky h =
    let request =
      request_upstream_option_approval auto id project_id dependency_id dependency_type options in
    elim (approve_upstream_option_cases option_id approved_by mode request) [
      | inl (p, (o, e, q)) ↦
          let given : record {
            approval_request_id = id;
            approved_option = o;
            approved_by = approved_by;
            mode = mode;
          }
              ≡ a =
            ok_inj (sym (ap (λ x. x.0) q) ∙ h) in
          let only : mode ≡ human = permits_human mode (
            subst (λ (b : Bool). mode_permitted (if b then human else authorized_agent) mode ≡ true)
              risky p) in
          (
            only,
            sym (ap (λ (x : OptionApproval F). x.mode) given) ∙ only,
            e ∙ ap (λ (x : OptionApproval F). some x.approved_option) given,
          )
      | inr (e, q) ↦ absurd (not_returned q h)
    ]
