-- ===== src/Intake/Approved.antt =====
-- An approval, and a rejection, keeps the drafts of the sales agent guarded:
-- src/aivan/execution/approval_state.py, src/aivan/api/main.py and
-- src/aivan/openclaw/outbound_approval.py.
use abcd_yi.Prelude.{
  ℕ, String, true, false, inl, inr, some, Option-cases, Bool-cases, is_some, str_eq, ◌≡◌, refl, ◌⊎◌,
  eq_iff, ap, sym, ◌∙◌, arith,
}
use abcd_yi.Prelude.Exec.{Result-cases, ◌>>=◌}
use abcd_yi.Prelude.Table.{Table, find, put, find-put_self, put-put}
use abcd_yi.Drafts.{
  sent_draft, failed_draft, approved_draft, transport_error, send_failed, channel_policy_blocked,
  is_terminal, is_approvable, Failure, Draft, Texts, Response, delivered, refused, unreachable,
  validate_draft_send_policy, mark_sent, mark_send_failed, mark_approved_pending_send,
  approve_and_send, send_draft, settle, blocked, reject, Outbound, approve, send_found, answer_to,
  send_if_approved, do_approve_draft, do_reject_draft,
}
use abcd_yi.Intake.Standing.{
  IsGuarded, for_operator, waiting, taken_back, turned_down, granted, let_out, tried, stopped,
  AreGuarded, put-AreGuarded, find-IsGuarded,
}

module _ (t : Texts) (now : ℕ) (by : String) (d : Draft) where
  approved-target_role : (approved_draft now by d).target_role ≡ d.target_role
  approved-target_role = elim (Bool-cases (str_eq d.status "pending_approval")) [
    | inl e ↦ rw e refl
    | inr e ↦ rw e refl
  ]

  approved-policy :
      validate_draft_send_policy t (approved_draft now by d) ≡ validate_draft_send_policy t d
  unfolding validate_draft_send_policy
  approved-policy = elim (Bool-cases (str_eq d.status "pending_approval")) [
    | inl e ↦ rw e refl
    | inr e ↦ rw e refl
  ]

  approved_at_pending :
      d.status ≡ "pending_approval" → is_some (approved_draft now by d).approved_at ≡ true
  approved_at_pending w =
      let e : str_eq d.status "pending_approval" ≡ true =
        (eq_iff d.status "pending_approval").1 w in
      rw e refl

  approved_at_kept :
      is_some d.approved_at ≡ true → is_some (approved_draft now by d).approved_at ≡ true
  approved_at_kept h = elim (Bool-cases (str_eq d.status "pending_approval")) [
    | inl e ↦ rw e refl
    | inr e ↦ rw e h
  ]

  -- A draft that may be approved, and that the policy allows.
  module _ (a : is_approvable d.status ≡ true) (p : validate_draft_send_policy t d ≡ true) where
    not_closed : (s : String) → d.status ≡ s → is_approvable s ≡ false → ⊥
    not_closed s w n =
        let same : is_approvable d.status ≡ is_approvable s = ap (λ x. is_approvable x) w in
        let no : true ≡ false = sym a ∙ same ∙ n in cc

    ready :
        IsGuarded t d
        → (d.target_role ≡ "user") ⊎ (is_some (approved_draft now by d).approved_at ≡ true)
    ready (for_operator u) = inl u
    ready (waiting w) = inr (approved_at_pending w)
    ready (taken_back w) = absurd (not_closed "superseded" w refl)
    ready (turned_down w) = absurd (not_closed "rejected" w refl)
    ready (granted w x) = absurd (not_closed "approved" w refl)
    ready (let_out w x q) = inr (approved_at_kept x)
    ready (tried w x q) = inr (approved_at_kept x)
    ready (stopped w n) = let no : true ≡ false = sym p ∙ n in cc

    sent-IsGuarded : IsGuarded t d → IsGuarded t (sent_draft now (approved_draft now by d))
    unfolding validate_draft_send_policy
    sent-IsGuarded g = elim (ready g) [
      | inl u ↦ for_operator (approved-target_role ∙ u)
      | inr x ↦ let_out refl x (approved-policy ∙ p)
    ]

    failed-IsGuarded :
        (f : Failure) → IsGuarded t d → IsGuarded t (failed_draft f (approved_draft now by d))
    unfolding validate_draft_send_policy
    failed-IsGuarded f g = elim (ready g) [
      | inl u ↦ for_operator (approved-target_role ∙ u)
      | inr x ↦ tried refl x (approved-policy ∙ p)
    ]

-- The draft is found, and the tables before and after it was written twice.
module _ (t : Texts) (now id : ℕ) (by : String) (d : Draft) (l : Table Draft)
    (found : find id l ≡ some d) where
  -- What a sending leaves: the draft sent, or failed for a reason.
  send_draft_row :
      (r : Response)
      → ((send_draft now id by r l).1 ≡ put id (sent_draft now (approved_draft now by d)) l)
        ⊎ ((f : Failure) × ((send_draft now id by r l).1
              ≡ put id (failed_draft f (approved_draft now by d)) l))
  unfolding send_draft settle mark_sent mark_send_failed mark_approved_pending_send ◌>>=◌
  send_draft_row (delivered m) =
      let x = approved_draft now by d in
      inl (ground (arith, find-put_self id x l, put-put id (sent_draft now x) x l))
  send_draft_row refused =
      let x = approved_draft now by d in
      inr (
        send_failed,
        ground (arith, find-put_self id x l, put-put id (failed_draft send_failed x) x l),
      )
  send_draft_row unreachable =
      let x = approved_draft now by d in
      inr (
        transport_error,
        ground (arith, find-put_self id x l, put-put id (failed_draft transport_error x) x l),
      )

  module _ (a : AreGuarded t l) (q : is_approvable d.status ≡ true) where
    send_draft-AreGuarded :
        (r : Response)
        → validate_draft_send_policy t d ≡ true
        → AreGuarded t (send_draft now id by r l).1
    send_draft-AreGuarded r p =
        let g = find-IsGuarded t id d l found a in
        elim (send_draft_row r) [
          | inl e ↦ rw e (put-AreGuarded t id _ l (sent-IsGuarded t now by d q p g) a)
          | inr (f, e) ↦ rw e (put-AreGuarded t id _ l (failed-IsGuarded t now by d q p f g) a)
        ]

    blocked-AreGuarded : validate_draft_send_policy t d ≡ false → AreGuarded t (blocked id l).1
    unfolding blocked mark_send_failed validate_draft_send_policy ◌>>=◌
    blocked-AreGuarded n =
        let e : (blocked id l).1 ≡ put id (failed_draft channel_policy_blocked d) l =
          ground arith in
        rw e (put-AreGuarded t id _ l (stopped refl n) a)

-- An approval is refused, or the draft may be approved, and the policy decides.
approve_and_send_row :
    (t : Texts) (client : Draft → Response) (now id : ℕ) (by : String) (l : Table Draft)
    → ((approve_and_send t client now id by l).1 ≡ l)
      ⊎ ((d : Draft) × (find id l ≡ some d)
          × (is_approvable d.status ≡ true)
          × (((validate_draft_send_policy t d ≡ false)
                × ((approve_and_send t client now id by l).1 ≡ (blocked id l).1))
              ⊎ ((validate_draft_send_policy t d ≡ true)
                  × ((approve_and_send t client now id by l).1
                      ≡ (send_draft now id by (client d) l).1))))
unfolding approve_and_send ◌>>=◌
approve_and_send_row t client now id by l = elim (Option-cases (find id l)) [
  | inl e ↦ inl (ground arith)
  | inr (d, e) ↦ elim (Bool-cases (is_terminal d.status)) [
    | inl h ↦ inl (ground arith)
    | inr h ↦ elim (Bool-cases (is_approvable d.status)) [
      | inr n ↦ inl (ground arith)
      | inl y ↦ inr (
        d,
        e,
        y,
        elim (Bool-cases (validate_draft_send_policy t d)) [
          | inl p ↦ inr (p, ground arith)
          | inr p ↦ inl (p, ground arith)
        ],
      )
    ]
  ]
]

pub approve_and_send-AreGuarded :
    (t : Texts) (client : Draft → Response) (now id : ℕ) (by : String) (l : Table Draft)
    → AreGuarded t l
    → AreGuarded t (approve_and_send t client now id by l).1
approve_and_send-AreGuarded t client now id by l a =
    elim (approve_and_send_row t client now id by l) [
      | inl e ↦ rw e a
      | inr (d, f, y, inl (p, e)) ↦ rw e (blocked-AreGuarded t now id by d l f a y p)
      | inr (d, f, y, inr (p, e)) ↦ rw e (send_draft-AreGuarded t now id by d l f a y (client d) p)
    ]

pub reject-AreGuarded :
    (t : Texts) (id : ℕ) (l : Table Draft) → AreGuarded t l → AreGuarded t (reject id l).1
unfolding reject ◌>>=◌
reject-AreGuarded t id l a = elim (Option-cases (find id l)) [
  | inl e ↦ let same : (reject id l).1 ≡ l = ground arith in rw same a
  | inr (d, e) ↦ elim (Bool-cases (str_eq d.status "pending_approval")) [
    | inl h ↦
        let put_it : (reject id l).1 ≡ put id (record d { status = "rejected" }) l = ground arith in
        rw put_it (put-AreGuarded t id _ l (turned_down refl) a)
    | inr h ↦ let same : (reject id l).1 ≡ l = ground arith in rw same a
  ]
]

-- The draft is pending, and its row is written by an operator's approval.
module _ (t : Texts) (service : Outbound) (now id : ℕ) (by : String) (d : Draft) (l : Table Draft)
    (found : find id l ≡ some d) (pending : str_eq d.status "pending_approval" ≡ true) where
  abbrev given : Draft
  given = record d { status = "approved"; approved_by = by; approved_at = some now }

  abbrev approved_table : Table Draft
  approved_table = put id given l

  do_approve_draft_sends :
      (do_approve_draft t service now id by l).1
      ≡ (send_if_approved t service now id approved_table).1
  unfolding do_approve_draft approve ◌>>=◌
  do_approve_draft_sends = ground arith

  sends_given :
      send_if_approved t service now id approved_table
      ≡ send_found t service now id given approved_table
  unfolding send_if_approved ◌>>=◌
  sends_given = ground (arith, find-put_self id given l)

  send_given_row :
      ((send_if_approved t service now id approved_table).1 ≡ approved_table)
      ⊎ ((validate_draft_send_policy t given ≡ true)
          × ((send_if_approved t service now id approved_table).1
              ≡ put id (sent_draft now given) approved_table))
  unfolding mark_sent ◌>>=◌
  send_given_row = rw sends_given (elim (Bool-cases (validate_draft_send_policy t given)) [
    | inl p ↦ elim (Result-cases (answer_to t service given)) [
      | inr (x, e) ↦ inl (ground arith)
      | inl (success, e) ↦ elim (Bool-cases success) [
        | inr n ↦ inl (ground arith)
        | inl y ↦ inr (p, ground (arith, find-put_self id given l))
      ]
    ]
    | inr n ↦ inl (ground arith)
  ])

  given_sent-IsGuarded :
      validate_draft_send_policy t given ≡ true → IsGuarded t (sent_draft now given)
  unfolding validate_draft_send_policy
  given_sent-IsGuarded p = let_out refl refl p

  do_approve_draft_pending :
      AreGuarded t l → AreGuarded t (do_approve_draft t service now id by l).1
  do_approve_draft_pending a =
      let here = put-AreGuarded t id given l (granted refl refl) a in
      rw do_approve_draft_sends (elim send_given_row [
        | inl e ↦ rw e here
        | inr (p, e) ↦ rw e (
            put-AreGuarded t id (sent_draft now given) approved_table (given_sent-IsGuarded p) here)
      ])

pub do_approve_draft-AreGuarded :
    (t : Texts) (service : Outbound) (now id : ℕ) (by : String) (l : Table Draft)
    → AreGuarded t l
    → AreGuarded t (do_approve_draft t service now id by l).1
unfolding do_approve_draft ◌>>=◌
do_approve_draft-AreGuarded t service now id by l a = elim (Option-cases (find id l)) [
  | inl e ↦ let same : (do_approve_draft t service now id by l).1 ≡ l = ground arith in rw same a
  | inr (d, e) ↦ elim (Bool-cases (str_eq d.status "pending_approval")) [
    | inl h ↦ do_approve_draft_pending t service now id by d l e h a
    | inr h ↦ let same : (do_approve_draft t service now id by l).1 ≡ l = ground arith in rw same a
  ]
]

pub do_reject_draft-AreGuarded :
    (t : Texts) (id : ℕ) (l : Table Draft) → AreGuarded t l → AreGuarded t (do_reject_draft id l).1
unfolding do_reject_draft ◌>>=◌
do_reject_draft-AreGuarded t id l a = elim (Option-cases (find id l)) [
  | inl e ↦ let same : (do_reject_draft id l).1 ≡ l = ground arith in rw same a
  | inr (d, e) ↦ elim (Bool-cases (str_eq d.status "pending_approval")) [
    | inl h ↦
        let put_it : (do_reject_draft id l).1 ≡ put id (record d { status = "rejected" }) l =
          ground arith in
        rw put_it (put-AreGuarded t id _ l (turned_down refl) a)
    | inr h ↦ let same : (do_reject_draft id l).1 ≡ l = ground arith in rw same a
  ]
]
