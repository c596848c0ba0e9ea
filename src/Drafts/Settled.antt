-- ===== src/Drafts/Settled.antt =====
-- A failed send is never left approved.
use mathlib.Core.Path.{subst}
use abcd_yi.Prelude.{
  sym, ◌∙◌, ◌==◌, ◌||◌, ℕ, String, Bool, true, false, Option, none, some, ◌≡◌, ◌⊎◌, inl, inr, refl,
  arith, str_eq, eq_iff, Bool-cases, Option-cases,
}
use abcd_yi.Prelude.Exec.{ok, ◌>>=◌}
use abcd_yi.Prelude.Table.{Table, find, put, find-put, find-put_self}
use abcd_yi.Drafts.Repository.{
  Draft, mark_sent, mark_send_failed, mark_approved_pending_send, sent_draft, failed_draft,
  approved_draft, send_failed, transport_error, channel_policy_blocked,
}
use abcd_yi.Drafts.Sending.{
  Texts, Response, delivered, refused, unreachable, ApprovalResult, approve_and_send, settle,
  send_draft, blocked, reject, validate_draft_send_policy,
}

-- An approval that is recorded in the status and followed by no sending.
abbrev pub is_left_approved : String → Bool
is_left_approved status = str_eq status "approved_pending_send" || str_eq status "approved"

-- No draft is approved and not sent.
abbrev pub IsSettled : Table Draft → Type 0
IsSettled t = (k : ℕ) (d : Draft) → find k t ≡ some d → is_left_approved d.status ≡ false

abbrev IsSettledDraft : Draft → Type 0
IsSettledDraft d = is_left_approved d.status ≡ false

pub put-IsSettled :
    (id : ℕ) (x : Draft) (t : Table Draft)
    → ((k : ℕ) (d : Draft) → (id == k) ≡ false → find k t ≡ some d → IsSettledDraft d)
    → IsSettledDraft x
    → IsSettled (put id x t)
put-IsSettled id x t rest e k d f = elim (Bool-cases (id == k)) [
  | inl h ↦
      let same : some x ≡ some d = sym (find-put id k x t ∙ rw h refl) ∙ f in
      let eq : x ≡ d = ground arith in subst IsSettledDraft eq e
  | inr h ↦ rest k d h (sym (find-put id k x t ∙ rw h refl) ∙ f)
]

put-put-IsSettled :
    (id : ℕ) (x y : Draft) (t : Table Draft)
    → IsSettled t
    → IsSettledDraft x
    → IsSettled (put id x (put id y t))
put-put-IsSettled id x y t inv e =
    put-IsSettled id x (put id y t) (λ k d h f. inv k d (sym (find-put id k y t ∙ rw h refl) ∙ f)) e

module _ (now id : ℕ) (by : String) (t : Table Draft) (d : Draft) (found : find id t ≡ some d) where
  abbrev approved : Draft
  approved = approved_draft now by d

  send_draft_table :
      (r : Response)
      → (x : Draft) × IsSettledDraft x
        × ((send_draft now id by r t).1 ≡ put id x (put id approved t))
  unfolding send_draft settle mark_sent mark_send_failed mark_approved_pending_send ◌>>=◌
  send_draft_table (delivered m) =
      (sent_draft now approved, refl, ground (arith, find-put_self id approved t))
  send_draft_table refused =
      (failed_draft send_failed approved, refl, ground (arith, find-put_self id approved t))
  send_draft_table unreachable =
      (failed_draft transport_error approved, refl, ground (arith, find-put_self id approved t))

  send_draft-IsSettled : (r : Response) → IsSettled t → IsSettled (send_draft now id by r t).1
  send_draft-IsSettled r inv =
      let (x, e, h) = send_draft_table r in rw h (put-put-IsSettled id x approved t inv e)

  blocked-IsSettled : IsSettled t → IsSettled (blocked id t).1
  unfolding blocked mark_send_failed ◌>>=◌
  blocked-IsSettled inv =
      let e : (blocked id t).1 ≡ put id (failed_draft channel_policy_blocked d) t = ground arith in
      rw e (put-IsSettled id (failed_draft channel_policy_blocked d) t (λ k q h f. inv k q f) refl)

-- What a call leaves: the table as it was, a failed draft, or what the sending left.
approve_and_send_cases :
    (texts : Texts) (client : Draft → Response) (now id : ℕ) (by : String) (t : Table Draft)
    → ((approve_and_send texts client now id by t).1 ≡ t)
      ⊎ ((d : Draft) × (find id t ≡ some d)
          × (((approve_and_send texts client now id by t).1 ≡ (blocked id t).1)
              ⊎ ((approve_and_send texts client now id by t).1
                  ≡ (send_draft now id by (client d) t).1)))
unfolding approve_and_send ◌>>=◌
approve_and_send_cases texts client now id by t = elim (Option-cases (find id t)) [
  | inl e ↦ inl (ground arith)
  | inr (d, e) ↦ elim (attempt-cases d e) [ inl h ↦ inl h | inr h ↦ inr (d, e, h) ]
]
  where
    attempt-cases :
        (d : Draft)
        → find id t ≡ some d
        → ((approve_and_send texts client now id by t).1 ≡ t)
          ⊎ (((approve_and_send texts client now id by t).1 ≡ (blocked id t).1)
              ⊎ ((approve_and_send texts client now id by t).1
                  ≡ (send_draft now id by (client d) t).1))
    attempt-cases d e = ground arith

reject-IsSettled : (id : ℕ) (t : Table Draft) → IsSettled t → IsSettled (reject id t).1
unfolding reject ◌>>=◌
reject-IsSettled id t inv = elim (Option-cases (find id t)) [
  | inl e ↦ let same : (reject id t).1 ≡ t = ground arith in rw same inv
  | inr (d, e) ↦ elim (Bool-cases (str_eq d.status "pending_approval")) [
    | inl h ↦
        let put_it : (reject id t).1 ≡ put id (record d { status = "rejected" }) t = ground arith in
        rw put_it
          (put-IsSettled id (record d { status = "rejected" }) t (λ k q n f. inv k q f) refl)
    | inr h ↦ let same : (reject id t).1 ≡ t = ground arith in rw same inv
  ]
]

-- Where no draft has the status approved_pending_send or approved, none has it after an attempt to
-- approve and send one, whatever the policy says and the message service answers, and after a
-- rejection.
pub approve_and_send-IsSettled :
    (texts : Texts) (client : Draft → Response) (now id : ℕ) (by : String) (t : Table Draft)
    → IsSettled t
    → IsSettled (approve_and_send texts client now id by t).1 × IsSettled (reject id t).1
approve_and_send-IsSettled texts client now id by t inv = (
  elim (approve_and_send_cases texts client now id by t) [
    | inl e ↦ rw e inv
    | inr (d, f, inl e) ↦ rw e (blocked-IsSettled now id by t d f inv)
    | inr (d, f, inr e) ↦ rw e (send_draft-IsSettled now id by t d f (client d) inv)
  ],
  reject-IsSettled id t inv,
)

abbrev pub status_of : Option Draft → Option String
status_of none = none
status_of (some d) = some d.status

module _ (now id : ℕ) (by : String) (t : Table Draft) (d : Draft) (found : find id t ≡ some d) where
  blocked_outcome :
      (r : ApprovalResult)
      → (blocked id t).0 ≡ ok r
      → (status_of (find id (blocked id t).1) ≡ some r.status)
        × (r.sent ≡ false)
        × (r.status ≡ "send_failed")
  unfolding blocked mark_send_failed ◌>>=◌
  blocked_outcome r h = ground (arith, find-put_self id (failed_draft channel_policy_blocked d) t)

  send_draft_outcome :
      (a : Response) (r : ApprovalResult)
      → (send_draft now id by a t).0 ≡ ok r
      → (status_of (find id (send_draft now id by a t).1) ≡ some r.status)
        × (((r.sent ≡ true) × (r.status ≡ "sent") × (a ≡ delivered r.message_id))
            ⊎ ((r.sent ≡ false) × (r.status ≡ "send_failed") × ((a ≡ refused) ⊎ (a ≡ unreachable))))
  unfolding send_draft settle mark_sent mark_send_failed mark_approved_pending_send ◌>>=◌
  send_draft_outcome (delivered m) r h = grind (arith, find-put_self)
  send_draft_outcome refused r h = grind (arith, find-put_self)
  send_draft_outcome unreachable r h = grind (arith, find-put_self)

returned :
    (texts : Texts) (client : Draft → Response) (now id : ℕ) (by : String) (t : Table Draft)
    (r : ApprovalResult)
    → (approve_and_send texts client now id by t).0 ≡ ok r
    → (d : Draft) × (find id t ≡ some d)
      × ((d.status ≡ "pending_approval") ⊎ (d.status ≡ "send_failed"))
      × (((validate_draft_send_policy texts d ≡ true)
            × (approve_and_send texts client now id by t ≡ send_draft now id by (client d) t))
          ⊎ ((validate_draft_send_policy texts d ≡ false)
              × (approve_and_send texts client now id by t ≡ blocked id t)))
unfolding approve_and_send ◌>>=◌
returned texts client now id by t r h = grind (arith, eq_iff)

-- An attempt that returned had found a draft that was pending or had failed before. It is sent
-- exactly where the policy lets it pass and the service answers with success, and then it is marked
-- as sent; it is marked as failed exactly where the policy stops it, or the service refuses it or is
-- not reached.
pub approve_and_send_settles :
    (texts : Texts) (client : Draft → Response) (now id : ℕ) (by : String) (t : Table Draft)
    (r : ApprovalResult)
    → (approve_and_send texts client now id by t).0 ≡ ok r
    → (d : Draft) × (find id t ≡ some d)
      × ((d.status ≡ "pending_approval") ⊎ (d.status ≡ "send_failed"))
      × (status_of (find id (approve_and_send texts client now id by t).1) ≡ some r.status)
      × (((r.sent ≡ true)
            × (r.status ≡ "sent")
            × (validate_draft_send_policy texts d ≡ true)
            × (client d ≡ delivered r.message_id))
          ⊎ ((r.sent ≡ false)
              × (r.status ≡ "send_failed")
              × ((validate_draft_send_policy texts d ≡ false)
                  ⊎ (client d ≡ refused)
                  ⊎ (client d ≡ unreachable))))
approve_and_send_settles texts client now id by t r h =
    let (d, f, w, way) = returned texts client now id by t r h in
    elim way [
      | inl (p, e) ↦
          let (row, out) = send_draft_outcome now id by t d f (client d) r (rw⁻¹ e h) in
          (
            d,
            f,
            w,
            rw e row,
            elim out [ inl (s, q, a) ↦ inl (s, q, p, a) | inr (n, q, w) ↦ inr (n, q, inr w) ],
          )
      | inr (p, e) ↦
          let (row, n, q) = blocked_outcome now id by t d f r (rw⁻¹ e h) in
          (d, f, w, rw e row, inr (n, q, inl p))
    ]

-- A draft that failed before and is now sent keeps what its columns say of an approval: who approved
-- the retry and when is not recorded.
pub retry-unrecorded :
    (texts : Texts) (client : Draft → Response) (now id : ℕ) (by : String) (t : Table Draft)
    (d : Draft) (message_id : String)
    → find id t ≡ some d
    → d.status ≡ "send_failed"
    → validate_draft_send_policy texts d ≡ true
    → client d ≡ delivered message_id
    → (find id (approve_and_send texts client now id by t).1 ≡ some (sent_draft now d))
      × ((sent_draft now d).approved_by ≡ d.approved_by)
      × ((sent_draft now d).approved_at ≡ d.approved_at)
unfolding approve_and_send send_draft settle mark_sent mark_approved_pending_send ◌>>=◌
retry-unrecorded texts client now id by t d message_id f failed passes answer = (
  let waiting : str_eq d.status "pending_approval" ≡ false = rw failed refl in
      let again : str_eq d.status "send_failed" ≡ true = rw failed refl in
      let s : str_eq d.status "sent" ≡ false = rw failed refl in
      let j : str_eq d.status "rejected" ≡ false = rw failed refl in
      let u : str_eq d.status "superseded" ≡ false = rw failed refl in grind (arith, find-put_self),
  refl,
  refl,
)
