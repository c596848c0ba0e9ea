-- ===== src/Intake/Quotes.antt =====
-- The quotations that wait for approval: supersede_customer_quote_drafts of
-- src/aivan/db/repositories/draft_repo.py in src/aivan/execution/rfq_execution.py.
use abcd_yi.Prelude.{
  ℕ, true, false, ◌⊎◌, some, sym, none, List, [], ◌∷◌, Bool-cases, ◌≡◌, refl, ◌∙◌, ◌==◌, arith, inl,
  inr, ==_iff,
}
use abcd_yi.Prelude.Exec.{◌>>=◌}
use abcd_yi.Prelude.Table.{Table, find, put, find-put, find-update, select, update, select-put_new}
use abcd_yi.Drafts.{Draft}
use abcd_yi.Intake.Store.{OpenClawEvent, Backend, Services, Project, AgentStore}
use abcd_yi.Intake.Projects.{
  add_draft, add_event, change_drafts, create_draft, append_event, is_stale_quote, superseded_draft,
  supersede_customer_quote_drafts,
}
use abcd_yi.Intake.Outreach.{quote_draft, text_or, create_customer_quote_email_draft}

superseded-not_stale :
    (project : ℕ) (d : Draft) → is_stale_quote project (superseded_draft d) ≡ false
superseded-not_stale project d = elim (Bool-cases (d.project_id == project)) [
  | inl e ↦ rw e refl
  | inr e ↦ rw e refl
]

select-supersede :
    (project : ℕ) (l : Table Draft)
    → select (is_stale_quote project) (supersede_customer_quote_drafts project l) ≡ []
unfolding supersede_customer_quote_drafts select update
select-supersede project [] = refl
select-supersede project ((k, d) ∷ l) = elim (Bool-cases (is_stale_quote project d)) [
  | inl e ↦ rw (e, superseded-not_stale project d) (select-supersede project l)
  | inr e ↦ rw (e, e) (select-supersede project l)
]

find-supersede :
    (project k : ℕ) (l : Table Draft)
    → find k l ≡ none
    → find k (supersede_customer_quote_drafts project l) ≡ none
unfolding supersede_customer_quote_drafts find update
find-supersede project k [] h = refl
find-supersede project k ((j, d) ∷ l) h = ground (arith, find-supersede project k l)

-- What became of each draft of a table: a quotation that waited is superseded, any other is kept.
abbrev pub IsSuperseded : ℕ → Table Draft → Table Draft → Type 0
IsSuperseded project before after =
    (k : ℕ) (d : Draft)
    → find k before ≡ some d
    → ((is_stale_quote project d ≡ true)
        × (find k after ≡ some (record d { status = "superseded" })))
      ⊎ ((is_stale_quote project d ≡ false) × (find k after ≡ some d))

put_supersede-IsSuperseded :
    (project id : ℕ) (x : Draft) (l : Table Draft)
    → find id l ≡ none
    → IsSuperseded project l (put id x (supersede_customer_quote_drafts project l))
unfolding supersede_customer_quote_drafts
put_supersede-IsSuperseded project id x l free k d f = elim (Bool-cases (id == k)) [
  | inl h ↦
      let same : id ≡ k = (==_iff id k).0 h in
      let no : none ≡ some d = sym free ∙ rw same f in ground arith
  | inr h ↦ elim (Bool-cases (is_stale_quote project d)) [
    | inl e ↦ inl (
      e,
      find-put id k x (supersede_customer_quote_drafts project l)
          ∙ rw h (find-update (is_stale_quote project) superseded_draft k l d f ∙ rw e refl),
    )
    | inr e ↦ inr (
      e,
      find-put id k x (supersede_customer_quote_drafts project l)
          ∙ rw h (find-update (is_stale_quote project) superseded_draft k l d f ∙ rw e refl),
    )
  ]
]

-- Where the next id is free: after the draft of a new quotation, the quotations of the project that wait
-- for approval are that one alone, with the options in its text, for the customer of the project and by
-- email; each earlier one that waited has the status superseded and is otherwise as it was, and every
-- other draft is as it was.
pub create_customer_quote_email_draft_replaces :
    {b : Backend} (v : Services b) (project : ℕ) (p : Project b) (event : OpenClawEvent)
    (options : List b.BuyerOption) (s : AgentStore b)
    → find s.next_id s.drafts ≡ none
    → (select
          (is_stale_quote project)
          (create_customer_quote_email_draft v project p event options s).1.drafts
        ≡ quote_draft project
            (text_or event.conversation_id p.conversation_id)
            p.customer_id
            (v.quote_email options)
          ∷ [])
      × IsSuperseded project s.drafts
          (create_customer_quote_email_draft v project p event options s).1.drafts
unfolding create_customer_quote_email_draft create_draft append_event add_draft add_event
    change_drafts ◌>>=◌
create_customer_quote_email_draft_replaces v project p event options s free =
    let d =
      quote_draft project (text_or event.conversation_id p.conversation_id) p.customer_id
        (v.quote_email options) in
    (
      select-put_new (is_stale_quote project) s.next_id d
            (supersede_customer_quote_drafts project s.drafts)
            (find-supersede project s.next_id s.drafts free)
          ∙ rw (select-supersede project s.drafts, (==_iff project project).1 refl) refl,
      put_supersede-IsSuperseded project s.next_id d s.drafts free,
    )
