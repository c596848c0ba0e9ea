-- ===== src/Forms/Current.antt =====
-- What is read back of a form after an update.
use abcd_yi.Prelude.{
  ℕ, ◌≡◌, refl, ap, ◌∙◌, arith, ◌==◌, ==_iff, String, false, not, Option, none, some, List, [], ◌∷◌,
  ◌++◌, ◌&&◌, ◌||◌, keep, contains, str_eq, eq_iff, if◌then◌else◌,
}
use abcd_yi.Prelude.Exec.{ok, lift, gets, ◌>>=◌}
use abcd_yi.Prelude.Table.{Table, find, select, matches, one_or_none, one_or_none-put}
use abcd_yi.Forms.Rows.{Value, Fields, Form, Version, FormStore, lookup, assign, merge}
use abcd_yi.Forms.Service.{
  latest, versions_of, current_of, once, update_form_fields, get_current_form,
}
use abcd_yi.Forms.History.{IsVersioned, latest-added, next_number}
use abcd_yi.Forms.Calls.{next, update_open}

-- The value that a list of updates leaves under a key: that of the last update of the key, or else
-- the one from before.
abbrev pub updated_value : String → Fields → Option Value → Option Value
updated_value k [] old = old
updated_value k ((j, v) ∷ updates) old =
    updated_value k updates (if str_eq j k then some v else old)

lookup-assign :
    (k j : String) (v : Value) (d : Fields)
    → lookup j (assign k v d) ≡ (if str_eq k j then some v else lookup j d)
unfolding lookup assign
lookup-assign k j v [] = refl
lookup-assign k j v ((i, w) ∷ d) =
    ground (arith, eq_iff k j, eq_iff i k, eq_iff i j, lookup-assign k j v d)

lookup-merge :
    (k : String) (d updates : Fields)
    → lookup k (merge d updates) ≡ updated_value k updates (lookup k d)
unfolding merge
lookup-merge k d [] = refl
lookup-merge k d ((j, v) ∷ us) =
    lookup-merge k (assign j v d) us ∙ ap (updated_value k us) (lookup-assign j k v d)

contains-once : (l : List String) (k : String) → contains (once l) k ≡ contains l k
unfolding once
contains-once [] k = refl
contains-once (j ∷ l) k = ground (arith, contains-once l k, contains-once l j, eq_iff j k)

contains-append :
    (l m : List String) (k : String) → contains (l ++ m) k ≡ (contains l k || contains m k)
contains-append [] m k = refl
contains-append (j ∷ l) m k = ground (arith, contains-append l m k)

contains-keep :
    (c : List String) (l : List String) (k : String)
    → contains (keep (λ j. not (contains c j)) l) k ≡ (contains l k && not (contains c k))
unfolding keep
contains-keep c [] k = refl
contains-keep c (j ∷ l) k = ground (arith, contains-keep c l k, eq_iff j k)

get_current_form_of :
    (project_id id : ℕ) (f : Form) (t : FormStore)
    → one_or_none (matches (λ (g : Form). g.project_id == project_id) t.forms) ≡ ok (some (id, f))
    → (get_current_form project_id t).0 ≡ ok (latest (versions_of id t))
unfolding get_current_form ◌>>=◌
get_current_form_of project_id id f t h = rw (h, ◌>>=◌, lift, gets) refl

module _ (now form_id version_id user_id tenant_id : ℕ) (updates : Fields) (confirmed : List String)
    (s : FormStore) (f : Form) where
  -- An update of a form that is not locked returns a version, and the current form of the project is
  -- then this version: under every key but that of the missing fields it has the last update of the
  -- key, or else what the version before had.
  pub get_current_form-update_form_fields :
      IsVersioned s
      → find form_id s.forms ≡ some f
      → one_or_none (matches (λ (g : Form). g.project_id == f.project_id) s.forms)
        ≡ ok (some (form_id, f))
      → f.is_locked ≡ false
      → find version_id s.versions ≡ none
      → (v : Version) × ((update_form_fields now form_id version_id user_id tenant_id updates
            confirmed s).0
          ≡ ok (some v))
        × ((get_current_form f.project_id
              (update_form_fields now form_id version_id user_id tenant_id updates confirmed s).1).0
            ≡ ok (some v))
        × ((k : String)
            → str_eq "missing_fields" k ≡ false
            → lookup k v.fields ≡ updated_value k updates (lookup k (current_of form_id s).fields))
  get_current_form-update_form_fields inv found only l fresh =
      let (returned, ev, ef) =
        update_open now form_id version_id user_id tenant_id updates confirmed s f found l in
      let v = next now form_id version_id user_id tenant_id updates confirmed s in
      let t = (update_form_fields now form_id version_id user_id tenant_id updates confirmed s).1 in
      let changed : Form = record f { current_version = v.version_number } in
      let only_changed : one_or_none (matches (λ (g : Form). g.project_id == f.project_id) t.forms)
          ≡ ok (some (form_id, changed)) =
        ap
          (λ (forms : Table Form).
            one_or_none (matches (λ (g : Form). g.project_id == f.project_id) forms))
          ef
        ∙ one_or_none-put (λ (g : Form). g.project_id == f.project_id) form_id changed f s.forms
            found ((==_iff f.project_id f.project_id).1 refl)
            ((==_iff f.project_id f.project_id).1 refl) only in
      let newest : latest (versions_of form_id t) ≡ some v =
        ap (λ (vs : Table Version). latest (select (λ (w : Version). w.form_id == form_id) vs)) ev
        ∙ latest-added s inv version_id f v fresh
            (next_number s form_id user_id updates confirmed inv) in
      (
        v,
        returned,
        get_current_form_of f.project_id form_id changed t only_changed
            ∙ ap (λ (o : Option Version). ok o) newest,
        λ k other.
            lookup-assign "missing_fields" k _ (merge (current_of form_id s).fields updates)
            ∙ rw other (lookup-merge k (current_of form_id s).fields updates),
      )

-- A field that is confirmed with an update is one of the confirmed ones and none of the generated
-- ones from then on; the other names stay what they were.
pub update_form_fields_confirms :
    (now form_id version_id user_id tenant_id : ℕ) (updates : Fields) (confirmed : List String)
    (s : FormStore) (f : Form)
    → find form_id s.forms ≡ some f
    → f.is_locked ≡ false
    → (v : Version) × ((update_form_fields now form_id version_id user_id tenant_id updates
          confirmed s).0
        ≡ ok (some v))
      × ((k : String)
          → (contains v.human_confirmed_fields k
              ≡ (contains (current_of form_id s).human_confirmed_fields k || contains confirmed k))
            × (contains v.ai_generated_fields k ≡ (
                contains (current_of form_id s).ai_generated_fields k
                && not (contains confirmed k))))
update_form_fields_confirms now form_id version_id user_id tenant_id updates confirmed s f found l =
    (
      next now form_id version_id user_id tenant_id updates confirmed s,
      (update_open now form_id version_id user_id tenant_id updates confirmed s f found l).0,
      λ k. (
        contains-once ((current_of form_id s).human_confirmed_fields ++ confirmed) k
            ∙ contains-append (current_of form_id s).human_confirmed_fields confirmed k,
        contains-keep confirmed (current_of form_id s).ai_generated_fields k,
      ),
    )
