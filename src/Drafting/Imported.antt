-- ===== src/Drafting/Imported.antt =====
-- What the import of a provider's confirmed order does to the orders of the session:
-- src/order_confirmation/provider_handoff.py.
use abcd_yi.Prelude.{
  ℕ, String, Bool, true, false, Option, none, some, ◌≡◌, ◌⊎◌, inl, inr, refl, arith, is_some, ◌||◌,
  Bool-cases,
}
use abcd_yi.Prelude.Exec.{Error, Exec, Result, Result-cases, require, lift, gets, ◌>>=◌}
use abcd_yi.Prelude.Table.{find, put}
use abcd_yi.Db.{Order}
use abcd_yi.Drafting.Handoff.{
  ConfirmedSource, Readback, Identities, HandoffStore, ProviderOrderAssociation, imported_order,
  import_new, imported_before, import_confirmed_order,
}

module _ (now : ℕ) (ids : Identities) (provider_tenant title number : String) (tenant user : ℕ)
    (h : HandoffStore) where
  -- The orders are the ones before, or the imported one is put among them.
  abbrev IsImported : HandoffStore → Type 0
  IsImported h' =
      (h'.db.orders ≡ h.db.orders)
      ⊎ ((n : Order) × (n.status ≡ "IN_PRODUCTION") × (h'.db.orders ≡ put ids.order n h.db.orders))

  import_new-IsImported :
      (source : ConfirmedSource)
      → IsImported (import_new now ids source provider_tenant title number tenant user h).1
  unfolding import_new ◌>>=◌
  import_new-IsImported source =
      elim (Bool-cases
        (is_some (find ids.order h.db.orders) || is_some (find ids.project h.db.projects))) [
          | inl e ↦ inl (ground arith)
          | inr e ↦ inr (imported_order ids source number, refl, ground arith)
        ]

  imported_before-IsImported : (a : ProviderOrderAssociation) → IsImported (imported_before a h).1
  unfolding imported_before ◌>>=◌
  imported_before-IsImported a = inl (ground arith)

  -- A first part that writes nothing.
  import-after_test :
      {A : Type 0} (m : Exec HandoffStore A) (f : A → Exec HandoffStore Order)
      → (m h).1 ≡ h
      → ((a : A) → IsImported (f a h).1)
      → IsImported ((m >>= f) h).1
  unfolding ◌>>=◌
  import-after_test m f same k = elim (Result-cases (m h).0) [
    | inl (a, e) ↦ rw (e, same, ◌>>=◌) (k a)
    | inr (x, e) ↦ rw (e, same, ◌>>=◌) (inl refl)
  ]

  require_frame : (c : Bool) (e : Error) → (require {S = HandoffStore} c e h).1 ≡ h
  unfolding ◌>>=◌
  require_frame true e = refl
  require_frame false e = refl

  lift_frame : {A : Type 0} (r : Result A) → (lift {S = HandoffStore} r h).1 ≡ h
  unfolding ◌>>=◌
  lift_frame r = refl

  gets_frame : {A : Type 0} (f : HandoffStore → A) → (gets f h).1 ≡ h
  unfolding ◌>>=◌
  gets_frame f = refl

  choice-IsImported :
      (source : ConfirmedSource) (existing : Option ProviderOrderAssociation)
      → IsImported
          ((elim existing as (λ _. Exec HandoffStore Order) [
            | some a ↦ imported_before a
            | none ↦ import_new now ids source provider_tenant title number tenant user
          ])
            h).1
  choice-IsImported source none = import_new-IsImported source
  choice-IsImported source (some a) = imported_before-IsImported a

  module _ (tenant_exists : Bool) (get_order : Result ConfirmedSource)
      (associate : ConfirmedSource → Result Readback) where
    pub import_confirmed_order-IsImported :
        IsImported
          (import_confirmed_order now ids tenant_exists get_order associate provider_tenant title
            number tenant user h).1
    unfolding import_confirmed_order
    import_confirmed_order-IsImported = import-after_test _ _ (require_frame tenant_exists _) (λ _.
        import-after_test (lift get_order) _ (lift_frame _) (λ source.
          import-after_test (gets (λ (g : HandoffStore). find ids.order g.associations)) _
            (gets_frame _)
            (λ existing. import-after_test _ _ (require_frame _ _) (λ _.
              import-after_test (lift (associate source)) _ (lift_frame _) (λ readback.
                import-after_test _ _ (require_frame _ _)
                  (λ _. choice-IsImported source existing))))))
