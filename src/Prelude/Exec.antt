-- ===== src/Prelude/Exec.antt =====
-- Methods that change a state and may raise. What was written before a raise stays written in the
-- session, so the state comes back beside the error too.
use Prim.Native.Nat.{ℕ}
use mathlib.Core.Path.{◌≡◌, refl, ap, sym, ◌∙◌}
use mathlib.Core.Logic.{◌≢◌, ◌⊎◌, inl, inr}
use mathlib.Core.Bool.{Bool, true, false}
use mathlib.Core.Option.{Option, none, some}

-- `http n` is `HTTPException(status_code=n)`. The texts of the messages are left out.
pub data Error : Type 0 where
  http : ℕ → Error
  value_error assertion_error file_not_found multiple_results draft_state_error integrity_error :
      Error
  gltg_unavailable external_model_requires_approval local_model_unavailable key_error : Error

pub data Result {ℓ} (A : Type ℓ) : Type ℓ where
  ok : A → Result A
  err : Error → Result A

pub Result-cases {ℓ} :
    {A : Type ℓ} (r : Result A) → ((a : A) × (r ≡ ok a)) ⊎ ((e : Error) × (r ≡ err e))
Result-cases (ok a) = inl (a, refl)
Result-cases (err e) = inr (e, refl)

abbrev pub Exec {ℓ} : Type ℓ → Type ℓ → Type ℓ
Exec S A = S → Result A × S

module _ {ℓ} {S A : Type ℓ} where
  pub pure : A → Exec S A
  pure a s = (ok a, s)

  pub raise : Error → Exec S A
  raise e s = (err e, s)

  pub gets : (S → A) → Exec S A
  gets f s = (ok (f s), s)

  pub lift : Result A → Exec S A
  lift r s = (r, s)

  -- `if x is None: raise e`
  pub or_raise : Option A → Error → Exec S A
  or_raise none e = raise e
  or_raise (some a) _ = pure a

pub modify : {S : Type 0} → (S → S) → Exec S (Unit {0})
modify f s = (ok tt, f s)

-- `if not c: raise e`
pub require : {S : Type 0} → Bool → Error → Exec S (Unit {0})
require true e s = (ok tt, s)
require false e s = (err e, s)

module _ {ℓ} {S A B : Type ℓ} where
  infixl 5 ◌>>=◌ ◌>>◌
  unfoldable pub ◌>>=◌ : Exec S A → (A → Exec S B) → Exec S B
  unfolding pure raise gets lift or_raise modify require
  ◌>>=◌ m f s = let (r, s') = m s in elim r [ ok a ↦ f a s' | err e ↦ (err e, s') ]

  abbrev pub ◌>>◌ : Exec S A → Exec S B → Exec S B
  m >> k = m >>= λ _. k

-- `try: m except ...`: the handler answers the errors that it catches.
unfoldable pub recover : {S A : Type 0} → Exec S A → (Error → Option (Exec S A)) → Exec S A
recover m handler s =
    let (r, s') = m s in
    elim r [ ok a ↦ (ok a, s') | err e ↦ elim (handler e) [ some k ↦ k s' | none ↦ (err e, s') ] ]

-- A last `return` changes no state.
pub state-then_pure {ℓ} :
    {S A B : Type ℓ} (m : Exec S A) (b : B) (s : S) → ((m >> pure b) s).1 ≡ (m s).1
unfolding ◌>>=◌
state-then_pure m b s = elim (Result-cases (m s).0) [
  | inl (a, e) ↦ rw (e, ◌>>=◌)
  | inr (x, e) ↦ rw (e, ◌>>=◌)
]

-- One step of a block whose outcome is known leaves the rest of the block.
module _ {S A B : Type 0} (f : A → Exec S B) (s : S) {t : S} where
  pub state_found :
      (g : S → Option A) (x : Error) (a : A)
      → g s ≡ some a
      → (f a s).1 ≡ t
      → ((gets g >>= λ found. or_raise found x >>= f) s).1 ≡ t
  unfolding ◌>>=◌
  state_found g x a e k = rw (e, or_raise) k

  pub state_gets : (g : S → A) → (f (g s) s).1 ≡ t → ((gets g >>= f) s).1 ≡ t
  unfolding ◌>>=◌
  state_gets g k = k

  pub state_lift : (r : Result A) (a : A) → r ≡ ok a → (f a s).1 ≡ t → ((lift r >>= f) s).1 ≡ t
  unfolding ◌>>=◌
  state_lift r a e k = rw (e, lift) k

pub state_then :
    {S A B : Type 0} (m : Exec S A) (k : Exec S B) (s t : S) (a : A)
    → (m s).0 ≡ ok a
    → (k (m s).1).1 ≡ t
    → ((m >> k) s).1 ≡ t
unfolding ◌>>=◌
state_then m k s t a e h = rw (e, ◌>>=◌) h

module _ {S A B : Type 0} (m : Exec S A) (f : A → Exec S B) (s s' : S) where
  pub bind_ok : (a : A) → m s ≡ (ok a, s') → (m >>= f) s ≡ f a s'
  unfolding ◌>>=◌
  bind_ok a e = rw (e, ◌>>=◌) (ap (λ (out : Result A × S). f a out.1) e)

  pub bind_err : (x : Error) → m s ≡ (err x, s') → (m >>= f) s ≡ (err x, s')
  unfolding ◌>>=◌
  bind_err x e = rw (e, ◌>>=◌) (ap (λ (out : Result A × S). (err x, out.1)) e)

-- A call that raised did not return.
pub not_returned :
    {S A : Type 0} {out : Result A × S} {x : Error} {s : S} {a : A}
    → out ≡ (err x, s)
    → out.0 ≢ ok a
not_returned {S} {A} {x = x} {a = a} e h =
    err-ne-ok x a (sym (ap (λ (o : Result A × S). o.0) e) ∙ h)
  where
    err-ne-ok : {A : Type 0} (x : Error) (a : A) → ◌≢◌ {A = Result A} (err x) (ok a)
    err-ne-ok x a h = cc

pub ok_inj {ℓ} : {A : Type ℓ} {a b : A} → ok a ≡ ok b → a ≡ b
ok_inj h = cc
