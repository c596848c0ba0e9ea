-- ===== src/Prelude/Gives.antt =====
-- What the value that a method returns satisfies, whatever state it is called in.
use mathlib.Core.Path.{◌≡◌, refl, ◌∙◌}
use mathlib.Core.Bool.{Bool, true, false}
use mathlib.Core.Logic.{inl, inr}
use mathlib.Core.Option.{Option, none, some}
use abcd_yi.Prelude.Tests.{if◌then◌else◌, Option-cases}
use abcd_yi.Prelude.Exec.{
  Error, Exec, Result, Result-cases, ok, err, ok_inj, pure, lift, recover, ◌>>=◌,
}

abbrev pub Gives : {S A : Type 0} → (A → Type 0) → Exec S A → Type 0
Gives {S} {A} Q m = (s : S) (a : A) → (m s).0 ≡ ok a → Q a

-- The handler of an error, where it has one, gives it.
abbrev pub GivesSome : {S A : Type 0} → (A → Type 0) → Option (Exec S A) → Type 0
GivesSome Q none = Unit
GivesSome Q (some m) = Gives Q m

err-ok : {A : Type 0} (B : Type 0) (e : Error) (a : A) → ◌≡◌ {A = Result A} (err e) (ok a) → B
err-ok B e a h = cc

module _ {S A : Type 0} (Q : A → Type 0) where
  pub Gives-pure : (a : A) → Q a → Gives Q (pure {S = S} a)
  unfolding ◌>>=◌
  Gives-pure a q s x h = let e : a ≡ x = ok_inj h in rw (← e) q

  -- With what the first part gives.
  pub Gives-bind :
      {B : Type 0} (R : B → Type 0) (m : Exec S B) (f : B → Exec S A)
      → Gives R m
      → ((x : B) → R x → Gives Q (f x))
      → Gives Q (m >>= f)
  unfolding ◌>>=◌
  Gives-bind R m f g k s a h = elim (Result-cases (m s).0) [
    | inl (x, e) ↦ k x (g s x e) (m s).1 a (rw (e, ◌>>=◌) at h)
    | inr (x, e) ↦ err-ok (Q a) x a (rw (e, ◌>>=◌) at h)
  ]

  -- With nothing of the first part.
  pub Gives-then :
      {B : Type 0} (m : Exec S B) (f : B → Exec S A) → ((x : B) → Gives Q (f x)) → Gives Q (m >>= f)
  Gives-then m f k = Gives-bind (λ _. Unit {0}) m f (λ s x e. tt) (λ x _. k x)

  pub Gives-lift :
      {B : Type 0} (r : Result B) (f : B → Exec S A)
      → ((x : B) → r ≡ ok x → Gives Q (f x))
      → Gives Q (lift r >>= f)
  unfolding ◌>>=◌
  Gives-lift r f k = Gives-bind (λ x. r ≡ ok x) (lift r) f (λ s x e. e) k

  pub Gives-if :
      (c : Bool) (m n : Exec S A)
      → (c ≡ true → Gives Q m)
      → (c ≡ false → Gives Q n)
      → Gives Q (if c then m else n)
  Gives-if true m n g h = g refl
  Gives-if false m n g h = h refl

  pub Gives-recover :
      (m : Exec S A) (handler : Error → Option (Exec S A))
      → Gives Q m
      → ((e : Error) → GivesSome Q (handler e))
      → Gives Q (recover m handler)
  unfolding recover
  Gives-recover m handler g k s a h = elim (Result-cases (m s).0) [
    | inl (x, e) ↦ g s a (e ∙ (rw (e, recover) at h))
    | inr (x, e) ↦ elim (Option-cases (handler x)) [
      | inl n ↦ err-ok (Q a) x a (rw (e, n, recover) at h)
      | inr (l, n) ↦
          let given : GivesSome Q (some l) = rw n at (k x) in
          given (m s).1 a (rw (e, n, recover) at h)
    ]
  ]
