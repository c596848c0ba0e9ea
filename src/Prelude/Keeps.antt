-- ===== src/Prelude/Keeps.antt =====
-- What a method keeps of its state, step by step, also where it raises.
use mathlib.Core.Bool.{Bool, true, false}
use mathlib.Core.Logic.{inl, inr}
use mathlib.Core.Option.{Option, none, some}
use abcd_yi.Prelude.Tests.{if◌then◌else◌, Option-cases}
use abcd_yi.Prelude.Exec.{
  Error, Exec, Result, Result-cases, pure, gets, lift, or_raise, modify, require, recover, ◌>>=◌,
}

-- From every state with the property the method leaves a state with it.
abbrev pub Keeps : {S A : Type 0} → (S → Type 0) → Exec S A → Type 0
Keeps {S} P m = (s : S) → P s → P (m s).1

-- The handler of an error, where it has one, keeps it.
abbrev pub KeepsSome : {S A : Type 0} → (S → Type 0) → Option (Exec S A) → Type 0
KeepsSome P none = Unit
KeepsSome P (some m) = Keeps P m

module _ {S : Type 0} (P : S → Type 0) where
  pub Keeps-bind :
      {A B : Type 0} (step : Exec S A) (rest : A → Exec S B) (kept : Keeps P step)
      (afterwards : (answer : A) → Keeps P (rest answer))
      → Keeps P (step >>= rest)
  unfolding ◌>>=◌
  Keeps-bind step rest kept afterwards s p = elim (Result-cases (step s).0) [
    | inl (answer, e) ↦ rw (e, ◌>>=◌) (afterwards answer (step s).1 (kept s p))
    | inr (x, e) ↦ rw (e, ◌>>=◌) (kept s p)
  ]

  pub Keeps-pure : {A : Type 0} (a : A) → Keeps P (pure a)
  unfolding ◌>>=◌
  Keeps-pure a s p = p

  pub Keeps-gets : {A : Type 0} (f : S → A) → Keeps P (gets f)
  unfolding ◌>>=◌
  Keeps-gets f s p = p

  pub Keeps-lift : {A : Type 0} (r : Result A) → Keeps P (lift r)
  unfolding ◌>>=◌
  Keeps-lift r s p = p

  pub Keeps-modify : (f : S → S) → ((s : S) → P s → P (f s)) → Keeps P (modify f)
  unfolding ◌>>=◌
  Keeps-modify f h s p = h s p

  pub Keeps-or_raise : {A : Type 0} (o : Option A) (e : Error) → Keeps P (or_raise o e)
  unfolding ◌>>=◌
  Keeps-or_raise none e s p = p
  Keeps-or_raise (some a) e s p = p

  pub Keeps-require : (b : Bool) (e : Error) → Keeps P (require b e)
  unfolding ◌>>=◌
  Keeps-require true e s p = p
  Keeps-require false e s p = p

  pub Keeps-if :
      {A : Type 0} (b : Bool) (m n : Exec S A)
      → Keeps P m
      → Keeps P n
      → Keeps P (if b then m else n)
  Keeps-if true m n h k = h
  Keeps-if false m n h k = k

  -- A handler that keeps it, whatever it catches, does so after the part that it guards.
  pub Keeps-recover :
      {A : Type 0} (m : Exec S A) (handler : Error → Option (Exec S A))
      → Keeps P m
      → ((e : Error) → KeepsSome P (handler e))
      → Keeps P (recover m handler)
  unfolding recover
  Keeps-recover m handler h k s p = elim (Result-cases (m s).0) [
    | inl (a, e) ↦ rw (e, recover) (h s p)
    | inr (x, e) ↦ elim (Option-cases (handler x)) [
      | inl n ↦ rw (e, n, recover) (h s p)
      | inr (l, n) ↦
          let kept : KeepsSome P (some l) = rw n at (k x) in
          rw (e, n, recover) (kept (m s).1 (h s p))
    ]
  ]
