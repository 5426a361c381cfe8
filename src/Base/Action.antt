-- ===== src/Base/Action.antt =====
-- A method of a mutable object: state, an error value, and the run-time panic of a nil dereference.
-- The state comes back after a failure too, since what was written stays written.
use mathlib.Core.Bool.{Bool, true, false}
use mathlib.Core.Option.{Option, none, some}
use sg_emulator.Base.Tests.{⊤}

pub data Result (E A : Type 0) : Type 0 where
  ok : A → Result E A
  err : E → Result E A
  panic : Result E A

abbrev pub Action : Type 0 → Type 0 → Type 0 → Type 0
Action E S A = S → Result E A × S

module _ {E S A : Type 0} where
  abbrev pub pure : A → Action E S A
  pure a s = (ok a, s)

  abbrev pub fail : E → Action E S A
  fail e s = (err e, s)

  abbrev pub crash : Action E S A
  crash s = (panic, s)

  abbrev pub gets : (S → A) → Action E S A
  gets f s = (ok (f s), s)

  -- The value behind a pointer, or the panic of a nil dereference.
  abbrev pub or_crash : Option A → Action E S A
  or_crash none s = (panic, s)
  or_crash (some a) s = (ok a, s)

  abbrev pub or_fail : Option A → E → Action E S A
  or_fail none e s = (err e, s)
  or_fail (some a) e s = (ok a, s)

abbrev pub after : {E S A B : Type 0} → Result E A × S → (A → Action E S B) → Result E B × S
after (ok a, s) f = f a s
after (err e, s) f = (err e, s)
after (panic, s) f = (panic, s)

infixl 5 ◌>>=◌ ◌>>◌
abbrev pub ◌>>=◌ : {E S A B : Type 0} → Action E S A → (A → Action E S B) → Action E S B
◌>>=◌ m f s = after (m s) f

abbrev pub ◌>>◌ : {E S A B : Type 0} → Action E S A → Action E S B → Action E S B
m >> k = m >>= λ _. k

module _ {E S : Type 0} where
  abbrev pub get : Action E S S
  get s = (ok s, s)

  abbrev pub modify : (S → S) → Action E S ⊤
  modify f s = (ok tt, f s)

  abbrev pub fail_if : Bool → E → Action E S ⊤
  fail_if true e s = (err e, s)
  fail_if false e s = (ok tt, s)

  abbrev pub when : Bool → Action E S ⊤ → Action E S ⊤
  when true m s = m s
  when false m s = (ok tt, s)

  -- `if c { m } else { k }`
  abbrev pub if_else : Bool → Action E S ⊤ → Action E S ⊤ → Action E S ⊤
  if_else true m k s = m s
  if_else false m k s = k s

  -- An error is wrapped on its way out, as by `fmt.Errorf("…: %w", err)`.
  abbrev pub rewrap : {A : Type 0} → (E → E) → Result E A × S → Result E A × S
  rewrap w (ok a, s) = (ok a, s)
  rewrap w (err e, s) = (err (w e), s)
  rewrap w (panic, s) = (panic, s)

  abbrev pub wrap_error : {A : Type 0} → (E → E) → Action E S A → Action E S A
  wrap_error w m s = rewrap w (m s)
