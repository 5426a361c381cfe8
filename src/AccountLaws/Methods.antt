-- ===== src/AccountLaws/Methods.antt =====
-- A property that a method of an account keeps: rules for the ways in which the methods of
-- internal/scalegraph/account.go are built.
use sg_emulator.Base.{⊤, ◌≡◌, refl, Bool, true, false, Option, none, some}
use sg_emulator.Base.Action.{
  Result, ok, err, panic, after, ◌>>=◌, get, modify, fail, fail_if, or_fail, or_crash, when,
  if_else, rewrap, wrap_error, pure,
}
use sg_emulator.Errors.{Error, invalid_token_signer}
use sg_emulator.Id.{from_string}
use sg_emulator.Token.{Token}
use sg_emulator.Account.{Account, Method, token_signer}

module _ (I : Account → Type 0) where
  pub record Maintains {A : Type 0} (m : Method A) : Type 0 where
    pub apply : (a : Account) → I a → I (m a).1

  after-Kept :
      {A B : Type 0} (r : Result Error A × Account) (f : A → Method B)
      → I r.1
      → ((x : A) → Maintains (f x))
      → I (after r f).1
  after-Kept (ok x, a) f h q = (q x).apply a h
  after-Kept (err e, a) f h q = h
  after-Kept (panic, a) f h q = h

  pub bind-Maintains :
      {A B : Type 0} (m : Method A) (f : A → Method B)
      → Maintains m
      → ((x : A) → Maintains (f x))
      → Maintains (m >>= f)
  bind-Maintains m f p q = record { apply = λ a h. after-Kept (m a) f (p.apply a h) q }

  -- What is read has the property.
  pub get_then-Maintains :
      {B : Type 0} (f : Account → Method B)
      → ((a : Account) → I a → Maintains (f a))
      → Maintains (get >>= f)
  get_then-Maintains f q = record { apply = λ a h. (q a h).apply a h }

  -- What is found was there.
  pub or_fail_then-Maintains :
      {A B : Type 0} (o : Option A) (e : Error) (f : A → Method B)
      → ((x : A) → o ≡ some x → Maintains (f x))
      → Maintains (or_fail o e >>= f)
  or_fail_then-Maintains none e f q = record { apply = λ a h. h }
  or_fail_then-Maintains (some x) e f q = record { apply = λ a h. (q x refl).apply a h }

  pub modify-Maintains :
      (f : Account → Account) → ((a : Account) → I a → I (f a)) → Maintains (modify f)
  modify-Maintains f p = record { apply = p }

  pub fail_if-Maintains : (c : Bool) (e : Error) → Maintains (fail_if c e)
  fail_if-Maintains true e = record { apply = λ a h. h }
  fail_if-Maintains false e = record { apply = λ a h. h }

  pub fail-Maintains : {A : Type 0} (e : Error) → Maintains {A = A} (fail e)
  fail-Maintains e = record { apply = λ a h. h }

  pub pure-Maintains : {A : Type 0} (x : A) → Maintains (pure x)
  pure-Maintains x = record { apply = λ a h. h }

  pub get-Maintains : Maintains get
  get-Maintains = record { apply = λ a h. h }

  pub or_fail-Maintains : {A : Type 0} (o : Option A) (e : Error) → Maintains (or_fail o e)
  or_fail-Maintains none e = record { apply = λ a h. h }
  or_fail-Maintains (some x) e = record { apply = λ a h. h }

  pub or_crash-Maintains : {A : Type 0} (o : Option A) → Maintains (or_crash o)
  or_crash-Maintains none = record { apply = λ a h. h }
  or_crash-Maintains (some x) = record { apply = λ a h. h }

  pub when-Maintains : (c : Bool) (m : Method ⊤) → Maintains m → Maintains (when c m)
  when-Maintains true m p = record { apply = p.apply }
  when-Maintains false m p = record { apply = λ a h. h }

  pub if_else-Maintains :
      (c : Bool) (m k : Method ⊤) → Maintains m → Maintains k → Maintains (if_else c m k)
  if_else-Maintains true m k p q = record { apply = p.apply }
  if_else-Maintains false m k p q = record { apply = q.apply }

  rewrap-Kept :
      {A : Type 0} (w : Error → Error) (r : Result Error A × Account) → I r.1 → I (rewrap w r).1
  rewrap-Kept w (ok x, a) h = h
  rewrap-Kept w (err e, a) h = h
  rewrap-Kept w (panic, a) h = h

  pub wrap_error-Maintains :
      {A : Type 0} (w : Error → Error) (m : Method A) → Maintains m → Maintains (wrap_error w m)
  wrap_error-Maintains w m p = record { apply = λ a h. rewrap-Kept w (m a) (p.apply a h) }

  pub token_signer-Maintains : (t : Token) → Maintains (token_signer t)
  token_signer-Maintains t = record {
    apply = λ a. rewrap-Kept invalid_token_signer (from_string t.signature.signer_id, a);
  }

pub ruleset method_rules = (
  get_then-Maintains, or_fail_then-Maintains, bind-Maintains, modify-Maintains, fail_if-Maintains,
  fail-Maintains, pure-Maintains, get-Maintains, or_fail-Maintains, or_crash-Maintains,
  when-Maintains, if_else-Maintains, wrap_error-Maintains, token_signer-Maintains,
)
