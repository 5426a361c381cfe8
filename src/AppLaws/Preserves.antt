-- ===== src/AppLaws/Preserves.antt =====
-- An invariant of the application, kept by an operation: rules for the ways in which
-- internal/scalegraph/app.go builds its operations.
use sg_emulator.Base.{◌≡◌, refl, ⊤, Bool, true, false, Option, none, some}
use sg_emulator.Base.Bytes.{Bytes}
use sg_emulator.Base.Dict.{lookup}
use sg_emulator.Base.Action.{
  Result, ok, err, panic, after, rewrap, wrap_error, gets, fail, ◌>>=◌, fail_if, or_fail, or_crash,
  when, get, pure,
}
use sg_emulator.Errors.{Error, invalid_signer_id}
use sg_emulator.Id.{ScalegraphId, from_string}
use sg_emulator.App.{
  App, parse_signer, drop_error, keep_error, finish_with, Operation, find_account, or_undo,
}

module _ (I : App → Type 0) where
  pub record Preserves {A : Type 0} (m : Operation A) : Type 0 where
    pub apply : (app : App) → I app → I (m app).1

  after-Kept :
      {A B : Type 0} (r : Result Error A × App) (f : A → Operation B)
      → I r.1
      → ((x : A) → Preserves (f x))
      → I (after r f).1
  after-Kept (ok a, app) f h q = (q a).apply app h
  after-Kept (err e, app) f h q = h
  after-Kept (panic, app) f h q = h

  pub bind-Preserves :
      {A B : Type 0} (m : Operation A) (f : A → Operation B)
      → Preserves m
      → ((x : A) → Preserves (f x))
      → Preserves (m >>= f)
  bind-Preserves m f p q = record { apply = λ app h. after-Kept (m app) f (p.apply app h) q }

  pub fail_if-Preserves : (c : Bool) (e : Error) → Preserves (fail_if c e)
  fail_if-Preserves true e = record { apply = λ app h. h }
  fail_if-Preserves false e = record { apply = λ app h. h }

  pub or_fail-Preserves : {A : Type 0} (o : Option A) (e : Error) → Preserves (or_fail o e)
  or_fail-Preserves none e = record { apply = λ app h. h }
  or_fail-Preserves (some a) e = record { apply = λ app h. h }

  pub or_crash-Preserves : {A : Type 0} (o : Option A) → Preserves (or_crash o)
  or_crash-Preserves none = record { apply = λ app h. h }
  or_crash-Preserves (some a) = record { apply = λ app h. h }

  pub pure-Preserves : {A : Type 0} (a : A) → Preserves (pure a)
  pure-Preserves a = record { apply = λ app h. h }

  pub get-Preserves : Preserves get
  get-Preserves = record { apply = λ app h. h }

  pub find_account-Preserves : (id : ScalegraphId) (e : Error) → Preserves (find_account id e)
  find_account-Preserves id e = record {
    apply = λ app h. (or_fail-Preserves (lookup id app.accounts) e).apply app h;
  }

  keep_error-Kept : (e : Error) (r : Result Error ⊤ × App) → I r.1 → I (keep_error e r).1
  keep_error-Kept e (ok u, app) h = h
  keep_error-Kept e (err e', app) h = h
  keep_error-Kept e (panic, app) h = h

  finish_with-Kept :
      (undo : Operation ⊤) (r : Result Error ⊤ × App)
      → Preserves undo
      → I r.1
      → I (finish_with undo r).1
  finish_with-Kept undo (ok u, app) q h = h
  finish_with-Kept undo (err e, app) q h = keep_error-Kept e (undo app) (q.apply app h)
  finish_with-Kept undo (panic, app) q h = h

  pub or_undo-Preserves :
      (m undo : Operation ⊤) → Preserves m → Preserves undo → Preserves (or_undo m undo)
  or_undo-Preserves m undo p q = record {
    apply = λ app h. finish_with-Kept undo (m app) q (p.apply app h);
  }

  drop_error-Kept : (r : Result Error ⊤ × App) → I r.1 → I (drop_error r).1
  drop_error-Kept (ok u, app) h = h
  drop_error-Kept (err e, app) h = h
  drop_error-Kept (panic, app) h = h

  pub drop_error-Preserves : (m : Operation ⊤) → Preserves m → Preserves (λ app. drop_error (m app))
  drop_error-Preserves m p = record { apply = λ app h. drop_error-Kept (m app) (p.apply app h) }

  pub when-Preserves : (c : Bool) (m : Operation ⊤) → Preserves m → Preserves (when c m)
  when-Preserves true m p = record { apply = p.apply }
  when-Preserves false m p = record { apply = λ app h. h }

  rewrap-Kept :
      {A : Type 0} (w : Error → Error) (r : Result Error A × App) → I r.1 → I (rewrap w r).1
  rewrap-Kept w (ok u, app) h = h
  rewrap-Kept w (err e, app) h = h
  rewrap-Kept w (panic, app) h = h

  pub parse_signer-Preserves : (s : Bytes) → Preserves (parse_signer s)
  parse_signer-Preserves s = record {
    apply = λ app. rewrap-Kept invalid_signer_id (from_string s, app);
  }

  pub wrap_error-Preserves :
      {A : Type 0} (w : Error → Error) (m : Operation A) → Preserves m → Preserves (wrap_error w m)
  wrap_error-Preserves w m p = record { apply = λ app h. rewrap-Kept w (m app) (p.apply app h) }

  pub gets-Preserves : {A : Type 0} (f : App → A) → Preserves (gets f)
  gets-Preserves f = record { apply = λ app h. h }

  pub fail-Preserves : {A : Type 0} (e : Error) → Preserves {A = A} (fail e)
  fail-Preserves e = record { apply = λ app h. h }

  -- What the pointer holds, and what was parsed, is known in what follows.
  pub or_crash_then-Preserves :
      {A B : Type 0} (o : Option A) (f : A → Operation B)
      → ((x : A) → o ≡ some x → Preserves (f x))
      → Preserves (or_crash o >>= f)
  or_crash_then-Preserves none f q = record { apply = λ app h. h }
  or_crash_then-Preserves (some x) f q = record { apply = (q x refl).apply }

  pub or_fail_then-Preserves :
      {A B : Type 0} (o : Option A) (e : Error) (f : A → Operation B)
      → ((x : A) → o ≡ some x → Preserves (f x))
      → Preserves (or_fail o e >>= f)
  or_fail_then-Preserves none e f q = record { apply = λ app h. h }
  or_fail_then-Preserves (some x) e f q = record { apply = (q x refl).apply }

  parsed-Kept :
      {B : Type 0} (r : Result Error ScalegraphId) (f : ScalegraphId → Operation B) (app : App)
      → ((id : ScalegraphId) → r ≡ ok id → Preserves (f id))
      → I app
      → I (after (rewrap invalid_signer_id (r, app)) f).1
  parsed-Kept (ok id) f app q h = (q id refl).apply app h
  parsed-Kept (err e) f app q h = h
  parsed-Kept panic f app q h = h

  pub parse_signer_then-Preserves :
      {B : Type 0} (s : Bytes) (f : ScalegraphId → Operation B)
      → ((id : ScalegraphId) → from_string s ≡ ok id → Preserves (f id))
      → Preserves (parse_signer s >>= f)
  parse_signer_then-Preserves s f q = record { apply = λ app. parsed-Kept (from_string s) f app q }

pub ruleset rules = (
  bind-Preserves, fail_if-Preserves, or_fail-Preserves, or_crash-Preserves, pure-Preserves,
  find_account-Preserves, or_undo-Preserves, parse_signer-Preserves, wrap_error-Preserves,
  gets-Preserves, fail-Preserves,
)
