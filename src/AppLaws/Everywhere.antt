-- ===== src/AppLaws/Everywhere.antt =====
-- A property of every account, kept by the operations that write to the map of accounts
-- (internal/scalegraph/app.go).
use sg_emulator.Base.{⊤, ◌≡◌, refl, subst, Option, none, some, arith, Bool-cases, inl, inr}
use sg_emulator.Base.Bytes.{bytes_eq, bytes_eq→eq}
use sg_emulator.Base.Dict.{lookup, insert, delete, lookup-insert, lookup-delete}
use sg_emulator.Base.Action.{Result, ok, err, panic, modify}
use sg_emulator.Errors.{Error}
use sg_emulator.Id.{ScalegraphId}
use sg_emulator.Account.{Account, Method}
use sg_emulator.App.{App, finish_creation, Operation, run_method, on_account}
use sg_emulator.AppLaws.Preserves.{Preserves}

module _ (P : ScalegraphId → Account → Type 0) where
  abbrev pub Everywhere : App → Type 0
  Everywhere app = (k : ScalegraphId) (a : Account) → lookup k app.accounts ≡ some a → P k a

  -- Storing an account that has the property.
  pub insert-Everywhere :
      (id : ScalegraphId) (b : Account) (app : App)
      → P id b
      → Everywhere app
      → Everywhere (record app { accounts = insert id b app.accounts })
  insert-Everywhere id b app p h k a e = elim (Bool-cases (bytes_eq id k)) [
    | inl same ↦
        subst (λ i. P i a) (bytes_eq→eq id k same)
          (subst (P id) (ground (arith, lookup-insert k id b app.accounts)) p)
    | inr other ↦ h k a (ground (arith, lookup-insert k id b app.accounts))
  ]

  run_method-Everywhere :
      {A : Type 0} (id : ScalegraphId) (m : Method A) (o : Option Account) (app : App)
      → lookup id app.accounts ≡ o
      → ((a : Account) → P id a → P id (m a).1)
      → Everywhere app
      → Everywhere (run_method id m o app).1
  run_method-Everywhere id m none app e keep h = h
  run_method-Everywhere id m (some a) app e keep h =
      insert-Everywhere id (m a).1 app (keep a (h id a e)) h

  -- A method call on one account.
  pub on_account-Preserves :
      {A : Type 0} (id : ScalegraphId) (m : Method A)
      → ((a : Account) → P id a → P id (m a).1)
      → Preserves Everywhere (on_account id m)
  unfolding on_account
  on_account-Preserves id m keep = record {
    apply = λ app h. run_method-Everywhere id m (lookup id app.accounts) app refl keep h;
  }

  delete-Everywhere :
      (id : ScalegraphId) (app : App)
      → Everywhere app
      → Everywhere (record app { accounts = delete id app.accounts })
  delete-Everywhere id app h k a e = elim (Bool-cases (bytes_eq id k)) [
    | inl same ↦ absurd (ground (arith, lookup-delete k id app.accounts))
    | inr other ↦ h k a (ground (arith, lookup-delete k id app.accounts))
  ]

  finish_creation-Everywhere :
      (id : ScalegraphId) (r : Result Error ⊤ × App)
      → Everywhere r.1
      → Everywhere (finish_creation id r).1
  finish_creation-Everywhere id (ok u, app) h = h
  finish_creation-Everywhere id (err e, app) h = delete-Everywhere id app h
  finish_creation-Everywhere id (panic, app) h = h

  pub finish_creation-Preserves :
      (id : ScalegraphId) (m : Operation ⊤)
      → Preserves Everywhere m
      → Preserves Everywhere (λ app. finish_creation id (m app))
  finish_creation-Preserves id m p = record {
    apply = λ app h. finish_creation-Everywhere id (m app) (p.apply app h);
  }

  pub insert-Preserves :
      (id : ScalegraphId) (b : Account)
      → P id b
      → Preserves Everywhere (modify λ app. record app { accounts = insert id b app.accounts })
  insert-Preserves id b p = record { apply = λ app. insert-Everywhere id b app p }
