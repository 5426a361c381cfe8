-- ===== src/AppLaws/TwoSided.antt =====
-- Operations on two accounts (the token operations of internal/scalegraph/app.go): if they fail,
-- what the first account has done is undone.
use sg_emulator.Base.{
  ⊤, ◌≡◌, ◌≢◌, refl, sym, ◌∙◌, ap, Option, none, some, arith, ◌⊎◌, inl, inr, Bool-cases,
  Option-cases,
}
use sg_emulator.Base.Bytes.{bytes_eq, bytes_eq_iff}
use sg_emulator.Base.Dict.{lookup, insert, lookup-insert, lookup-insert_self, insert_same}
use sg_emulator.Base.Action.{Result, ok, err, panic, after}
use sg_emulator.Errors.{Error}
use sg_emulator.Id.{ScalegraphId}
use sg_emulator.Transaction.{Transaction}
use sg_emulator.Account.{Account, Method, append_transaction, rollback_latest_transaction}
use sg_emulator.AccountLaws.Atomic.{append_transaction_atomic}
use sg_emulator.AccountLaws.Soundness.{Result-cases}
use sg_emulator.AccountLaws.Reversal.{
  SameFields, SameStore, Reverted, IsRevertible, rollback_latest_transaction-append,
}
use sg_emulator.App.{App, Ids, Operation, on_account, keep_error, finish_with, or_undo, append_both}
use sg_emulator.AppLaws.Sound.{AllSound}

-- The same account, but for the order in its token store; or none on either side.
abbrev pub SameEntry : Option Account → Option Account → Type 0
SameEntry none none = ⊤
SameEntry none (some b) = ⊥
SameEntry (some a) none = ⊥
SameEntry (some a) (some b) = SameFields a b × SameStore a b

abbrev pub SameApp : App → App → Type 0
SameApp app app' = (k : ScalegraphId) → SameEntry (lookup k app.accounts) (lookup k app'.accounts)

SameEntry-refl : (o : Option Account) → SameEntry o o
SameEntry-refl none = tt
SameEntry-refl (some a) = (
  record {
    id = refl;
    balance = refl;
    mbr = refl;
    blockchain = refl;
    public_key = refl;
    certificate = refl;
    outgoing_tx_count = refl;
  },
  λ k. refl,
)

pub SameApp-refl : (app : App) → SameApp app app
SameApp-refl app k = SameEntry-refl (lookup k app.accounts)

module _ (app : App) (id : ScalegraphId) (a : Account)
    (found : lookup id app.accounts ≡ some a) where
  on_account_found :
      (m : Method ⊤)
      → on_account id m app ≡ ((m a).0, record app { accounts = insert id (m a).1 app.accounts })
  unfolding on_account
  on_account_found m = ground (arith, found)

  -- An account that refuses a transaction leaves the application as it is.
  on_account_refused :
      (block_id : ScalegraphId) (trx : Transaction)
      → (append_transaction block_id trx a).0 ≢ ok tt
      → on_account id (append_transaction block_id trx) app
        ≡ ((append_transaction block_id trx a).0, app)
  on_account_refused block_id trx n =
      on_account_found (append_transaction block_id trx)
      ∙ ap
          (λ b. (
            (append_transaction block_id trx a).0,
            record app { accounts = insert id b app.accounts },
          ))
          (append_transaction_atomic block_id trx a n)
      ∙ ap (λ m. ((append_transaction block_id trx a).0, record app { accounts = m }))
          (insert_same id a app.accounts found)

-- A method call that appends either succeeds or leaves the application as it is.
on_account_shape :
    (app : App) (id block_id : ScalegraphId) (trx : Transaction)
    → ((on_account id (append_transaction block_id trx) app).0 ≡ ok tt)
      ⊎ ((r : Result Error ⊤) × (r ≢ ok tt)
          × (on_account id (append_transaction block_id trx) app ≡ (r, app)))
on_account_shape app id block_id trx = elim (Option-cases (lookup id app.accounts)) [
  | inl missing ↦ inr (panic, λ h. cc, unfold on_account in ground (arith, missing))
  | inr (a, found) ↦ elim (Result-cases (append_transaction block_id trx a).0) [
    | inl done ↦
        inl
          (ap (λ r. r.0) (on_account_found app id a found (append_transaction block_id trx)) ∙ done)
    | inr refused ↦ inr (_, refused, on_account_refused app id a found block_id trx refused)
  ]
]

after_refused :
    (app : App) (r : Result Error ⊤) (next : ⊤ → Operation ⊤)
    → r ≢ ok tt
    → SameApp app (after (r, app) next).1
after_refused app (ok u) next n = absurd (n refl)
after_refused app (err e) next n = SameApp-refl app
after_refused app panic next n = SameApp-refl app

finish_with_ok :
    (undo : Operation ⊤) (r : Result Error ⊤ × App) → r.0 ≡ ok tt → (finish_with undo r).0 ≡ ok tt
finish_with_ok undo (ok u, app) h = refl
finish_with_ok undo (err e, app) h = cc
finish_with_ok undo (panic, app) h = cc

-- Putting back an account that is the same as before.
restored-SameApp :
    (app : App) (id : ScalegraphId) (a b c : Account)
    → lookup id app.accounts ≡ some a
    → SameFields a c × SameStore a c
    → SameApp app (record app { accounts = insert id c (insert id b app.accounts) })
restored-SameApp app id a b c found same k = elim (Bool-cases (bytes_eq id k)) [
  | inl here ↦
      let k_is = (bytes_eq_iff id k).0 here in
      rw (lookup-insert k id c (insert id b app.accounts), here, ← k_is, found) same
  | inr there ↦
      rw
        (
          lookup-insert k id c (insert id b app.accounts),
          there,
          lookup-insert k id b app.accounts,
          there,
        )
        (SameEntry-refl (lookup k app.accounts))
]

keep_error-SameApp :
    (app : App) (e : Error) (r : Result Error ⊤ × App)
    → SameApp app r.1
    → SameApp app (keep_error e r).1
keep_error-SameApp app e (ok u, a) h = h
keep_error-SameApp app e (err x, a) h = h
keep_error-SameApp app e (panic, a) h = h

module _ (ids : Ids) (first second : ScalegraphId) (trx : Transaction) (app : App) (f : Account)
    (sound : AllSound app) (found : lookup first app.accounts ≡ some f)
    (rev : IsRevertible trx f) where
  module _ (done : (append_transaction ids.first_block trx f).0 ≡ ok tt) where
    abbrev f1 : Account
    f1 = (append_transaction ids.first_block trx f).1

    abbrev app1 : App
    app1 = record app { accounts = insert first f1 app.accounts }

    abbrev undo : Operation ⊤
    undo = on_account first (rollback_latest_transaction trx)

    undo-Reverted : Reverted f (rollback_latest_transaction trx f1)
    undo-Reverted =
        rollback_latest_transaction-append ids.first_block trx f (sound first f found).bounded
          (sound first f found).chained rev done

    undone : undo app1 ≡ (
      ok tt,
      record app {
        accounts =
            insert first (rollback_latest_transaction trx f1).1 (insert first f1 app.accounts);
      },
    )
    undone =
        on_account_found app1 first f1 (lookup-insert_self first f1 app.accounts)
          (rollback_latest_transaction trx)
        ∙ ap
            (λ r. (
              r,
              record app {
                accounts =
                    insert first (rollback_latest_transaction trx f1).1
                      (insert first f1 app.accounts);
              },
            ))
            undo-Reverted.0

    undo-SameApp : SameApp app (undo app1).1
    undo-SameApp = rw undone (
        restored-SameApp app first f f1 (rollback_latest_transaction trx f1).1 found
          (undo-Reverted.1, undo-Reverted.2))

    finish-SameApp :
        (r : Result Error ⊤) (e : Error)
        → r ≢ ok tt
        → (finish_with undo (r, app1)).0 ≡ err e
        → SameApp app (finish_with undo (r, app1)).1
    finish-SameApp (ok u) e n h = absurd (n refl)
    finish-SameApp (err x) e n h = keep_error-SameApp app x (undo app1) undo-SameApp
    finish-SameApp panic e n h = cc

    second-SameApp :
        (e : Error)
        → (or_undo (on_account second (append_transaction ids.second_block trx)) undo app1).0
          ≡ err e
        → SameApp app
            (or_undo (on_account second (append_transaction ids.second_block trx)) undo app1).1
    second-SameApp e h = elim (on_account_shape app1 second ids.second_block trx) [
      | inl accepted ↦ let ok_is_err = sym (finish_with_ok undo _ accepted) ∙ h in cc ok_is_err
      | inr (r, n, is) ↦ rw is (finish-SameApp r e n (rw is at h))
    ]

  -- The tail of an operation on two accounts, over a sound application that has the first account, for
  -- a transaction of which the rollback is exact there: if it returns an error, no account has
  -- changed, though the first may have accepted the transaction before the second refused it.
  pub append_both-SameApp :
      (e : Error)
      → (append_both ids first second trx app).0 ≡ err e
      → SameApp app (append_both ids first second trx app).1
  unfolding append_both
  append_both-SameApp e h = elim (Result-cases (append_transaction ids.first_block trx f).0) [
    | inl done ↦
        let step = on_account_found app first f found (append_transaction ids.first_block trx) in
        rw (step, done) (second-SameApp done e (rw (step, done) at h))
    | inr refused ↦
        let step = on_account_refused app first f found ids.first_block trx refused in
        rw step (after_refused app (append_transaction ids.first_block trx f).0 _ refused)
  ]
