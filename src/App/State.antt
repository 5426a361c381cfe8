-- ===== src/App/State.antt =====
-- The accounts of the application (type App of internal/scalegraph/app.go), and what its operations
-- have in common: they hold pointers to accounts and append one transaction to one or two of them.
use sg_emulator.Base.{⊤, Option, none, some, []}
use sg_emulator.Base.Dict.{Dict, lookup, insert}
use sg_emulator.Base.Action.{Result, ok, err, panic, Action, ◌>>◌, or_fail}
use sg_emulator.Errors.{Error}
use sg_emulator.Id.{ScalegraphId}
use sg_emulator.Transaction.{Transaction}
use sg_emulator.Account.{Account, Method, append_transaction, rollback_latest_transaction}

pub record App : Type 0 where
  pub accounts : Dict Account

unfoldable pub new_app : App
new_app = record { accounts = [] }

abbrev pub Operation : Type 0 → Type 0
Operation A = Action Error App A

-- The identifiers that an operation draws at random: of its transaction, and of the blocks that
-- the first and the second account add.
pub record Ids : Type 0 where
  pub transaction : ScalegraphId
  pub first_block : ScalegraphId
  pub second_block : ScalegraphId

-- `acc, exists := a.accounts[id]; if !exists { return … }`
abbrev pub find_account : ScalegraphId → Error → Operation Account
find_account id e app = or_fail (lookup id app.accounts) e app

abbrev pub run_method : {A : Type 0} → ScalegraphId → Method A → Option Account → Operation A
run_method id m none app = (panic, app)
run_method id m (some a) app = ((m a).0, record app { accounts = insert id (m a).1 app.accounts })

-- A method call through a pointer that was found under this identifier.
unfoldable pub on_account : {A : Type 0} → ScalegraphId → Method A → Operation A
on_account id m app = run_method id m (lookup id app.accounts) app

abbrev pub keep_error : Error → Result Error ⊤ × App → Result Error ⊤ × App
keep_error e (ok u, app) = (err e, app)
keep_error e (err e', app) = (err e, app)
keep_error e (panic, app) = (panic, app)

abbrev pub finish_with : Operation ⊤ → Result Error ⊤ × App → Result Error ⊤ × App
finish_with undo (ok u, app) = (ok tt, app)
finish_with undo (err e, app) = keep_error e (undo app)
finish_with undo (panic, app) = (panic, app)

-- `if err := m; err != nil { undo; return err }`, where the error of `undo` is dropped.
abbrev pub or_undo : Operation ⊤ → Operation ⊤ → Operation ⊤
or_undo m undo app = finish_with undo (m app)

-- The tail of the operations on two accounts: append to the first, then to the second, and if the
-- second refuses the transaction roll the first back.
unfoldable pub append_both : Ids → ScalegraphId → ScalegraphId → Transaction → Operation ⊤
append_both ids first second trx = do
  on_account first (append_transaction ids.first_block trx)
  or_undo (on_account second (append_transaction ids.second_block trx))
      (on_account first (rollback_latest_transaction trx))
