-- ===== src/App/Money.antt =====
-- The operations on money and accounts (CreateAccountWithKeys, Transfer and Mint of
-- internal/scalegraph/app.go).
use sg_emulator.Base.{⊤, not, ◌==◌, Option}
use sg_emulator.Base.Bytes.{Bytes, bytes_eq}
use sg_emulator.Base.Dict.{lookup, insert, delete}
use sg_emulator.Base.Int.{ℤ, pos, ltb_ℤ}
use sg_emulator.Base.Action.{Result, ok, err, panic, ◌>>=◌, ◌>>◌, get, modify, fail_if, when}
use sg_emulator.Errors.{
  Error, source_not_found, destination_not_found, self_transfer, nonce_mismatch,
  account_already_exists, failed_initial_mint,
}
use sg_emulator.Id.{ScalegraphId}
use sg_emulator.Transaction.{new_transfer_transaction, new_mint_transaction}
use sg_emulator.Account.{get_nonce, is_some, append_transaction, new_account_with_public_key}
use sg_emulator.Requests.{TransferRequest, MintRequest}
use sg_emulator.App.State.{App, Ids, Operation, find_account, on_account}

unfoldable pub transfer : Ids → TransferRequest → Operation ⊤
transfer ids req = do
  from_acc ← find_account req.from source_not_found
  to_acc ← find_account req.to destination_not_found
  fail_if (bytes_eq req.from req.to) self_transfer
  fail_if (not (req.nonce == get_nonce from_acc)) nonce_mismatch
  let trx = new_transfer_transaction ids.transaction from_acc.id to_acc.id req.amount
  on_account req.from (append_transaction ids.first_block trx)
  on_account req.to (append_transaction ids.second_block trx)

-- The error of an operation is dropped; a panic is not.
abbrev pub drop_error : Result Error ⊤ × App → Result Error ⊤ × App
drop_error (ok u, app) = (ok tt, app)
drop_error (err e, app) = (ok tt, app)
drop_error (panic, app) = (panic, app)

unfoldable pub mint : Ids → MintRequest → Operation ⊤
mint ids req = do
  to_acc ← find_account req.to destination_not_found
  λ app. drop_error (
      on_account req.to
        (append_transaction ids.first_block
          (new_mint_transaction ids.transaction to_acc.id req.amount))
        app)

-- What follows the initial mint: if it has failed, the account is removed again.
abbrev pub finish_creation : ScalegraphId → Result Error ⊤ × App → Result Error ⊤ × App
finish_creation id (ok u, app) = (ok tt, app)
finish_creation id (err e, app) =
    (err (failed_initial_mint e), record app { accounts = delete id app.accounts })
finish_creation id (panic, app) = (panic, app)

-- `CreateAccountWithKeys`, for the identifier derived from the public key and the one drawn for the
-- genesis block; the account is then found under its identifier.
unfoldable pub create_account_with_keys :
    Ids → ScalegraphId → ScalegraphId → Bytes → Option Bytes → ℤ → Operation ⊤
create_account_with_keys ids id genesis_id public_key certificate initial_balance = do
  app ← get
  fail_if (is_some (lookup id app.accounts)) account_already_exists
  modify (λ app. record app {
    accounts =
        insert id (new_account_with_public_key id genesis_id public_key certificate) app.accounts;
  })
  when (ltb_ℤ (pos 0) initial_balance)
      (λ app. finish_creation id (mint ids (record { to = id; amount = initial_balance }) app))
