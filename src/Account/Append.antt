-- ===== src/Account/Append.antt =====
-- appendTransaction and rollbacklatestTransaction (internal/scalegraph/account.go). The maps of
-- handlers hold one entry for each type of transaction, so a look-up in them is the dispatch below
-- and never misses; the typed wrappers never meet another type.
use sg_emulator.Base.{⊤, Bool, false, not, ◌==◌, Option, none, some}
use sg_emulator.Base.Bytes.{bytes_eq}
use sg_emulator.Base.Action.{
  Result, ok, err, panic, ◌>>=◌, ◌>>◌, get, modify, fail_if, if_else, pure, wrap_error,
}
use sg_emulator.Errors.{Error, skip_append, not_latest_transaction, rollback_failed}
use sg_emulator.Id.{ScalegraphId}
use sg_emulator.Transaction.{Transaction, transaction_id}
use sg_emulator.Chain.{append, remove_latest_block, block_transaction}
use sg_emulator.Account.State.{Account, Method}
use sg_emulator.Account.Handlers.{
  handle_mint, handle_transfer, handle_burn, handle_mint_token, handle_transfer_token,
  handle_authorize_token_transfer, handle_unauthorize_token_transfer, handle_burn_token,
  handle_clawback_token, handle_freeze_token, handle_unfreeze_token,
}
use sg_emulator.Account.Rollbacks.{
  rollback_mint, rollback_transfer, rollback_burn, rollback_mint_token, rollback_transfer_token,
  rollback_authorize_token_transfer, rollback_unauthorize_token_transfer, rollback_burn_token,
  rollback_clawback_token, rollback_freeze_token, rollback_unfreeze_token,
}

-- The map `txHandlers`, as `registerTxHandlers` fills it.
unfoldable pub handle : Transaction → Method ⊤
handle (Transaction.mint t) = handle_mint t
handle (Transaction.transfer t) = handle_transfer t
handle (Transaction.burn t) = handle_burn t
handle (Transaction.mint_token t) = handle_mint_token t
handle (Transaction.transfer_token t) = handle_transfer_token t
handle (Transaction.clawback_token t) = handle_clawback_token t
handle (Transaction.authorize_token_transfer t) = handle_authorize_token_transfer t
handle (Transaction.unauthorize_token_transfer t) = handle_unauthorize_token_transfer t
handle (Transaction.burn_token t) = handle_burn_token t
handle (Transaction.freeze_token t) = handle_freeze_token t
handle (Transaction.unfreeze_token t) = handle_unfreeze_token t

-- The map `txRollbackHandlers`, as `registerTxRollbackHandlers` fills it.
unfoldable pub rollback : Transaction → Method ⊤
rollback (Transaction.mint t) = rollback_mint t
rollback (Transaction.transfer t) = rollback_transfer t
rollback (Transaction.burn t) = rollback_burn t
rollback (Transaction.mint_token t) = rollback_mint_token t
rollback (Transaction.transfer_token t) = rollback_transfer_token t
rollback (Transaction.clawback_token t) = rollback_clawback_token t
rollback (Transaction.authorize_token_transfer t) = rollback_authorize_token_transfer t
rollback (Transaction.unauthorize_token_transfer t) = rollback_unauthorize_token_transfer t
rollback (Transaction.burn_token t) = rollback_burn_token t
rollback (Transaction.freeze_token t) = rollback_freeze_token t
rollback (Transaction.unfreeze_token t) = rollback_unfreeze_token t

-- What follows the handler: a block on success, nothing on the sentinel error, else the error.
abbrev pub finish_append :
    ScalegraphId → Transaction → Result Error ⊤ × Account → Result Error ⊤ × Account
finish_append block_id trx (ok u, a) =
    (ok tt, record a { blockchain = append block_id trx a.blockchain })
finish_append block_id trx (err skip_append, a) = (ok tt, a)
finish_append block_id trx (err e, a) = (err e, a)
finish_append block_id trx (panic, a) = (panic, a)

-- `appendTransaction`; the identifier of the block that it may add is an argument.
unfoldable pub append_transaction : ScalegraphId → Transaction → Method ⊤
append_transaction block_id trx a = finish_append block_id trx (handle trx a)

-- `latest.Transaction() != nil && latest.Transaction().ID() == trx.ID()`
abbrev pub is_transaction : Option Transaction → Transaction → Bool
is_transaction none trx = false
is_transaction (some latest) trx = bytes_eq (transaction_id latest) (transaction_id trx)

-- `rollbacklatestTransaction`
unfoldable pub rollback_latest_transaction : Transaction → Method ⊤
rollback_latest_transaction trx = do
  a ← get
  if_else (a.blockchain.length == 0) (pure tt) (do
    fail_if (not (is_transaction (block_transaction a.blockchain.tail) trx)) not_latest_transaction
    modify (λ a. record a { blockchain = remove_latest_block a.blockchain })
    wrap_error rollback_failed (rollback trx))
