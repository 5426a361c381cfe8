-- ===== src/AccountLaws/Atomic.antt =====
-- A transaction that an account refuses (appendTransaction of internal/scalegraph/account.go)
-- leaves the account as it was.
use sg_emulator.Base.{⊤, ◌≡◌, ◌≢◌, refl, arith}
use sg_emulator.Base.Action.{Result, ok, err, panic}
use sg_emulator.Errors.{Error, skip_append}
use sg_emulator.Id.{ScalegraphId}
use sg_emulator.Transaction.{
  Transaction, CurrencyTransaction, MintTokenTransaction, TokenTransaction, SlotTransaction,
  BurnTokenTransaction,
}
use sg_emulator.Chain.{append}
use sg_emulator.Account.{
  Account, mint_token, add_token_from_transfer, remove_token, add_token, burn_token, handle_mint,
  handle_transfer, handle_burn, handle_mint_token, handle_transfer_token,
  handle_authorize_token_transfer, handle_unauthorize_token_transfer, handle_burn_token,
  handle_clawback_token, handle_freeze_token, handle_unfreeze_token, handle, finish_append,
  append_transaction,
}

-- A failure changed nothing, and is not the sentinel that skips the block.
abbrev pub Kept : Account → Result Error ⊤ × Account → Type 0
Kept a (ok u, b) = ⊤
Kept a (err e, b) = (b ≡ a) × (e ≢ skip_append)
Kept a (panic, b) = b ≡ a

handle_mint-Kept : (t : CurrencyTransaction) (a : Account) → Kept a (handle_mint t a)
unfolding handle_mint
handle_mint-Kept t a = tt

handle_transfer-Kept : (t : CurrencyTransaction) (a : Account) → Kept a (handle_transfer t a)
unfolding handle_transfer
handle_transfer-Kept t a = ground arith

handle_burn-Kept : (t : CurrencyTransaction) (a : Account) → Kept a (handle_burn t a)
unfolding handle_burn
handle_burn-Kept t a = ground arith

handle_mint_token-Kept : (t : MintTokenTransaction) (a : Account) → Kept a (handle_mint_token t a)
unfolding handle_mint_token mint_token
handle_mint_token-Kept t a = ground arith

handle_transfer_token-Kept :
    (t : TokenTransaction) (a : Account) → Kept a (handle_transfer_token t a)
unfolding handle_transfer_token remove_token add_token_from_transfer
handle_transfer_token-Kept t a = ground arith

handle_authorize_token_transfer-Kept :
    (t : SlotTransaction) (a : Account) → Kept a (handle_authorize_token_transfer t a)
unfolding handle_authorize_token_transfer
handle_authorize_token_transfer-Kept t a = ground arith

handle_unauthorize_token_transfer-Kept :
    (t : SlotTransaction) (a : Account) → Kept a (handle_unauthorize_token_transfer t a)
unfolding handle_unauthorize_token_transfer
handle_unauthorize_token_transfer-Kept t a = ground arith

handle_burn_token-Kept : (t : BurnTokenTransaction) (a : Account) → Kept a (handle_burn_token t a)
unfolding handle_burn_token burn_token
handle_burn_token-Kept t a = ground arith

handle_clawback_token-Kept :
    (t : TokenTransaction) (a : Account) → Kept a (handle_clawback_token t a)
unfolding handle_clawback_token remove_token add_token
handle_clawback_token-Kept t a = ground arith

handle_freeze_token-Kept : (t : SlotTransaction) (a : Account) → Kept a (handle_freeze_token t a)
unfolding handle_freeze_token
handle_freeze_token-Kept t a = ground arith

handle_unfreeze_token-Kept :
    (t : SlotTransaction) (a : Account) → Kept a (handle_unfreeze_token t a)
unfolding handle_unfreeze_token
handle_unfreeze_token-Kept t a = ground arith

handle-Kept : (trx : Transaction) (a : Account) → Kept a (handle trx a)
unfolding handle
handle-Kept (Transaction.mint t) a = handle_mint-Kept t a
handle-Kept (Transaction.transfer t) a = handle_transfer-Kept t a
handle-Kept (Transaction.burn t) a = handle_burn-Kept t a
handle-Kept (Transaction.mint_token t) a = handle_mint_token-Kept t a
handle-Kept (Transaction.transfer_token t) a = handle_transfer_token-Kept t a
handle-Kept (Transaction.authorize_token_transfer t) a = handle_authorize_token_transfer-Kept t a
handle-Kept (Transaction.unauthorize_token_transfer t) a =
    handle_unauthorize_token_transfer-Kept t a
handle-Kept (Transaction.burn_token t) a = handle_burn_token-Kept t a
handle-Kept (Transaction.clawback_token t) a = handle_clawback_token-Kept t a
handle-Kept (Transaction.freeze_token t) a = handle_freeze_token-Kept t a
handle-Kept (Transaction.unfreeze_token t) a = handle_unfreeze_token-Kept t a

finish_append-Kept :
    (block_id : ScalegraphId) (trx : Transaction) (a : Account) (r : Result Error ⊤ × Account)
    → Kept a r
    → (finish_append block_id trx r).0 ≢ ok tt
    → (finish_append block_id trx r).1 ≡ a
finish_append-Kept block_id trx a (ok u, b) k n = absurd (n refl)
finish_append-Kept block_id trx a (err e, b) k n = ground arith
finish_append-Kept block_id trx a (panic, b) k n = k

-- If `appendTransaction` returns an error, or panics, the account is exactly as it was before the
-- call, whatever the type of the transaction and the state of the account.
pub append_transaction_atomic :
    (block_id : ScalegraphId) (trx : Transaction) (a : Account)
    → (append_transaction block_id trx a).0 ≢ ok tt
    → (append_transaction block_id trx a).1 ≡ a
unfolding append_transaction
append_transaction_atomic block_id trx a n =
    finish_append-Kept block_id trx a (handle trx a) (handle-Kept trx a) n

finish_append_ok :
    (block_id : ScalegraphId) (trx : Transaction) (a : Account) (r : Result Error ⊤ × Account)
    → Kept a r
    → (finish_append block_id trx r).0 ≡ ok tt
    → (r.0 ≡ ok tt)
      × ((finish_append block_id trx r).1
          ≡ record r.1 { blockchain = append block_id trx r.1.blockchain })
finish_append_ok block_id trx a (ok u, b) k h = (refl, refl)
finish_append_ok block_id trx a (err e, b) k h = ground arith
finish_append_ok block_id trx a (panic, b) k h = cc

-- The result of an append by the result of its handler.
pub append_transaction_ok :
    (block_id : ScalegraphId) (trx : Transaction) (a : Account)
    → (append_transaction block_id trx a).0 ≡ ok tt
    → ((handle trx a).0 ≡ ok tt)
      × ((append_transaction block_id trx a).1 ≡ record (handle trx a).1 {
        blockchain = append block_id trx (handle trx a).1.blockchain;
      })
unfolding append_transaction
append_transaction_ok block_id trx a h =
    finish_append_ok block_id trx a (handle trx a) (handle-Kept trx a) h
