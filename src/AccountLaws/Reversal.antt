-- ===== src/AccountLaws/Reversal.antt =====
-- The rollback of a transaction (rollbacklatestTransaction of internal/scalegraph/account.go) after
-- the account has accepted it.
mod Handlers
use sg_emulator.Base.{◌<◌, ◌≡◌, sym, subst, arith}
use sg_emulator.Base.Bytes.{bytes_eq_refl}
use sg_emulator.Base.Word.{u64_mod}
use sg_emulator.Base.Action.{ok}
use sg_emulator.Id.{ScalegraphId}
use sg_emulator.Transaction.{Transaction, transaction_id}
use sg_emulator.Account.{Account, handle, append_transaction, rollback, rollback_latest_transaction}
use sg_emulator.Errors.{rollback_failed}
use sg_emulator.Base.Action.{wrap_error}
use sg_emulator.Chain.{append, block_transaction}
use sg_emulator.Chain.Laws.{IsChain, remove_latest_block-append}
use sg_emulator.AccountLaws.Nonce.{handle-Counted}
use sg_emulator.AccountLaws.Atomic.{append_transaction_ok}
pub use sg_emulator.AccountLaws.Reversal.Handlers.{
  SameFields, SameStore, Reverted, AddsExactly, TakesExactly, IsRevertible, handle-Reverted,
}

-- On top of the block that holds the transaction, the rollback removes the block and runs the
-- rollback handler.
rollback_on_block :
    (block_id : ScalegraphId) (trx : Transaction) (b : Account)
    → IsChain b.blockchain
    → rollback_latest_transaction trx (record b { blockchain = append block_id trx b.blockchain })
      ≡ wrap_error rollback_failed (rollback trx) b
unfolding rollback_latest_transaction append block_transaction
rollback_on_block block_id trx b v = ground (
  arith,
  bytes_eq_refl (transaction_id trx),
  remove_latest_block-append block_id trx b.blockchain v,
)

wrap_error-Reverted :
    (a b : Account) (trx : Transaction)
    → Reverted a (rollback trx b)
    → Reverted a (wrap_error rollback_failed (rollback trx) b)
wrap_error-Reverted a b trx r = (ground arith, ground (arith, r.1), λ k. ground (arith, r.0, r.2 k))

-- If an account with a proper chain and count has accepted a transaction of which the rollback is
-- exact (IsRevertible: the rounded amounts, too, come back to what they were), then rolling it back
-- succeeds and restores the account: its identity, balance, requirement, chain and count, and every
-- entry of the token store.
pub rollback_latest_transaction-append :
    (block_id : ScalegraphId) (trx : Transaction) (a : Account)
    → a.outgoing_tx_count < u64_mod
    → IsChain a.blockchain
    → IsRevertible trx a
    → (append_transaction block_id trx a).0 ≡ ok tt
    → Reverted a (rollback_latest_transaction trx (append_transaction block_id trx a).1)
rollback_latest_transaction-append block_id trx a bound v p h =
    let (done, e) = append_transaction_ok block_id trx a h in
    let chain = subst IsChain (sym (handle-Counted trx a done).same_chain) v in
    rw (e, rollback_on_block block_id trx (handle trx a).1 chain)
      (wrap_error-Reverted a (handle trx a).1 trx (handle-Reverted trx a bound p done))
