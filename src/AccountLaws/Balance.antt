-- ===== src/AccountLaws/Balance.antt =====
-- The money of an account under the transactions that concern tokens (the handlers and rollbacks of
-- internal/scalegraph/account.go): none of them moves any.
use sg_emulator.Base.{⊤, ◌≡◌, ap, ◌∙◌, inl, inr, arith}
use sg_emulator.Id.{ScalegraphId}
use sg_emulator.Transaction.{
  Transaction, MintTokenTransaction, TokenTransaction, SlotTransaction, BurnTokenTransaction,
}
use sg_emulator.Account.{
  Account, mint_token, burn_token, add_token_from_transfer, remove_token, add_token,
  handle_mint_token, handle_transfer_token, handle_authorize_token_transfer,
  handle_unauthorize_token_transfer, handle_burn_token, handle_clawback_token, handle_freeze_token,
  handle_unfreeze_token, handle, append_transaction, rollback_mint_token, rollback_transfer_token,
  rollback_authorize_token_transfer, rollback_unauthorize_token_transfer, rollback_burn_token,
  rollback_clawback_token, rollback_freeze_token, rollback_unfreeze_token, rollback,
  rollback_latest_transaction,
}
use sg_emulator.Chain.{remove_latest_block}
use sg_emulator.AccountLaws.Atomic.{append_transaction_ok, append_transaction_atomic}
use sg_emulator.AccountLaws.Soundness.{Result-cases}

-- The transactions that concern tokens only.
abbrev pub IsTokenTransaction : Transaction → Type 0
IsTokenTransaction (Transaction.mint t) = ⊥
IsTokenTransaction (Transaction.transfer t) = ⊥
IsTokenTransaction (Transaction.burn t) = ⊥
IsTokenTransaction _ = ⊤

mint_token-balance :
    (t : MintTokenTransaction) (a : Account)
    → ((handle_mint_token t a).1.balance ≡ a.balance)
      × ((rollback_mint_token t a).1.balance ≡ a.balance)
unfolding handle_mint_token rollback_mint_token mint_token
mint_token-balance t a = (ground arith, ground arith)

transfer_token-balance :
    (t : TokenTransaction) (a : Account)
    → ((handle_transfer_token t a).1.balance ≡ a.balance)
      × ((rollback_transfer_token t a).1.balance ≡ a.balance)
unfolding handle_transfer_token rollback_transfer_token remove_token add_token_from_transfer
transfer_token-balance t a = (ground arith, ground arith)

authorize_token_transfer-balance :
    (t : SlotTransaction) (a : Account)
    → ((handle_authorize_token_transfer t a).1.balance ≡ a.balance)
      × ((rollback_authorize_token_transfer t a).1.balance ≡ a.balance)
unfolding handle_authorize_token_transfer rollback_authorize_token_transfer
authorize_token_transfer-balance t a = (ground arith, ground arith)

unauthorize_token_transfer-balance :
    (t : SlotTransaction) (a : Account)
    → ((handle_unauthorize_token_transfer t a).1.balance ≡ a.balance)
      × ((rollback_unauthorize_token_transfer t a).1.balance ≡ a.balance)
unfolding handle_unauthorize_token_transfer rollback_unauthorize_token_transfer
unauthorize_token_transfer-balance t a = (ground arith, ground arith)

burn_token-balance :
    (t : BurnTokenTransaction) (a : Account)
    → ((handle_burn_token t a).1.balance ≡ a.balance)
      × ((rollback_burn_token t a).1.balance ≡ a.balance)
unfolding handle_burn_token rollback_burn_token burn_token
burn_token-balance t a = (ground arith, ground arith)

clawback_token-balance :
    (t : TokenTransaction) (a : Account)
    → ((handle_clawback_token t a).1.balance ≡ a.balance)
      × ((rollback_clawback_token t a).1.balance ≡ a.balance)
unfolding handle_clawback_token rollback_clawback_token remove_token add_token
clawback_token-balance t a = (ground arith, ground arith)

freeze_token-balance :
    (t : SlotTransaction) (a : Account)
    → ((handle_freeze_token t a).1.balance ≡ a.balance)
      × ((rollback_freeze_token t a).1.balance ≡ a.balance)
unfolding handle_freeze_token rollback_freeze_token
freeze_token-balance t a = (ground arith, ground arith)

unfreeze_token-balance :
    (t : SlotTransaction) (a : Account)
    → ((handle_unfreeze_token t a).1.balance ≡ a.balance)
      × ((rollback_unfreeze_token t a).1.balance ≡ a.balance)
unfolding handle_unfreeze_token rollback_unfreeze_token
unfreeze_token-balance t a = (ground arith, ground arith)

handle-balance :
    (trx : Transaction) (a : Account)
    → IsTokenTransaction trx
    → ((handle trx a).1.balance ≡ a.balance) × ((rollback trx a).1.balance ≡ a.balance)
unfolding handle rollback
handle-balance (Transaction.mint t) a p = absurd p
handle-balance (Transaction.transfer t) a p = absurd p
handle-balance (Transaction.burn t) a p = absurd p
handle-balance (Transaction.mint_token t) a p = mint_token-balance t a
handle-balance (Transaction.transfer_token t) a p = transfer_token-balance t a
handle-balance (Transaction.authorize_token_transfer t) a p = authorize_token_transfer-balance t a
handle-balance (Transaction.unauthorize_token_transfer t) a p =
    unauthorize_token_transfer-balance t a
handle-balance (Transaction.burn_token t) a p = burn_token-balance t a
handle-balance (Transaction.clawback_token t) a p = clawback_token-balance t a
handle-balance (Transaction.freeze_token t) a p = freeze_token-balance t a
handle-balance (Transaction.unfreeze_token t) a p = unfreeze_token-balance t a

-- Appending a transaction that concerns tokens, accepted or not, keeps the account's balance.
pub append_transaction-balance :
    (block_id : ScalegraphId) (trx : Transaction) (a : Account)
    → IsTokenTransaction trx
    → (append_transaction block_id trx a).1.balance ≡ a.balance
append_transaction-balance block_id trx a p =
    elim (Result-cases (append_transaction block_id trx a).0) [
      | inl h ↦
          ap (λ b. b.balance) (append_transaction_ok block_id trx a h).1
          ∙ (handle-balance trx a p).0
      | inr h ↦ ap (λ b. b.balance) (append_transaction_atomic block_id trx a h)
    ]

-- Rolling back a transaction that concerns tokens, successful or not, keeps the account's balance.
pub rollback_latest_transaction-balance :
    (trx : Transaction) (a : Account)
    → IsTokenTransaction trx
    → (rollback_latest_transaction trx a).1.balance ≡ a.balance
unfolding rollback_latest_transaction
rollback_latest_transaction-balance trx a p =
    ground
      (arith, (handle-balance trx (record a { blockchain = remove_latest_block a.blockchain }) p).1)
