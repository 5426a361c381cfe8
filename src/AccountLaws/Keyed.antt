-- ===== src/AccountLaws/Keyed.antt =====
-- Every token of an account (internal/scalegraph/account.go) stands under its own identifier: appending
-- a transaction and rolling one back keep this.
mod Store
mod Handlers
mod Rollbacks
use sg_emulator.Base.{
  ⊤, ◌≡◌, refl, sym, ◌∙◌, ap, Bool, true, false, Option, none, some, Bool-cases, inl, inr,
  if◌then◌else◌, arith, [],
}
use sg_emulator.Base.Bytes.{Bytes, bytes_eq, bytes_eq_iff, bytes_eq_refl}
use sg_emulator.Base.Dict.{Dict, lookup, insert, delete, lookup-insert, lookup-delete}
use sg_emulator.Base.Action.{Result, ok, err, panic, rewrap}
use sg_emulator.Id.{ScalegraphId, from_string}
use sg_emulator.Errors.{Error, invalid_token_signer}
use sg_emulator.Token.{Token, token_id, is_placeholder, placeholder}
use sg_emulator.Account.{
  Account, is_self, is_slot, token_signer, mint_token, add_token_from_transfer, remove_token,
  add_token, burn_token, check_nonce, count_outgoing, reserve_slot, uncount_outgoing, refreeze,
  thaw, handle_mint, handle_transfer, handle_burn, handle_mint_token, handle_transfer_token,
  handle_authorize_token_transfer, handle_unauthorize_token_transfer, handle_burn_token,
  handle_clawback_token, handle_freeze_token, handle_unfreeze_token, handle, append_transaction,
  rollback_mint, rollback_transfer, rollback_burn, rollback_mint_token, rollback_transfer_token,
  rollback_authorize_token_transfer, rollback_unauthorize_token_transfer, rollback_burn_token,
  rollback_clawback_token, rollback_freeze_token, rollback_unfreeze_token, rollback,
  rollback_latest_transaction, finish_append, new_account_with_public_key,
}
use sg_emulator.Base.Int.{pos}
use sg_emulator.Transaction.{
  Transaction, CurrencyTransaction, MintTokenTransaction, TokenTransaction, SlotTransaction,
  BurnTokenTransaction,
}
use sg_emulator.Id.{hex_encode}
use sg_emulator.Token.{token_equal}
use sg_emulator.AccountLaws.Methods.{Maintains, method_rules}
use sg_emulator.AccountLaws.Keyed.Store.{
  FitsKey, IsKeyed, KeepsKeys, put-IsKeyed, slot-IsKeyed, mark-IsKeyed, remove-IsKeyed, key_rules,
}
pub use sg_emulator.AccountLaws.Keyed.Store.{IsKeyed, KeepsKeys}
use sg_emulator.AccountLaws.Keyed.Handlers.{
  handle-Maintains, mint_token-Maintains, add_token_from_transfer-Maintains, remove_token-Maintains,
  add_token-Maintains, burn_token-Maintains, token_rules,
}
use sg_emulator.AccountLaws.Keyed.Rollbacks.{rollback-Maintains}

finish_append-KeepsKeys :
    (block_id : ScalegraphId) (trx : Transaction) (r : Result Error ⊤ × Account)
    → KeepsKeys r.1
    → KeepsKeys (finish_append block_id trx r).1
finish_append-KeepsKeys block_id trx (ok u, a) h = h
finish_append-KeepsKeys block_id trx (err e, a) h = ground (arith, h)
finish_append-KeepsKeys block_id trx (panic, a) h = h

pub append_transaction-KeepsKeys :
    (block_id : ScalegraphId) (trx : Transaction) (a : Account)
    → KeepsKeys a
    → KeepsKeys (append_transaction block_id trx a).1
unfolding append_transaction
append_transaction-KeepsKeys block_id trx a h =
    finish_append-KeepsKeys block_id trx (handle trx a) ((handle-Maintains trx).apply a h)

pub rollback_latest_transaction-Maintains :
    (trx : Transaction) → Maintains KeepsKeys (rollback_latest_transaction trx)
unfolding rollback_latest_transaction
rollback_latest_transaction-Maintains trx = search (key_rules, rollback-Maintains) depth 14

pub new_account-KeepsKeys :
    (id genesis_id : ScalegraphId) (public_key : Bytes) (certificate : Option Bytes)
    → KeepsKeys (new_account_with_public_key id genesis_id public_key certificate)
unfolding new_account_with_public_key lookup
new_account-KeepsKeys id genesis_id public_key certificate = record { fits = λ k t e. cc }
