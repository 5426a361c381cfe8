-- ===== src/Account/Rollbacks.antt =====
-- The rollback handlers (rollbackMintTx and the others of internal/scalegraph/account.go).
use sg_emulator.Base.{⊤, true, false, not, Option, none, some}
use sg_emulator.Base.Bytes.{Bytes}
use sg_emulator.Base.Dict.{lookup, insert, delete}
use sg_emulator.Base.Amount.{◌⊞◌, ◌⊟◌}
use sg_emulator.Base.Word.{dec64}
use sg_emulator.Base.Action.{◌>>=◌, ◌>>◌, get, modify, fail_if, when, if_else, pure, wrap_error}
use sg_emulator.Errors.{cannot_rollback_mint, failed_to_add, failed_to_remove}
use sg_emulator.Token.{Token, token_id, placeholder}
use sg_emulator.Transaction.{
  CurrencyTransaction, MintTokenTransaction, TokenTransaction, SlotTransaction,
  BurnTokenTransaction,
}
use sg_emulator.Account.State.{
  Method, is_self, mbr_slot_cost, mbr_token_cost, mbr_freeze_cost, mbr_unfreeze_cost,
}
use sg_emulator.Account.Slots.{is_some, remove_token, add_token}

-- `a.outgoingTxCount--`
abbrev pub uncount_outgoing : Method ⊤
uncount_outgoing = modify λ a. record a { outgoing_tx_count = dec64 a.outgoing_tx_count }

unfoldable pub rollback_mint : CurrencyTransaction → Method ⊤
rollback_mint trx = modify λ a. record a { balance = a.balance ⊟ trx.amount }

unfoldable pub rollback_transfer : CurrencyTransaction → Method ⊤
rollback_transfer trx = do
  a ← get
  when (is_self trx.sender a)
      (do modify (λ a. record a { balance = a.balance ⊞ trx.amount }); uncount_outgoing)
  when (is_self trx.receiver a) (modify λ a. record a { balance = a.balance ⊟ trx.amount })

unfoldable pub rollback_burn : CurrencyTransaction → Method ⊤
rollback_burn trx = do
  a ← get
  when (is_self trx.receiver a) (modify λ a. record a { balance = a.balance ⊞ trx.amount })

unfoldable pub rollback_mint_token : MintTokenTransaction → Method ⊤
rollback_mint_token trx = do
  a ← get
  when (is_self trx.receiver a) (do
    fail_if (not (is_some (lookup (token_id trx.token) a.token_store))) cannot_rollback_mint
    modify (λ a. record a {
      mbr = a.mbr ⊟ mbr_token_cost;
      token_store = delete (token_id trx.token) a.token_store;
    })
    uncount_outgoing)

unfoldable pub rollback_transfer_token : TokenTransaction → Method ⊤
rollback_transfer_token trx = do
  a ← get
  if_else (is_self trx.sender a)
      (do
        modify (λ a. record a { token_store = insert (token_id trx.token) trx.token a.token_store })
        uncount_outgoing)
      (when (is_self trx.receiver a) (
        modify λ a. record a {
          mbr = a.mbr ⊟ mbr_token_cost;
          token_store = insert (token_id trx.token) placeholder a.token_store;
        }))

unfoldable pub rollback_authorize_token_transfer : SlotTransaction → Method ⊤
rollback_authorize_token_transfer trx = do
  a ← get
  when (is_self trx.sender a) (do
    modify (λ a. record a {
      mbr = a.mbr ⊟ mbr_slot_cost;
      token_store = delete trx.token_id a.token_store;
    })
    uncount_outgoing)

unfoldable pub rollback_unauthorize_token_transfer : SlotTransaction → Method ⊤
rollback_unauthorize_token_transfer trx = do
  a ← get
  when (is_self trx.sender a) (do
    modify (λ a. record a {
      mbr = a.mbr ⊞ mbr_slot_cost;
      token_store = insert trx.token_id placeholder a.token_store;
    })
    uncount_outgoing)

-- The burned token is not put back.
unfoldable pub rollback_burn_token : BurnTokenTransaction → Method ⊤
rollback_burn_token trx = do
  a ← get
  when (is_self trx.account_id a)
      (do modify (λ a. record a { mbr = a.mbr ⊞ mbr_token_cost }); uncount_outgoing)

unfoldable pub rollback_clawback_token : TokenTransaction → Method ⊤
rollback_clawback_token trx = do
  a ← get
  if_else (is_self trx.sender a) (wrap_error failed_to_add (add_token trx.token)) (
      when (is_self trx.receiver a)
        (do wrap_error failed_to_remove (remove_token (token_id trx.token)); uncount_outgoing))

-- `if tok, ok := a.tokenStore[id]; ok { tok.frozen = … }`
abbrev pub refreeze : Bytes → Option Token → Method ⊤
refreeze id none = pure tt
refreeze id (some t) =
    modify λ a. record a { token_store = insert id (record t { frozen = true }) a.token_store }

abbrev pub thaw : Bytes → Option Token → Method ⊤
thaw id none = pure tt
thaw id (some t) =
    modify λ a. record a { token_store = insert id (record t { frozen = false }) a.token_store }

unfoldable pub rollback_freeze_token : SlotTransaction → Method ⊤
rollback_freeze_token trx = do
  a ← get
  if_else (is_self trx.sender a)
      (do modify (λ a. record a { mbr = a.mbr ⊟ mbr_freeze_cost }); uncount_outgoing)
      (when (is_self trx.receiver a) (thaw trx.token_id (lookup trx.token_id a.token_store)))

unfoldable pub rollback_unfreeze_token : SlotTransaction → Method ⊤
rollback_unfreeze_token trx = do
  a ← get
  if_else (is_self trx.sender a)
      (do modify (λ a. record a { mbr = a.mbr ⊞ mbr_unfreeze_cost }); uncount_outgoing)
      (when (is_self trx.receiver a) (refreeze trx.token_id (lookup trx.token_id a.token_store)))
