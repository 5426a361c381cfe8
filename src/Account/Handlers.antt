-- ===== src/Account/Handlers.antt =====
-- The handlers of the types of transaction (handleMintTx and the others of
-- internal/scalegraph/account.go). Each is run for the sender and for the receiver of a transaction.
use sg_emulator.Base.{⊤, ℕ, not, ◌==◌, true, false, Option, none, some}
use sg_emulator.Base.Bytes.{Bytes, bytes_eq}
use sg_emulator.Base.Dict.{lookup, insert, delete}
use sg_emulator.Base.Int.{ltb_ℤ, eqb_ℤ}
use sg_emulator.Base.Amount.{◌⊞◌, ◌⊟◌}
use sg_emulator.Base.Word.{inc64, to_int64}
use sg_emulator.Base.Action.{
  ◌>>=◌, ◌>>◌, get, modify, fail, fail_if, or_fail, or_crash, when, if_else, wrap_error,
}
use sg_emulator.Errors.{
  insufficient_balance, nonce_mismatch, failed_to_mint, sender_should_be_nil, token_missing,
  token_is_frozen, failed_to_remove, failed_to_add, not_a_party, insufficient_for_slot,
  token_already_owned, token_not_authorized, failed_to_burn, receiver_should_be_nil,
  sender_must_be_account, insufficient_for_freeze, token_is_placeholder, not_freeze_authority,
  token_not_frozen,
}
use sg_emulator.Id.{to_string}
use sg_emulator.Token.{Token, token_id, is_placeholder, placeholder}
use sg_emulator.Transaction.{
  CurrencyTransaction, MintTokenTransaction, TokenTransaction, SlotTransaction,
  BurnTokenTransaction,
}
use sg_emulator.Account.State.{
  Method, is_self, owned, mbr_slot_cost, mbr_freeze_cost, mbr_unfreeze_cost,
}
use sg_emulator.Account.Slots.{
  is_some, mint_token, add_token_from_transfer, remove_token, add_token, burn_token,
}

-- `a.outgoingTxCount++`
abbrev pub count_outgoing : Method ⊤
count_outgoing = modify λ a. record a { outgoing_tx_count = inc64 a.outgoing_tx_count }

-- `if trx.Nonce() != a.outgoingTxCount { return … }`
abbrev pub check_nonce : ℕ → Method ⊤
check_nonce nonce = do a ← get; fail_if (not (nonce == a.outgoing_tx_count)) nonce_mismatch

unfoldable pub handle_mint : CurrencyTransaction → Method ⊤
handle_mint trx = modify λ a. record a { balance = a.balance ⊞ trx.amount }

unfoldable pub handle_transfer : CurrencyTransaction → Method ⊤
handle_transfer trx = do
  a ← get
  when (is_self trx.sender a) (do
    fail_if (ltb_ℤ (a.balance ⊟ a.mbr) trx.amount) insufficient_balance
    modify (λ a. record a { balance = a.balance ⊟ trx.amount })
    count_outgoing)
  when (is_self trx.receiver a) (modify λ a. record a { balance = a.balance ⊞ trx.amount })

unfoldable pub handle_burn : CurrencyTransaction → Method ⊤
handle_burn trx = do
  a ← get
  when (is_self trx.receiver a) (do
    fail_if (ltb_ℤ (a.balance ⊟ a.mbr) trx.amount) insufficient_balance
    modify λ a. record a { balance = a.balance ⊟ trx.amount })

unfoldable pub handle_mint_token : MintTokenTransaction → Method ⊤
handle_mint_token trx = do
  a ← get
  if_else (is_self trx.receiver a)
      (do
        fail_if (not (eqb_ℤ trx.token.nonce (to_int64 a.outgoing_tx_count))) nonce_mismatch
        wrap_error failed_to_mint (mint_token trx.token)
        count_outgoing)
      (fail_if (is_self trx.sender a) sender_should_be_nil)

unfoldable pub handle_transfer_token : TokenTransaction → Method ⊤
handle_transfer_token trx = do
  a ← get
  if_else (is_self trx.sender a)
      (do
        check_nonce trx.nonce
        tok ← or_fail (lookup (token_id trx.token) a.token_store) token_missing
        fail_if tok.frozen token_is_frozen
        wrap_error failed_to_remove (remove_token (token_id trx.token))
        count_outgoing)
      (if_else (is_self trx.receiver a)
        (wrap_error failed_to_add (add_token_from_transfer trx.token)) (fail not_a_party))

-- Reserves a slot: the balance must cover it, and an owned token is refused. A slot that is there
-- already stays.
abbrev pub reserve_slot : Bytes → Option Token → Method ⊤
reserve_slot id none = do
  a ← get
  fail_if (ltb_ℤ (a.balance ⊟ a.mbr) mbr_slot_cost) insufficient_for_slot
  modify λ a. record a {
    mbr = a.mbr ⊞ mbr_slot_cost;
    token_store = insert id placeholder a.token_store;
  }
reserve_slot id (some t) = fail_if (not (is_placeholder t)) token_already_owned

unfoldable pub handle_authorize_token_transfer : SlotTransaction → Method ⊤
handle_authorize_token_transfer trx = do
  a ← get
  if_else (is_self trx.sender a)
      (do
        check_nonce trx.nonce
        reserve_slot trx.token_id (lookup trx.token_id a.token_store)
        count_outgoing)
      (if_else (is_self trx.receiver a)
        (fail_if (not (is_some (owned (lookup trx.token_id a.token_store)))) token_missing)
        (fail not_a_party))

unfoldable pub handle_unauthorize_token_transfer : SlotTransaction → Method ⊤
handle_unauthorize_token_transfer trx = do
  a ← get
  if_else (is_self trx.sender a)
      (do
        check_nonce trx.nonce
        slot ← or_fail (lookup trx.token_id a.token_store) token_not_authorized
        fail_if (not (is_placeholder slot)) token_already_owned
        modify (λ a. record a {
          mbr = a.mbr ⊟ mbr_slot_cost;
          token_store = delete trx.token_id a.token_store;
        })
        count_outgoing)
      (if_else (is_self trx.receiver a)
        (fail_if (not (is_some (owned (lookup trx.token_id a.token_store)))) token_missing)
        (fail not_a_party))

unfoldable pub handle_burn_token : BurnTokenTransaction → Method ⊤
handle_burn_token trx = do
  a ← get
  if_else (is_self trx.account_id a)
      (do
        check_nonce trx.nonce
        wrap_error failed_to_burn (burn_token trx.token_id)
        count_outgoing)
      (if_else (is_self none a) (fail receiver_should_be_nil) (fail sender_must_be_account))

-- Nothing here looks at the token's frozen flag.
unfoldable pub handle_clawback_token : TokenTransaction → Method ⊤
handle_clawback_token trx = do
  a ← get
  if_else (is_self trx.sender a)
      (do
        or_fail (lookup (token_id trx.token) a.token_store) token_missing
        wrap_error failed_to_remove (remove_token (token_id trx.token)))
      (if_else (is_self trx.receiver a)
        (do check_nonce trx.nonce; wrap_error failed_to_add (add_token trx.token); count_outgoing)
        (fail not_a_party))

-- A write through the pointer in the store, `tok.frozen = …`, puts the changed token back. The
-- recorded transactions that share the pointer keep the token as it was recorded (see
-- Transaction.antt).
-- The sender is dereferenced for the comparison and for both error messages.
unfoldable pub handle_freeze_token : SlotTransaction → Method ⊤
handle_freeze_token trx = do
  a ← get
  if_else (is_self trx.sender a)
      (do
        check_nonce trx.nonce
        fail_if (ltb_ℤ (a.balance ⊟ a.mbr) mbr_freeze_cost) insufficient_for_freeze
        modify (λ a. record a { mbr = a.mbr ⊞ mbr_freeze_cost })
        count_outgoing)
      (if_else (is_self trx.receiver a)
        (do
          tok ← or_fail (lookup trx.token_id a.token_store) token_missing
          fail_if (is_placeholder tok) token_is_placeholder
          fail_if tok.frozen token_is_frozen
          authority ← or_crash trx.sender
          freeze_addr ← or_fail tok.freeze_address not_freeze_authority
          fail_if (not (bytes_eq (to_string freeze_addr) (to_string authority)))
              not_freeze_authority
          modify λ a. record a {
            token_store = insert trx.token_id (record tok { frozen = true }) a.token_store;
          })
        (fail not_a_party))

unfoldable pub handle_unfreeze_token : SlotTransaction → Method ⊤
handle_unfreeze_token trx = do
  a ← get
  if_else (is_self trx.sender a)
      (do
        check_nonce trx.nonce
        modify (λ a. record a { mbr = a.mbr ⊟ mbr_unfreeze_cost })
        count_outgoing)
      (if_else (is_self trx.receiver a)
        (do
          tok ← or_fail (lookup trx.token_id a.token_store) token_missing
          fail_if (not tok.frozen) token_not_frozen
          modify λ a. record a {
            token_store = insert trx.token_id (record tok { frozen = false }) a.token_store;
          })
        (fail not_a_party))
