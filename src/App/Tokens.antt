-- ===== src/App/Tokens.antt =====
-- The operations on tokens (MintToken to UnfreezeToken of internal/scalegraph/app.go).
use sg_emulator.Base.{⊤, not, ◌==◌}
use sg_emulator.Base.Bytes.{Bytes, bytes_eq}
use sg_emulator.Base.Int.{eqb_ℤ}
use sg_emulator.Base.Word.{to_int64}
use sg_emulator.Base.Action.{rewrap, ◌>>=◌, ◌>>◌, fail_if, or_fail, or_crash, pure}
use sg_emulator.Errors.{
  source_not_found, destination_not_found, account_not_found, token_owner_not_found,
  freeze_authority_not_found, token_holder_not_found, token_not_found, clawback_address_mismatch,
  nonce_mismatch, invalid_signer_id, not_freeze_authority,
}
use sg_emulator.Id.{ScalegraphId, from_string, to_string}
use sg_emulator.Token.{new_token, token_id}
use sg_emulator.Transaction.{
  Transaction, new_mint_token_transaction, new_token_transaction, new_slot_transaction,
  new_burn_token_transaction,
}
use sg_emulator.Account.{get_nonce, get_token, append_transaction}
use sg_emulator.Requests.{
  MintTokenRequest, TokenRequest, AuthorizeRequest, BurnTokenRequest, FreezeRequest,
}
use sg_emulator.App.State.{Ids, Operation, find_account, on_account, append_both}

-- `ScalegraphIdFromString(s)` with its error wrapped.
abbrev pub parse_signer : Bytes → Operation ScalegraphId
parse_signer s app = rewrap invalid_signer_id (from_string s, app)

-- Answers with the identifier of the new token. A request with no envelope is dereferenced.
unfoldable pub mint_token : Ids → MintTokenRequest → Operation Bytes
mint_token ids req = do
  envelope ← or_crash req.signed_envelope
  signer ← parse_signer envelope.signature.signer_id
  to_acc ← find_account signer destination_not_found
  fail_if (not (eqb_ℤ req.nonce (to_int64 (get_nonce to_acc)))) nonce_mismatch
  let token =
      new_token req.token_value envelope.signature req.clawback_address req.freeze_address req.nonce
  on_account signer (
      append_transaction ids.first_block
        (new_mint_token_transaction ids.transaction to_acc.id token))
  pure (token_id token)

unfoldable pub authorize_token_transfer : Ids → AuthorizeRequest → Operation ⊤
authorize_token_transfer ids req = do
  authorizer ← find_account req.account_id account_not_found
  owner ← find_account req.token_owner_id token_owner_not_found
  fail_if (not (req.nonce == get_nonce authorizer)) nonce_mismatch
  append_both ids req.account_id req.token_owner_id (
      Transaction.authorize_token_transfer
        (new_slot_transaction ids.transaction authorizer.id owner.id req.token_id req.nonce))

unfoldable pub unauthorize_token_transfer : Ids → AuthorizeRequest → Operation ⊤
unauthorize_token_transfer ids req = do
  authorizer ← find_account req.account_id account_not_found
  owner ← find_account req.token_owner_id token_owner_not_found
  fail_if (not (req.nonce == get_nonce authorizer)) nonce_mismatch
  append_both ids req.account_id req.token_owner_id (
      Transaction.unauthorize_token_transfer
        (new_slot_transaction ids.transaction authorizer.id owner.id req.token_id req.nonce))

unfoldable pub transfer_token : Ids → TokenRequest → Operation ⊤
transfer_token ids req = do
  from_acc ← find_account req.from source_not_found
  to_acc ← find_account req.to destination_not_found
  token ← or_fail (get_token req.token_id from_acc) token_not_found
  fail_if (not (req.nonce == get_nonce from_acc)) nonce_mismatch
  append_both ids req.from req.to (
      Transaction.transfer_token
        (new_token_transaction ids.transaction from_acc.id to_acc.id token req.nonce))

unfoldable pub burn_token : Ids → BurnTokenRequest → Operation ⊤
burn_token ids req = do
  acc ← find_account req.account_id account_not_found
  fail_if (not (req.nonce == get_nonce acc)) nonce_mismatch
  on_account req.account_id (
      append_transaction ids.first_block
        (new_burn_token_transaction ids.transaction acc.id req.token_id req.nonce))

-- The clawback address is dereferenced with no test for nil.
unfoldable pub clawback_token : Ids → TokenRequest → Operation ⊤
clawback_token ids req = do
  from_acc ← find_account req.from source_not_found
  to_acc ← find_account req.to destination_not_found
  token ← or_fail (get_token req.token_id from_acc) token_not_found
  address ← or_crash token.clawback_address
  fail_if (not (bytes_eq (to_string address) (to_string to_acc.id))) clawback_address_mismatch
  fail_if (not (req.nonce == get_nonce to_acc)) nonce_mismatch
  append_both ids req.from req.to (
      Transaction.clawback_token
        (new_token_transaction ids.transaction from_acc.id to_acc.id token req.nonce))

unfoldable pub freeze_token : Ids → FreezeRequest → Operation ⊤
freeze_token ids req = do
  authority ← find_account req.freeze_authority freeze_authority_not_found
  holder ← find_account req.token_holder token_holder_not_found
  token ← or_fail (get_token req.token_id holder) token_not_found
  address ← or_fail token.freeze_address not_freeze_authority
  fail_if (not (bytes_eq (to_string address) (to_string req.freeze_authority))) not_freeze_authority
  fail_if (not (req.nonce == get_nonce authority)) nonce_mismatch
  append_both ids req.freeze_authority req.token_holder (
      Transaction.freeze_token
        (new_slot_transaction ids.transaction authority.id holder.id req.token_id req.nonce))

unfoldable pub unfreeze_token : Ids → FreezeRequest → Operation ⊤
unfreeze_token ids req = do
  authority ← find_account req.freeze_authority freeze_authority_not_found
  holder ← find_account req.token_holder token_holder_not_found
  token ← or_fail (get_token req.token_id holder) token_not_found
  address ← or_fail token.freeze_address not_freeze_authority
  fail_if (not (bytes_eq (to_string address) (to_string req.freeze_authority))) not_freeze_authority
  fail_if (not (req.nonce == get_nonce authority)) nonce_mismatch
  append_both ids req.freeze_authority req.token_holder (
      Transaction.unfreeze_token
        (new_slot_transaction ids.transaction authority.id holder.id req.token_id req.nonce))
