-- ===== src/AppLaws/Invariant.antt =====
-- A property of every account that appending a transaction, rolling one back and creating an account
-- keep is kept by every operation of internal/scalegraph/app.go.
use sg_emulator.Base.{Option}
use sg_emulator.Id.{ScalegraphId}
use sg_emulator.Transaction.{Transaction}
use sg_emulator.Base.Bytes.{Bytes}
use sg_emulator.Base.Int.{ℤ}
use sg_emulator.Account.{
  Account, new_account_with_public_key, append_transaction, rollback_latest_transaction,
}
use sg_emulator.Requests.{
  TransferRequest, MintRequest, MintTokenRequest, TokenRequest, AuthorizeRequest, BurnTokenRequest,
  FreezeRequest,
}
use sg_emulator.App.{
  Ids, on_account, append_both, transfer, mint, create_account_with_keys, mint_token,
  authorize_token_transfer, unauthorize_token_transfer, transfer_token, burn_token, clawback_token,
  freeze_token, unfreeze_token,
}
use sg_emulator.AppLaws.Preserves.{
  Preserves, rules, drop_error-Preserves, when-Preserves, get-Preserves,
}
use sg_emulator.AppLaws.Everywhere.{
  Everywhere, on_account-Preserves, finish_creation-Preserves, insert-Preserves,
}

pub record AccountInvariant (P : ScalegraphId → Account → Type 0) : Type 0 where
  pub append :
      (id block_id : ScalegraphId) (trx : Transaction) (a : Account)
      → P id a
      → P id (append_transaction block_id trx a).1
  pub rollback :
      (id : ScalegraphId) (trx : Transaction) (a : Account)
      → P id a
      → P id (rollback_latest_transaction trx a).1
  pub fresh :
      (id genesis_id : ScalegraphId) (public_key : Bytes) (certificate : Option Bytes)
      → P id (new_account_with_public_key id genesis_id public_key certificate)

module _ (P : ScalegraphId → Account → Type 0) (inv : AccountInvariant P) where
  append-Preserves :
      (id block_id : ScalegraphId) (trx : Transaction)
      → Preserves (Everywhere P) (on_account id (append_transaction block_id trx))
  append-Preserves id block_id trx = on_account-Preserves P id _ (inv.append id block_id trx)

  rollback-Preserves :
      (id : ScalegraphId) (trx : Transaction)
      → Preserves (Everywhere P) (on_account id (rollback_latest_transaction trx))
  rollback-Preserves id trx = on_account-Preserves P id _ (inv.rollback id trx)

  append_both-Preserves :
      (ids : Ids) (first second : ScalegraphId) (trx : Transaction)
      → Preserves (Everywhere P) (append_both ids first second trx)
  unfolding append_both
  append_both-Preserves ids first second trx = search (rules, append-Preserves, rollback-Preserves)

  pub transfer-Preserves :
      (ids : Ids) (req : TransferRequest) → Preserves (Everywhere P) (transfer ids req)
  unfolding transfer
  transfer-Preserves ids req = search (rules, append-Preserves) depth 14

  pub mint-Preserves : (ids : Ids) (req : MintRequest) → Preserves (Everywhere P) (mint ids req)
  unfolding mint
  mint-Preserves ids req = search (rules, append-Preserves, drop_error-Preserves) depth 12

  pub create_account_with_keys-Preserves :
      (ids : Ids) (id genesis_id : ScalegraphId) (public_key : Bytes) (certificate : Option Bytes)
      (initial_balance : ℤ)
      → Preserves
          (Everywhere P)
          (create_account_with_keys ids id genesis_id public_key certificate initial_balance)
  unfolding create_account_with_keys
  create_account_with_keys-Preserves ids id genesis_id public_key certificate initial_balance =
      search
        (
          rules, get-Preserves, insert-Preserves, inv.fresh, when-Preserves,
          finish_creation-Preserves, mint-Preserves,
        )
        depth 12

  pub mint_token-Preserves :
      (ids : Ids) (req : MintTokenRequest) → Preserves (Everywhere P) (mint_token ids req)
  unfolding mint_token
  mint_token-Preserves ids req = search (rules, append-Preserves) depth 14

  pub authorize_token_transfer-Preserves :
      (ids : Ids) (req : AuthorizeRequest)
      → Preserves (Everywhere P) (authorize_token_transfer ids req)
  unfolding authorize_token_transfer
  authorize_token_transfer-Preserves ids req = search (rules, append_both-Preserves) depth 14

  pub unauthorize_token_transfer-Preserves :
      (ids : Ids) (req : AuthorizeRequest)
      → Preserves (Everywhere P) (unauthorize_token_transfer ids req)
  unfolding unauthorize_token_transfer
  unauthorize_token_transfer-Preserves ids req = search (rules, append_both-Preserves) depth 14

  pub transfer_token-Preserves :
      (ids : Ids) (req : TokenRequest) → Preserves (Everywhere P) (transfer_token ids req)
  unfolding transfer_token
  transfer_token-Preserves ids req = search (rules, append_both-Preserves) depth 14

  pub clawback_token-Preserves :
      (ids : Ids) (req : TokenRequest) → Preserves (Everywhere P) (clawback_token ids req)
  unfolding clawback_token
  clawback_token-Preserves ids req = search (rules, append_both-Preserves) depth 14

  pub freeze_token-Preserves :
      (ids : Ids) (req : FreezeRequest) → Preserves (Everywhere P) (freeze_token ids req)
  unfolding freeze_token
  freeze_token-Preserves ids req = search (rules, append_both-Preserves) depth 14

  pub unfreeze_token-Preserves :
      (ids : Ids) (req : FreezeRequest) → Preserves (Everywhere P) (unfreeze_token ids req)
  unfolding unfreeze_token
  unfreeze_token-Preserves ids req = search (rules, append_both-Preserves) depth 14

  pub burn_token-Preserves :
      (ids : Ids) (req : BurnTokenRequest) → Preserves (Everywhere P) (burn_token ids req)
  unfolding burn_token
  burn_token-Preserves ids req = search (rules, append-Preserves) depth 14
