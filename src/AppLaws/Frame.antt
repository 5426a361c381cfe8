-- ===== src/AppLaws/Frame.antt =====
-- The accounts that an operation of internal/scalegraph/app.go does not name stay as they are.
use sg_emulator.Base.{⊤, ◌≡◌, false, Option, none, some, arith}
use sg_emulator.Base.Bytes.{Bytes, bytes_eq}
use sg_emulator.Base.Dict.{lookup, insert, lookup-insert, lookup-delete}
use sg_emulator.Base.Action.{Result, ok, err, panic, modify}
use sg_emulator.Base.Int.{ℤ}
use sg_emulator.Errors.{Error}
use sg_emulator.Id.{ScalegraphId, from_string}
use sg_emulator.Transaction.{Transaction}
use sg_emulator.Account.{Account, Method}
use sg_emulator.Requests.{
  SignedEnvelope, MintTokenPayload, TransferRequest, MintRequest, MintTokenRequest, TokenRequest,
  AuthorizeRequest, BurnTokenRequest, FreezeRequest,
}
use sg_emulator.App.{
  App, Ids, Operation, on_account, run_method, append_both, transfer, mint, mint_token,
  authorize_token_transfer, unauthorize_token_transfer, transfer_token, burn_token, clawback_token,
  freeze_token, unfreeze_token, finish_creation, create_account_with_keys,
}
use sg_emulator.AppLaws.Preserves.{
  Preserves, rules, get-Preserves, when-Preserves, drop_error-Preserves, or_crash_then-Preserves,
  parse_signer_then-Preserves,
}

-- The account under `k` is as it was.
abbrev pub HasEntry : ScalegraphId → Option Account → App → Type 0
HasEntry k o app = lookup k app.accounts ≡ o

module _ (k : ScalegraphId) (o : Option Account) where
  run_method-HasEntry :
      {A : Type 0} (id : ScalegraphId) (m : Method A) (found : Option Account) (app : App)
      → bytes_eq id k ≡ false
      → HasEntry k o app
      → HasEntry k o (run_method id m found app).1
  run_method-HasEntry id m none app ne h = h
  run_method-HasEntry id m (some a) app ne h =
      ground (arith, lookup-insert k id (m a).1 app.accounts)

  on_account-HasEntry :
      {A : Type 0} (id : ScalegraphId) (m : Method A)
      → bytes_eq id k ≡ false
      → Preserves (HasEntry k o) (on_account id m)
  unfolding on_account
  on_account-HasEntry id m ne = record {
    apply = λ app. run_method-HasEntry id m (lookup id app.accounts) app ne;
  }

  append_both-HasEntry :
      (ids : Ids) (first second : ScalegraphId) (trx : Transaction)
      → bytes_eq first k ≡ false
      → bytes_eq second k ≡ false
      → Preserves (HasEntry k o) (append_both ids first second trx)
  unfolding append_both
  append_both-HasEntry ids first second trx n1 n2 = search (rules, on_account-HasEntry)

  pub transfer-HasEntry :
      (ids : Ids) (req : TransferRequest)
      → bytes_eq req.from k ≡ false
      → bytes_eq req.to k ≡ false
      → Preserves (HasEntry k o) (transfer ids req)
  unfolding transfer
  transfer-HasEntry ids req n1 n2 = search (rules, on_account-HasEntry) depth 14

  pub mint-HasEntry :
      (ids : Ids) (req : MintRequest)
      → bytes_eq req.to k ≡ false
      → Preserves (HasEntry k o) (mint ids req)
  unfolding mint
  mint-HasEntry ids req n = search (rules, on_account-HasEntry, drop_error-Preserves) depth 14

  pub authorize_token_transfer-HasEntry :
      (ids : Ids) (req : AuthorizeRequest)
      → bytes_eq req.account_id k ≡ false
      → bytes_eq req.token_owner_id k ≡ false
      → Preserves (HasEntry k o) (authorize_token_transfer ids req)
  unfolding authorize_token_transfer
  authorize_token_transfer-HasEntry ids req n1 n2 = search (rules, append_both-HasEntry) depth 14

  pub unauthorize_token_transfer-HasEntry :
      (ids : Ids) (req : AuthorizeRequest)
      → bytes_eq req.account_id k ≡ false
      → bytes_eq req.token_owner_id k ≡ false
      → Preserves (HasEntry k o) (unauthorize_token_transfer ids req)
  unfolding unauthorize_token_transfer
  unauthorize_token_transfer-HasEntry ids req n1 n2 = search (rules, append_both-HasEntry) depth 14

  pub transfer_token-HasEntry :
      (ids : Ids) (req : TokenRequest)
      → bytes_eq req.from k ≡ false
      → bytes_eq req.to k ≡ false
      → Preserves (HasEntry k o) (transfer_token ids req)
  unfolding transfer_token
  transfer_token-HasEntry ids req n1 n2 = search (rules, append_both-HasEntry) depth 14

  pub clawback_token-HasEntry :
      (ids : Ids) (req : TokenRequest)
      → bytes_eq req.from k ≡ false
      → bytes_eq req.to k ≡ false
      → Preserves (HasEntry k o) (clawback_token ids req)
  unfolding clawback_token
  clawback_token-HasEntry ids req n1 n2 = search (rules, append_both-HasEntry) depth 14

  pub freeze_token-HasEntry :
      (ids : Ids) (req : FreezeRequest)
      → bytes_eq req.freeze_authority k ≡ false
      → bytes_eq req.token_holder k ≡ false
      → Preserves (HasEntry k o) (freeze_token ids req)
  unfolding freeze_token
  freeze_token-HasEntry ids req n1 n2 = search (rules, append_both-HasEntry) depth 14

  pub unfreeze_token-HasEntry :
      (ids : Ids) (req : FreezeRequest)
      → bytes_eq req.freeze_authority k ≡ false
      → bytes_eq req.token_holder k ≡ false
      → Preserves (HasEntry k o) (unfreeze_token ids req)
  unfolding unfreeze_token
  unfreeze_token-HasEntry ids req n1 n2 = search (rules, append_both-HasEntry) depth 14

  pub burn_token-HasEntry :
      (ids : Ids) (req : BurnTokenRequest)
      → bytes_eq req.account_id k ≡ false
      → Preserves (HasEntry k o) (burn_token ids req)
  unfolding burn_token
  burn_token-HasEntry ids req n = search (rules, on_account-HasEntry) depth 14

  pub mint_token-HasEntry :
      (ids : Ids) (req : MintTokenRequest)
      → ((e : SignedEnvelope MintTokenPayload) (id : ScalegraphId)
          → req.signed_envelope ≡ some e
          → from_string e.signature.signer_id ≡ ok id
          → bytes_eq id k ≡ false)
      → Preserves (HasEntry k o) (mint_token ids req)
  unfolding mint_token
  mint_token-HasEntry ids req n =
      or_crash_then-Preserves (HasEntry k o) req.signed_envelope _ λ e present.
        parse_signer_then-Preserves (HasEntry k o) e.signature.signer_id _
          λ id parsed. search (rules, on_account-HasEntry, n e id present parsed) depth 14

  insert-HasEntry :
      (id : ScalegraphId) (b : Account)
      → bytes_eq id k ≡ false
      → Preserves (HasEntry k o) (modify λ app. record app { accounts = insert id b app.accounts })
  insert-HasEntry id b ne = record {
    apply = λ app h. ground (arith, lookup-insert k id b app.accounts);
  }

  finish_creation-HasEntry :
      (id : ScalegraphId) (r : Result Error ⊤ × App)
      → bytes_eq id k ≡ false
      → HasEntry k o r.1
      → HasEntry k o (finish_creation id r).1
  finish_creation-HasEntry id (ok u, app) ne h = h
  finish_creation-HasEntry id (err e, app) ne h = ground (arith, lookup-delete k id app.accounts)
  finish_creation-HasEntry id (panic, app) ne h = h

  created-HasEntry :
      (id : ScalegraphId) (m : Operation ⊤)
      → bytes_eq id k ≡ false
      → Preserves (HasEntry k o) m
      → Preserves (HasEntry k o) (λ app. finish_creation id (m app))
  created-HasEntry id m ne p = record {
    apply = λ app h. finish_creation-HasEntry id (m app) ne (p.apply app h);
  }

  pub create_account_with_keys-HasEntry :
      (ids : Ids) (id genesis_id : ScalegraphId) (public_key : Bytes) (certificate : Option Bytes)
      (initial_balance : ℤ)
      → bytes_eq id k ≡ false
      → Preserves
          (HasEntry k o)
          (create_account_with_keys ids id genesis_id public_key certificate initial_balance)
  unfolding create_account_with_keys
  create_account_with_keys-HasEntry ids id genesis_id public_key certificate initial_balance ne =
      search
        (rules, get-Preserves, insert-HasEntry, when-Preserves, created-HasEntry, mint-HasEntry)
        depth 12
