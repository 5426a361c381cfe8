-- ===== src/ServerLaws/Invariant.antt =====
-- A property of every account that appending, rolling back and creating keep is kept by every request
-- (internal/server/server.go), and by every sequence of requests.
use sg_emulator.Base.{⊤, ◌≡◌, some, List, [], ◌∷◌, All}
use sg_emulator.Base.Int.{ℤ}
use sg_emulator.Id.{ScalegraphId}
use sg_emulator.Account.{Account}
use sg_emulator.App.{App}
use sg_emulator.Server.{
  Request, Environment, Draw, handler, handle_create_account, handle_request, run,
}
use sg_emulator.AppLaws.Preserves.{Preserves, rules}
use sg_emulator.AppLaws.Everywhere.{Everywhere}
use sg_emulator.AppLaws.Invariant
use sg_emulator.AppLaws.Invariant.{AccountInvariant}
use sg_emulator.VerifyLaws.ReadOnly.{
  get_account-Preserves, get_accounts-Preserves, account_count-Preserves, lookup_token-Preserves,
}
use sg_emulator.ServerLaws.ReadOnly.{verify-Preserves}
use sg_emulator.ServerLaws.Runs.{run-Kept}

module _ (P : ScalegraphId → Account → Type 0) (inv : AccountInvariant P) where
  module _ (env : Environment) (draw : Draw) where
    create_account-Preserves : (b : ℤ) → Preserves (Everywhere P) (handle_create_account env draw b)
    unfolding handle_create_account
    create_account-Preserves b = search (rules, Invariant.create_account_with_keys-Preserves P inv)

    handler-Preserves : (r : Request) → Preserves (Everywhere P) (handler env draw r)
    unfolding handler
    handler-Preserves (Request.transfer r) = search (rules, Invariant.transfer-Preserves P inv)
    handler-Preserves (Request.mint r) = search (rules, Invariant.mint-Preserves P inv)
    handler-Preserves (Request.mint_token r) = search (rules, Invariant.mint_token-Preserves P inv)
    handler-Preserves (Request.authorize_token_transfer r) =
        search (rules, Invariant.authorize_token_transfer-Preserves P inv)
    handler-Preserves (Request.unauthorize_token_transfer r) =
        search (rules, Invariant.unauthorize_token_transfer-Preserves P inv)
    handler-Preserves (Request.transfer_token r) =
        search (rules, Invariant.transfer_token-Preserves P inv)
    handler-Preserves (Request.clawback_token r) =
        search (rules, Invariant.clawback_token-Preserves P inv)
    handler-Preserves (Request.burn_token r) = search (rules, Invariant.burn_token-Preserves P inv)
    handler-Preserves (Request.freeze_token r) =
        search (rules, Invariant.freeze_token-Preserves P inv)
    handler-Preserves (Request.unfreeze_token r) =
        search (rules, Invariant.unfreeze_token-Preserves P inv)
    handler-Preserves (Request.admin_mint r) = search (rules, Invariant.mint-Preserves P inv)
    handler-Preserves Request.account_count = search (rules, account_count-Preserves)
    handler-Preserves (Request.create_account r) = create_account-Preserves r.initial_balance
    handler-Preserves (Request.get_account r) = search (rules, get_account-Preserves)
    handler-Preserves Request.get_accounts = search (rules, get_accounts-Preserves)
    handler-Preserves (Request.admin_create_account b) = create_account-Preserves b
    handler-Preserves (Request.lookup_token r) = search (rules, lookup_token-Preserves)
    handler-Preserves Request.other = search rules

    pub handle_request-Preserves :
        (r : Request) → Preserves (Everywhere P) (handle_request env draw r)
    unfolding handle_request
    handle_request-Preserves r = search (rules, verify-Preserves, handler-Preserves)

  All-requests : (rs : List (Draw × Request)) → All (λ p. ⊤) rs
  All-requests [] = tt
  All-requests (r ∷ rs) = (tt, All-requests rs)

  pub run-Everywhere :
      (env : Environment) (rs : List (Draw × Request)) (app app' : App)
      → Everywhere P app
      → run env rs app ≡ some app'
      → Everywhere P app'
  run-Everywhere env rs app app' =
      run-Kept (Everywhere P) (λ r. ⊤) env (λ draw r q. handle_request-Preserves env draw r) rs app
        app' (All-requests rs)
