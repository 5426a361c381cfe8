-- ===== src/ServerLaws/Money.antt =====
-- Money and the server (internal/server/server.go): only minting and the creation of accounts bring
-- any into the accounts.
use sg_emulator.Base.{⊤, ◌≡◌, refl, sym, subst, ◌∙◌, ap}
use sg_emulator.Base.Action.{Result, ok, err, panic, after, pure}
use sg_emulator.Base.Int.{ℤ}
use sg_emulator.Errors.{Error}
use sg_emulator.App
use sg_emulator.App.{App, Ids}
use sg_emulator.Requests.{TransferRequest}
use sg_emulator.Server.{Request, Response, Environment, Draw, verify, handler, handle_request}
use sg_emulator.AppLaws.Preserves.{Preserves, rules, bind-Preserves}
use sg_emulator.AppLaws.Sound.{AllSound}
use sg_emulator.AppLaws.Total
use sg_emulator.AppLaws.Total.{total, HasTotal, RoundsNothing, total-transfer}
use sg_emulator.VerifyLaws.ReadOnly.{
  get_account-Preserves, get_accounts-Preserves, account_count-Preserves, lookup_token-Preserves,
}
use sg_emulator.ServerLaws.ReadOnly.{verify-Preserves}

-- The requests that bring money into the accounts.
abbrev pub IsIssue : Request → Type 0
IsIssue (Request.mint r) = ⊤
IsIssue (Request.create_account r) = ⊤
IsIssue (Request.admin_create_account b) = ⊤
IsIssue (Request.admin_mint r) = ⊤
IsIssue _ = ⊥

-- A transfer of money rounds neither balance; other requests do not touch balances.
abbrev pub IsExact : Request → App → Type 0
IsExact (Request.transfer r) app = RoundsNothing r app
IsExact _ app = ⊤

pub after_same :
    (s : Result Error ⊤ × App) → (after {B = Response} s (λ u. pure Response.done)).1 ≡ s.1
after_same (ok u, a) = refl
after_same (err x, a) = refl
after_same (panic, a) = refl

module _ (env : Environment) (draw : Draw) where
  keeps_total :
      (r : Request) (c : ℤ)
      → Preserves (HasTotal c) (handler env draw r)
      → Preserves (HasTotal c) (handle_request env draw r)
  unfolding handle_request
  keeps_total r c p =
      bind-Preserves (HasTotal c) (verify env draw r) (λ u. handler env draw r)
        (verify-Preserves env draw (HasTotal c) r) (λ u. p)

  transfer_total :
      (r : TransferRequest) (s : Result Error ⊤ × App) (app : App)
      → s.1 ≡ app
      → AllSound app
      → RoundsNothing r app
      → total (after s (λ u. handler env draw (Request.transfer r))).1 ≡ total app
  unfolding handler
  transfer_total r (ok u, a) app e h x =
      ap total (after_same (App.transfer draw.ids r a))
      ∙ total-transfer draw.ids r a (subst AllSound (sym e) h) (subst (RoundsNothing r) (sym e) x)
      ∙ ap total e
  transfer_total r (err y, a) app e h x = ap total e
  transfer_total r (panic, a) app e h x = ap total e

  -- On a sound application, a request that does not mint and does not create an account leaves the
  -- exact sum of all balances as it was, whether it is accepted or refused, and also if it makes the
  -- process crash. A transfer of money is one of which neither new balance is rounded; no other
  -- request has a condition on rounding.
  pub total-handle_request :
      (r : Request) (app : App)
      → AllSound app
      → ¬ IsIssue r
      → IsExact r app
      → total (handle_request env draw r app).1 ≡ total app
  unfolding handler
  total-handle_request (Request.mint_token r) app h n x =
      (keeps_total (Request.mint_token r) (total app)
          (search (rules, Total.mint_token-HasTotal))).apply
        app refl
  total-handle_request (Request.authorize_token_transfer r) app h n x =
      (keeps_total (Request.authorize_token_transfer r) (total app)
          (search (rules, Total.authorize_token_transfer-HasTotal))).apply
        app refl
  total-handle_request (Request.unauthorize_token_transfer r) app h n x =
      (keeps_total (Request.unauthorize_token_transfer r) (total app)
          (search (rules, Total.unauthorize_token_transfer-HasTotal))).apply
        app refl
  total-handle_request (Request.transfer_token r) app h n x =
      (keeps_total (Request.transfer_token r) (total app)
          (search (rules, Total.transfer_token-HasTotal))).apply
        app refl
  total-handle_request (Request.clawback_token r) app h n x =
      (keeps_total (Request.clawback_token r) (total app)
          (search (rules, Total.clawback_token-HasTotal))).apply
        app refl
  total-handle_request (Request.burn_token r) app h n x =
      (keeps_total (Request.burn_token r) (total app)
          (search (rules, Total.burn_token-HasTotal))).apply
        app refl
  total-handle_request (Request.freeze_token r) app h n x =
      (keeps_total (Request.freeze_token r) (total app)
          (search (rules, Total.freeze_token-HasTotal))).apply
        app refl
  total-handle_request (Request.unfreeze_token r) app h n x =
      (keeps_total (Request.unfreeze_token r) (total app)
          (search (rules, Total.unfreeze_token-HasTotal))).apply
        app refl
  total-handle_request Request.account_count app h n x =
      (keeps_total Request.account_count (total app)
          (search (rules, account_count-Preserves))).apply
        app refl
  total-handle_request (Request.get_account r) app h n x =
      (keeps_total (Request.get_account r) (total app)
          (search (rules, get_account-Preserves))).apply
        app refl
  total-handle_request Request.get_accounts app h n x =
      (keeps_total Request.get_accounts (total app) (search (rules, get_accounts-Preserves))).apply
        app refl
  total-handle_request (Request.lookup_token r) app h n x =
      (keeps_total (Request.lookup_token r) (total app)
          (search (rules, lookup_token-Preserves))).apply
        app refl
  total-handle_request Request.other app h n x =
      (keeps_total Request.other (total app) (search rules)).apply app refl
  total-handle_request (Request.mint r) app h n x = absurd (n tt)
  total-handle_request (Request.admin_mint r) app h n x = absurd (n tt)
  total-handle_request (Request.create_account r) app h n x = absurd (n tt)
  total-handle_request (Request.admin_create_account b) app h n x = absurd (n tt)
  total-handle_request (Request.transfer r) app h n x =
      unfold handle_request in
      transfer_total r (verify env draw (Request.transfer r) app) app
        ((verify-Preserves env draw (λ a. a ≡ app) (Request.transfer r)).apply app refl) h x
