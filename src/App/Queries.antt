-- ===== src/App/Queries.antt =====
-- The operations that read (GetAccountCertAndPublicKey, GetAccounts, GetAccount, LookupToken and
-- AccountCount of internal/scalegraph/app.go).
use sg_emulator.Base.{ℕ, Option, none, some, List, length, map}
use mathlib.Core.Option
use sg_emulator.Base.Bytes.{Bytes}
use sg_emulator.Base.Dict.{lookup}
use sg_emulator.Base.Action.{ok, ◌>>=◌, pure, gets, or_fail}
use sg_emulator.Errors.{account_not_found, token_not_found}
use sg_emulator.Id.{ScalegraphId}
use sg_emulator.Token.{Token}
use sg_emulator.Account.{Account, get_token}
use sg_emulator.Requests.{GetAccountRequest, LookupTokenRequest}
use sg_emulator.App.State.{Operation, find_account}

unfoldable pub get_account_cert_and_public_key : ScalegraphId → Operation (Option Bytes × Bytes)
get_account_cert_and_public_key id = do
  acc ← find_account id account_not_found
  pure (acc.certificate, acc.public_key)

unfoldable pub get_account : GetAccountRequest → Operation Account
get_account req = find_account req.account_id account_not_found

unfoldable pub get_accounts : Operation (List Account)
get_accounts = gets λ app. map (λ e. e.1) app.accounts

unfoldable pub account_count : Operation ℕ
account_count = gets λ app. length app.accounts

abbrev pub lookup_in : Bytes → Option Account → Operation (Option Token)
lookup_in token_id none app = (ok none, app)
lookup_in token_id (some acc) app =
    or_fail (Option.map some (get_token token_id acc)) token_not_found app

-- A missing account is answered by an empty response, and no error.
unfoldable pub lookup_token : LookupTokenRequest → Operation (Option Token)
lookup_token req app = lookup_in req.token_id (lookup req.account_id app.accounts) app
