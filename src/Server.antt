-- ===== src/Server.antt =====
-- The server (internal/server/server.go): it takes one request after another from its channel,
-- verifies the signature where the request has one, and runs the handler. Events, responses to
-- clients that have gone and virtual apps are left out.
use sg_emulator.Base.{⊤, ℕ, Option, none, some, List, [], ◌∷◌}
use sg_emulator.Base.Bytes.{Bytes}
use sg_emulator.Base.Int.{ℤ}
use sg_emulator.Base.Action.{Result, ok, err, panic, ◌>>=◌, ◌>>◌, or_fail, pure, fail}
use sg_emulator.Errors.{Error, unknown_request_type, certificate_nil}
use sg_emulator.Id.{ScalegraphId}
use sg_emulator.Token.{Token}
use sg_emulator.Account.{Account}
use sg_emulator.Requests.{
  CreateAccountRequest, GetAccountRequest, TransferRequest, MintRequest, MintTokenRequest,
  TokenRequest, AuthorizeRequest, BurnTokenRequest, FreezeRequest, LookupTokenRequest,
}
use sg_emulator.App
use sg_emulator.App.{App, Ids, Operation}
use sg_emulator.Verify.{
  Crypto, PayloadBytes, Verifier, SignatureVerifier, verify_envelope_data, verify_create_account,
  verify_get_account, verify_transfer, verify_mint_token, verify_transfer_token, verify_authorize,
  verify_unauthorize, verify_burn_token, verify_clawback_token, verify_freeze, verify_unfreeze,
  verify_lookup_token,
}

-- The payloads for which `registerHandlers` registers a handler; `other` is any other payload.
pub data Request : Type 0 where
  transfer : TransferRequest → Request
  mint : MintRequest → Request
  account_count : Request
  create_account : CreateAccountRequest → Request
  get_account : GetAccountRequest → Request
  get_accounts : Request
  admin_create_account : ℤ → Request
  admin_mint : MintRequest → Request
  mint_token : MintTokenRequest → Request
  authorize_token_transfer unauthorize_token_transfer : AuthorizeRequest → Request
  transfer_token clawback_token : TokenRequest → Request
  burn_token : BurnTokenRequest → Request
  lookup_token : LookupTokenRequest → Request
  freeze_token unfreeze_token : FreezeRequest → Request
  other : Request

pub data Response : Type 0 where
  done : Response
  count : ℕ → Response
  account : Account → Response
  accounts : List Account → Response
  token_id : Bytes → Response
  token : Option Token → Response

-- What the server is built with: the functions that it calls, and the CA's certificate and key.
pub record Environment : Type 0 where
  pub crypto : Crypto
  pub json : PayloadBytes
  pub verifier : Verifier
  pub ca_key : Bytes

-- What one request takes from outside: random identifiers, the clock, and the key and certificate
-- that the CA makes for a new account, if it can.
pub record Draw : Type 0 where
  pub ids : Ids
  pub genesis_id : ScalegraphId
  pub credentials : Option (Bytes × Bytes)
  pub cert_time : ℤ
  pub now : ℤ

module _ (env : Environment) (draw : Draw) where
  abbrev pub signature_verifier : SignatureVerifier
  signature_verifier = verify_envelope_data env.crypto env.verifier draw.cert_time draw.now

  -- handleCreateAccount and handleAdminCreateAccount.
  unfoldable pub handle_create_account : ℤ → Operation Response
  handle_create_account initial_balance = do
    (key, cert) ← or_fail draw.credentials certificate_nil
    App.create_account_with_keys draw.ids (env.crypto.derive_account_id key) draw.genesis_id key
        (some cert) initial_balance
    pure done

  -- The `Verify` method of the payload, if it has one that requires a signature.
  unfoldable pub verify : Request → Operation ⊤
  verify (Request.transfer r) = verify_transfer env.crypto signature_verifier env.ca_key env.json r
  verify (Request.create_account r) =
      verify_create_account env.crypto signature_verifier env.ca_key env.json r
  verify (Request.get_account r) =
      verify_get_account env.crypto signature_verifier env.ca_key env.json r
  verify (Request.mint_token r) =
      verify_mint_token env.crypto signature_verifier env.ca_key env.json r
  verify (Request.authorize_token_transfer r) =
      verify_authorize env.crypto signature_verifier env.ca_key env.json r
  verify (Request.unauthorize_token_transfer r) =
      verify_unauthorize env.crypto signature_verifier env.ca_key env.json r
  verify (Request.transfer_token r) =
      verify_transfer_token env.crypto signature_verifier env.ca_key env.json r
  verify (Request.clawback_token r) =
      verify_clawback_token env.crypto signature_verifier env.ca_key env.json r
  verify (Request.burn_token r) =
      verify_burn_token env.crypto signature_verifier env.ca_key env.json r
  verify (Request.lookup_token r) =
      verify_lookup_token env.crypto signature_verifier env.ca_key env.json r
  verify (Request.freeze_token r) =
      verify_freeze env.crypto signature_verifier env.ca_key env.json r
  verify (Request.unfreeze_token r) =
      verify_unfreeze env.crypto signature_verifier env.ca_key env.json r
  verify (Request.mint r) = pure tt
  verify Request.account_count = pure tt
  verify Request.get_accounts = pure tt
  verify (Request.admin_create_account b) = pure tt
  verify (Request.admin_mint r) = pure tt
  verify Request.other = pure tt

  -- The map of handlers, as `registerHandlers` fills it.
  unfoldable pub handler : Request → Operation Response
  handler (Request.transfer r) = App.transfer draw.ids r >> pure done
  handler (Request.mint r) = App.mint draw.ids r >> pure done
  handler Request.account_count = do n ← App.account_count; pure (count n)
  handler (Request.create_account r) = handle_create_account r.initial_balance
  handler (Request.get_account r) = do a ← App.get_account r; pure (account a)
  handler Request.get_accounts = do l ← App.get_accounts; pure (accounts l)
  handler (Request.admin_create_account b) = handle_create_account b
  handler (Request.admin_mint r) = App.mint draw.ids r >> pure done
  handler (Request.mint_token r) = do id ← App.mint_token draw.ids r; pure (token_id id)
  handler (Request.authorize_token_transfer r) =
      App.authorize_token_transfer draw.ids r >> pure done
  handler (Request.unauthorize_token_transfer r) =
      App.unauthorize_token_transfer draw.ids r >> pure done
  handler (Request.transfer_token r) = App.transfer_token draw.ids r >> pure done
  handler (Request.clawback_token r) = App.clawback_token draw.ids r >> pure done
  handler (Request.burn_token r) = App.burn_token draw.ids r >> pure done
  handler (Request.lookup_token r) = do t ← App.lookup_token r; pure (token t)
  handler (Request.freeze_token r) = App.freeze_token draw.ids r >> pure done
  handler (Request.unfreeze_token r) = App.unfreeze_token draw.ids r >> pure done
  handler Request.other = fail unknown_request_type

  -- `handleRequest`: an unknown type is refused before any verification.
  unfoldable pub handle_request : Request → Operation Response
  handle_request r = do verify r; handler r

-- A panic in the loop of `run` is not recovered and ends the process.
abbrev pub survive : Result Error Response × App → Option App
survive (ok u, app) = some app
survive (err e, app) = some app
survive (panic, app) = none

abbrev pub and_then : Option App → (App → Option App) → Option App
and_then none f = none
and_then (some app) f = f app

-- The loop of `run` over the requests that arrive; `none` if the process has crashed.
unfoldable pub run : Environment → List (Draw × Request) → App → Option App
run env [] app = some app
run env ((draw, r) ∷ rest) app = and_then (survive (handle_request env draw r app)) (run env rest)
