-- ===== src/VerifyLaws/ReadOnly.antt =====
-- Verification and the read-only operations change nothing: they keep every invariant of the
-- application (internal/verifier/verifier.go, internal/scalegraph/requests.go and app.go).
use sg_emulator.Base.{⊤, Bool, true, false, if◌then◌else◌, Option, none, some}
use sg_emulator.Base.Bytes.{Bytes}
use sg_emulator.Base.Int.{ℤ}
use sg_emulator.Base.Dict.{lookup}
use sg_emulator.Token.{Signature}
use sg_emulator.Account.{Account}
use sg_emulator.Requests.{
  SignedEnvelope, CreateAccountRequest, GetAccountRequest, TransferRequest, MintTokenRequest,
  TokenRequest, AuthorizeRequest, BurnTokenRequest, FreezeRequest, LookupTokenRequest,
}
use sg_emulator.App.{
  App, Operation, get_account_cert_and_public_key, get_account, get_accounts, account_count,
  lookup_in, lookup_token,
}
use sg_emulator.Verify.{
  Crypto, PayloadBytes, Verifier, SignatureVerifier, verify_certificate, verify_signature,
  verify_timestamp, verify_account_id, resolve_account, resolve_ca, resolve_signer,
  verify_envelope_data, verify_request, verify_create_account, verify_get_account, verify_transfer,
  verify_mint_token, verify_transfer_token, verify_authorize, verify_unauthorize, verify_burn_token,
  verify_clawback_token, verify_freeze, verify_unfreeze, verify_lookup_token,
}
use sg_emulator.AppLaws.Preserves.{Preserves, rules, or_fail-Preserves}

module _ (I : App → Type 0) where
  if-Kept : {R : Type 0} (b : Bool) (x y : R × App) → I x.1 → I y.1 → I (if b then x else y).1
  if-Kept true x y p q = p
  if-Kept false x y p q = q

  module _ (c : Crypto) (v : Verifier) where
    resolve_account-Preserves : (s : Bytes) → Preserves I (resolve_account c v s)
    unfolding resolve_account get_account_cert_and_public_key
    resolve_account-Preserves s = search rules depth 12

    resolve_ca-Preserves : (o : Option Bytes) (s : Bytes) → Preserves I (resolve_ca c v o s)
    resolve_ca-Preserves none s = record { apply = (resolve_account-Preserves s).apply }
    resolve_ca-Preserves (some key) s = record {
      apply = λ app h. if-Kept _ _ _ h ((resolve_account-Preserves s).apply app h);
    }

    pub verify_envelope_data-Preserves :
        (cert_time now : ℤ) (s message : Bytes) (sig : Signature)
        → Preserves I (verify_envelope_data c v cert_time now s message sig)
    unfolding verify_envelope_data resolve_signer verify_certificate verify_account_id
        verify_signature verify_timestamp
    verify_envelope_data-Preserves cert_time now s message sig =
        search (rules, resolve_ca-Preserves) depth 14

  module _ (c : Crypto) (verifier : SignatureVerifier) (ca_key : Bytes) (json : PayloadBytes)
      (keeps : (s message : Bytes) (sig : Signature) → Preserves I (verifier s message sig)) where
    verify_request-Preserves :
        {T : Type 0} (bytes_of : T → Bytes) (o : Option (SignedEnvelope T)) (expected : Bytes)
        (verify_data : T → Operation ⊤)
        → ((x : T) → Preserves I (verify_data x))
        → Preserves I (verify_request c verifier ca_key bytes_of o expected verify_data)
    unfolding verify_request
    verify_request-Preserves bytes_of o expected verify_data q = search (rules, keeps) depth 12

    pub verify_create_account-Preserves :
        (r : CreateAccountRequest) → Preserves I (verify_create_account c verifier ca_key json r)
    unfolding verify_create_account
    verify_create_account-Preserves r = search (rules, verify_request-Preserves) depth 12

    pub verify_get_account-Preserves :
        (r : GetAccountRequest) → Preserves I (verify_get_account c verifier ca_key json r)
    unfolding verify_get_account
    verify_get_account-Preserves r = search (rules, verify_request-Preserves) depth 12

    pub verify_transfer-Preserves :
        (r : TransferRequest) → Preserves I (verify_transfer c verifier ca_key json r)
    unfolding verify_transfer
    verify_transfer-Preserves r = search (rules, verify_request-Preserves) depth 12

    pub verify_mint_token-Preserves :
        (r : MintTokenRequest) → Preserves I (verify_mint_token c verifier ca_key json r)
    unfolding verify_mint_token
    verify_mint_token-Preserves r = search (rules, verify_request-Preserves) depth 12

    pub verify_transfer_token-Preserves :
        (r : TokenRequest) → Preserves I (verify_transfer_token c verifier ca_key json r)
    unfolding verify_transfer_token
    verify_transfer_token-Preserves r = search (rules, verify_request-Preserves) depth 12

    pub verify_authorize-Preserves :
        (r : AuthorizeRequest) → Preserves I (verify_authorize c verifier ca_key json r)
    unfolding verify_authorize
    verify_authorize-Preserves r = search (rules, verify_request-Preserves) depth 12

    pub verify_unauthorize-Preserves :
        (r : AuthorizeRequest) → Preserves I (verify_unauthorize c verifier ca_key json r)
    unfolding verify_unauthorize
    verify_unauthorize-Preserves r = search (rules, verify_request-Preserves) depth 12

    pub verify_burn_token-Preserves :
        (r : BurnTokenRequest) → Preserves I (verify_burn_token c verifier ca_key json r)
    unfolding verify_burn_token
    verify_burn_token-Preserves r = search (rules, verify_request-Preserves) depth 12

    pub verify_clawback_token-Preserves :
        (r : TokenRequest) → Preserves I (verify_clawback_token c verifier ca_key json r)
    unfolding verify_clawback_token
    verify_clawback_token-Preserves r = search (rules, verify_request-Preserves) depth 12

    pub verify_freeze-Preserves :
        (r : FreezeRequest) → Preserves I (verify_freeze c verifier ca_key json r)
    unfolding verify_freeze
    verify_freeze-Preserves r = search (rules, verify_request-Preserves) depth 12

    pub verify_unfreeze-Preserves :
        (r : FreezeRequest) → Preserves I (verify_unfreeze c verifier ca_key json r)
    unfolding verify_unfreeze
    verify_unfreeze-Preserves r = search (rules, verify_request-Preserves) depth 12

    pub verify_lookup_token-Preserves :
        (r : LookupTokenRequest) → Preserves I (verify_lookup_token c verifier ca_key json r)
    unfolding verify_lookup_token
    verify_lookup_token-Preserves r = search (rules, verify_request-Preserves) depth 12

  pub get_account-Preserves : (r : GetAccountRequest) → Preserves I (get_account r)
  unfolding get_account
  get_account-Preserves r = search rules

  pub get_accounts-Preserves : Preserves I get_accounts
  unfolding get_accounts
  get_accounts-Preserves = search rules

  pub account_count-Preserves : Preserves I account_count
  unfolding account_count
  account_count-Preserves = search rules

  lookup_in-Kept : (id : Bytes) (o : Option Account) (app : App) → I app → I (lookup_in id o app).1
  lookup_in-Kept id none app h = h
  lookup_in-Kept id (some a) app h = (or_fail-Preserves I _ _).apply app h

  pub lookup_token-Preserves : (r : LookupTokenRequest) → Preserves I (lookup_token r)
  unfolding lookup_token
  lookup_token-Preserves r = record {
    apply = λ app. lookup_in-Kept r.token_id (lookup r.account_id app.accounts) app;
  }
