-- ===== src/Verify/Checks.antt =====
-- VerifyRequest (internal/crypto/verifiable.go) and the Verify method of each signed request
-- (internal/scalegraph/requests.go). The envelope check is that of the verifier, through the
-- interface `SignatureVerifier`.
use sg_emulator.Base.{⊤, ℕ, Bool, true, false, not, ◌==◌, Option, none, some, [], ◌∷◌}
use sg_emulator.Base.Bytes.{Bytes, bytes_eq}
use sg_emulator.Base.Int.{ℤ, eqb_ℤ}
use sg_emulator.Base.Action.{◌>>=◌, ◌>>◌, fail_if, or_fail, or_crash, wrap_error}
use sg_emulator.Errors.{
  missing_signature, signer_mismatch, invalid_signature, payload_mismatch, field_mismatch,
}
use sg_emulator.Id.{ScalegraphId, hex_encode, to_string}
use sg_emulator.Token.{Signature}
use sg_emulator.Requests.{
  SignedEnvelope, AuthorizePayload, FreezePayload, CreateAccountRequest, GetAccountRequest,
  TransferRequest, MintTokenRequest, TokenRequest, AuthorizeRequest, BurnTokenRequest,
  FreezeRequest, LookupTokenRequest, SubscribeEventsRequest,
}
use sg_emulator.App.{Operation}
use sg_emulator.Verify.External.{Crypto, PayloadBytes}

-- The interface `SignatureVerifier`: the signer, the signed bytes and the signature.
abbrev pub SignatureVerifier : Type 0
SignatureVerifier = Bytes → Bytes → Signature → Operation ⊤

-- An empty expected signer asks for the CA, whose identifier is that of its key.
abbrev pub expected_id : Crypto → Bytes → Bytes → Bytes
expected_id c ca_key [] = hex_encode (c.derive_account_id ca_key)
expected_id c ca_key (x ∷ xs) = x ∷ xs

unfoldable pub verify_request :
    {T : Type 0}
    → Crypto
    → SignatureVerifier
    → Bytes
    → (T → Bytes)
    → Option (SignedEnvelope T)
    → Bytes
    → (T → Operation ⊤)
    → Operation ⊤
verify_request c verifier ca_key bytes_of signed_envelope expected verify_data = do
  envelope ← or_fail signed_envelope missing_signature
  wrap_error invalid_signature
      (verifier envelope.signature.signer_id (bytes_of envelope.payload) envelope.signature)
  fail_if (not (bytes_eq envelope.signature.signer_id (expected_id c ca_key expected)))
      signer_mismatch
  wrap_error payload_mismatch (verify_data envelope.payload)

-- `if signed.F != r.F { return fmt.Errorf("F mismatch") }`, for texts and for nonces.
abbrev pub same_text : Bytes → Bytes → Operation ⊤
same_text signed asked = fail_if (not (bytes_eq signed asked)) field_mismatch

abbrev pub same_nonce : ℕ → ℕ → Operation ⊤
same_nonce signed asked = fail_if (not (signed == asked)) field_mismatch

abbrev pub same_amount : ℤ → ℤ → Operation ⊤
same_amount signed asked = fail_if (not (eqb_ℤ signed asked)) field_mismatch

-- The three cases of the `switch` on a freeze or a clawback address.
abbrev pub same_address : Option ScalegraphId → Option Bytes → Bool
same_address none none = true
same_address none (some signed) = false
same_address (some asked) none = false
same_address (some asked) (some signed) = bytes_eq (to_string asked) signed

module _ (c : Crypto) (verifier : SignatureVerifier) (ca_key : Bytes) (json : PayloadBytes) where
  unfoldable pub verify_create_account : CreateAccountRequest → Operation ⊤
  verify_create_account r =
      verify_request c verifier ca_key json.create_account r.signed_envelope []
        (λ signed. same_amount signed.initial_balance r.initial_balance)

  unfoldable pub verify_get_account : GetAccountRequest → Operation ⊤
  verify_get_account r =
      verify_request c verifier ca_key json.get_account r.signed_envelope (to_string r.account_id)
        (λ signed. same_text signed.account_id (to_string r.account_id))

  unfoldable pub verify_transfer : TransferRequest → Operation ⊤
  verify_transfer r =
      verify_request c verifier ca_key json.transfer r.signed_envelope (to_string r.from) λ signed.
        do
          same_text signed.from (to_string r.from)
          same_text signed.to (to_string r.to)
          same_amount signed.amount r.amount
          same_nonce signed.nonce r.nonce

  -- The signer is read through the envelope before anything is tested.
  unfoldable pub verify_mint_token : MintTokenRequest → Operation ⊤
  verify_mint_token r = do
    envelope ← or_crash r.signed_envelope
    verify_request c verifier ca_key json.mint_token r.signed_envelope envelope.signature.signer_id
        λ signed. do
          same_text signed.token_value r.token_value
          same_amount signed.nonce r.nonce
          fail_if (not (same_address r.freeze_address signed.freeze_address)) field_mismatch
          fail_if (not (same_address r.clawback_address signed.clawback_address)) field_mismatch

  unfoldable pub verify_transfer_token : TokenRequest → Operation ⊤
  verify_transfer_token r =
      verify_request c verifier ca_key json.transfer_token r.signed_envelope (to_string r.from)
        λ signed. do
          same_text signed.token_id r.token_id
          same_text signed.from (to_string r.from)
          same_text signed.to (to_string r.to)
          same_nonce signed.nonce r.nonce

  abbrev same_slot : AuthorizeRequest → AuthorizePayload → Operation ⊤
  same_slot r signed = do
    same_text signed.token_id r.token_id
    same_text signed.account_id (to_string r.account_id)
    same_text signed.token_owner_id (to_string r.token_owner_id)
    same_nonce signed.nonce r.nonce

  unfoldable pub verify_authorize : AuthorizeRequest → Operation ⊤
  verify_authorize r =
      verify_request c verifier ca_key json.authorize r.signed_envelope (to_string r.account_id)
        (same_slot r)

  unfoldable pub verify_unauthorize : AuthorizeRequest → Operation ⊤
  verify_unauthorize r =
      verify_request c verifier ca_key json.unauthorize r.signed_envelope (to_string r.account_id)
        (same_slot r)

  unfoldable pub verify_burn_token : BurnTokenRequest → Operation ⊤
  verify_burn_token r =
      verify_request c verifier ca_key json.burn_token r.signed_envelope (to_string r.account_id)
        λ signed. do
          same_text signed.token_id r.token_id
          same_text signed.account_id (to_string r.account_id)
          same_nonce signed.nonce r.nonce

  -- A clawback is signed by the account that receives the token.
  unfoldable pub verify_clawback_token : TokenRequest → Operation ⊤
  verify_clawback_token r =
      verify_request c verifier ca_key json.clawback_token r.signed_envelope (to_string r.to)
        λ signed. do
          same_text signed.token_id r.token_id
          same_text signed.from (to_string r.from)
          same_text signed.to (to_string r.to)
          same_nonce signed.nonce r.nonce

  abbrev same_freeze : FreezeRequest → FreezePayload → Operation ⊤
  same_freeze r signed = do
    same_text signed.freeze_authority (to_string r.freeze_authority)
    same_text signed.token_holder (to_string r.token_holder)
    same_text signed.token_id r.token_id
    same_nonce signed.nonce r.nonce

  unfoldable pub verify_freeze : FreezeRequest → Operation ⊤
  verify_freeze r =
      verify_request c verifier ca_key json.freeze r.signed_envelope (to_string r.freeze_authority)
        (same_freeze r)

  unfoldable pub verify_unfreeze : FreezeRequest → Operation ⊤
  verify_unfreeze r =
      verify_request c verifier ca_key json.unfreeze r.signed_envelope
        (to_string r.freeze_authority) (same_freeze r)

  -- Any account may look up a token: the expected signer is the one in the envelope.
  unfoldable pub verify_lookup_token : LookupTokenRequest → Operation ⊤
  verify_lookup_token r = do
    envelope ← or_crash r.signed_envelope
    verify_request c verifier ca_key json.lookup_token r.signed_envelope
        envelope.signature.signer_id
        λ signed. do
          same_text signed.token_id r.token_id
          same_text signed.account_id (to_string r.account_id)

  unfoldable pub verify_subscribe_events : SubscribeEventsRequest → Operation ⊤
  verify_subscribe_events r =
      verify_request c verifier ca_key json.subscribe r.signed_envelope (to_string r.account_id)
        (λ signed. same_text signed.account_id (to_string r.account_id))
