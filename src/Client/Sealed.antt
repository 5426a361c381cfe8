-- ===== src/Client/Sealed.antt =====
-- What the server accepts, against what the client builds (internal/server/client.go and the Verify
-- methods of internal/scalegraph/requests.go).
mod Kinds
use sg_emulator.Base.{⊤, ◌≡◌, refl, sym, ◌∙◌, ap, Option, none, some, arith, length, true}
use sg_emulator.Base.Bytes.{Bytes, AreBytes, bytes_eq_iff}
use sg_emulator.Base.Action.{Result, ok, or_crash, ◌>>◌}
use sg_emulator.Errors.{Error}
use sg_emulator.Id.{ScalegraphId, to_string, from_string, id_length}
use sg_emulator.Id.RoundTrip.{from_string-to_string}
use sg_emulator.App.{App, Operation}
use sg_emulator.Requests.{
  SignedEnvelope, AuthorizePayload, TokenPayload, FreezePayload, TransferRequest, AuthorizeRequest,
  TokenRequest, FreezeRequest, BurnTokenRequest, LookupTokenRequest, MintTokenRequest,
}
use sg_emulator.Server.{Request, Environment, Draw, verify, signature_verifier}
use sg_emulator.Verify.{
  Crypto, SignatureVerifier, PayloadBytes, same_address, same_text, same_nonce, verify_request,
  verify_transfer, verify_mint_token, verify_burn_token, verify_lookup_token, verify_authorize,
  verify_unauthorize, verify_transfer_token, verify_clawback_token, verify_freeze, verify_unfreeze,
}
use sg_emulator.VerifyLaws.Payload.{
  Checked, verify_request-Checked, verify_transfer-SignedTransfer,
  verify_mint_token-SignedMintToken,
}
use sg_emulator.VerifyLaws.Envelope.{after_ok}
use sg_emulator.Client.{
  parse_address, transfer_request, mint_token_request, slot_request, token_request,
  burn_token_request, freeze_request, lookup_token_request,
}
use sg_emulator.Client.Sealed.Kinds.{
  IsId, IsAddress, Rebuilt, transfer-Rebuilt, mint_token-Rebuilt, token-Rebuilt, slot-Rebuilt,
  freeze-Rebuilt, burn_token-Rebuilt, lookup_token-Rebuilt,
}

-- The identifiers in a signed request are arrays of 20 bytes.
abbrev pub HasIds : Request → Type 0
HasIds (Request.transfer r) = IsId r.from × IsId r.to
HasIds (Request.mint_token r) = IsAddress r.clawback_address × IsAddress r.freeze_address
HasIds (Request.authorize_token_transfer r) = IsId r.account_id × IsId r.token_owner_id
HasIds (Request.unauthorize_token_transfer r) = IsId r.account_id × IsId r.token_owner_id
HasIds (Request.transfer_token r) = IsId r.from × IsId r.to
HasIds (Request.clawback_token r) = IsId r.from × IsId r.to
HasIds (Request.freeze_token r) = IsId r.freeze_authority × IsId r.token_holder
HasIds (Request.unfreeze_token r) = IsId r.freeze_authority × IsId r.token_holder
HasIds (Request.burn_token r) = IsId r.account_id
HasIds (Request.lookup_token r) = IsId r.account_id
HasIds _ = ⊤

-- A request of a kind for which the client has a `…Signed` method is what this method builds from
-- its envelope.
abbrev pub IsSealed : Request → Type 0
IsSealed (Request.transfer r) = Rebuilt r.signed_envelope transfer_request (Request.transfer r)
IsSealed (Request.mint_token r) =
    Rebuilt r.signed_envelope mint_token_request (Request.mint_token r)
IsSealed (Request.authorize_token_transfer r) =
    Rebuilt r.signed_envelope (slot_request Request.authorize_token_transfer)
      (Request.authorize_token_transfer r)
IsSealed (Request.unauthorize_token_transfer r) =
    Rebuilt r.signed_envelope (slot_request Request.unauthorize_token_transfer)
      (Request.unauthorize_token_transfer r)
IsSealed (Request.transfer_token r) =
    Rebuilt r.signed_envelope (token_request Request.transfer_token) (Request.transfer_token r)
IsSealed (Request.clawback_token r) =
    Rebuilt r.signed_envelope (token_request Request.clawback_token) (Request.clawback_token r)
IsSealed (Request.freeze_token r) =
    Rebuilt r.signed_envelope (freeze_request Request.freeze_token) (Request.freeze_token r)
IsSealed (Request.unfreeze_token r) =
    Rebuilt r.signed_envelope (freeze_request Request.unfreeze_token) (Request.unfreeze_token r)
IsSealed (Request.burn_token r) =
    Rebuilt r.signed_envelope burn_token_request (Request.burn_token r)
IsSealed (Request.lookup_token r) =
    Rebuilt r.signed_envelope lookup_token_request (Request.lookup_token r)
IsSealed _ = ⊤

module _ (env : Environment) (draw : Draw) where
  abbrev checked :
      {T : Type 0} (bytes_of : T → Bytes) (o : Option (SignedEnvelope T)) (expected : Bytes)
      (verify_data : T → Operation ⊤) (app : App)
      → (verify_request env.crypto
          (signature_verifier env draw)
          env.ca_key
          bytes_of
          o
          expected
          verify_data
          app).0
        ≡ ok tt
      → Checked env.crypto
          (signature_verifier env draw)
          env.ca_key
          bytes_of
          o
          expected
          verify_data
          app
  checked = verify_request-Checked env.crypto (signature_verifier env draw) env.ca_key

  -- Whatever a signed request asks for is under its signature: if the server accepts the request,
  -- whose identifiers are arrays of 20 bytes, then it is, in every field, the request that the
  -- client builds from the envelope that it carries.
  pub verify-IsSealed :
      (r : Request) (app : App) → HasIds r → (verify env draw r app).0 ≡ ok tt → IsSealed r
  unfolding verify verify_authorize verify_unauthorize verify_transfer_token verify_clawback_token
      verify_freeze verify_unfreeze
  verify-IsSealed (Request.transfer r) app (h1, h2) h =
      transfer-Rebuilt env.crypto (signature_verifier env draw) env.ca_key env.json r app h1 h2 h
  verify-IsSealed (Request.mint_token r) app (h1, h2) h =
      mint_token-Rebuilt env.crypto (signature_verifier env draw) env.ca_key env.json r app h1 h2 h
  verify-IsSealed (Request.burn_token r) app h1 h =
      burn_token-Rebuilt env.crypto (signature_verifier env draw) env.ca_key env.json r app h1 h
  verify-IsSealed (Request.lookup_token r) app h1 h =
      lookup_token-Rebuilt env.crypto (signature_verifier env draw) env.ca_key env.json r app h1 h
  verify-IsSealed (Request.authorize_token_transfer r) app (h1, h2) h =
      slot-Rebuilt env.crypto (signature_verifier env draw) env.ca_key env.json.authorize
        Request.authorize_token_transfer r _ app h1 h2
        (checked env.json.authorize r.signed_envelope (to_string r.account_id) _ app h)
  verify-IsSealed (Request.unauthorize_token_transfer r) app (h1, h2) h =
      slot-Rebuilt env.crypto (signature_verifier env draw) env.ca_key env.json.unauthorize
        Request.unauthorize_token_transfer r _ app h1 h2
        (checked env.json.unauthorize r.signed_envelope (to_string r.account_id) _ app h)
  verify-IsSealed (Request.transfer_token r) app (h1, h2) h =
      token-Rebuilt env.crypto (signature_verifier env draw) env.ca_key env.json.transfer_token
        Request.transfer_token r _ app h1 h2
        (checked env.json.transfer_token r.signed_envelope (to_string r.from) _ app h)
  verify-IsSealed (Request.clawback_token r) app (h1, h2) h =
      token-Rebuilt env.crypto (signature_verifier env draw) env.ca_key env.json.clawback_token
        Request.clawback_token r _ app h1 h2
        (checked env.json.clawback_token r.signed_envelope (to_string r.to) _ app h)
  verify-IsSealed (Request.freeze_token r) app (h1, h2) h =
      freeze-Rebuilt env.crypto (signature_verifier env draw) env.ca_key env.json.freeze
        Request.freeze_token r _ app h1 h2
        (checked env.json.freeze r.signed_envelope (to_string r.freeze_authority) _ app h)
  verify-IsSealed (Request.unfreeze_token r) app (h1, h2) h =
      freeze-Rebuilt env.crypto (signature_verifier env draw) env.ca_key env.json.unfreeze
        Request.unfreeze_token r _ app h1 h2
        (checked env.json.unfreeze r.signed_envelope (to_string r.freeze_authority) _ app h)
  verify-IsSealed (Request.mint r) app hi h = tt
  verify-IsSealed (Request.create_account r) app hi h = tt
  verify-IsSealed (Request.get_account r) app hi h = tt
  verify-IsSealed (Request.admin_create_account b) app hi h = tt
  verify-IsSealed (Request.admin_mint r) app hi h = tt
  verify-IsSealed Request.account_count app hi h = tt
  verify-IsSealed Request.get_accounts app hi h = tt
  verify-IsSealed Request.other app hi h = tt
