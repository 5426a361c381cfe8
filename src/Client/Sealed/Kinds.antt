-- ===== src/Client/Sealed/Kinds.antt =====
-- Each kind of signed request, against what the client builds (internal/server/client.go and the
-- Verify methods of internal/scalegraph/requests.go).
use sg_emulator.Base.{⊤, ◌≡◌, refl, sym, ◌∙◌, ap, Option, none, some, arith, length, true}
use sg_emulator.Base.Bytes.{Bytes, AreBytes, bytes_eq_iff}
use sg_emulator.Base.Action.{Result, ok, or_crash, ◌>>◌}
use sg_emulator.Errors.{Error}
use sg_emulator.Id.{ScalegraphId, to_string, from_string, id_length}
use sg_emulator.Id.RoundTrip.{from_string-to_string}
use sg_emulator.App.{App}
use sg_emulator.Requests.{
  SignedEnvelope, AuthorizePayload, TokenPayload, FreezePayload, TransferRequest, AuthorizeRequest,
  TokenRequest, FreezeRequest, BurnTokenRequest, LookupTokenRequest, MintTokenRequest,
}
use sg_emulator.Server.{Request}
use sg_emulator.Verify.{
  Crypto, SignatureVerifier, PayloadBytes, same_address, same_text, same_nonce, verify_transfer,
  verify_mint_token, verify_burn_token, verify_lookup_token,
}
use sg_emulator.VerifyLaws.Payload.{
  Checked, verify_request-Checked, verify_transfer-SignedTransfer,
  verify_mint_token-SignedMintToken,
}
use sg_emulator.VerifyLaws.Envelope.{after_ok}
use sg_emulator.Client.{
  parse_address, transfer_request, mint_token_request, slot_request, token_request,
  burn_token_request, freeze_request, lookup_token_request,
}

-- The identifier is an array of 20 bytes.
abbrev pub IsId : ScalegraphId → Type 0
IsId id = (length id ≡ id_length) × AreBytes id

abbrev pub IsAddress : Option ScalegraphId → Type 0
IsAddress none = ⊤
IsAddress (some id) = IsId id

parsed : (s : Bytes) (id : ScalegraphId) → s ≡ to_string id → IsId id → from_string s ≡ ok id
parsed s id e (l, h) = ap from_string e ∙ from_string-to_string id h l

parsed_address :
    (asked : Option ScalegraphId) (signed : Option Bytes)
    → same_address asked signed ≡ true
    → IsAddress asked
    → parse_address signed ≡ ok asked
unfolding parse_address
parsed_address none none e h = refl
parsed_address none (some s) e h = cc
parsed_address (some id) none e h = cc
parsed_address (some id) (some s) e h =
    rw (parsed s id (sym ((bytes_eq_iff (to_string id) s).0 e)) h) refl

-- The request is the one that the client builds from the envelope that it carries.
abbrev pub Rebuilt :
    {T : Type 0}
    → Option (SignedEnvelope T)
    → (SignedEnvelope T → Result Error Request)
    → Request
    → Type 0
Rebuilt {T} o build r = (e : SignedEnvelope T) × (o ≡ some e) × (build e ≡ ok r)

-- From what `VerifyRequest` has established to the request, one lemma for each kind of payload.
module _ (c : Crypto) (verifier : SignatureVerifier) (ca_key : Bytes) where
  pub transfer-Rebuilt :
      (json : PayloadBytes) (r : TransferRequest) (app : App)
      → IsId r.from
      → IsId r.to
      → (verify_transfer c verifier ca_key json r app).0 ≡ ok tt
      → Rebuilt r.signed_envelope transfer_request (Request.transfer r)
  unfolding transfer_request
  transfer-Rebuilt json r app hf ht h =
      let k = verify_transfer-SignedTransfer c verifier ca_key json r app hf.0 h in
      (
        k.envelope,
        k.present,
        rw
            (
              parsed k.envelope.payload.from r.from k.from hf,
              parsed k.envelope.payload.to r.to k.to ht,
              k.amount,
              k.nonce,
              sym k.present,
            )
            refl,
      )

  pub mint_token-Rebuilt :
      (json : PayloadBytes) (r : MintTokenRequest) (app : App)
      → IsAddress r.clawback_address
      → IsAddress r.freeze_address
      → (verify_mint_token c verifier ca_key json r app).0 ≡ ok tt
      → Rebuilt r.signed_envelope mint_token_request (Request.mint_token r)
  unfolding mint_token_request
  mint_token-Rebuilt json r app hc hf h =
      let k = verify_mint_token-SignedMintToken c verifier ca_key json r app h in
      (
        k.envelope,
        k.present,
        rw
            (
              parsed_address r.clawback_address k.envelope.payload.clawback_address
                  k.clawback_address hc,
              parsed_address r.freeze_address k.envelope.payload.freeze_address k.freeze_address hf,
              k.token_value,
              k.nonce,
              sym k.present,
            )
            refl,
      )

  pub token-Rebuilt :
      (bytes_of : TokenPayload → Bytes) (make : TokenRequest → Request) (r : TokenRequest)
      (signer : Bytes) (app : App)
      → IsId r.from
      → IsId r.to
      → Checked c verifier ca_key bytes_of r.signed_envelope signer
          (λ signed.
            same_text signed.token_id r.token_id
            >> (same_text signed.from (to_string r.from)
                >> (same_text signed.to (to_string r.to) >> same_nonce signed.nonce r.nonce)))
          app
      → Rebuilt r.signed_envelope (token_request make) (make r)
  unfolding token_request
  token-Rebuilt bytes_of make r signer app hf ht k =
      let m = k.matches in
      let p = k.envelope.payload in
      let from : p.from ≡ to_string r.from =
        ground (arith, m, bytes_eq_iff p.from (to_string r.from)) in
      let to : p.to ≡ to_string r.to = ground (arith, m, bytes_eq_iff p.to (to_string r.to)) in
      let token_id : p.token_id ≡ r.token_id =
        ground (arith, m, bytes_eq_iff p.token_id r.token_id) in
      let nonce : p.nonce ≡ r.nonce = ground (arith, m) in
      (
        k.envelope,
        k.present,
        rw (parsed p.from r.from from hf, parsed p.to r.to to ht, sym k.present, token_id, nonce)
            refl,
      )

  pub slot-Rebuilt :
      (bytes_of : AuthorizePayload → Bytes) (make : AuthorizeRequest → Request)
      (r : AuthorizeRequest) (signer : Bytes) (app : App)
      → IsId r.account_id
      → IsId r.token_owner_id
      → Checked c verifier ca_key bytes_of r.signed_envelope signer
          (λ signed.
            same_text signed.token_id r.token_id
            >> (same_text signed.account_id (to_string r.account_id)
                >> (same_text signed.token_owner_id (to_string r.token_owner_id)
                    >> same_nonce signed.nonce r.nonce)))
          app
      → Rebuilt r.signed_envelope (slot_request make) (make r)
  unfolding slot_request
  slot-Rebuilt bytes_of make r signer app ha ho k =
      let m = k.matches in
      let p = k.envelope.payload in
      let account_id : p.account_id ≡ to_string r.account_id =
        ground (arith, m, bytes_eq_iff p.account_id (to_string r.account_id)) in
      let owner : p.token_owner_id ≡ to_string r.token_owner_id =
        ground (arith, m, bytes_eq_iff p.token_owner_id (to_string r.token_owner_id)) in
      let token_id : p.token_id ≡ r.token_id =
        ground (arith, m, bytes_eq_iff p.token_id r.token_id) in
      let nonce : p.nonce ≡ r.nonce = ground (arith, m) in
      (
        k.envelope,
        k.present,
        rw
            (
              parsed p.account_id r.account_id account_id ha,
              parsed p.token_owner_id r.token_owner_id owner ho,
              sym k.present,
              token_id,
              nonce,
            )
            refl,
      )

  pub freeze-Rebuilt :
      (bytes_of : FreezePayload → Bytes) (make : FreezeRequest → Request) (r : FreezeRequest)
      (signer : Bytes) (app : App)
      → IsId r.freeze_authority
      → IsId r.token_holder
      → Checked c verifier ca_key bytes_of r.signed_envelope signer
          (λ signed.
            same_text signed.freeze_authority (to_string r.freeze_authority)
            >> (same_text signed.token_holder (to_string r.token_holder)
                >> (same_text signed.token_id r.token_id >> same_nonce signed.nonce r.nonce)))
          app
      → Rebuilt r.signed_envelope (freeze_request make) (make r)
  unfolding freeze_request
  freeze-Rebuilt bytes_of make r signer app ha hh k =
      let m = k.matches in
      let p = k.envelope.payload in
      let authority : p.freeze_authority ≡ to_string r.freeze_authority =
        ground (arith, m, bytes_eq_iff p.freeze_authority (to_string r.freeze_authority)) in
      let holder : p.token_holder ≡ to_string r.token_holder =
        ground (arith, m, bytes_eq_iff p.token_holder (to_string r.token_holder)) in
      let token_id : p.token_id ≡ r.token_id =
        ground (arith, m, bytes_eq_iff p.token_id r.token_id) in
      let nonce : p.nonce ≡ r.nonce = ground (arith, m) in
      (
        k.envelope,
        k.present,
        rw
            (
              parsed p.freeze_authority r.freeze_authority authority ha,
              parsed p.token_holder r.token_holder holder hh,
              sym k.present,
              token_id,
              nonce,
            )
            refl,
      )

  pub burn_token-Rebuilt :
      (json : PayloadBytes) (r : BurnTokenRequest) (app : App)
      → IsId r.account_id
      → (verify_burn_token c verifier ca_key json r app).0 ≡ ok tt
      → Rebuilt r.signed_envelope burn_token_request (Request.burn_token r)
  unfolding verify_burn_token burn_token_request
  burn_token-Rebuilt json r app ha h =
      let k =
        verify_request-Checked c verifier ca_key json.burn_token r.signed_envelope
          (to_string r.account_id) _ app h in
      let m = k.matches in
      let p = k.envelope.payload in
      let account_id : p.account_id ≡ to_string r.account_id =
        ground (arith, m, bytes_eq_iff p.account_id (to_string r.account_id)) in
      let token_id : p.token_id ≡ r.token_id =
        ground (arith, m, bytes_eq_iff p.token_id r.token_id) in
      let nonce : p.nonce ≡ r.nonce = ground (arith, m) in
      (
        k.envelope,
        k.present,
        rw (parsed p.account_id r.account_id account_id ha, sym k.present, token_id, nonce) refl,
      )

  pub lookup_token-Rebuilt :
      (json : PayloadBytes) (r : LookupTokenRequest) (app : App)
      → IsId r.account_id
      → (verify_lookup_token c verifier ca_key json r app).0 ≡ ok tt
      → Rebuilt r.signed_envelope lookup_token_request (Request.lookup_token r)
  unfolding verify_lookup_token lookup_token_request
  lookup_token-Rebuilt json r app ha h =
      let (e, app1, e1, h1) = after_ok (or_crash r.signed_envelope app) _ tt h in
      let k =
        verify_request-Checked c verifier ca_key json.lookup_token r.signed_envelope
          e.signature.signer_id _ app1 h1 in
      let m = k.matches in
      let p = k.envelope.payload in
      let account_id : p.account_id ≡ to_string r.account_id =
        ground (arith, m, bytes_eq_iff p.account_id (to_string r.account_id)) in
      let token_id : p.token_id ≡ r.token_id =
        ground (arith, m, bytes_eq_iff p.token_id r.token_id) in
      (
        k.envelope,
        k.present,
        rw (parsed p.account_id r.account_id account_id ha, token_id, sym k.present) refl,
      )
