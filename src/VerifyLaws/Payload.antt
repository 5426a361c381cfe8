-- ===== src/VerifyLaws/Payload.antt =====
-- What VerifyRequest (internal/crypto/verifiable.go) and the Verify methods of
-- internal/scalegraph/requests.go have established when they accept.
use sg_emulator.Base.{
  ⊤, ◌≡◌, refl, sym, subst, ap, ◌∙◌, Bool, true, false, not, Option, none, some, [], ◌∷◌, arith,
  length,
}
use sg_emulator.Base.Bytes.{Bytes, bytes_eq, bytes_eq_iff}
use sg_emulator.Base.Int.{eqb_ℤ_iff}
use sg_emulator.Base.Action.{Result, ok, err, panic, rewrap, wrap_error, fail_if, ◌>>◌, or_crash}
use sg_emulator.Errors.{Error, invalid_signature, signer_mismatch, payload_mismatch}
use sg_emulator.Id.{ScalegraphId, id_length, hex_encode, to_string}
use sg_emulator.Requests.{
  SignedEnvelope, TransferPayload, TransferRequest, TokenPayload, TokenRequest, MintTokenPayload,
  MintTokenRequest,
}
use sg_emulator.App.{App, Operation}
use sg_emulator.Verify.{
  Crypto, SignatureVerifier, PayloadBytes, expected_id, verify_request, verify_transfer,
  verify_clawback_token, verify_mint_token, same_address,
}
use sg_emulator.VerifyLaws.Envelope.{after_ok}

rewrap_ok : (w : Error → Error) (r : Result Error ⊤ × App) → (rewrap w r).0 ≡ ok tt → r.0 ≡ ok tt
rewrap_ok w (ok u, app) h = h
rewrap_ok w (err e, app) h = cc
rewrap_ok w (panic, app) h = cc

fail_if_ok : (b : Bool) (e : Error) (app : App) → (fail_if b e app).0 ≡ ok tt → b ≡ false
fail_if_ok true e app h = cc
fail_if_ok false e app h = refl

or_crash_state :
    {A : Type 0} (o : Option A) (app : App) (a : A) (app1 : App)
    → or_crash {E = Error} o app ≡ (ok a, app1)
    → app ≡ app1
or_crash_state none app a app1 h = cc
or_crash_state (some x) app a app1 h = ap (λ p. p.1) h

pub expected_id-to_string :
    (c : Crypto) (ca_key : Bytes) (id : ScalegraphId)
    → length id ≡ id_length
    → expected_id c ca_key (to_string id) ≡ to_string id
unfolding to_string hex_encode
expected_id-to_string c ca_key [] h = absurd (omega arith)
expected_id-to_string c ca_key (x ∷ xs) h = refl

module _ {T : Type 0} (c : Crypto) (verifier : SignatureVerifier) (ca_key : Bytes)
    (bytes_of : T → Bytes) where
  -- A request's envelope has been checked in full.
  pub record Checked (o : Option (SignedEnvelope T)) (expected : Bytes)
      (verify_data : T → Operation ⊤) (app : App) : Type 0 where
    pub envelope : SignedEnvelope T
    pub present : o ≡ some envelope
    pub verified :
        (verifier envelope.signature.signer_id (bytes_of envelope.payload) envelope.signature app).0
        ≡ ok tt
    pub signer : envelope.signature.signer_id ≡ expected_id c ca_key expected
    pub checked_in : App
    pub matches : (verify_data envelope.payload checked_in).0 ≡ ok tt

  envelope-Checked :
      (o : Option (SignedEnvelope T)) (e : SignedEnvelope T) (expected : Bytes)
      (verify_data : T → Operation ⊤) (app : App)
      → o ≡ some e
      → ((do
        wrap_error invalid_signature
            (verifier e.signature.signer_id (bytes_of e.payload) e.signature)
        fail_if
            (not (bytes_eq e.signature.signer_id (expected_id c ca_key expected)))
            signer_mismatch
        wrap_error payload_mismatch (verify_data e.payload))
          app).0
        ≡ ok tt
      → Checked o expected verify_data app
  envelope-Checked o e expected verify_data app is h =
      let check = verifier e.signature.signer_id (bytes_of e.payload) e.signature in
      let (u1, app1, e1, h1) = after_ok (wrap_error invalid_signature check app) _ tt h in
      let same = bytes_eq e.signature.signer_id (expected_id c ca_key expected) in
      let (u2, app2, e2, h2) = after_ok (fail_if (not same) signer_mismatch app1) _ tt h1 in
      let agree = fail_if_ok (not same) signer_mismatch app1 (ap (λ p. p.0) e2) in
      record {
        envelope = e;
        present = is;
        verified = rewrap_ok invalid_signature (check app) (ap (λ p. p.0) e1);
        signer =
            ground
              (arith, agree, bytes_eq_iff e.signature.signer_id (expected_id c ca_key expected));
        checked_in = app2;
        matches = rewrap_ok payload_mismatch (verify_data e.payload app2) h2;
      }

  pub verify_request-Checked :
      (o : Option (SignedEnvelope T)) (expected : Bytes) (verify_data : T → Operation ⊤) (app : App)
      → (verify_request c verifier ca_key bytes_of o expected verify_data app).0 ≡ ok tt
      → Checked o expected verify_data app
  unfolding verify_request
  verify_request-Checked none expected verify_data app h = cc
  verify_request-Checked (some e) expected verify_data app h =
      envelope-Checked (some e) e expected verify_data app refl h

module _ (c : Crypto) (verifier : SignatureVerifier) (ca_key : Bytes) (json : PayloadBytes) where
  -- The envelope of a transfer: the verifier has accepted the signature over its payload, the
  -- signer is the payer, and the payload names what the request names.
  pub record SignedTransfer (r : TransferRequest) (app : App) : Type 0 where
    pub envelope : SignedEnvelope TransferPayload
    pub present : r.signed_envelope ≡ some envelope
    pub verified :
        (verifier envelope.signature.signer_id
          (json.transfer envelope.payload)
          envelope.signature
          app).0
        ≡ ok tt
    pub signer : envelope.signature.signer_id ≡ to_string r.from
    pub from : envelope.payload.from ≡ to_string r.from
    pub to : envelope.payload.to ≡ to_string r.to
    pub amount : envelope.payload.amount ≡ r.amount
    pub nonce : envelope.payload.nonce ≡ r.nonce

  -- If `Verify` accepts a transfer whose payer is named by 20 bytes, then there is an envelope, the
  -- verifier has accepted its signature over its payload, the signer is the payer, and the payload
  -- names the payer, the payee, the amount and the nonce of the request.
  pub verify_transfer-SignedTransfer :
      (r : TransferRequest) (app : App)
      → length r.from ≡ id_length
      → (verify_transfer c verifier ca_key json r app).0 ≡ ok tt
      → SignedTransfer r app
  unfolding verify_transfer
  verify_transfer-SignedTransfer r app l h =
      let k =
        verify_request-Checked c verifier ca_key json.transfer r.signed_envelope (to_string r.from)
          _ app h in
      let m = k.matches in
      let p = k.envelope.payload in
      record {
        envelope = k.envelope;
        present = k.present;
        verified = k.verified;
        signer = k.signer ∙ expected_id-to_string c ca_key r.from l;
        from = ground (arith, m, bytes_eq_iff p.from (to_string r.from));
        to = ground (arith, m, bytes_eq_iff p.to (to_string r.to));
        amount = ground (arith, m, eqb_ℤ_iff p.amount r.amount);
        nonce = ground (arith, m);
      }

  -- The envelope of a clawback: the signer is the account that takes the token.
  pub record SignedClawback (r : TokenRequest) (app : App) : Type 0 where
    pub envelope : SignedEnvelope TokenPayload
    pub present : r.signed_envelope ≡ some envelope
    pub verified :
        (verifier envelope.signature.signer_id
          (json.clawback_token envelope.payload)
          envelope.signature
          app).0
        ≡ ok tt
    pub signer : envelope.signature.signer_id ≡ to_string r.to
    pub token_id : envelope.payload.token_id ≡ r.token_id
    pub from : envelope.payload.from ≡ to_string r.from
    pub to : envelope.payload.to ≡ to_string r.to
    pub nonce : envelope.payload.nonce ≡ r.nonce

  -- If `Verify` accepts a clawback whose receiver is named by 20 bytes, then there is an envelope, the
  -- verifier has accepted its signature, the signer is the receiver, and the payload names the
  -- token, the two accounts and the nonce of the request.
  pub verify_clawback_token-SignedClawback :
      (r : TokenRequest) (app : App)
      → length r.to ≡ id_length
      → (verify_clawback_token c verifier ca_key json r app).0 ≡ ok tt
      → SignedClawback r app
  unfolding verify_clawback_token
  verify_clawback_token-SignedClawback r app l h =
      let k =
        verify_request-Checked c verifier ca_key json.clawback_token r.signed_envelope
          (to_string r.to) _ app h in
      let m = k.matches in
      let p = k.envelope.payload in
      record {
        envelope = k.envelope;
        present = k.present;
        verified = k.verified;
        signer = k.signer ∙ expected_id-to_string c ca_key r.to l;
        token_id = ground (arith, m, bytes_eq_iff p.token_id r.token_id);
        from = ground (arith, m, bytes_eq_iff p.from (to_string r.from));
        to = ground (arith, m, bytes_eq_iff p.to (to_string r.to));
        nonce = ground (arith, m);
      }

  -- The envelope of a new token: whoever has signed it, its payload names the value, the nonce and
  -- the two addresses of the request.
  pub record SignedMintToken (r : MintTokenRequest) (app : App) : Type 0 where
    pub envelope : SignedEnvelope MintTokenPayload
    pub present : r.signed_envelope ≡ some envelope
    pub verified :
        (verifier envelope.signature.signer_id
          (json.mint_token envelope.payload)
          envelope.signature
          app).0
        ≡ ok tt
    pub token_value : envelope.payload.token_value ≡ r.token_value
    pub nonce : envelope.payload.nonce ≡ r.nonce
    pub freeze_address : same_address r.freeze_address envelope.payload.freeze_address ≡ true
    pub clawback_address : same_address r.clawback_address envelope.payload.clawback_address ≡ true

  -- If `Verify` accepts a request for a new token, then there is an envelope, the verifier has
  -- accepted its signature, and its payload agrees with the request in the value, the nonce, the
  -- freeze address and the clawback address.
  pub verify_mint_token-SignedMintToken :
      (r : MintTokenRequest) (app : App)
      → (verify_mint_token c verifier ca_key json r app).0 ≡ ok tt
      → SignedMintToken r app
  unfolding verify_mint_token
  verify_mint_token-SignedMintToken r app h =
      let (e, app1, e1, h1) = after_ok (or_crash r.signed_envelope app) _ tt h in
      let k =
        verify_request-Checked c verifier ca_key json.mint_token r.signed_envelope
          e.signature.signer_id _ app1 h1 in
      let m = k.matches in
      let p = k.envelope.payload in
      record {
        envelope = k.envelope;
        present = k.present;
        verified =
            subst
              (λ x.
                (verifier k.envelope.signature.signer_id (json.mint_token p) k.envelope.signature
                  x).0
                ≡ ok tt)
              (sym (or_crash_state r.signed_envelope app e app1 e1)) k.verified;
        token_value = ground (arith, m, bytes_eq_iff p.token_value r.token_value);
        nonce = ground (arith, m, eqb_ℤ_iff p.nonce r.nonce);
        freeze_address = ground (arith, m);
        clawback_address = ground (arith, m);
      }
