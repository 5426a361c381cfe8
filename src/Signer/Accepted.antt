-- ===== src/Signer/Accepted.antt =====
-- What internal/verifier/verifier.go makes of what internal/crypto/signer.go signs.
use sg_emulator.Base.{ℕ, ◌+◌, ◌*◌, ◌≡◌, refl, ⊤, true, false, Option, none, some, arith, length}
use sg_emulator.Base.Bytes.{Bytes, AreBytes, bytes_eq, bytes_eq_refl}
use sg_emulator.Base.Dict.{lookup}
use sg_emulator.Base.Int.{ℤ, pos, ◌+ℤ◌, ◌-ℤ◌, ◌≤ℤ◌}
use sg_emulator.Base.Action.{ok, rewrap}
use sg_emulator.Errors.{payload_mismatch}
use sg_emulator.Id.{ScalegraphId, id_length, to_string, hex_encode}
use sg_emulator.Id.RoundTrip.{from_string-to_string}
use sg_emulator.Token.{Signature}
use sg_emulator.Account.{Account}
use sg_emulator.App.{App, Operation, get_account_cert_and_public_key}
use sg_emulator.Requests.{SignedEnvelope}
use sg_emulator.Verify.{
  Crypto, Verifier, verify_certificate, verify_signature, verify_timestamp, verify_account_id,
  resolve_account, resolve_ca, resolve_signer, verify_envelope_data, unix_nanos, second,
  ed25519_name, verify_request,
}
use sg_emulator.VerifyLaws.Payload.{expected_id-to_string}
use sg_emulator.Signer.{private_key_size, sign, create_signed_envelope}

-- Text that nobody signs as: the CA has no Ed25519 key, or its key has another identifier.
unfoldable pub IsNotCa : Crypto → Verifier → Bytes → Type 0
IsNotCa c v signer_id =
    (key : Bytes)
    → c.certificate_key v.ca_cert ≡ some key
    → bytes_eq signer_id (hex_encode (c.derive_account_id key)) ≡ false

-- An account of the application whose certificate stands, and a private key for it: the scheme
-- verifies its signatures of 64 bytes with the certificate's key.
pub record Signs (c : Crypto) (v : Verifier) (ed25519_sign : Bytes → Bytes → Bytes) (cert_time : ℤ)
    (app : App) (id : ScalegraphId) (priv_key : Bytes) : Type 0 where
  pub account : Account
  pub der : Bytes
  pub key : Bytes
  pub found : lookup id app.accounts ≡ some account
  pub certified : account.certificate ≡ some der
  pub keyed : c.certificate_key der ≡ some key
  pub derived : c.derive_account_id key ≡ id
  pub chained : c.chain_verifies v.ca_cert der cert_time ≡ true
  pub is_bytes : AreBytes id
  pub is_id : length id ≡ id_length
  pub not_ca : IsNotCa c v (to_string id)
  pub sized : length priv_key ≡ private_key_size
  pub signature_size : (message : Bytes) → length (ed25519_sign priv_key message) ≡ 64
  pub verifies :
      (message : Bytes) → c.ed25519_verify key message (ed25519_sign priv_key message) ≡ true

-- What Sign returns.
abbrev signature_by : (Bytes → Bytes → Bytes) → Bytes → ScalegraphId → Bytes → ℤ → Signature
signature_by ed25519_sign priv_key id message s = record {
  algorithm = ed25519_name;
  value = ed25519_sign priv_key message;
  signer_id = to_string id;
  timestamp = s;
}

module _ (c : Crypto) (v : Verifier) where
  resolve_ca_own :
      (o : Option Bytes) (s : Bytes)
      → ((key : Bytes) → o ≡ some key → bytes_eq s (hex_encode (c.derive_account_id key)) ≡ false)
      → (app : App) → resolve_ca c v o s app ≡ resolve_account c v s app
  resolve_ca_own none s h app = refl
  resolve_ca_own (some key) s h app = rw (h key refl) refl

  module _ (ed25519_sign : Bytes → Bytes → Bytes) (cert_time : ℤ) (app : App) (id : ScalegraphId)
      (priv_key : Bytes) (w : Signs c v ed25519_sign cert_time app id priv_key) where
    resolve_account_own : resolve_account c v (to_string id) app ≡ (ok (some w.der, w.key), app)
    unfolding resolve_account get_account_cert_and_public_key
    resolve_account_own =
        rw (from_string-to_string id w.is_bytes w.is_id, w.found, w.certified, w.keyed) refl

    resolve_signer_own : resolve_signer c v (to_string id) app ≡ (ok (some w.der, w.key), app)
    unfolding resolve_signer IsNotCa
    resolve_signer_own =
        rw (resolve_ca_own (c.certificate_key v.ca_cert) (to_string id) w.not_ca app)
          resolve_account_own

    verify_account_id_own :
        (sig : Signature)
        → sig.signer_id ≡ to_string id
        → verify_account_id c v sig w.key app ≡ (ok tt, app)
    unfolding verify_account_id to_string
    verify_account_id_own sig e = rw (e, w.derived, bytes_eq_refl (hex_encode id)) refl

    verify_signature_own :
        (message : Bytes) (s : ℤ)
        → verify_signature c v message (signature_by ed25519_sign priv_key id message s) w.key app
          ≡ (ok tt, app)
    unfolding verify_signature
    verify_signature_own message s =
        rw (bytes_eq_refl ed25519_name, w.signature_size message, w.verifies message) refl

    verify_certificate_own : verify_certificate c v cert_time (some w.der) app ≡ (ok tt, app)
    unfolding verify_certificate
    verify_certificate_own = rw w.chained refl

  -- A timestamp of so many seconds, read by the verifier's clock so many nanoseconds later.
  verify_timestamp_own :
      (s delay : ℕ) (sig : Signature) (app : App)
      → sig.timestamp ≡ pos s
      → pos delay ≤ℤ v.timestamp_window
      → verify_timestamp c v (pos (s * second + delay)) sig app ≡ (ok tt, app)
  unfolding verify_timestamp unix_nanos ◌+ℤ◌ ◌-ℤ◌
  verify_timestamp_own s delay sig app e h = rw e (ground (arith, h))

  module _ (ed25519_sign : Bytes → Bytes → Bytes) (cert_time : ℤ) (app : App) (id : ScalegraphId)
      (priv_key : Bytes) (w : Signs c v ed25519_sign cert_time app id priv_key) where
    verify_envelope_data_own :
        (message : Bytes) (s delay : ℕ)
        → pos delay ≤ℤ v.timestamp_window
        → verify_envelope_data c v cert_time
            (pos (s * second + delay))
            (to_string id)
            message
            (signature_by ed25519_sign priv_key id message (pos s))
            app
          ≡ (ok tt, app)
    unfolding verify_envelope_data
    verify_envelope_data_own message s delay h =
        rw
          (
            resolve_signer_own ed25519_sign cert_time app id priv_key w,
            verify_certificate_own ed25519_sign cert_time app id priv_key w,
            verify_account_id_own ed25519_sign cert_time app id priv_key w
                (signature_by ed25519_sign priv_key id message (pos s)) refl,
            verify_signature_own ed25519_sign cert_time app id priv_key w message (pos s),
          )
          (verify_timestamp_own s delay (signature_by ed25519_sign priv_key id message (pos s)) app
            refl h)

    -- CreateSignedEnvelope succeeds with the key of an account whose certificate stands, and until
    -- the time window has passed the request that carries the envelope is refused only for what it
    -- says: what is left of VerifyRequest, with this account as the signer, is the comparison of
    -- the request with the payload.
    pub create_signed_envelope-verify_request :
        {T : Type 0} (bytes_of : T → Bytes) (payload : T) (ca_key : Bytes)
        → (verify_data : T → Operation ⊤) (s delay : ℕ) → pos delay ≤ℤ v.timestamp_window
        → (e : SignedEnvelope T) × (create_signed_envelope ed25519_sign bytes_of payload priv_key
              (to_string id)
              (pos s)
            ≡ ok e)
          × (verify_request c
                (verify_envelope_data c v cert_time (pos (s * second + delay)))
                ca_key
                bytes_of
                (some e)
                (to_string id)
                verify_data
                app
              ≡ rewrap payload_mismatch (verify_data payload app))
    unfolding create_signed_envelope sign verify_request
    create_signed_envelope-verify_request bytes_of payload ca_key verify_data s delay h = (
      record {
        payload = payload;
        signature = signature_by ed25519_sign priv_key id (bytes_of payload) (pos s);
      },
      rw w.sized refl,
      rw
          (
            verify_envelope_data_own (bytes_of payload) s delay h,
            expected_id-to_string c ca_key id w.is_id,
            bytes_eq_refl (to_string id),
          )
          refl,
    )
