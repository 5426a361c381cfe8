-- ===== src/VerifyLaws/Envelope.antt =====
-- What VerifyEnvelopeData (internal/verifier/verifier.go) has established when it accepts.
use sg_emulator.Base.{◌≡◌, refl, inl, inr, Bool-cases, ap, true, Option, none, some, arith, length}
use sg_emulator.Base.Bytes.{Bytes, bytes_eq, bytes_eq_iff}
use sg_emulator.Base.Int.{ℤ, ◌+ℤ◌, ◌-ℤ◌, ◌≤ℤ◌}
use sg_emulator.Base.Action.{
  Result, ok, err, panic, after, ◌>>=◌, ◌>>◌, wrap_error, pure, or_fail, or_crash,
}
use sg_emulator.Errors.{
  Error, certificate_chain_failed, certificate_key_not_ed25519, signer_lookup_failed,
}
use sg_emulator.Id.{hex_encode}
use sg_emulator.Token.{Signature}
use sg_emulator.App.{App, Operation, parse_signer, get_account_cert_and_public_key}
use sg_emulator.Verify.{
  Crypto, Verifier, verify_certificate, verify_signature, verify_timestamp, verify_account_id,
  resolve_account, resolve_ca, resolve_signer, verify_envelope_data, unix_nanos, minute,
  ed25519_name,
}

-- A successful sequence of two steps: the first succeeded, and the second on what it left.
pub after_ok :
    {A B : Type 0} (r : Result Error A × App) (f : A → Operation B) (b : B)
    → (after r f).0 ≡ ok b
    → (a : A) × (app : App) × (r ≡ (ok a, app)) × ((f a app).0 ≡ ok b)
after_ok (ok a, app) f b h = (a, app, refl, h)
after_ok (err e, app) f b h = cc
after_ok (panic, app) f b h = cc

module _ (c : Crypto) (v : Verifier) where
  -- The key that is resolved is the one in the certificate that is resolved with it.
  abbrev Holds : Option Bytes × Bytes → Type 0
  Holds (cert, key) = (der : Bytes) × (cert ≡ some der) × (c.certificate_key der ≡ some key)

  key-Holds :
      (der : Bytes) (o : Option Bytes) (app : App) (r : Option Bytes × Bytes)
      → c.certificate_key der ≡ o
      → (after (or_fail o certificate_key_not_ed25519 app) (λ key. pure (some der, key))).0 ≡ ok r
      → Holds r
  key-Holds der none app r e h = cc
  key-Holds der (some key) app r e h = (der, ground arith, ground (arith, e))

  certificate-Holds :
      (cert : Option Bytes) (app : App) (r : Option Bytes × Bytes)
      → ((do
        der ← or_crash cert
        key ← or_fail (c.certificate_key der) certificate_key_not_ed25519
        pure (cert, key))
          app).0
        ≡ ok r
      → Holds r
  certificate-Holds none app r h = cc
  certificate-Holds (some der) app r h = key-Holds der (c.certificate_key der) app r refl h

  resolve_account-Holds :
      (s : Bytes) (app : App) (r : Option Bytes × Bytes)
      → (resolve_account c v s app).0 ≡ ok r
      → Holds r
  unfolding resolve_account
  resolve_account-Holds s app r h =
      let (id, app1, e1, h1) = after_ok (parse_signer s app) _ r h in
      let (found, app2, e2, h2) =
        after_ok (wrap_error signer_lookup_failed (get_account_cert_and_public_key id) app1) _ r
          h1 in
      certificate-Holds found.0 app2 r h2

  resolve_ca-Holds :
      (o : Option Bytes) (s : Bytes) (app : App) (r : Option Bytes × Bytes)
      → c.certificate_key v.ca_cert ≡ o
      → (resolve_ca c v o s app).0 ≡ ok r
      → Holds r
  resolve_ca-Holds none s app r e h = resolve_account-Holds s app r h
  resolve_ca-Holds (some key) s app r e h =
      elim (Bool-cases (bytes_eq s (hex_encode (c.derive_account_id key)))) [
        | inl same ↦ (v.ca_cert, ground (arith, h), ground (arith, h, e))
        | inr differ ↦ resolve_account-Holds s app r (ground (arith, h))
      ]

  -- What is certain of an accepted signature over a message.
  pub record Authentic (cert_time now : ℤ) (message : Bytes) (sig : Signature) : Type 0 where
    pub der : Bytes
    pub key : Bytes
    pub trusted : c.chain_verifies v.ca_cert der cert_time ≡ true
    pub certified : c.certificate_key der ≡ some key
    pub derived : sig.signer_id ≡ hex_encode (c.derive_account_id key)
    pub signed : c.ed25519_verify key message sig.value ≡ true
    pub algorithm : sig.algorithm ≡ ed25519_name
    pub size : length sig.value ≡ 64
    pub not_future : unix_nanos sig.timestamp ≤ℤ now +ℤ minute
    pub not_old : now -ℤ unix_nanos sig.timestamp ≤ℤ v.timestamp_window

  checks-Authentic :
      (cert_time now : ℤ) (message : Bytes) (sig : Signature) (der key : Bytes) (app : App)
      → c.certificate_key der ≡ some key
      → ((do
        wrap_error certificate_chain_failed (verify_certificate c v cert_time (some der))
        verify_account_id c v sig key
        verify_signature c v message sig key
        verify_timestamp c v now sig)
          app).0
        ≡ ok tt
      → Authentic cert_time now message sig
  unfolding verify_certificate verify_account_id verify_signature verify_timestamp
  checks-Authentic cert_time now message sig der key app e h = record {
    der = der;
    key = key;
    trusted = ground arith;
    certified = e;
    derived = ground (arith, bytes_eq_iff sig.signer_id (hex_encode (c.derive_account_id key)));
    signed = ground arith;
    algorithm = ground (arith, bytes_eq_iff sig.algorithm ed25519_name);
    size = ground arith;
    not_future = ground arith;
    not_old = ground arith;
  }

  -- An accepted signature: it was made, over exactly this message, with a key that a certificate
  -- holds which the CA's root verifies; the signer's identifier is derived from this key; and the
  -- timestamp is at most a minute ahead and no older than the window.
  pub verify_envelope_data-Authentic :
      (cert_time now : ℤ) (signer_id message : Bytes) (sig : Signature) (app : App)
      → (verify_envelope_data c v cert_time now signer_id message sig app).0 ≡ ok tt
      → Authentic cert_time now message sig
  unfolding verify_envelope_data resolve_signer
  verify_envelope_data-Authentic cert_time now signer_id message sig app h =
      let (r, app1, e1, h1) = after_ok (resolve_signer c v signer_id app) _ tt h in
      let (der, is_der, certified) =
        resolve_ca-Holds (c.certificate_key v.ca_cert) signer_id app r refl (ap (λ p. p.0) e1) in
      checks-Authentic cert_time now message sig der r.1 app1 certified (rw is_der at h1)
