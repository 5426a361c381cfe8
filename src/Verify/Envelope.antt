-- ===== src/Verify/Envelope.antt =====
-- The verifier (internal/verifier/verifier.go). Times are in nanoseconds, and the two readings of
-- the clock are arguments. `now.Sub` does not saturate here.
use sg_emulator.Base.{
  ⊤, ℕ, suc, ◌*◌, ◌-◌, not, ◌==◌, Option, none, some, [], ◌∷◌, length, if◌then◌else◌,
}
use sg_emulator.Base.Bytes.{Bytes, bytes_eq}
use sg_emulator.Base.Int.{ℤ, pos, negsuc, ◌+ℤ◌, ◌-ℤ◌, ltb_ℤ}
use sg_emulator.Base.Action.{ok, ◌>>=◌, ◌>>◌, fail_if, or_fail, or_crash, wrap_error, pure}
use sg_emulator.Errors.{
  certificate_nil, certificate_verification_failed, unsupported_algorithm, invalid_signature_size,
  signature_verification_failed, timestamp_in_future, timestamp_too_old, account_id_mismatch,
  certificate_key_not_ed25519, certificate_chain_failed, signer_lookup_failed,
}
use sg_emulator.Id.{hex_encode}
use sg_emulator.Token.{Signature}
use sg_emulator.App.{Operation, parse_signer, get_account_cert_and_public_key}
use sg_emulator.Verify.External.{Crypto}

pub record Verifier : Type 0 where
  pub ca_cert : Bytes
  pub timestamp_window : ℤ

-- One second in nanoseconds.
abbrev pub second : ℕ
second = 1000000000

-- `time.Unix(t, 0)` in nanoseconds.
unfoldable pub unix_nanos : ℤ → ℤ
unix_nanos (pos n) = pos (n * second)
unix_nanos (negsuc n) = negsuc (suc n * second - 1)

abbrev pub minute : ℤ
minute = pos 60000000000

-- `DefaultTimestampWindow`, five minutes.
abbrev pub default_timestamp_window : ℤ
default_timestamp_window = pos 300000000000

unfoldable pub new_verifier : Bytes → Verifier
new_verifier ca_cert = record { ca_cert = ca_cert; timestamp_window = default_timestamp_window }

-- "Ed25519"
abbrev pub ed25519_name : Bytes
ed25519_name = b'E' ∷ b'd' ∷ b'2' ∷ b'5' ∷ b'5' ∷ b'1' ∷ b'9' ∷ []

module _ (c : Crypto) (v : Verifier) where
  unfoldable pub verify_certificate : ℤ → Option Bytes → Operation ⊤
  verify_certificate now cert = do
    der ← or_fail cert certificate_nil
    fail_if (not (c.chain_verifies v.ca_cert der now)) certificate_verification_failed

  unfoldable pub verify_signature : Bytes → Signature → Bytes → Operation ⊤
  verify_signature message sig key = do
    fail_if (not (bytes_eq sig.algorithm ed25519_name)) unsupported_algorithm
    fail_if (not (length sig.value == 64)) invalid_signature_size
    fail_if (not (c.ed25519_verify key message sig.value)) signature_verification_failed

  unfoldable pub verify_timestamp : ℤ → Signature → Operation ⊤
  verify_timestamp now sig = do
    fail_if (ltb_ℤ (now +ℤ minute) (unix_nanos sig.timestamp)) timestamp_in_future
    fail_if (ltb_ℤ v.timestamp_window (now -ℤ unix_nanos sig.timestamp)) timestamp_too_old

  unfoldable pub verify_account_id : Signature → Bytes → Operation ⊤
  verify_account_id sig key =
      fail_if (not (bytes_eq sig.signer_id (hex_encode (c.derive_account_id key))))
        account_id_mismatch

  -- The account's certificate, which is dereferenced for its key.
  unfoldable pub resolve_account : Bytes → Operation (Option Bytes × Bytes)
  resolve_account signer_id = do
    id ← parse_signer signer_id
    (cert, stored) ← wrap_error signer_lookup_failed (get_account_cert_and_public_key id)
    der ← or_crash cert
    key ← or_fail (c.certificate_key der) certificate_key_not_ed25519
    pure (cert, key)

  abbrev pub resolve_ca : Option Bytes → Bytes → Operation (Option Bytes × Bytes)
  resolve_ca none signer_id app = resolve_account signer_id app
  resolve_ca (some key) signer_id app =
      if bytes_eq signer_id (hex_encode (c.derive_account_id key))
      then (ok (some v.ca_cert, key), app)
      else resolve_account signer_id app

  -- `resolveSigner`
  unfoldable pub resolve_signer : Bytes → Operation (Option Bytes × Bytes)
  resolve_signer signer_id = resolve_ca (c.certificate_key v.ca_cert) signer_id

  -- `VerifyEnvelopeData`, with the times at which the certificate and the timestamp are checked.
  unfoldable pub verify_envelope_data : ℤ → ℤ → Bytes → Bytes → Signature → Operation ⊤
  verify_envelope_data cert_time now signer_id message sig = do
    (cert, key) ← resolve_signer signer_id
    wrap_error certificate_chain_failed (verify_certificate cert_time cert)
    verify_account_id sig key
    verify_signature message sig key
    verify_timestamp now sig
