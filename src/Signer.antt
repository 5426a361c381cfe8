-- ===== src/Signer.antt =====
-- Signing (internal/crypto/signer.go): Sign, SignWithTimestamp and CreateSignedEnvelope. The
-- signature scheme and the JSON text of a payload are arguments; times are in seconds.
pub mod Accepted
use sg_emulator.Base.{ℕ, ◌==◌, length, if◌then◌else◌}
use sg_emulator.Base.Bytes.{Bytes}
use sg_emulator.Base.Int.{ℤ}
use sg_emulator.Base.Action.{Result, ok, err, panic}
use sg_emulator.Errors.{Error, invalid_private_key_size, failed_to_sign}
use sg_emulator.Token.{Signature}
use sg_emulator.Requests.{SignedEnvelope}
use sg_emulator.Verify.{ed25519_name}

-- `ed25519.PrivateKeySize`
abbrev pub private_key_size : ℕ
private_key_size = 64

abbrev envelope_of : {T : Type 0} → T → Result Error Signature → Result Error (SignedEnvelope T)
envelope_of payload (ok sig) = ok (record { payload = payload; signature = sig })
envelope_of payload (err e) = err (failed_to_sign e)
envelope_of payload panic = panic

-- `ed25519.Sign(key, message)`
module _ (ed25519_sign : Bytes → Bytes → Bytes) where
  unfoldable pub sign_with_timestamp : Bytes → Bytes → Bytes → ℤ → Result Error Signature
  sign_with_timestamp message priv_key signer_id timestamp =
      if length priv_key == private_key_size
      then ok (record {
        algorithm = ed25519_name;
        value = ed25519_sign priv_key message;
        signer_id = signer_id;
        timestamp = timestamp;
      })
      else err invalid_private_key_size

  -- `now` is the reading of the clock.
  unfoldable pub sign : Bytes → Bytes → Bytes → (now : ℤ) → Result Error Signature
  sign message priv_key signer_id now =
      if length priv_key == private_key_size
      then ok (record {
        algorithm = ed25519_name;
        value = ed25519_sign priv_key message;
        signer_id = signer_id;
        timestamp = now;
      })
      else err invalid_private_key_size

  -- The certificate is not used.
  unfoldable pub create_signed_envelope :
      {T : Type 0} → (T → Bytes) → T → Bytes → Bytes → ℤ → Result Error (SignedEnvelope T)
  create_signed_envelope bytes_of payload priv_key signer_id now =
      envelope_of payload (sign (bytes_of payload) priv_key signer_id now)
