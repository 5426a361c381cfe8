-- ===== src/Examples/Signing.antt =====
-- Alice signs with CreateSignedEnvelope (internal/crypto/signer.go), in a scheme in which a signature
-- is the message, cut or filled up to 64 bytes.
use sg_emulator.Base.{
  ℕ, zero, suc, ◌*◌, ◌+◌, ◌≡◌, refl, ap, subst, false, arith, some, [], ◌∷◌, not, length,
}
use mathlib.Core.Option.{some-injective}
use sg_emulator.Base.Bytes.{Bytes, bytes_eq, bytes_eq_refl}
use sg_emulator.Base.Dict.{lookup, insert}
use sg_emulator.Base.Int.{pos}
use sg_emulator.Base.Action.{ok, rewrap}
use sg_emulator.Errors.{payload_mismatch}
use sg_emulator.Id.{to_string, hex_encode, hex_digit}
use sg_emulator.Requests.{SignedEnvelope, BurnTokenPayload}
use sg_emulator.Account.{new_account_with_public_key}
use sg_emulator.Verify.{Crypto, verify_envelope_data, verify_request, same_text, second}
use sg_emulator.Signer.{create_signed_envelope}
use sg_emulator.Signer.Accepted.{Signs, IsNotCa, create_signed_envelope-verify_request}
use sg_emulator.Examples.Data.{two, alice, alice_id, are_bytes, coin_id}
use sg_emulator.Examples.Signed.{as_bytes, message, ca_key, verifier}

abbrev pub resize : ℕ → Bytes → Bytes
resize zero l = []
resize (suc n) [] = 0 ∷ resize n []
resize (suc n) (x ∷ l) = x ∷ resize n l

length-resize : (n : ℕ) (l : Bytes) → length (resize n l) ≡ n
length-resize zero l = refl
length-resize (suc n) [] = ap suc (length-resize n [])
length-resize (suc n) (x ∷ l) = ap suc (length-resize n l)

abbrev pub ed25519_sign : Bytes → Bytes → Bytes
ed25519_sign priv_key m = resize 64 m

abbrev pub scheme : Crypto
scheme = record {
  derive_account_id = as_bytes;
  ed25519_verify = λ key m value. bytes_eq value (resize 64 m);
  certificate_key = λ der. some der;
  chain_verifies = λ root cert time. not (bytes_eq cert []);
}

alice-IsNotCa : IsNotCa scheme verifier (to_string alice_id)
unfolding IsNotCa to_string hex_encode hex_digit bytes_eq
alice-IsNotCa key e =
    subst (λ k. bytes_eq (to_string alice_id) (hex_encode (as_bytes k)) ≡ false)
      (some-injective _ _ e) refl

pub alice-Signs : Signs scheme verifier ed25519_sign (pos 0) two alice_id message
unfolding lookup insert bytes_eq new_account_with_public_key
alice-Signs = record {
  account = alice;
  der = alice_id;
  key = alice_id;
  found = refl;
  certified = refl;
  keyed = refl;
  derived = refl;
  chained = refl;
  is_bytes = are_bytes 171 (omega arith);
  is_id = refl;
  not_ca = alice-IsNotCa;
  sized = refl;
  signature_size = λ m. length-resize 64 m;
  verifies = λ m. bytes_eq_refl (resize 64 m);
}

abbrev burn_payload : BurnTokenPayload
burn_payload = record { account_id = to_string alice_id; token_id = coin_id; nonce = 0 }

create_signed_envelope-verify_request_example :
    (e : SignedEnvelope BurnTokenPayload) × (create_signed_envelope ed25519_sign
        (λ p. p.token_id)
        burn_payload
        message
        (to_string alice_id)
        (pos 1000)
      ≡ ok e)
    × (verify_request scheme
          (verify_envelope_data scheme verifier (pos 0) (pos (1000 * second + 5)))
          ca_key
          (λ p. p.token_id)
          (some e)
          (to_string alice_id)
          (λ p. same_text p.account_id (to_string alice_id))
          two
        ≡ rewrap payload_mismatch (same_text (to_string alice_id) (to_string alice_id) two))
create_signed_envelope-verify_request_example =
    create_signed_envelope-verify_request scheme verifier ed25519_sign (pos 0) two alice_id message
      alice-Signs (λ p. p.token_id) burn_payload ca_key
      (λ p. same_text p.account_id (to_string alice_id)) 1000 5 (omega arith)
