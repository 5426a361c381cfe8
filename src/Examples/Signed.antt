-- ===== src/Examples/Signed.antt =====
-- Signed requests (internal/crypto/signer.go), and a scheme in which a certificate is its key, an
-- account is named by its key's bytes, and a signature is the message itself.
use sg_emulator.Base.{◌≡◌, refl, some, [], ◌∷◌, ◌++◌, not, ◌%◌, arith}
use sg_emulator.Base.Int.{ℤ, pos, ◌+ℤ◌, ◌-ℤ◌}
use sg_emulator.Base.Amount.{◌⊞◌, ◌⊟◌, round64, round_ℕ, nearest, excess}
use sg_emulator.Base.Action.{ok}
use sg_emulator.Base.Bytes.{Bytes, AreBytes, bytes_eq}
use sg_emulator.Base.Dict.{lookup, insert}
use sg_emulator.Id.{to_string, from_string, hex_encode, hex_digit, hex_value, hex_decode}
use sg_emulator.Token.{Signature, token_id}
use sg_emulator.Account.{new_account_with_public_key}
use sg_emulator.Requests.{TransferRequest, TokenRequest}
use sg_emulator.App.{get_account_cert_and_public_key}
use sg_emulator.Verify.{
  Crypto, PayloadBytes, Verifier, ed25519_name, verify_envelope_data, resolve_signer,
  resolve_account, verify_certificate, verify_account_id, verify_signature, verify_timestamp,
  unix_nanos, verify_request, verify_transfer, verify_clawback_token,
}
use sg_emulator.VerifyLaws.Envelope.{Authentic, verify_envelope_data-Authentic}
use sg_emulator.VerifyLaws.Payload.{
  SignedTransfer, verify_transfer-SignedTransfer, SignedClawback,
  verify_clawback_token-SignedClawback,
}
use sg_emulator.Examples.Data.{units, id_of, two, alice_id, bob_id, coin_id}

abbrev pub as_bytes : Bytes → Bytes
as_bytes [] = []
as_bytes (x ∷ xs) = x % 256 ∷ as_bytes xs

pub as_bytes-AreBytes : (xs : Bytes) → AreBytes (as_bytes xs)
as_bytes-AreBytes [] = tt
as_bytes-AreBytes (x ∷ xs) = (omega arith, as_bytes-AreBytes xs)

abbrev pub crypto : Crypto
crypto = record {
  derive_account_id = as_bytes;
  ed25519_verify = λ key message value. bytes_eq message value;
  certificate_key = λ der. some der;
  chain_verifies = λ root cert time. not (bytes_eq cert []);
}

-- Sixty-four bytes.
abbrev pub message : Bytes
message = id_of 1 ++ id_of 2 ++ id_of 3 ++ 1 ∷ 2 ∷ 3 ∷ 4 ∷ []

abbrev pub json : PayloadBytes
json = record {
  transfer = λ p. message;
  create_account = λ p. message;
  get_account = λ p. message;
  mint_token = λ p. message;
  burn_token = λ p. message;
  transfer_token = λ p. message;
  clawback_token = λ p. message;
  authorize = λ p. message;
  unauthorize = λ p. message;
  freeze = λ p. message;
  unfreeze = λ p. message;
  lookup_token = λ p. message;
  subscribe = λ p. message;
}

abbrev pub ca_key : Bytes
ca_key = id_of 200

abbrev pub verifier : Verifier
verifier = record { ca_cert = ca_key; timestamp_window = pos 300000000000 }

abbrev pub now : ℤ
now = pos 1000000000000

abbrev pub signature_of : Bytes → Signature
signature_of id = record {
  algorithm = ed25519_name;
  value = message;
  signer_id = hex_encode id;
  timestamp = pos 1000;
}

abbrev pub pay_bob : TransferRequest
pay_bob = record {
  from = alice_id;
  to = bob_id;
  amount = units 3;
  nonce = 0;
  signed_envelope = some (record {
    payload = record {
      from = to_string alice_id;
      to = to_string bob_id;
      amount = units 3;
      nonce = 0;
      timestamp = pos 1000;
    };
    signature = signature_of alice_id;
  });
}

abbrev claw_back : TokenRequest
claw_back = record {
  from = alice_id;
  to = bob_id;
  token_id = coin_id;
  nonce = 0;
  signed_envelope = some (record {
    payload = record {
      from = to_string alice_id;
      to = to_string bob_id;
      token_id = coin_id;
      nonce = 0;
    };
    signature = signature_of bob_id;
  });
}

envelope_accepted :
    (verify_envelope_data crypto verifier now now
      (hex_encode alice_id)
      message
      (signature_of alice_id)
      two).0
    ≡ ok tt
unfolding verify_envelope_data resolve_signer resolve_account verify_certificate verify_account_id
    verify_signature verify_timestamp unix_nanos get_account_cert_and_public_key from_string
    hex_decode hex_value hex_encode hex_digit bytes_eq lookup insert ◌⊞◌ ◌⊟◌ round64 round_ℕ nearest
    excess ◌+ℤ◌ ◌-ℤ◌ new_account_with_public_key
envelope_accepted = refl

pay_bob_accepted :
    (verify_transfer crypto
      (verify_envelope_data crypto verifier now now)
      ca_key
      json
      pay_bob
      two).0
    ≡ ok tt
unfolding verify_transfer verify_request to_string verify_envelope_data resolve_signer
    resolve_account verify_certificate verify_account_id verify_signature verify_timestamp
    unix_nanos get_account_cert_and_public_key from_string hex_decode hex_value hex_encode hex_digit
    bytes_eq lookup insert ◌⊞◌ ◌⊟◌ round64 round_ℕ nearest excess ◌+ℤ◌ ◌-ℤ◌
    new_account_with_public_key
pay_bob_accepted = refl

claw_back_accepted :
    (verify_clawback_token crypto
      (verify_envelope_data crypto verifier now now)
      ca_key
      json
      claw_back
      two).0
    ≡ ok tt
unfolding verify_clawback_token verify_request to_string verify_envelope_data resolve_signer
    resolve_account verify_certificate verify_account_id verify_signature verify_timestamp
    unix_nanos get_account_cert_and_public_key from_string hex_decode hex_value hex_encode hex_digit
    bytes_eq lookup insert ◌⊞◌ ◌⊟◌ round64 round_ℕ nearest excess ◌+ℤ◌ ◌-ℤ◌
    new_account_with_public_key token_id
claw_back_accepted = refl

verify_envelope_data-Authentic_example :
    Authentic crypto verifier now now message (signature_of alice_id)
verify_envelope_data-Authentic_example =
    verify_envelope_data-Authentic crypto verifier now now (hex_encode alice_id) message
      (signature_of alice_id) two envelope_accepted

verify_transfer-SignedTransfer_example :
    SignedTransfer crypto (verify_envelope_data crypto verifier now now) ca_key json pay_bob two
verify_transfer-SignedTransfer_example =
    verify_transfer-SignedTransfer crypto (verify_envelope_data crypto verifier now now) ca_key json
      pay_bob two refl pay_bob_accepted

verify_clawback_token-SignedClawback_example :
    SignedClawback crypto (verify_envelope_data crypto verifier now now) ca_key json claw_back two
verify_clawback_token-SignedClawback_example =
    verify_clawback_token-SignedClawback crypto (verify_envelope_data crypto verifier now now)
      ca_key json claw_back two refl claw_back_accepted
