-- ===== src/Examples/Shown.antt =====
-- Alice reads her account over REST (internal/transport/rest/rest.go).
use sg_emulator.Base.Amount.{◌⊞◌, ◌⊟◌, round64, round_ℕ, nearest, excess}
use sg_emulator.Base.{◌≡◌, refl, some}
use sg_emulator.Base.Int.{◌+ℤ◌, ◌-ℤ◌}
use sg_emulator.Base.Bytes.{bytes_eq}
use sg_emulator.Base.Dict.{lookup, insert}
use sg_emulator.Id.{to_string, from_string, hex_encode, hex_digit, hex_value, hex_decode}
use sg_emulator.Account.{new_account_with_public_key}
use sg_emulator.App
use sg_emulator.App.{get_account_cert_and_public_key}
use sg_emulator.Requests.{SignedEnvelope, GetAccountPayload}
use sg_emulator.Verify.{
  verify_envelope_data, resolve_signer, resolve_account, verify_certificate, verify_account_id,
  verify_signature, verify_timestamp, unix_nanos, verify_request, verify_get_account,
}
use sg_emulator.Server.{verify, handler, handle_request}
use sg_emulator.Client
use sg_emulator.Client.{send, send_request}
use sg_emulator.Rest.{respond, handle_get_my_account}
use sg_emulator.Rest.OwnAccount.{deliver, Shown, handle_get_my_account-Shown}
use sg_emulator.Examples.Data.{two, alice_id}
use sg_emulator.Examples.Signed.{signature_of}
use sg_emulator.Examples.Servers.{env, draw}

abbrev my_account : SignedEnvelope GetAccountPayload
my_account = record {
  payload = record { account_id = to_string alice_id };
  signature = signature_of alice_id;
}

is_shown : (handle_get_my_account (deliver env draw two) (some (some my_account))).status ≡ 200
unfolding handle_get_my_account respond Client.get_account send send_request handle_request verify
    handler App.get_account verify_get_account verify_request to_string verify_envelope_data
    resolve_signer resolve_account verify_certificate verify_account_id verify_signature
    verify_timestamp unix_nanos get_account_cert_and_public_key from_string hex_decode hex_value
    hex_encode hex_digit bytes_eq lookup insert ◌⊞◌ ◌⊟◌ round64 round_ℕ nearest excess ◌+ℤ◌ ◌-ℤ◌
    new_account_with_public_key
is_shown = refl

handle_get_my_account-Shown_example :
    Shown env draw two
      (some (some my_account))
      (handle_get_my_account (deliver env draw two) (some (some my_account)))
handle_get_my_account-Shown_example =
    handle_get_my_account-Shown env draw two (some (some my_account)) is_shown
