-- ===== src/Examples/Sent.antt =====
-- Alice pays Bob, and subscribes to her events, over ConnectRPC (internal/transport/connect/connect.go).
use sg_emulator.Requests.{SubscribePayload}
use sg_emulator.Events.{topic_of}
use sg_emulator.Base.Amount.{◌⊞◌, ◌⊟◌, round64, round_ℕ, nearest, excess}
use sg_emulator.Base.{[], ◌∷◌, ◌≡◌, refl, some, none}
use sg_emulator.Base.Bytes.{bytes_eq}
use sg_emulator.Base.Dict.{lookup, insert}
use sg_emulator.Base.Int.{pos, ◌+ℤ◌, ◌-ℤ◌}
use sg_emulator.Id.{to_string, from_string, hex_encode, hex_digit, hex_value, hex_decode}
use sg_emulator.Account.{
  new_account_with_public_key, get_nonce, append_transaction, handle, handle_transfer,
}
use sg_emulator.App.{get_account_cert_and_public_key, transfer, on_account}
use sg_emulator.Verify.{
  ed25519_name, verify_envelope_data, resolve_signer, resolve_account, verify_certificate,
  verify_account_id, verify_signature, verify_timestamp, unix_nanos, verify_request,
  verify_transfer, verify_subscribe_events,
}
use sg_emulator.Server.{verify, handler, handle_request}
use sg_emulator.Client.{send, send_request, transfer_signed, transfer_request}
use sg_emulator.Rest.OwnAccount.{deliver}
use sg_emulator.Connect.{
  Base64, EnvelopeMessage, TransferMessage, to_uint64, Answer, convert_signature,
  convert_transfer_payload, convert_envelope, connect_transfer,
}
use sg_emulator.Connect.Subscribe.{
  Admission, Subscribed, subscribe, is_active, subscribe-Subscribed,
}
use sg_emulator.Connect.EndToEnd.{Performed, connect_transfer-Performed}
use sg_emulator.Examples.Data.{units, two, two-AllSound, alice_id, bob_id}
use sg_emulator.Examples.Signed.{message}
use sg_emulator.Examples.Servers.{env, draw}

-- An encoding in which a text stands for itself.
abbrev plain : Base64
plain = record { std_decode = λ b. some b; url_decode = λ b. none }

abbrev pay_message : EnvelopeMessage TransferMessage
pay_message = record {
  payload = record {
    from = to_string alice_id;
    to = to_string bob_id;
    amount = units 3;
    nonce = pos 0;
    timestamp = pos 1000;
  };
  signature = record {
    algorithm = ed25519_name;
    value = message;
    signer_id = hex_encode alice_id;
    timestamp = pos 1000;
  };
}

pay_succeeds : connect_transfer plain (deliver env draw two) pay_message ≡ Answer.successful tt
unfolding connect_transfer convert_envelope convert_signature convert_transfer_payload to_uint64
    transfer_signed transfer_request send send_request handle_request verify handler transfer
    on_account get_nonce append_transaction handle handle_transfer verify_transfer verify_request
    to_string verify_envelope_data resolve_signer resolve_account verify_certificate
    verify_account_id verify_signature verify_timestamp unix_nanos get_account_cert_and_public_key
    from_string hex_decode hex_value hex_encode hex_digit bytes_eq lookup insert ◌⊞◌ ◌⊟◌ round64
    round_ℕ nearest excess ◌+ℤ◌ ◌-ℤ◌ new_account_with_public_key
pay_succeeds = refl

connect_transfer-Performed_example : Performed plain env draw two two-AllSound pay_message
connect_transfer-Performed_example =
    connect_transfer-Performed plain env draw two two-AllSound pay_message pay_succeeds

abbrev listen_message : EnvelopeMessage SubscribePayload
listen_message = record {
  payload = record { account_id = to_string alice_id; event_types = [] };
  signature = record {
    algorithm = ed25519_name;
    value = message;
    signer_id = hex_encode alice_id;
    timestamp = pos 1000;
  };
}

-- Bob is subscribed already.
listen_admitted :
    (subscribe plain env draw two (to_string bob_id ∷ []) listen_message).0
    ≡ Admission.admitted (topic_of (to_string alice_id))
unfolding subscribe is_active convert_envelope convert_signature verify_subscribe_events
    verify_request to_string verify_envelope_data resolve_signer resolve_account verify_certificate
    verify_account_id verify_signature verify_timestamp unix_nanos get_account_cert_and_public_key
    from_string hex_decode hex_value hex_encode hex_digit bytes_eq lookup insert ◌⊞◌ ◌⊟◌ round64
    round_ℕ nearest excess ◌+ℤ◌ ◌-ℤ◌ new_account_with_public_key
listen_admitted = refl

subscribe-Subscribed_example :
    Subscribed plain env draw two
      (to_string bob_id ∷ [])
      (topic_of (to_string alice_id))
      (subscribe plain env draw two (to_string bob_id ∷ []) listen_message)
subscribe-Subscribed_example =
    subscribe-Subscribed plain env draw two (to_string bob_id ∷ []) listen_message
      (topic_of (to_string alice_id)) listen_admitted
