-- ===== src/Examples/Paid.antt =====
-- Alice pays Bob at a terminal (internal/tui) that is connected to the server.
use sg_emulator.Base.Amount.{◌⊞◌, ◌⊟◌, round64, round_ℕ, nearest, excess}
use sg_emulator.Base.{◌≡◌, refl, [], ◌∷◌, some, arith}
use sg_emulator.Base.Bytes.{bytes_eq}
use sg_emulator.Base.Dict.{lookup, insert}
use sg_emulator.Base.Int.{◌+ℤ◌, ◌-ℤ◌}
use sg_emulator.Id.{to_string, from_string, hex_encode, hex_digit, hex_value, hex_decode}
use sg_emulator.Account.{
  new_account_with_public_key, get_nonce, append_transaction, handle, handle_transfer,
}
use sg_emulator.App.{get_account_cert_and_public_key, transfer, on_account}
use sg_emulator.App
use sg_emulator.Verify.{
  verify_envelope_data, resolve_signer, resolve_account, verify_certificate, verify_account_id,
  verify_signature, verify_timestamp, unix_nanos, verify_request, verify_transfer,
}
use sg_emulator.Server.{verify, handler, handle_request}
use sg_emulator.Client.{send, send_request, transfer_signed, transfer_request, get_accounts}
use sg_emulator.Rest.OwnAccount.{deliver}
use sg_emulator.Signer.{sign, create_signed_envelope}
use sg_emulator.Tui.State.{World, Model, View, new_model}
use sg_emulator.Tui.Moves.{at, sort_slice, insert_by, text_less}
use sg_emulator.Tui.Effects.{refresh_accounts, get_credentials, send_signed, perform}
use sg_emulator.Tui.Send.{send_payment}
use sg_emulator.Tui.Payment.{Paid, SaysComplete, send_payment-Paid}
use sg_emulator.Examples.Data.{units, two, two-AllSound, alice_id, bob_id, are_bytes}
use sg_emulator.Examples.Servers.{env, draw}
use sg_emulator.Examples.Terminal.{pair}

abbrev connected : World
connected = record pair { deliver = deliver env draw two }

abbrev confirming : Model
confirming = record new_model {
  view = View.send_money;
  cached_accounts = alice_id ∷ bob_id ∷ [];
  send_step = 2;
  send_to_index = 1;
}

payment_completes : SaysComplete (send_payment connected confirming (some (units 3)))
unfolding SaysComplete send_payment new_model at perform get_credentials send_signed sign
    create_signed_envelope refresh_accounts sort_slice insert_by text_less get_accounts
    App.get_accounts transfer_signed transfer_request send send_request handle_request verify
    handler transfer on_account get_nonce append_transaction handle handle_transfer verify_transfer
    verify_request to_string verify_envelope_data resolve_signer resolve_account verify_certificate
    verify_account_id verify_signature verify_timestamp unix_nanos get_account_cert_and_public_key
    from_string hex_decode hex_value hex_encode hex_digit bytes_eq lookup insert ◌⊞◌ ◌⊟◌ round64
    round_ℕ nearest excess ◌+ℤ◌ ◌-ℤ◌ new_account_with_public_key
payment_completes = refl

alice_picked : at confirming.cached_accounts confirming.send_from_index ≡ some alice_id
unfolding at new_model
alice_picked = refl

bob_picked : at confirming.cached_accounts confirming.send_to_index ≡ some bob_id
unfolding at
bob_picked = refl

send_payment-Paid_example :
    Paid env draw two two-AllSound alice_id bob_id
      (units 3)
      (get_nonce (connected.account alice_id))
send_payment-Paid_example =
    send_payment-Paid connected env draw two two-AllSound (λ r. refl) confirming (units 3) alice_id
      bob_id alice_picked bob_picked (are_bytes 171 (omega arith)) refl (are_bytes 7 (omega arith))
      refl payment_completes
