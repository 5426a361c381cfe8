-- ===== src/Examples/Servers.antt =====
-- The server (internal/server/server.go) with Alice and Bob, and a signed transfer between them.
use sg_emulator.Base.Amount.{◌⊞◌, ◌⊟◌, round64, round_ℕ, nearest, excess}
use mathlib.Core.Option.{some-injective}
use sg_emulator.Base.{◌≡◌, refl, sym, subst, ◌∙◌, none, some, [], ◌∷◌}
use sg_emulator.Base.Int.{◌+ℤ◌, ◌-ℤ◌}
use sg_emulator.Base.Action.{ok}
use sg_emulator.Base.Bytes.{bytes_eq}
use sg_emulator.Base.Dict.{lookup, insert}
use sg_emulator.Id.{to_string, from_string, hex_encode, hex_digit, hex_value, hex_decode}
use sg_emulator.Account.{
  Account, new_account_with_public_key, get_nonce, append_transaction, handle, handle_transfer,
}
use sg_emulator.App.{App, get_account_cert_and_public_key, transfer, on_account}
use sg_emulator.Verify.{
  verify_envelope_data, resolve_signer, resolve_account, verify_certificate, verify_account_id,
  verify_signature, verify_timestamp, unix_nanos, verify_request, verify_transfer,
}
use sg_emulator.Server.{Request, Response, Environment, Draw, verify, handler, handle_request, run}
use sg_emulator.AppLaws.Sound.{AllSound}
use sg_emulator.AppLaws.Total.{total, RoundsNothing}
use sg_emulator.ServerLaws.Money.{total-handle_request}
use sg_emulator.ServerLaws.History.{run-AllSound, run-AllKeyed}
use sg_emulator.ServerLaws.Frame.{ledger_of, lookup-handle_request}
use sg_emulator.AppLaws.Keyed.{AllKeyed}
use sg_emulator.ServerLaws.Settled.{Settled, handle_request-Settled}
use sg_emulator.Examples.Data.{units, alice, bob, two, two-AllSound, two-AllKeyed, ids, id_of}
use sg_emulator.Examples.Signed.{crypto, json, verifier, ca_key, now, pay_bob}

abbrev pub env : Environment
env = record { crypto = crypto; json = json; verifier = verifier; ca_key = ca_key }

abbrev pub draw : Draw
draw = record { ids = ids; genesis_id = 5 ∷ []; credentials = none; cert_time = now; now = now }

abbrev pub after_pay : App
after_pay = (handle_request env draw (Request.transfer pay_bob) two).1

pub pay_bob_done : (handle_request env draw (Request.transfer pay_bob) two).0 ≡ ok Response.done
unfolding handle_request verify handler transfer on_account get_nonce append_transaction handle
    handle_transfer verify_transfer verify_request to_string verify_envelope_data resolve_signer
    resolve_account verify_certificate verify_account_id verify_signature verify_timestamp
    unix_nanos get_account_cert_and_public_key from_string hex_decode hex_value hex_encode hex_digit
    bytes_eq lookup insert ◌⊞◌ ◌⊟◌ round64 round_ℕ nearest excess ◌+ℤ◌ ◌-ℤ◌
    new_account_with_public_key
pay_bob_done = refl

pay_bob-run : run env ((draw, Request.transfer pay_bob) ∷ []) two ≡ some after_pay
unfolding run
pay_bob-run = rw pay_bob_done refl

paid_exactly : alice.balance ⊟ pay_bob.amount ≡ alice.balance -ℤ pay_bob.amount
unfolding ◌⊞◌ ◌⊟◌ round64 round_ℕ nearest excess ◌+ℤ◌ ◌-ℤ◌ new_account_with_public_key
paid_exactly = refl

credited_exactly : bob.balance ⊞ pay_bob.amount ≡ bob.balance +ℤ pay_bob.amount
unfolding ◌⊞◌ ◌⊟◌ round64 round_ℕ nearest excess ◌+ℤ◌ ◌-ℤ◌ new_account_with_public_key
credited_exactly = refl

the_two :
    (lookup pay_bob.from two.accounts ≡ some alice) × (lookup pay_bob.to two.accounts ≡ some bob)
unfolding lookup insert bytes_eq
the_two = (refl, refl)

pay_bob-RoundsNothing : RoundsNothing pay_bob two
pay_bob-RoundsNothing = record {
  payer = λ f e.
      subst (λ a. a.balance ⊟ pay_bob.amount ≡ a.balance -ℤ pay_bob.amount)
        (some-injective _ _ (sym the_two.0 ∙ e)) paid_exactly;
  payee = λ t e.
      subst (λ a. a.balance ⊞ pay_bob.amount ≡ a.balance +ℤ pay_bob.amount)
        (some-injective _ _ (sym the_two.1 ∙ e)) credited_exactly;
}

total-handle_request_example :
    total (handle_request env draw (Request.transfer pay_bob) two).1 ≡ total two
total-handle_request_example =
    total-handle_request env draw (Request.transfer pay_bob) two two-AllSound (λ issue. issue)
      pay_bob-RoundsNothing

run-AllSound_example : AllSound after_pay
run-AllSound_example =
    run-AllSound env ((draw, Request.transfer pay_bob) ∷ []) two after_pay two-AllSound pay_bob-run

handle_request-Settled_example : Settled env draw pay_bob two two-AllSound
handle_request-Settled_example =
    handle_request-Settled env draw pay_bob two two-AllSound refl pay_bob_done

run-AllKeyed_example : AllKeyed after_pay
run-AllKeyed_example =
    run-AllKeyed env ((draw, Request.transfer pay_bob) ∷ []) two after_pay two-AllKeyed pay_bob-run

-- A third account is not touched by what Alice pays Bob.
-- Carol, whom Alice's payment to Bob does not name.
abbrev carol : Account
carol = record (new_account_with_public_key (id_of 9) (3 ∷ []) (id_of 9) none) { balance = units 2 }

abbrev three : App
three = record { accounts = insert (id_of 9) carol two.accounts }

lookup-handle_request_example :
    ledger_of
      (lookup (id_of 9) (handle_request env draw (Request.transfer pay_bob) three).1.accounts)
    ≡ ledger_of (lookup (id_of 9) three.accounts)
unfolding bytes_eq
lookup-handle_request_example =
    lookup-handle_request env draw (id_of 9) (Request.transfer pay_bob) three (refl, refl)
