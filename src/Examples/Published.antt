-- ===== src/Examples/Published.antt =====
-- The event of Alice's payment (internal/server/event_builder.go), and her signed request.
use mathlib.Core.List.{Mem, mem-cons_self}
use sg_emulator.Base.{
  ◌∙◌, ◌≡◌, ◌≢◌, refl, true, false, Bool, Option, none, some, List, [], ◌∷◌, ap, arith,
}
use sg_emulator.Base.Amount.{◌⊞◌, ◌⊟◌, round64, round_ℕ, nearest, excess}
use sg_emulator.Base.Action.{ok}
use sg_emulator.Base.Int.{ℤ, pos, eqb_ℤ, ◌-ℤ◌, ◌+ℤ◌}
use sg_emulator.Base.Dict.{lookup, insert}
use sg_emulator.Account.{
  new_account_with_public_key, get_nonce, append_transaction, handle, handle_transfer,
}
use sg_emulator.App.{get_account_cert_and_public_key, transfer, on_account}
use sg_emulator.Base.Bytes.{bytes_eq}
use sg_emulator.Verify.{
  verify_envelope_data, resolve_signer, resolve_account, verify_certificate, verify_account_id,
  verify_signature, verify_timestamp, unix_nanos, verify_request, verify_transfer,
}
use sg_emulator.Id.{to_string, from_string, hex_encode, hex_digit, hex_value, hex_decode}
use sg_emulator.Server.{Request, Response, handle_request, verify, handler}
use sg_emulator.Registry.{Registry, VirtualApp, list_apps}
use sg_emulator.Events.{Marshal, Publication, extract_event_info, handle_and_publish, topic_of}
use sg_emulator.Events.Laws.{answered_verified, unpublished, unpublished-handle_and_publish}
use sg_emulator.ServerLaws.Frame.{Ledger, ledger_of}
use sg_emulator.Events.Announced.{changed_published}
use sg_emulator.Client.Sealed.{IsSealed, verify-IsSealed}
use sg_emulator.Examples.Data.{units, two, alice_id, id_of, are_bytes}
use sg_emulator.Examples.Signed.{pay_bob, as_bytes-AreBytes}
use sg_emulator.Examples.Servers.{env, draw, after_pay, pay_bob_done}

abbrev marshal : Marshal
marshal event = some (1 ∷ [])

abbrev listener : VirtualApp
listener = record { id = id_of 3; transports = [] }

abbrev registry : Registry
registry = record { by_id = (id_of 3, listener) ∷ [] }

unpublished-handle_and_publish_example :
    unpublished marshal
      (pos 5)
      registry
      (handle_and_publish marshal (pos 5) registry env draw (Request.transfer pay_bob) two)
    ≡ handle_request env draw (Request.transfer pay_bob) two
unpublished-handle_and_publish_example =
    unpublished-handle_and_publish marshal (pos 5) registry env draw (Request.transfer pay_bob) two

-- What is published of the payment.
abbrev published : List Publication
published = (handle_and_publish marshal (pos 5) registry env draw (Request.transfer pay_bob) two).1

is_published :
    handle_and_publish marshal (pos 5) registry env draw (Request.transfer pay_bob) two
    ≡ ((ok Response.done, after_pay), published)
is_published =
    ap (λ x. (x, published))
      (unpublished-handle_and_publish marshal (pos 5) registry env draw (Request.transfer pay_bob)
          two
        ∙ ap (λ x. (x, after_pay)) pay_bob_done)

abbrev has_balance : ℤ → Option Ledger → Bool
has_balance x none = false
has_balance x (some a) = eqb_ℤ a.balance x

alice_paid :
    ledger_of (lookup alice_id after_pay.accounts) ≢ ledger_of (lookup alice_id two.accounts)
unfolding handle_request verify handler transfer on_account get_nonce append_transaction handle
    handle_transfer verify_transfer verify_request to_string verify_envelope_data resolve_signer
    resolve_account verify_certificate verify_account_id verify_signature verify_timestamp
    unix_nanos get_account_cert_and_public_key from_string hex_decode hex_value hex_encode hex_digit
    bytes_eq lookup insert ◌⊞◌ ◌⊟◌ round64 round_ℕ nearest excess ◌+ℤ◌ ◌-ℤ◌
    new_account_with_public_key
alice_paid e = let h : false ≡ true = ap (has_balance (units 5)) e in cc

changed_published_example :
    (p : Publication) × Mem p published
    × (p.app_id ≡ listener.id)
    × (p.topic ≡ topic_of (to_string alice_id))
unfolding list_apps extract_event_info
changed_published_example =
    changed_published alice_id env draw as_bytes-AreBytes marshal (pos 5) registry
      (Request.transfer pay_bob) two Response.done after_pay published listener tt is_published
      (1 ∷ [], refl) alice_paid mem-cons_self

pay_bob_verified : (verify env draw (Request.transfer pay_bob) two).0 ≡ ok tt
pay_bob_verified =
    answered_verified env draw (Request.transfer pay_bob) two Response.done after_pay
      (ap (λ x. (x, after_pay)) pay_bob_done)

verify-IsSealed_example : IsSealed (Request.transfer pay_bob)
verify-IsSealed_example =
    verify-IsSealed env draw (Request.transfer pay_bob) two
      ((refl, are_bytes 171 (omega arith)), (refl, are_bytes 7 (omega arith))) pay_bob_verified
