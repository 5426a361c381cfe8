-- ===== src/Examples/Terminal.antt =====
-- A terminal (internal/tui) over Alice's and Bob's accounts, and one over Alice's alone, with a store
-- in which every account has credentials.
use sg_emulator.Base.{
  ◌≡◌, ◌≢◌, refl, ⊤, All, ◌≤◌, List, [], ◌∷◌, some, length, subst, arith, if◌then◌else◌,
}
use sg_emulator.Base.Bytes.{bytes_eq}
use sg_emulator.Base.Dict.{lookup, insert}
use sg_emulator.Base.Int.{pos}
use sg_emulator.Base.Action.{Result, ok}
use sg_emulator.Errors.{Error}
use sg_emulator.Id.{
  ScalegraphId, to_string, from_string, hex_encode, hex_decode, hex_digit, hex_value,
}
use sg_emulator.Account.{Account, new_account_with_public_key, get_nonce}
use sg_emulator.Server.{Request, Response}
use sg_emulator.Client.{
  Delivery, get_accounts, send, send_request, transfer_signed, transfer_request,
}
use sg_emulator.Signer.{sign, create_signed_envelope}
use sg_emulator.Tui.State.{View, Model, World, Outcome, Status, new_model}
use sg_emulator.Tui.Moves.{move_up, move_down, first_other, at, sort_slice, insert_by, text_less}
use sg_emulator.Tui.Effects.{refresh_accounts, get_credentials, send_signed, perform}
use sg_emulator.Tui.Accounts.{update_menu}
use sg_emulator.Tui.Send.{update_send_money, send_payment}
use sg_emulator.Tui.Update.{update, update_view, update_all}
use sg_emulator.Tui.Invariant.{IsSafe, IsPopulated}
use sg_emulator.Tui.Safety.{
  update_all-IsSafe, update_all-hidden, pay_one-panics, presses, pay_one, new_model-IsInRange,
}
use sg_emulator.Examples.Data.{units, alice, bob, alice_id, bob_id}
use sg_emulator.Examples.Signed.{as_bytes, json, message}
use sg_emulator.Examples.Signing.{ed25519_sign}

abbrev pub with_accounts : List Account → Request → Delivery
with_accounts l Request.get_accounts = Delivery.answered (Response.accounts l)
with_accounts l _ = Delivery.answered Response.done

abbrev pub account_of : ScalegraphId → Account
account_of id = if bytes_eq id alice_id then alice else bob

abbrev pub world_of : List Account → World
world_of l = record {
  payload_time = pos 1000;
  now = pos 1000;
  deliver = with_accounts l;
  account = account_of;
  created = bob_id;
  ca = some (record {
    public_key = message;
    private_key = message;
    account_private_key_pem = λ id. some message;
    account_certificate_pem = λ id. some message;
  });
  derive_account_id = as_bytes;
  ed25519_sign = ed25519_sign;
  json = json;
  decode_private_key_pem = λ pem. some pem;
  parse_float = λ text. some (units 1);
  edit = λ k i. i;
}

abbrev pub pair : World
pair = world_of (alice ∷ bob ∷ [])

abbrev alone : World
alone = world_of (alice ∷ [])

abbrev model_of : Outcome → Model
model_of (Outcome.next m) = m
model_of _ = new_model

abbrev after_paying : Model
after_paying = model_of (update_all (presses pair pay_one) new_model)

alice_pays : after_paying.status_msg ≡ Status.transfer_complete
unfolding update_all update update_view new_model update_menu update_send_money send_payment
    refresh_accounts move_up move_down first_other at sort_slice insert_by get_accounts send
    send_request perform get_credentials lookup send_signed create_signed_envelope sign
    transfer_signed transfer_request to_string from_string hex_encode hex_decode hex_digit hex_value
    text_less get_nonce new_account_with_public_key bytes_eq insert
alice_pays = refl

alice_goes_on : update_all (presses pair pay_one) new_model ≡ Outcome.next after_paying
unfolding update_all update update_view new_model update_menu update_send_money send_payment
    refresh_accounts move_up move_down first_other at sort_slice insert_by get_accounts send
    send_request perform get_credentials lookup send_signed create_signed_envelope sign
    transfer_signed transfer_request to_string from_string hex_encode hex_decode hex_digit hex_value
    text_less get_nonce new_account_with_public_key bytes_eq insert
alice_goes_on = refl

abbrev TwoOrMore : Result Error (List Account) → Type 0
TwoOrMore (ok l) = 2 ≤ length l
TwoOrMore _ = ⊤

pair-IsPopulated : IsPopulated pair
unfolding IsPopulated get_accounts send send_request
pair-IsPopulated l e = subst TwoOrMore e (omega arith)

abbrev pays_populated : All (λ p. IsPopulated p.0) (presses pair pay_one)
pays_populated = (
  pair-IsPopulated,
  (
    pair-IsPopulated,
    (
      pair-IsPopulated,
      (pair-IsPopulated, (pair-IsPopulated, (pair-IsPopulated, (pair-IsPopulated, tt)))),
    ),
  ),
)

update_all-IsSafe_example : IsSafe ⊥ (update_all (presses pair pay_one) new_model)
update_all-IsSafe_example =
    update_all-IsSafe ⊥ (presses pair pay_one) new_model pays_populated (new_model-IsInRange ⊥)

update_all-hidden_example :
    (after_paying.view ≢ View.unfreeze_token) × (after_paying.view ≢ View.lookup_token)
update_all-hidden_example =
    update_all-hidden (presses pair pay_one) after_paying pays_populated alice_goes_on

alone_fetches : get_accounts alone.deliver ≡ ok (alice ∷ [])
unfolding get_accounts send send_request
alone_fetches = refl

pay_one-panics_example : update_all (presses alone pay_one) new_model ≡ Outcome.crash
pay_one-panics_example = pay_one-panics alone alice (units 1) alone_fetches refl refl
