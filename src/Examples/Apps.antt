-- ===== src/Examples/Apps.antt =====
-- The application (internal/scalegraph/app.go) with Alice and Bob.
use sg_emulator.Base.Amount.{◌⊞◌, ◌⊟◌, round64, round_ℕ, nearest, excess}
use mathlib.Core.Option.{some-injective}
use sg_emulator.Base.{◌≡◌, refl, sym, subst, ◌∙◌, none, some, [], ◌∷◌, ◌⊎◌}
use sg_emulator.Base.Int.{◌+ℤ◌, ◌-ℤ◌}
use sg_emulator.Base.Action.{ok, err}
use sg_emulator.Base.Bytes.{bytes_eq}
use sg_emulator.Base.Dict.{lookup, insert}
use sg_emulator.Errors.{nonce_mismatch, token_missing}
use sg_emulator.Id.{hex_encode, hex_digit}
use sg_emulator.Token.{token_id}
use sg_emulator.Transaction.{Transaction, transaction_id, new_slot_transaction}
use sg_emulator.Chain.{append, block_transaction, new_blockchain}
use sg_emulator.Account.{
  rollback_latest_transaction, rollback, rollback_freeze_token, append_transaction, handle,
  handle_transfer, handle_freeze_token, get_nonce, new_account_with_public_key, Account,
  mbr_freeze_cost, mbr_unfreeze_cost,
}
use sg_emulator.Requests.{TransferRequest, TokenRequest, FreezeRequest}
use sg_emulator.AccountLaws.Reversal.{AddsExactly, TakesExactly}
use sg_emulator.App.{
  App, transfer, on_account, append_both, freeze_token, unfreeze_token, transfer_token,
  clawback_token,
}
use sg_emulator.AppLaws.Transfer.{Accepted, Refused, transfer_outcome}
use sg_emulator.AppLaws.Replay.{transfer_replayed}
use sg_emulator.AppLaws.TwoSided.{SameApp, append_both-SameApp}
use sg_emulator.AppLaws.Atomic.{
  IsAtomic, freeze_token-IsAtomic, unfreeze_token-IsAtomic, transfer_token-IsAtomic,
  clawback_token-IsAtomic,
}
use sg_emulator.Examples.Data.{
  units, two, ids, two-AllSound, two-AllKeyed, bob, alice_id, bob_id, coin_id,
}

abbrev pay_bob : TransferRequest
pay_bob = record {
  from = alice_id;
  to = bob_id;
  amount = units 3;
  nonce = 0;
  signed_envelope = none;
}

abbrev freeze : FreezeRequest
freeze = record {
  freeze_authority = bob_id;
  token_holder = alice_id;
  token_id = coin_id;
  nonce = 0;
  signed_envelope = none;
}

abbrev give_bob : TokenRequest
give_bob = record {
  from = alice_id;
  to = bob_id;
  token_id = coin_id;
  nonce = 0;
  signed_envelope = none;
}

-- Bob freezes a token that Alice does not have: Bob accepts, Alice refuses.
abbrev freeze_unknown : Transaction
freeze_unknown = Transaction.freeze_token (new_slot_transaction (9 ∷ []) bob_id alice_id (1 ∷ []) 0)

abbrev after_pay : App
after_pay = (transfer ids pay_bob two).1

pay_done : transfer ids pay_bob two ≡ (ok tt, after_pay)
unfolding transfer on_account get_nonce append_transaction handle handle_transfer lookup insert
    bytes_eq ◌⊞◌ ◌⊟◌ round64 round_ℕ nearest excess ◌+ℤ◌ ◌-ℤ◌ new_account_with_public_key
pay_done = refl

bob_found : lookup bob_id two.accounts ≡ some bob
unfolding lookup insert bytes_eq
bob_found = refl

freeze_unknown_refused : (append_both ids bob_id alice_id freeze_unknown two).0 ≡ err token_missing
unfolding append_both on_account append_transaction handle handle_freeze_token lookup insert
    bytes_eq ◌⊞◌ ◌⊟◌ round64 round_ℕ nearest excess ◌+ℤ◌ ◌-ℤ◌ new_account_with_public_key hex_encode
    hex_digit token_id rollback_latest_transaction append new_blockchain block_transaction
    transaction_id rollback rollback_freeze_token
freeze_unknown_refused = refl

transfer_outcome_example :
    Refused ids pay_bob two two-AllSound (transfer ids pay_bob two)
    ⊎ Accepted ids pay_bob two two-AllSound (transfer ids pay_bob two)
transfer_outcome_example = transfer_outcome ids pay_bob two two-AllSound

transfer_replayed_example : transfer ids pay_bob after_pay ≡ (err nonce_mismatch, after_pay)
transfer_replayed_example = transfer_replayed ids ids pay_bob two after_pay two-AllSound pay_done

bob_exact : AddsExactly bob.mbr mbr_freeze_cost
unfolding ◌⊞◌ ◌⊟◌ round64 round_ℕ nearest excess ◌+ℤ◌ ◌-ℤ◌ new_account_with_public_key
bob_exact = refl

bob_restores : TakesExactly bob.mbr mbr_unfreeze_cost
unfolding ◌⊞◌ ◌⊟◌ round64 round_ℕ nearest excess ◌+ℤ◌ ◌-ℤ◌ new_account_with_public_key
bob_restores = refl

the_bob : (a : Account) → lookup bob_id two.accounts ≡ some a → bob ≡ a
the_bob a found = some-injective _ _ (sym bob_found ∙ found)

append_both-SameApp_example : SameApp two (append_both ids bob_id alice_id freeze_unknown two).1
append_both-SameApp_example =
    append_both-SameApp ids bob_id alice_id freeze_unknown two bob two-AllSound bob_found
      (λ me. bob_exact) token_missing freeze_unknown_refused

freeze_token-IsAtomic_example : IsAtomic two (freeze_token ids freeze)
freeze_token-IsAtomic_example =
    freeze_token-IsAtomic ids two two-AllSound freeze
      λ a found. subst (λ b. AddsExactly b.mbr mbr_freeze_cost) (the_bob a found) bob_exact

unfreeze_token-IsAtomic_example : IsAtomic two (unfreeze_token ids freeze)
unfreeze_token-IsAtomic_example =
    unfreeze_token-IsAtomic ids two two-AllSound freeze
      λ a found. subst (λ b. TakesExactly b.mbr mbr_unfreeze_cost) (the_bob a found) bob_restores

transfer_token-IsAtomic_example : IsAtomic two (transfer_token ids give_bob)
transfer_token-IsAtomic_example = transfer_token-IsAtomic ids two two-AllSound two-AllKeyed give_bob

clawback_token-IsAtomic_example : IsAtomic two (clawback_token ids give_bob)
clawback_token-IsAtomic_example = clawback_token-IsAtomic ids two two-AllSound two-AllKeyed give_bob
