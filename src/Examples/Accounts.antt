-- ===== src/Examples/Accounts.antt =====
-- One account (internal/scalegraph/account.go) that is asked for transactions.
use sg_emulator.Base.Amount.{◌⊞◌, ◌⊟◌, round64, round_ℕ, nearest, excess}
use sg_emulator.Base.{ℕ, ◌≡◌, refl, none, [], ◌∷◌, true, if◌then◌else◌}
use sg_emulator.Base.Int.{◌+ℤ◌, ◌-ℤ◌}
use sg_emulator.Base.Word.{inc64}
use sg_emulator.Base.Action.{ok, err}
use sg_emulator.Base.Bytes.{bytes_eq}
use sg_emulator.Base.Dict.{lookup}
use sg_emulator.Errors.{insufficient_balance}
use sg_emulator.Id.{ScalegraphId, hex_encode, hex_digit}
use sg_emulator.Token.{token_id}
use sg_emulator.Transaction.{Transaction, new_transfer_transaction, new_slot_transaction}
use sg_emulator.Account.{
  append_transaction, rollback_latest_transaction, handle, handle_transfer,
  handle_authorize_token_transfer, new_account_with_public_key, mbr_slot_cost,
}
use sg_emulator.AccountLaws.Atomic.{append_transaction_atomic}
use sg_emulator.AccountLaws.Nonce.{signs, MatchesNonce, append_transaction_count}
use sg_emulator.AccountLaws.Reversal.{Reverted, AddsExactly, rollback_latest_transaction-append}
use sg_emulator.Examples.Data.{units, alice, alice_id, bob_id, alice-IsSound}

-- Alice pays Bob three units, which she has, or five, which her minimum balance does not leave her.
abbrev pay : ℕ → Transaction
pay n = new_transfer_transaction (9 ∷ []) alice_id bob_id (units n)

-- Alice authorizes a token of Bob's.
abbrev authorize : Transaction
authorize =
    Transaction.authorize_token_transfer (new_slot_transaction (9 ∷ []) alice_id bob_id (1 ∷ []) 0)

abbrev block : ScalegraphId
block = 8 ∷ []

pay_refused : (append_transaction block (pay 5) alice).0 ≡ err insufficient_balance
unfolding append_transaction handle handle_transfer bytes_eq new_account_with_public_key ◌⊞◌ ◌⊟◌
    round64 round_ℕ nearest excess ◌+ℤ◌ ◌-ℤ◌
pay_refused = refl

pay_accepted : (append_transaction block (pay 3) alice).0 ≡ ok tt
unfolding append_transaction handle handle_transfer bytes_eq new_account_with_public_key ◌⊞◌ ◌⊟◌
    round64 round_ℕ nearest excess ◌+ℤ◌ ◌-ℤ◌
pay_accepted = refl

authorize_accepted : (append_transaction block authorize alice).0 ≡ ok tt
unfolding append_transaction handle handle_authorize_token_transfer bytes_eq
    new_account_with_public_key lookup hex_encode hex_digit token_id ◌⊞◌ ◌⊟◌ round64 round_ℕ nearest
    excess ◌+ℤ◌ ◌-ℤ◌
authorize_accepted = refl

no_slot : lookup (1 ∷ []) alice.token_store ≡ none
unfolding lookup bytes_eq hex_encode hex_digit token_id new_account_with_public_key
no_slot = refl

slot_exact : AddsExactly alice.mbr mbr_slot_cost
unfolding ◌⊞◌ ◌⊟◌ round64 round_ℕ nearest excess ◌+ℤ◌ ◌-ℤ◌ new_account_with_public_key
slot_exact = refl

append_transaction_atomic_example : (append_transaction block (pay 5) alice).1 ≡ alice
append_transaction_atomic_example =
    append_transaction_atomic block (pay 5) alice (λ h. cc (h, pay_refused))

append_transaction_count_example :
    ((append_transaction block (pay 3) alice).1.outgoing_tx_count
      ≡ (if signs (pay 3) alice then inc64 alice.outgoing_tx_count else alice.outgoing_tx_count))
    × (signs (pay 3) alice ≡ true → MatchesNonce (pay 3) alice.outgoing_tx_count)
    × ((append_transaction block (pay 3) alice).1.id ≡ alice.id)
append_transaction_count_example = append_transaction_count block (pay 3) alice pay_accepted

rollback_latest_transaction-append_example :
    Reverted alice
      (rollback_latest_transaction authorize (append_transaction block authorize alice).1)
rollback_latest_transaction-append_example =
    rollback_latest_transaction-append block authorize alice alice-IsSound.bounded
      alice-IsSound.chained (no_slot, λ me. slot_exact) authorize_accepted
