-- ===== src/AppLaws/Sound.antt =====
-- The structural invariant of the application (internal/scalegraph/app.go): every account stands
-- under its own identifier, its count fits a uint64, and its blockchain is well formed.
use sg_emulator.Base.{refl, Option, arith}
use sg_emulator.Id.{ScalegraphId}
use sg_emulator.Base.Bytes.{Bytes}
use sg_emulator.Chain.Laws.{new_blockchain-IsChain}
use sg_emulator.Account.{new_account_with_public_key}
use sg_emulator.AccountLaws.Soundness.{
  IsSound, append_transaction-IsSound, rollback_latest_transaction-IsSound,
}
use sg_emulator.App.{App}
use sg_emulator.AppLaws.Everywhere.{Everywhere}
use sg_emulator.AppLaws.Invariant.{AccountInvariant}

abbrev pub AllSound : App → Type 0
AllSound = Everywhere IsSound

new_account-IsSound :
    (id genesis_id : ScalegraphId) (public_key : Bytes) (certificate : Option Bytes)
    → IsSound id (new_account_with_public_key id genesis_id public_key certificate)
unfolding new_account_with_public_key
new_account-IsSound id genesis_id public_key certificate = record {
  keyed = refl;
  bounded = omega arith;
  chained = new_blockchain-IsChain genesis_id;
}

pub IsSound-AccountInvariant : AccountInvariant IsSound
IsSound-AccountInvariant = record {
  append = λ id block_id. append_transaction-IsSound block_id id;
  rollback = rollback_latest_transaction-IsSound;
  fresh = new_account-IsSound;
}
