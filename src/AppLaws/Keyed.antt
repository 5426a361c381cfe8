-- ===== src/AppLaws/Keyed.antt =====
-- Every token of every account of the application (internal/scalegraph/app.go) stands under its own
-- identifier.
use sg_emulator.Base.{◌≡◌, some, arith}
use sg_emulator.Base.Bytes.{Bytes}
use sg_emulator.Base.Dict.{lookup}
use sg_emulator.Id.{ScalegraphId}
use sg_emulator.Token.{Token, token_id}
use sg_emulator.Account.{Account, get_token}
use sg_emulator.App.{App}
use sg_emulator.AppLaws.Everywhere.{Everywhere}
use sg_emulator.AppLaws.Invariant.{AccountInvariant}
use sg_emulator.AccountLaws.Keyed.{
  IsKeyed, append_transaction-KeepsKeys, rollback_latest_transaction-Maintains,
  new_account-KeepsKeys,
}

-- The store of the account that is kept under `id`.
abbrev pub TokensKeyed : ScalegraphId → Account → Type 0
TokensKeyed id a = IsKeyed a.token_store

abbrev pub AllKeyed : App → Type 0
AllKeyed = Everywhere TokensKeyed

pub TokensKeyed-AccountInvariant : AccountInvariant TokensKeyed
TokensKeyed-AccountInvariant = record {
  append = λ id block_id trx a. append_transaction-KeepsKeys block_id trx a;
  rollback = λ id trx a. (rollback_latest_transaction-Maintains trx).apply a;
  fresh = new_account-KeepsKeys;
}

-- A token that an account owns is found under its own identifier.
pub get_token_keyed :
    (k : Bytes) (a : Account) (t : Token)
    → IsKeyed a.token_store
    → get_token k a ≡ some t
    → lookup (token_id t) a.token_store ≡ some t
unfolding get_token
get_token_keyed k a t h e = ground (arith, h.fits k t)
