-- ===== src/Account/Slots.antt =====
-- The five methods of an account that add and remove tokens (mintToken, addTokenFromTransfer,
-- removeToken, addToken and burnToken of internal/scalegraph/account.go).
use sg_emulator.Base.{⊤, Bool, true, false, not, Option, none, some}
use sg_emulator.Base.Bytes.{Bytes, bytes_eq}
use sg_emulator.Base.Dict.{lookup, insert, delete}
use sg_emulator.Base.Int.{ltb_ℤ}
use sg_emulator.Base.Amount.{◌⊞◌, ◌⊟◌}
use sg_emulator.Base.Action.{rewrap, ◌>>=◌, ◌>>◌, get, modify, fail_if, or_fail}
use sg_emulator.Errors.{
  token_already_exists, invalid_token_signer, token_signed_by_other, insufficient_for_token,
  token_not_authorized, token_missing, token_is_placeholder,
}
use sg_emulator.Id.{ScalegraphId, from_string}
use sg_emulator.Token.{Token, token_id, is_placeholder}
use sg_emulator.Account.State.{Method, mbr_slot_cost, mbr_token_cost}

abbrev pub is_some {ℓ} : {A : Type ℓ} → Option A → Bool
is_some none = false
is_some (some a) = true

-- `slot != nil && slot.Equal(&Token{})`
abbrev pub is_slot : Option Token → Bool
is_slot none = false
is_slot (some t) = is_placeholder t

-- The identifier in a token's signature, or the error of parsing it.
abbrev pub token_signer : Token → Method ScalegraphId
token_signer t a = rewrap invalid_token_signer (from_string t.signature.signer_id, a)

unfoldable pub mint_token : Token → Method ⊤
mint_token token = do
  a ← get
  fail_if (is_some (lookup (token_id token) a.token_store)) token_already_exists
  signer ← token_signer token
  fail_if (not (bytes_eq signer a.id)) token_signed_by_other
  fail_if (ltb_ℤ (a.balance ⊟ a.mbr) mbr_token_cost) insufficient_for_token
  modify λ a. record a {
    mbr = a.mbr ⊞ mbr_token_cost;
    token_store = insert (token_id token) token a.token_store;
  }

unfoldable pub add_token_from_transfer : Token → Method ⊤
add_token_from_transfer token = do
  a ← get
  fail_if (not (is_slot (lookup (token_id token) a.token_store))) token_not_authorized
  modify λ a. record a {
    mbr = a.mbr ⊟ mbr_slot_cost;
    token_store = insert (token_id token) token a.token_store;
  }

unfoldable pub remove_token : Bytes → Method ⊤
remove_token id = do
  a ← get
  fail_if (not (is_some (lookup id a.token_store))) token_missing
  modify λ a. record a { token_store = delete id a.token_store }

unfoldable pub add_token : Token → Method ⊤
add_token token = do
  a ← get
  fail_if (is_some (lookup (token_id token) a.token_store)) token_already_exists
  modify λ a. record a { token_store = insert (token_id token) token a.token_store }

unfoldable pub burn_token : Bytes → Method ⊤
burn_token id = do
  a ← get
  token ← or_fail (lookup id a.token_store) token_missing
  fail_if (is_placeholder token) token_is_placeholder
  signer ← token_signer token
  fail_if (not (bytes_eq signer a.id)) token_signed_by_other
  modify λ a. record a { mbr = a.mbr ⊟ mbr_token_cost; token_store = delete id a.token_store }
