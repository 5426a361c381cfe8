-- ===== src/Account/State.antt =====
-- The state of an account and its readers (internal/scalegraph/account.go). The lock, the handler
-- maps (fixed at construction) and the printed form are left out.
use sg_emulator.Base.{ℕ, ◌*◌, ◌^◌, Bool, false, Option, none, some, List, [], ◌∷◌, if◌then◌else◌}
use sg_emulator.Base.Bytes.{Bytes, bytes_eq}
use sg_emulator.Base.Dict.{Dict, lookup}
use sg_emulator.Base.Int.{ℤ, pos}
use sg_emulator.Base.Action.{Action}
use sg_emulator.Errors.{Error}
use sg_emulator.Id.{ScalegraphId}
use sg_emulator.Token.{Token, is_placeholder}
use sg_emulator.Chain.{Blockchain, new_blockchain}

-- 0.5, 1.0, 0.1 and 0.1: the last two are the float64 nearest to a tenth.
abbrev pub mbr_slot_cost : ℤ
mbr_slot_cost = pos (2 ^ 1073)

abbrev pub mbr_token_cost : ℤ
mbr_token_cost = pos (2 ^ 1074)

abbrev pub mbr_freeze_cost : ℤ
mbr_freeze_cost = pos (3602879701896397 * 2 ^ 1019)

abbrev pub mbr_unfreeze_cost : ℤ
mbr_unfreeze_cost = pos (3602879701896397 * 2 ^ 1019)

-- The balance and the requirement are float64 (see Base/Amount.antt). A certificate is its DER encoding (`cert.Raw`).
pub record Account : Type 0 where
  pub id : ScalegraphId
  pub balance : ℤ
  pub mbr : ℤ
  pub blockchain : Blockchain
  pub valuestore : Dict Bytes
  pub public_key : Bytes
  pub certificate : Option Bytes
  pub token_store : Dict Token
  pub outgoing_tx_count : ℕ

abbrev pub Method : Type 0 → Type 0
Method A = Action Error Account A

-- `newAccountWithPublicKey`; the identifier derived from the key and the one of the genesis block
-- are arguments.
unfoldable pub new_account_with_public_key :
    ScalegraphId → ScalegraphId → Bytes → Option Bytes → Account
new_account_with_public_key id genesis_id public_key certificate = record {
  id = id;
  balance = pos 0;
  mbr = pos 0;
  blockchain = new_blockchain genesis_id;
  valuestore = [];
  public_key = public_key;
  certificate = certificate;
  token_store = [];
  outgoing_tx_count = 0;
}

-- The test `p != nil && p.ID() == a.ID()` on a transaction's sender or receiver.
abbrev pub is_self : Option ScalegraphId → Account → Bool
is_self none a = false
is_self (some id) a = bytes_eq id a.id

unfoldable pub get_nonce : Account → ℕ
get_nonce a = a.outgoing_tx_count

abbrev pub owned : Option Token → Option Token
owned none = none
owned (some t) = if is_placeholder t then none else some t

-- `GetToken`: a missing entry and a placeholder both give nil and false.
unfoldable pub get_token : Bytes → Account → Option Token
get_token token_id a = owned (lookup token_id a.token_store)

abbrev keep_owned : Dict Token → List Token
keep_owned [] = []
keep_owned ((k, t) ∷ m) = let rest = keep_owned m in if is_placeholder t then rest else t ∷ rest

-- `GetTokens`, in some order of the map's entries.
unfoldable pub get_tokens : Account → List Token
get_tokens a = keep_owned a.token_store
