-- ===== src/Examples/Data.antt =====
-- Two accounts of the application (internal/scalegraph/app.go), Alice with a token that Bob can
-- freeze and claw back, and what is asked of them.
use sg_emulator.Base.{◌≡◌, ℕ, ◌<◌, ◌*◌, ◌^◌, refl, false, some, [], ◌∷◌, arith}
use sg_emulator.Base.Bytes.{Bytes, AreBytes}
use sg_emulator.Base.Dict.{insert, lookup}
use sg_emulator.Base.Int.{ℤ, pos}
use sg_emulator.Id.{ScalegraphId, hex_encode}
use sg_emulator.Token.{Signature, Token, token_id}
use sg_emulator.Account.{Account, new_account_with_public_key}
use sg_emulator.AccountLaws.Soundness.{IsSound}
use sg_emulator.Chain.Laws.{new_blockchain-IsChain}
use sg_emulator.App.{App, Ids, new_app}
use sg_emulator.AccountLaws.Keyed.{IsKeyed}
use sg_emulator.AppLaws.Keyed.{TokensKeyed, AllKeyed}
use sg_emulator.Base.Bytes.{bytes_eq_iff}
use sg_emulator.AppLaws.Sound.{AllSound}
use sg_emulator.AppLaws.Everywhere.{insert-Everywhere}
use sg_emulator.ServerLaws.History.{new_app-AllSound}

-- Twenty bytes that are all `b`.
abbrev pub id_of : ℕ → ScalegraphId
id_of b = b ∷ b ∷ b ∷ b ∷ b ∷ b ∷ b ∷ b ∷ b ∷ b ∷ b ∷ b ∷ b ∷ b ∷ b ∷ b ∷ b ∷ b ∷ b ∷ b ∷ []

pub are_bytes : (b : ℕ) → b < 256 → AreBytes (id_of b)
are_bytes b h = (
  h,
  (h, (h, (h, (h, (h, (h, (h, (h, (h, (h, (h, (h, (h, (h, (h, (h, (h, (h, (h, tt))))))))))))))))))),
)

abbrev pub alice_id : ScalegraphId
alice_id = id_of 171

abbrev pub bob_id : ScalegraphId
bob_id = id_of 7

abbrev pub token_signature : Signature
token_signature = record {
  algorithm = [];
  value = 12 ∷ 34 ∷ [];
  signer_id = hex_encode alice_id;
  timestamp = pos 1000;
}

abbrev pub coin : Token
coin = record {
  value = 99 ∷ [];
  signature = token_signature;
  clawback_address = some bob_id;
  freeze_address = some bob_id;
  nonce = pos 0;
  frozen = false;
}

abbrev pub coin_id : Bytes
coin_id = token_id coin

-- Whole units of money.
abbrev pub units : ℕ → ℤ
units n = pos (n * 2 ^ 1074)

abbrev pub alice : Account
alice = record (new_account_with_public_key alice_id (1 ∷ []) alice_id (some alice_id)) {
  balance = units 5;
  mbr = units 1;
  token_store = (coin_id, coin) ∷ [];
}

abbrev pub bob : Account
bob = record (new_account_with_public_key bob_id (2 ∷ []) bob_id (some bob_id)) {
  balance = units 3;
}

abbrev pub two : App
two = record { accounts = insert bob_id bob (insert alice_id alice []) }

abbrev pub ids : Ids
ids = record { transaction = 101 ∷ []; first_block = 102 ∷ []; second_block = 103 ∷ [] }

pub alice-IsSound : IsSound alice_id alice
unfolding new_account_with_public_key
alice-IsSound = record {
  keyed = refl;
  bounded = omega arith;
  chained = new_blockchain-IsChain (1 ∷ []);
}

bob-IsSound : IsSound bob_id bob
unfolding new_account_with_public_key
bob-IsSound = record {
  keyed = refl;
  bounded = omega arith;
  chained = new_blockchain-IsChain (2 ∷ []);
}

pub two-AllSound : AllSound two
unfolding new_app
two-AllSound =
    insert-Everywhere IsSound bob_id bob (record { accounts = insert alice_id alice [] })
      bob-IsSound (insert-Everywhere IsSound alice_id alice new_app alice-IsSound new_app-AllSound)

held_fits :
    (k i : Bytes) (t u : Token) → lookup k ((i, u) ∷ []) ≡ some t → i ≡ token_id u → token_id t ≡ k
unfolding lookup
held_fits k i t u h e = ground (arith, bytes_eq_iff i k)

alice-IsKeyed : IsKeyed alice.token_store
alice-IsKeyed = record { fits = λ k t h q. held_fits k coin_id t coin h refl }

bob-IsKeyed : IsKeyed bob.token_store
unfolding lookup new_account_with_public_key
bob-IsKeyed = record { fits = λ k t h. cc }

pub two-AllKeyed : AllKeyed two
unfolding new_app lookup
two-AllKeyed =
    insert-Everywhere TokensKeyed bob_id bob (record { accounts = insert alice_id alice [] })
      bob-IsKeyed (insert-Everywhere TokensKeyed alice_id alice new_app alice-IsKeyed (λ k a h. cc))
