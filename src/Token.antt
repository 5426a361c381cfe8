-- ===== src/Token.antt =====
-- Tokens (internal/scalegraph/token.go) and the signature that they carry (type Signature in
-- internal/crypto/signer.go). A nil address is `none`.
use sg_emulator.Base.{Bool, true, false, ◌&&◌, Option, none, some, []}
use sg_emulator.Base.Bytes.{Bytes, bytes_eq}
use sg_emulator.Base.Int.{ℤ, pos, eqb_ℤ}
use sg_emulator.Id.{ScalegraphId, hex_encode}

pub record Signature : Type 0 where
  pub algorithm : Bytes
  pub value : Bytes
  pub signer_id : Bytes
  pub timestamp : ℤ

pub record Token : Type 0 where
  pub value : Bytes
  pub signature : Signature
  pub clawback_address : Option ScalegraphId
  pub freeze_address : Option ScalegraphId
  pub nonce : ℤ
  pub frozen : Bool

unfoldable pub new_token : Bytes → Signature → Option ScalegraphId → Option ScalegraphId → ℤ → Token
new_token value signature clawback_address freeze_address nonce = record {
  value = value;
  signature = signature;
  clawback_address = clawback_address;
  freeze_address = freeze_address;
  nonce = nonce;
  frozen = false;
}

-- `Token.ID`: the signature's bytes in hexadecimal.
unfoldable pub token_id : Token → Bytes
token_id t = hex_encode t.signature.value

abbrev pub addresses_equal : Option ScalegraphId → Option ScalegraphId → Bool
addresses_equal none none = true
addresses_equal none (some b) = false
addresses_equal (some a) none = false
addresses_equal (some a) (some b) = bytes_eq a b

abbrev pub signatures_equal : Signature → Signature → Bool
signatures_equal s t =
    bytes_eq s.algorithm t.algorithm
    && (bytes_eq s.value t.value
        && (bytes_eq s.signer_id t.signer_id && eqb_ℤ s.timestamp t.timestamp))

-- `TokenEqual`: neither the nonce, nor the freeze address, nor the frozen flag is compared.
unfoldable pub token_equal : Token → Token → Bool
token_equal t u =
    bytes_eq (token_id t) (token_id u)
    && (bytes_eq t.value u.value
        && (signatures_equal t.signature u.signature
            && addresses_equal t.clawback_address u.clawback_address))

-- `&Token{}`: an account's slot for a token that it has authorized and does not own.
abbrev pub placeholder : Token
placeholder = record {
  value = [];
  signature = record { algorithm = []; value = []; signer_id = []; timestamp = pos 0 };
  clawback_address = none;
  freeze_address = none;
  nonce = pos 0;
  frozen = false;
}

-- The test `slot.Equal(&Token{})`.
unfoldable pub is_placeholder : Token → Bool
is_placeholder t = token_equal t placeholder
