-- ===== src/Id.antt =====
-- Identifiers (internal/scalegraph/id.go): 20 bytes, printed and parsed as hexadecimal text. What
-- `encoding/hex` does is written out: lower-case digits out, digits of both cases in.
pub mod RoundTrip
use sg_emulator.Base.{
  ℕ, suc, ◌+◌, ◌-◌, ◌*◌, ◌/◌, ◌%◌, Bool, ◌&&◌, Option, none, some, [], ◌∷◌, ltb, leb, ◌==◌,
  if◌then◌else◌, length,
}
use sg_emulator.Base.Bytes.{Bytes}
use sg_emulator.Base.Action.{Result, ok, err}
use sg_emulator.Errors.{Error, invalid_hex, invalid_id_length}

abbrev pub ScalegraphId : Type 0
ScalegraphId = Bytes

unfoldable pub hex_digit : ℕ → ℕ
hex_digit n = if ltb n 10 then b'0' + n else b'a' + (n - 10)

-- `hex.EncodeToString`
unfoldable pub hex_encode : Bytes → Bytes
hex_encode [] = []
hex_encode (b ∷ bs) = hex_digit (b / 16) ∷ hex_digit (b % 16) ∷ hex_encode bs

unfoldable pub hex_value : ℕ → Option ℕ
hex_value c =
    if leb b'0' c && leb c b'9'
    then some (c - b'0')
    else if leb b'a' c && leb c b'f'
    then some (c - b'a' + 10)
    else if leb b'A' c && leb c b'F'
    then some (c - b'A' + 10)
    else none

abbrev pub prepend_byte : Option ℕ → Option ℕ → Option Bytes → Option Bytes
prepend_byte (some hi) (some lo) (some bs) = some ((hi * 16 + lo) ∷ bs)
prepend_byte (some hi) (some lo) none = none
prepend_byte (some hi) none bs = none
prepend_byte none lo bs = none

-- `hex.DecodeString`; `none` is its error (an odd length, or a byte that is no digit).
unfoldable pub hex_decode : Bytes → Option Bytes
hex_decode [] = some []
hex_decode (c ∷ []) = none
hex_decode (c ∷ d ∷ cs) = prepend_byte (hex_value c) (hex_value d) (hex_decode cs)

abbrev pub id_length : ℕ
id_length = 20

-- `ScalegraphIdFromString`
unfoldable pub from_string : Bytes → Result Error ScalegraphId
from_string s = elim (hex_decode s) [
  | none ↦ err invalid_hex
  | some bytes ↦ if length bytes == id_length then ok bytes else err invalid_id_length
]

-- `ScalegraphId.String`
unfoldable pub to_string : ScalegraphId → Bytes
to_string id = hex_encode id
