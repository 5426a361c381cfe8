-- ===== src/Id/RoundTrip.antt =====
-- Printing and parsing identifiers (internal/scalegraph/id.go) are inverse to one another.
use mathlib.Core.Option.{some-injective}
use sg_emulator.Base.{
  ℕ, subst, ◌/◌, ◌%◌, ◌<◌, ◌≡◌, refl, sym, ap, ◌∙◌, Option, none, some, [], ◌∷◌, arith, length,
  Option-cases, inl, inr, ◌↔◌,
}
use sg_emulator.Base.Bytes.{Bytes, AreBytes}
use sg_emulator.Base.Action.{ok}
use sg_emulator.Id.{
  ScalegraphId, hex_digit, hex_encode, hex_value, prepend_byte, hex_decode, from_string, to_string,
  id_length,
}

hex_value-hex_digit : (n : ℕ) → n < 16 → hex_value (hex_digit n) ≡ some n
unfolding hex_value hex_digit
hex_value-hex_digit n h = ground arith

hex_value_lt : (c : ℕ) {n : ℕ} → hex_value c ≡ some n → n < 16
unfolding hex_value
hex_value_lt c h = ground arith

pub hex_decode-hex_encode : (bs : Bytes) → AreBytes bs → hex_decode (hex_encode bs) ≡ some bs
unfolding hex_decode hex_encode
hex_decode-hex_encode [] h = refl
hex_decode-hex_encode (b ∷ bs) h =
    rw
      (
        hex_value-hex_digit (b / 16) (omega arith),
        hex_value-hex_digit (b % 16) (omega arith),
        hex_decode-hex_encode bs h.1,
      )
      (ground arith)

prepend_byte-AreBytes :
    (hi lo : Option ℕ) (rest : Option Bytes) (bs : Bytes)
    → ((n : ℕ) → hi ≡ some n → n < 16)
    → ((n : ℕ) → lo ≡ some n → n < 16)
    → ((r : Bytes) → rest ≡ some r → AreBytes r)
    → prepend_byte hi lo rest ≡ some bs
    → AreBytes bs
prepend_byte-AreBytes (some a) (some b) (some r) bs ha hb hr e =
    subst AreBytes (some-injective _ _ e)
      (let p = ha a refl in let q = hb b refl in (omega arith, hr r refl))
prepend_byte-AreBytes (some a) (some b) none bs ha hb hr e = cc
prepend_byte-AreBytes (some a) none rest bs ha hb hr e = cc
prepend_byte-AreBytes none lo rest bs ha hb hr e = cc

-- What is parsed is a sequence of bytes.
hex_decode-AreBytes : (s : Bytes) (bs : Bytes) → hex_decode s ≡ some bs → AreBytes bs
unfolding hex_decode
hex_decode-AreBytes [] bs h = subst AreBytes (some-injective _ _ h) tt
hex_decode-AreBytes (c ∷ []) bs h = cc
hex_decode-AreBytes (c ∷ d ∷ cs) bs h =
    prepend_byte-AreBytes (hex_value c) (hex_value d) (hex_decode cs) bs (λ n. hex_value_lt c)
      (λ n. hex_value_lt d) (hex_decode-AreBytes cs) h

-- Parsing the text of an identifier of 20 bytes gives the identifier back.
pub from_string-to_string :
    (id : ScalegraphId) → AreBytes id → length id ≡ id_length → from_string (to_string id) ≡ ok id
unfolding from_string to_string
from_string-to_string id h l = ground (arith, hex_decode-hex_encode id h)

-- Whatever text is accepted, the identifier has 20 bytes, each below 256.
pub from_string_bounds :
    (s : Bytes) (id : ScalegraphId) → from_string s ≡ ok id → (length id ≡ id_length) × AreBytes id
unfolding from_string
from_string_bounds s id h = elim (Option-cases (hex_decode s)) [
  | inl e ↦ ground arith
  | inr (bs, e) ↦ ground (arith, hex_decode-AreBytes s bs e, h)
]

-- Two identifiers whose elements are bytes are printed alike exactly when they are equal.
pub to_string_iff :
    (a b : ScalegraphId) → AreBytes a → AreBytes b → (to_string a ≡ to_string b) ↔ (a ≡ b)
unfolding to_string
to_string_iff a b ha hb = (
  λ e.
      some-injective _ _
        (sym (hex_decode-hex_encode a ha) ∙ ap hex_decode e ∙ hex_decode-hex_encode b hb),
  λ e. ap hex_encode e,
)
