-- ===== src/Registry/Distance.antt =====
-- The XOR distance (xorDistance of internal/server/registry.go) tells identifiers apart.
use Prim.Native.Nat.{bit_xor}
use sg_emulator.Base.{
  ℕ, zero, suc, ◌+◌, ◌*◌, ◌<◌, ◌≡◌, refl, sym, ◌∙◌, ap, Bool, true, false, if◌then◌else◌, ◌&&◌, ltb,
  ◌==◌, [], ◌∷◌, length, arith,
}
use sg_emulator.Base.Bytes.{Bytes, AreBytes}
use sg_emulator.Id.{ScalegraphId}
use sg_emulator.Registry.{xor_bytes, be_value, xor_distance}

-- The XOR of two bytes is a byte, and gives the second back when it is taken again.
abbrev IsMasked : ℕ → ℕ → Type 0
IsMasked t x = (bit_xor t x < 256) × (bit_xor t (bit_xor t x) ≡ x)

-- One row of the table of this, up to the column `n`, and its rows up to `m`.
row : ℕ → ℕ → Bool
row t zero = true
row t (suc n) = if ltb (bit_xor t n) 256 && (bit_xor t (bit_xor t n) == n) then row t n else false

rows : ℕ → Bool
rows zero = true
rows (suc m) = if row m 256 then rows m else false

rows_hold : rows 256 ≡ true
unfolding rows row
rows_hold = refl

row-IsMasked : (t x n : ℕ) → x < n → row t n ≡ true → IsMasked t x
unfolding row
row-IsMasked t x zero below holds = absurd (omega arith)
row-IsMasked t x (suc n) below holds = ground (arith, row-IsMasked t x n)

rows-row : (t m : ℕ) → t < m → rows m ≡ true → row t 256 ≡ true
unfolding rows
rows-row t zero below holds = absurd (omega arith)
rows-row t (suc m) below holds = ground (arith, rows-row t m)

xor_byte : (t x : ℕ) → t < 256 → x < 256 → IsMasked t x
xor_byte t x ht hx = row-IsMasked t x 256 hx (rows-row t 256 ht rows_hold)

xor_byte_inj : (t x y : ℕ) → t < 256 → x < 256 → y < 256 → bit_xor t x ≡ bit_xor t y → x ≡ y
xor_byte_inj t x y ht hx hy e =
    sym (xor_byte t x ht hx).1 ∙ ap (bit_xor t) e ∙ (xor_byte t y ht hy).1

-- Equal distances have equal digits.
digits_inj :
    (m n : ℕ) (ts xs ys : Bytes)
    → AreBytes ts
    → AreBytes xs
    → AreBytes ys
    → length xs ≡ length ts
    → length ys ≡ length ts
    → be_value m (xor_bytes ts xs) ≡ be_value n (xor_bytes ts ys)
    → (m ≡ n) × (xs ≡ ys)
unfolding be_value xor_bytes
digits_inj m n [] [] [] ht hx hy lx ly e = (e, refl)
digits_inj m n [] (x ∷ xs) ys ht hx hy lx ly e = absurd (omega arith)
digits_inj m n [] [] (y ∷ ys) ht hx hy lx ly e = absurd (omega arith)
digits_inj m n (t ∷ ts) [] ys ht hx hy lx ly e = absurd (omega arith)
digits_inj m n (t ∷ ts) (x ∷ xs) [] ht hx hy lx ly e = absurd (omega arith)
digits_inj m n (t ∷ ts) (x ∷ xs) (y ∷ ys) ht hx hy lx ly e =
    let (high, rest) =
      digits_inj (m * 256 + bit_xor t x) (n * 256 + bit_xor t y) ts xs ys ht.1 hx.1 hy.1
        (omega arith) (omega arith) e in
    let small_x = (xor_byte t x ht.0 hx.0).0 in
    let small_y = (xor_byte t y ht.0 hy.0).0 in
    let same = xor_byte_inj t x y ht.0 hx.0 hy.0 (omega arith) in (omega arith, ground arith)

-- Two identifiers of 20 bytes at the same distance from a third are equal.
pub xor_distance_inj :
    (target a b : ScalegraphId)
    → AreBytes target
    → AreBytes a
    → AreBytes b
    → length a ≡ length target
    → length b ≡ length target
    → xor_distance target a ≡ xor_distance target b
    → a ≡ b
unfolding xor_distance
xor_distance_inj target a b ht ha hb la lb e = (digits_inj 0 0 target a b ht ha hb la lb e).1
