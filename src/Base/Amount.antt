-- ===== src/Base/Amount.antt =====
-- Amounts of money: Go's float64, as the code of internal/scalegraph/account.go adds and subtracts
-- them. A finite float64 is a whole number of units of 2^-1074, the least positive one, and an
-- amount is this number. Sums and differences are rounded as IEEE 754 says, to the nearest number
-- of 53 significant bits and on a tie to the even one. Overflow, infinities and NaN are left out.
pub mod Laws
use Prim.Native.Nat.{ℕ, zero, suc, ◌+◌, ◌*◌, ◌/◌, ◌%◌, ◌^◌}
use mathlib.Core.Bool.{true, false}
use sg_emulator.Base.Tests.{ltb, if◌then◌else◌}
use sg_emulator.Base.Int.{ℤ, pos, negsuc, sub_ℕ, ◌+ℤ◌, ◌-ℤ◌}

-- 1.0
abbrev pub one : ℤ
one = pos (2 ^ 1074)

-- The number of bits of `n` beyond the first 53; the first argument is fuel, of which `n` is
-- enough, since each step halves the number.
unfoldable pub excess : ℕ → ℕ → ℕ
excess zero n = 0
excess (suc fuel) n = elim (ltb n (2 ^ 53)) [ true ↦ 0 | false ↦ suc (excess fuel (n / 2)) ]

-- `q` or its successor, whichever is nearer, where `r` of the next `unit` is left over.
unfoldable pub nearest : ℕ → ℕ → ℕ → ℕ
nearest q r unit = if ltb (2 * r) unit then q else (if ltb unit (2 * r) then q + 1 else q + q % 2)

unfoldable pub round_ℕ : ℕ → ℕ
round_ℕ n = let unit = 2 ^ excess n n in nearest (n / unit) (n % unit) unit * unit

unfoldable pub round64 : ℤ → ℤ
round64 (pos n) = pos (round_ℕ n)
round64 (negsuc n) = sub_ℕ 0 (round_ℕ (suc n))

infixl 65 ◌⊞◌ ◌⊟◌
unfoldable pub ◌⊞◌ : ℤ → ℤ → ℤ
a ⊞ b = round64 (a +ℤ b)

unfoldable pub ◌⊟◌ : ℤ → ℤ → ℤ
a ⊟ b = round64 (a -ℤ b)
