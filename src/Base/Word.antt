-- ===== src/Base/Word.antt =====
-- Go's uint64 counters, with wrap-around, and the conversion int64(n).
use Prim.Native.Nat.{ℕ, ◌+◌, ◌-◌, ◌%◌, ◌^◌, ◌<◌}
use mathlib.Core.Path.{◌≡◌}
use native.Mathlib.Omega.{arith}
use sg_emulator.Base.Tests.{ltb, if◌then◌else◌}
use sg_emulator.Base.Int.{ℤ, pos, negsuc}

abbrev pub u64_mod : ℕ
u64_mod = 2 ^ 64

-- `n++` and `n--` on a uint64.
unfoldable pub inc64 : ℕ → ℕ
inc64 n = (n + 1) % u64_mod

unfoldable pub dec64 : ℕ → ℕ
dec64 n = (n + u64_mod - 1) % u64_mod

-- `int64(n)` of a uint64.
unfoldable pub to_int64 : ℕ → ℤ
to_int64 n = if ltb n (2 ^ 63) then pos n else negsuc (u64_mod - n - 1)

pub inc64-lt : (n : ℕ) → inc64 n < u64_mod
unfolding inc64
inc64-lt n = omega arith

pub dec64-lt : (n : ℕ) → dec64 n < u64_mod
unfolding dec64
dec64-lt n = omega arith

pub dec64-inc64 : (n : ℕ) → n < u64_mod → dec64 (inc64 n) ≡ n
unfolding dec64 inc64
dec64-inc64 n h = omega arith

pub inc64-ne : (n : ℕ) → n < u64_mod → inc64 n ≡ n → ⊥
unfolding inc64
inc64-ne n h e = omega arith
