-- ===== src/Base/Amount/Laws.antt =====
-- Rounding of amounts (Base/Amount.antt): its fuel and its error.
use Prim.Native.Nat.{ℕ, zero, suc, ◌+◌, ◌*◌, ◌/◌, ◌%◌, ◌^◌, ◌≤◌, ◌<◌}
use mathlib.Core.Path.{◌≡◌}
use mathlib.Core.Logic.{◌⊎◌, inl, inr}
use native.Mathlib.Omega.{arith}
use sg_emulator.Base.Tests.{ltb, Bool-cases}
use sg_emulator.Base.Amount.{excess, nearest, round_ℕ}

halves : (n m : ℕ) → 0 < m → n / 2 / m ≡ n / (m * 2)
halves n m h = grind arith

pow_pos : (e : ℕ) → 0 < 2 ^ e
pow_pos zero = omega arith
pow_pos (suc e) = grind (arith, pow_pos e)

halves_pow : (n e : ℕ) → n / 2 / 2 ^ e ≡ n / 2 ^ suc e
halves_pow n e = grind (arith, halves n (2 ^ e) (pow_pos e))

-- Enough fuel: what is kept has at most 53 bits.
excess-lt : (fuel n : ℕ) → n ≤ fuel → n / 2 ^ excess fuel n < 2 ^ 53
unfolding excess
excess-lt zero n h = omega arith
excess-lt (suc fuel) n h = elim (Bool-cases (ltb n (2 ^ 53))) [
  | inl small ↦ rw (excess, small) (ground (arith, small))
  | inr large ↦
      rw (excess, large)
        (let rest = excess-lt fuel (n / 2) (omega arith) in
          rw (← halves_pow n (excess fuel (n / 2))) rest)
]

-- Of the two neighbours, none is nearer.
nearest_cases :
    (q r unit : ℕ)
    → ((nearest q r unit ≡ q) × (2 * r ≤ unit)) ⊎ ((nearest q r unit ≡ q + 1) × (unit ≤ 2 * r))
unfolding nearest
nearest_cases q r unit = ground arith

split : (n m : ℕ) → 0 < m → n ≡ n / m * m + n % m
split n m h = grind arith

below :
    (n p r unit : ℕ) → n ≡ p + r → 2 * r ≤ unit → (2 * p ≤ 2 * n + unit) × (2 * n ≤ 2 * p + unit)
below n p r unit e h = (omega arith, omega arith)

above :
    (n p p' r unit : ℕ)
    → n ≡ p + r
    → p' ≡ p + unit
    → unit ≤ 2 * r
    → r < unit
    → (2 * p' ≤ 2 * n + unit) × (2 * n ≤ 2 * p' + unit)
above n p p' r unit e e' h l = (omega arith, omega arith)

next : (q unit : ℕ) → (q + 1) * unit ≡ q * unit + unit
next q unit = grind arith

rest-lt : (n m : ℕ) → 0 < m → n % m < m
rest-lt n m h = grind arith

-- What a number is rounded to is at most half a unit away from it, where a unit is the weight of the
-- last of its 53 bits.
round_ℕ_bounds :
    (n : ℕ)
    → (2 * round_ℕ n ≤ 2 * n + 2 ^ excess n n)
      × (2 * n ≤ 2 * round_ℕ n + 2 ^ excess n n)
      × (n / 2 ^ excess n n < 2 ^ 53)
unfolding round_ℕ
round_ℕ_bounds n =
    let unit = 2 ^ excess n n in
    let whole = split n unit (pow_pos (excess n n)) in
    let kept = excess-lt n n (omega arith) in
    elim (nearest_cases (n / unit) (n % unit) unit) [
      | inl (down, near) ↦
          let (low, high) = below n (n / unit * unit) (n % unit) unit whole near in
          rw down (low, high, kept)
      | inr (up, near) ↦
          let (low, high) =
            above n (n / unit * unit) ((n / unit + 1) * unit) (n % unit) unit whole
              (next (n / unit) unit) near (rest-lt n unit (pow_pos (excess n n))) in
          rw up (low, high, kept)
    ]
