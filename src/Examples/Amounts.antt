-- ===== src/Examples/Amounts.antt =====
-- Rounding of amounts (the float64 arithmetic of internal/scalegraph/account.go) on numbers.
use sg_emulator.Base.{◌*◌, ◌^◌, ◌≡◌, refl, false}
use sg_emulator.Base.Int.{ℤ, pos, ◌+ℤ◌, ◌-ℤ◌, eqb_ℤ}
use sg_emulator.Base.Amount.{one, excess, nearest, round_ℕ, round64, ◌⊞◌, ◌⊟◌}
use sg_emulator.Account.{mbr_slot_cost, mbr_freeze_cost}

-- 0.2
abbrev fifth : ℤ
fifth = pos (3602879701896397 * 2 ^ 1020)

restored_differs : eqb_ℤ (fifth ⊞ mbr_slot_cost ⊟ mbr_slot_cost) fifth ≡ false
unfolding excess nearest round_ℕ round64 ◌⊞◌ ◌⊟◌ ◌+ℤ◌ ◌-ℤ◌
restored_differs = refl

frozen_differs : eqb_ℤ (fifth ⊞ mbr_freeze_cost ⊟ mbr_freeze_cost) fifth ≡ false
unfolding excess nearest round_ℕ round64 ◌⊞◌ ◌⊟◌ ◌+ℤ◌ ◌-ℤ◌
frozen_differs = refl

-- A payer with 1e16 that pays 1.0 keeps 1e16.
tie_to_even : pos (10 ^ 16 * 2 ^ 1074) ⊟ one ≡ pos (10 ^ 16 * 2 ^ 1074)
unfolding excess nearest round_ℕ round64 ◌⊟◌ ◌-ℤ◌
tie_to_even = refl
