-- ===== src/Tui/Moves.antt =====
-- The moves of a cursor that the views of internal/tui/update.go repeat. The code's indices are
-- never negative, so they are natural numbers: `i < n-1` is written `i + 1 < n`.
use sg_emulator.Base.{
  ℕ, zero, suc, ◌+◌, ◌-◌, Bool, true, false, ltb, ◌==◌, if◌then◌else◌, Option, none, some, List, [],
  ◌∷◌,
}
use sg_emulator.Base.Bytes.{Bytes}
use sg_emulator.Tui.State.{Outcome}

unfoldable pub move_up : ℕ → ℕ
move_up i = if ltb 0 i then i - 1 else i

unfoldable pub move_down : ℕ → ℕ → ℕ
move_down n i = if ltb (i + 1) n then i + 1 else i

-- The account that is picked second skips the one that is picked first.
unfoldable pub skip_up : ℕ → ℕ → ℕ
skip_up avoid i =
    if ltb 0 i
    then (if (i - 1) == avoid then (if ltb 0 (i - 1) then i - 1 - 1 else i - 1 + 1) else i - 1)
    else i

unfoldable pub skip_down : ℕ → ℕ → ℕ → ℕ
skip_down n avoid i =
    if ltb (i + 1) n
    then (if (i + 1) == avoid then (if ltb (i + 1 + 1) n then i + 1 + 1 else i + 1 - 1) else i + 1)
    else i

-- The first account that is not the one to avoid.
unfoldable pub first_other : ℕ → ℕ
first_other avoid = if 0 == avoid then 1 else 0

module _ {A : Type 0} where
  -- `xs[i]`
  unfoldable pub at : List A → ℕ → Option A
  at [] i = none
  at (x ∷ xs) zero = some x
  at (x ∷ xs) (suc i) = at xs i

  abbrev pub or_panic : Option A → (A → Outcome) → Outcome
  or_panic none f = Outcome.crash
  or_panic (some a) f = f a

  unfoldable pub insert_by : (A → A → Bool) → A → List A → List A
  insert_by less x [] = x ∷ []
  insert_by less x (y ∷ l) =
      let rest = insert_by less x l in if less y x then y ∷ rest else x ∷ y ∷ l

  -- `sort.Slice`
  unfoldable pub sort_slice : (A → A → Bool) → List A → List A
  sort_slice less [] = []
  sort_slice less (x ∷ l) = insert_by less x (sort_slice less l)

-- `<` on strings
unfoldable pub text_less : Bytes → Bytes → Bool
text_less l [] = false
text_less [] (y ∷ m) = true
text_less (x ∷ l) (y ∷ m) = if x == y then text_less l m else ltb x y
