-- ===== src/Tui/Ranges.antt =====
-- Indices in range, for the moves of a cursor in internal/tui/update.go and the lists it points into.
use sg_emulator.Base.{
  ℕ, zero, suc, ◌+◌, ◌≤◌, ◌<◌, ◌≡◌, ◌≢◌, refl, ap, ◌∙◌, Bool, some, List, [], ◌∷◌, length, map,
  arith,
}
use sg_emulator.Tui.Moves.{
  move_up, move_down, skip_up, skip_down, first_other, at, insert_by, sort_slice,
}

pub move_up-lt : (n i : ℕ) → i < n → move_up i < n
unfolding move_up
move_up-lt n i h = ground arith

pub move_down-lt : (n i : ℕ) → i < n → move_down n i < n
unfolding move_down
move_down-lt n i h = ground arith

pub move_up-le : (n i : ℕ) → i ≤ n → move_up i ≤ n
unfolding move_up
move_up-le n i h = ground arith

pub move_down-le : (n i : ℕ) → i ≤ n → move_down (n + 1) i ≤ n
unfolding move_down
move_down-le n i h = ground arith

pub skip_up-lt : (n avoid i : ℕ) → avoid < n → i < n → 2 ≤ n → skip_up avoid i < n
unfolding skip_up
skip_up-lt n avoid i ha hi hn = ground arith

pub skip_up-ne : (avoid i : ℕ) → i ≢ avoid → skip_up avoid i ≢ avoid
unfolding skip_up
skip_up-ne avoid i h e = ground arith

pub skip_down-lt : (n avoid i : ℕ) → i < n → skip_down n avoid i < n
unfolding skip_down
skip_down-lt n avoid i h = ground arith

pub skip_down-ne : (n avoid i : ℕ) → i ≢ avoid → skip_down n avoid i ≢ avoid
unfolding skip_down
skip_down-ne n avoid i h e = ground arith

pub first_other-lt : (n avoid : ℕ) → 2 ≤ n → first_other avoid < n
unfolding first_other
first_other-lt n avoid h = ground arith

pub first_other-ne : (avoid : ℕ) → first_other avoid ≢ avoid
unfolding first_other
first_other-ne avoid e = ground arith

module _ {A : Type 0} where
  pub at-some : (l : List A) (i : ℕ) → i < length l → (a : A) × (at l i ≡ some a)
  unfolding at
  at-some [] i h = absurd (omega (arith, h))
  at-some (x ∷ l) zero h = (x, refl)
  at-some (x ∷ l) (suc i) h = at-some l i (omega (arith, h))

  length-insert_by :
      (less : A → A → Bool) (x : A) (l : List A) → length (insert_by less x l) ≡ suc (length l)
  unfolding insert_by
  length-insert_by less x [] = refl
  length-insert_by less x (y ∷ l) = ground (arith, length-insert_by less x l)

  pub length-sort_slice : (less : A → A → Bool) (l : List A) → length (sort_slice less l) ≡ length l
  unfolding sort_slice
  length-sort_slice less [] = refl
  length-sort_slice less (x ∷ l) =
      length-insert_by less x (sort_slice less l) ∙ ap suc (length-sort_slice less l)

pub length-map : {A B : Type 0} (f : A → B) (l : List A) → length (map f l) ≡ length l
length-map f [] = refl
length-map f (x ∷ l) = ap suc (length-map f l)
