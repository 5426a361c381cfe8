-- ===== src/Registry/Sorting.antt =====
-- Sorting virtual apps by a key (the call of sort.Slice in internal/server/registry.go).
use mathlib.Core.List.{
  Mem, Perm, Pairwise, Pairwise-singleton, mem-cons, mem-cons_self, forall_mem-cons,
}
use mathlib.Core.List.Pairwise
use mathlib.Core.List.Perm
use mathlib.Core.Path.{ap₂}
use native.Mathlib.Bridge.{le_prop}
use sg_emulator.Base.{
  ℕ, zero, suc, ◌≤◌, ◌≡◌, refl, ◌∙◌, ap, leb, List, [], ◌∷◌, ◌++◌, length, inl, inr, Bool-cases,
  if◌then◌else◌, arith,
}
use sg_emulator.Registry.{VirtualApp, insert_by, sort_by, take}

module _ (key : VirtualApp → ℕ) where
  abbrev pub Nearer : VirtualApp → VirtualApp → Type 0
  Nearer v w = key v ≤ key w

  abbrev pub IsSorted : List VirtualApp → Type 0
  IsSorted = Pairwise Nearer

  insert_by-perm : (v : VirtualApp) (ws : List VirtualApp) → Perm (insert_by key v ws) (v ∷ ws)
  unfolding insert_by
  insert_by-perm v [] = Perm.rfl
  insert_by-perm v (w ∷ ws) = elim (Bool-cases (leb (key v) (key w))) [
    | inl first ↦ rw first Perm.rfl
    | inr later ↦ rw later (Perm.trans (Perm.cons w (insert_by-perm v ws)) (Perm.swap v w ws))
  ]

  pub sort_by-perm : (vs : List VirtualApp) → Perm (sort_by key vs) vs
  unfolding sort_by
  sort_by-perm [] = Perm.rfl
  sort_by-perm (v ∷ vs) =
      Perm.trans (insert_by-perm v (sort_by key vs)) (Perm.cons v (sort_by-perm vs))

  length-insert_by :
      (v : VirtualApp) (ws : List VirtualApp) → length (insert_by key v ws) ≡ suc (length ws)
  unfolding insert_by
  length-insert_by v [] = refl
  length-insert_by v (w ∷ ws) = ground (arith, length-insert_by v ws)

  pub length-sort_by : (vs : List VirtualApp) → length (sort_by key vs) ≡ length vs
  unfolding sort_by
  length-sort_by [] = refl
  length-sort_by (v ∷ vs) = length-insert_by v (sort_by key vs) ∙ ap suc (length-sort_by vs)

  abbrev IsBelow : VirtualApp → List VirtualApp → Type 0
  IsBelow v ws = (w : VirtualApp) → Mem w ws → Nearer v w

  IsBelow-cons :
      {v w : VirtualApp} {ws : List VirtualApp} → Nearer v w → IsBelow w ws → IsBelow v (w ∷ ws)
  IsBelow-cons {v} {w} h below =
      (forall_mem-cons (λ u. le_prop)).1 (h, λ u m. let k = below u m in omega arith)

  insert_by-IsSorted :
      (v : VirtualApp) {ws : List VirtualApp} → IsSorted ws → IsSorted (insert_by key v ws)
  unfolding insert_by
  insert_by-IsSorted v Pairwise.nil = Pairwise-singleton _ v
  insert_by-IsSorted v (Pairwise.cons {a = w} {l = ws} below s) =
      elim (Bool-cases (leb (key v) (key w))) [
        | inl first ↦
            rw first (Pairwise.cons (IsBelow-cons (ground arith) below) (Pairwise.cons below s))
        | inr later ↦
            let near : Nearer w v = ground arith in
            let rest = (forall_mem-cons (λ u. le_prop)).1 (near, below) in
            rw later (
              Pairwise.cons (λ u m. rest u ((Perm.mem_iff (insert_by-perm v ws)).0 m))
                (insert_by-IsSorted v s))
      ]

  pub sort_by-IsSorted : (vs : List VirtualApp) → IsSorted (sort_by key vs)
  unfolding sort_by
  sort_by-IsSorted [] = Pairwise.nil
  sort_by-IsSorted (v ∷ vs) = insert_by-IsSorted v (sort_by-IsSorted vs)

  -- Apps with the same key are the same.
  abbrev pub Separates : List VirtualApp → Type 0
  Separates vs = (v w : VirtualApp) → Mem v vs → Mem w vs → key v ≡ key w → v ≡ w

  head_le :
      {v w : VirtualApp} {vs ws : List VirtualApp}
      → IsSorted (v ∷ vs)
      → Perm (w ∷ ws) (v ∷ vs)
      → Nearer v w
  head_le {w = w} (Pairwise.cons {a = v} below s) p =
      (forall_mem-cons (λ u. le_prop)).1 (omega arith, below) w ((Perm.mem_iff p).0 mem-cons_self)

  -- A list has one sorted rearrangement, if its keys are distinct.
  pub sorted_unique :
      (vs ws : List VirtualApp) → IsSorted vs → IsSorted ws → Perm vs ws → Separates vs → vs ≡ ws
  sorted_unique [] ws sv sw p sep = Perm.nil-eq p
  sorted_unique (v ∷ vs) [] sv sw p sep = Perm.eq-nil p
  sorted_unique (v ∷ vs) (w ∷ ws) sv sw p sep =
      let up = head_le sv (Perm.symm p) in
      let down = head_le sw p in
      let heads = sep v w mem-cons_self ((Perm.mem_iff p).1 mem-cons_self) (omega arith) in
      let tails = Perm.cons_inv (Perm.trans p (Perm.symm (Perm.cons' heads Perm.rfl))) in
      ap₂ ◌∷◌ heads (
        sorted_unique vs ws (Pairwise.of_cons sv) (Pairwise.of_cons sw) tails
          (λ a b ma mb. sep a b (mem-cons.1 ∣ inr ma ∣₁) (mem-cons.1 ∣ inr mb ∣₁)))

pub drop : ℕ → List VirtualApp → List VirtualApp
drop zero vs = vs
drop (suc n) [] = []
drop (suc n) (v ∷ vs) = drop n vs

pub take-append-drop : (n : ℕ) (vs : List VirtualApp) → take n vs ++ drop n vs ≡ vs
unfolding take drop
take-append-drop zero vs = refl
take-append-drop (suc n) [] = refl
take-append-drop (suc n) (v ∷ vs) = ap (◌∷◌ v) (take-append-drop n vs)

pub length-take :
    (n : ℕ) (vs : List VirtualApp)
    → length (take n vs) ≡ (if leb n (length vs) then n else length vs)
unfolding take
length-take zero vs = ground arith
length-take (suc n) [] = ground arith
length-take (suc n) (v ∷ vs) = ground (arith, length-take n vs)
