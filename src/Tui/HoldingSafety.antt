-- ===== src/Tui/HoldingSafety.antt =====
-- The indices of the view that transfers a token (updateTransferToken of internal/tui/update.go).
use sg_emulator.Base.{
  ℕ, zero, suc, ◌≤◌, ◌<◌, ◌≡◌, refl, List, [], ◌∷◌, length, arith, ltb, ◌⊎◌, inl, inr, ◌-◌,
  Bool-cases, false,
}
use sg_emulator.Client.{transfer_token_signed}
use sg_emulator.Tui.State.{View, Key, Model, World, Status}
use sg_emulator.Tui.Effects.{refresh_tokens, refresh_tokens_for_index}
use sg_emulator.Tui.Accounts.{is_empty}
use sg_emulator.Tui.Holdings.{
  offer_own, own_account, transfer_pick, transfer_chosen, transfer_receiver, transfer_step,
  update_transfer_token,
}
use sg_emulator.Tui.Answers.{transfer_token_signed-IsAnswer}
use sg_emulator.Tui.Ranges.{
  move_up-lt, move_down-lt, skip_up-lt, skip_up-ne, skip_down-lt, skip_down-ne, first_other-lt,
  first_other-ne,
}
use sg_emulator.Tui.Rules.{or_panic-IsSafe, perform-IsSafe}
use sg_emulator.Tui.AccountSafety.{if-IsInRange}
use sg_emulator.Tui.TokenSafety.{finished-IsSafe}
use sg_emulator.Tui.Invariant.{InView, IsInRange, IsSafe, IsPopulated}

pub is_empty-false : {A : Type 0} (l : List A) → is_empty l ≡ false → 0 < length l
is_empty-false [] e = cc
is_empty-false (x ∷ l) e = omega arith

-- What is known of a later alternative, when the earlier one is over.
pub not_first : {P : Type 0} (a b : ℕ) → b ≤ a → (a < b) ⊎ P → P
not_first a b h (inl e) = absurd (omega (arith, h, e))
not_first a b h (inr p) = p

pub one_less : {P : Type 0} (a b : ℕ) → (a < b) ⊎ P → (a - 1 < b) ⊎ P
one_less a b (inl h) = inl (omega (arith, h))
one_less a b (inr p) = inr p

module _ (Hidden : Type 0) (w : World) (populated : IsPopulated w) where
  pub offer_own-IsInRange :
      (m : Model)
      → IsInRange Hidden (record m { status_msg = Status.no_owned_tokens })
      → (0 < length m.cached_tokens
          → IsInRange Hidden
              (record m { token_step = 1; token_token_index = 0; status_msg = Status.empty }))
      → IsInRange Hidden (offer_own m)
  offer_own-IsInRange m h k = elim (Bool-cases (is_empty m.cached_tokens)) [
    | inl e ↦ rw e h
    | inr e ↦ rw e (k (is_empty-false m.cached_tokens e))
  ]

  transfer_account-IsSafe :
      (m : Model) (k : Key)
      → m.token_step ≡ 0
      → IsInRange Hidden (record m { view = View.transfer_token })
      → IsSafe Hidden (own_account w (record m { view = View.transfer_token }) k)
  unfolding refresh_tokens refresh_tokens_for_index IsSafe IsInRange InView
  transfer_account-IsSafe m k e (c, ((two, ha), ht, hr, d)) =
      elim k as (λ k. IsSafe Hidden (own_account w (record m { view = View.transfer_token }) k)) [
        | Key.up p ↦
            (c, ((two, move_up-lt _ m.token_account_index ha), ht, hr, inl (omega (arith, e))))
        | Key.down p ↦
            (c, ((two, move_down-lt _ m.token_account_index ha), ht, hr, inl (omega (arith, e))))
        | Key.enter ↦
            offer_own-IsInRange (refresh_tokens w (record m { view = View.transfer_token }))
              (c, ((two, ha), inl (omega (arith, e)), hr, d))
              λ h. (c, ((two, ha), inr h, hr, inl (omega arith)))
        | _ ↦ (c, ((two, ha), ht, hr, d))
      ]

  transfer_pick-IsSafe :
      (m : Model) (k : Key)
      → m.token_step ≡ 1
      → IsInRange Hidden (record m { view = View.transfer_token })
      → IsSafe Hidden (transfer_pick (record m { view = View.transfer_token }) k)
  unfolding IsSafe IsInRange InView
  transfer_pick-IsSafe m k e (c, ((two, ha), ht, hr, d)) =
      let t = not_first m.token_step 1 (omega (arith, e)) ht in
      elim k as (λ k. IsSafe Hidden (transfer_pick (record m { view = View.transfer_token }) k)) [
        | Key.up p ↦ (c, ((two, ha), inr (move_up-lt _ m.token_token_index t), hr, d))
        | Key.down p ↦ (c, ((two, ha), inr (move_down-lt _ m.token_token_index t), hr, d))
        | Key.enter ↦ (
          c,
          (
            (two, ha),
            inr t,
            first_other-lt _ m.token_account_index two,
            inr (first_other-ne m.token_account_index),
          ),
        )
        | _ ↦ (c, ((two, ha), ht, hr, d))
      ]

  transfer_chosen-IsSafe :
      (m : Model)
      → 1 ≤ m.token_step
      → IsInRange Hidden (record m { view = View.transfer_token })
      → IsSafe Hidden (transfer_chosen w (record m { view = View.transfer_token }))
  unfolding transfer_chosen IsInRange InView
  transfer_chosen-IsSafe m e (c, ((two, ha), ht, hr, d)) =
      or_panic-IsSafe Hidden m.cached_accounts m.token_account_index _ ha λ from.
        or_panic-IsSafe Hidden m.cached_accounts m.token_to_account_index _ hr λ to.
          or_panic-IsSafe Hidden m.cached_tokens m.token_token_index _
            (not_first m.token_step 1 e ht)
            λ token.
              perform-IsSafe Hidden w _ _ (transfer_token_signed w.deliver) from _ _
                (transfer_token_signed-IsAnswer w.deliver) (c, ((two, ha), ht, hr, d))
                λ u cache. finished-IsSafe Hidden w populated Status.transferred _ c

  transfer_receiver-IsSafe :
      (m : Model) (k : Key)
      → m.token_step ≡ 2
      → IsInRange Hidden (record m { view = View.transfer_token })
      → IsSafe Hidden (transfer_receiver w (record m { view = View.transfer_token }) k)
  unfolding IsSafe IsInRange InView
  transfer_receiver-IsSafe m k e (c, ((two, ha), ht, hr, d)) =
      let apart = not_first m.token_step 2 (omega (arith, e)) d in
      elim k
        as (λ k. IsSafe Hidden (transfer_receiver w (record m { view = View.transfer_token }) k)) [
          | Key.up p ↦ (
            c,
            (
              (two, ha),
              ht,
              skip_up-lt _ m.token_account_index m.token_to_account_index ha hr two,
              inr (skip_up-ne m.token_account_index m.token_to_account_index apart),
            ),
          )
          | Key.down p ↦ (
            c,
            (
              (two, ha),
              ht,
              skip_down-lt _ m.token_account_index m.token_to_account_index hr,
              inr (skip_down-ne _ m.token_account_index m.token_to_account_index apart),
            ),
          )
          | Key.enter ↦ transfer_chosen-IsSafe m (omega (arith, e)) (c, ((two, ha), ht, hr, d))
          | _ ↦ (c, ((two, ha), ht, hr, d))
        ]

  transfer_step-IsSafe :
      (n : ℕ) (m : Model) (k : Key)
      → m.token_step ≡ n
      → IsInRange Hidden (record m { view = View.transfer_token })
      → IsSafe Hidden (transfer_step w n (record m { view = View.transfer_token }) k)
  unfolding IsSafe
  transfer_step-IsSafe zero m k e h = transfer_account-IsSafe m k e h
  transfer_step-IsSafe (suc zero) m k e h = transfer_pick-IsSafe m k e h
  transfer_step-IsSafe (suc (suc zero)) m k e h = transfer_receiver-IsSafe m k e h
  transfer_step-IsSafe (suc (suc (suc n))) m k e h = h

  pub update_transfer_token-IsSafe :
      (m : Model) (k : Key)
      → IsInRange Hidden (record m { view = View.transfer_token })
      → IsSafe Hidden (update_transfer_token w (record m { view = View.transfer_token }) k)
  unfolding update_transfer_token IsSafe IsInRange InView
  update_transfer_token-IsSafe m k (c, (ha, ht, hr, d)) =
      elim k
        as (λ k.
          IsSafe Hidden (update_transfer_token w (record m { view = View.transfer_token }) k)) [
            | Key.esc ↦
                if-IsInRange Hidden (ltb 0 m.token_step) _ _
                  (c, (ha, one_less m.token_step 1 ht, hr, one_less m.token_step 2 d)) (c, tt)
            | k' ↦ transfer_step-IsSafe m.token_step m k' refl (c, (ha, ht, hr, d))
          ]
