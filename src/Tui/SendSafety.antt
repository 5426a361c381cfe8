-- ===== src/Tui/SendSafety.antt =====
-- The indices of the view of a payment (updateSendMoney of internal/tui/update.go), and two picked
-- accounts, one after the other.
use sg_emulator.Base.{
  ℕ, zero, suc, ◌≤◌, ◌<◌, ◌≡◌, ◌≢◌, refl, not, Option, none, some, arith, ltb, ◌==◌, ◌⊎◌, inl, inr,
  ◌-◌,
}
use sg_emulator.Base.Int.{ℤ, pos, ltb_ℤ}
use sg_emulator.Client.{transfer_signed}
use sg_emulator.Tui.State.{View, Key, Model, World}
use sg_emulator.Tui.Moves.{skip_up, skip_down, first_other}
use sg_emulator.Tui.Send.{
  update_send_money, update_virtual_nodes, send_payment, send_enter, send_up, send_down,
  transfer_payload, transfer_complete,
}
use sg_emulator.Tui.Answers.{transfer_signed-IsAnswer}
use sg_emulator.Tui.Ranges.{
  move_up-lt, move_down-lt, skip_up-lt, skip_up-ne, skip_down-lt, skip_down-ne, first_other-lt,
  first_other-ne,
}
use sg_emulator.Tui.Rules.{or_panic-IsSafe, refresh_anyway-IsSafe, perform-IsSafe}
use sg_emulator.Tui.AccountSafety.{if-IsSafe, if-IsInRange}
use sg_emulator.Tui.Invariant.{InView, IsInRange, IsSafe, IsPopulated, IsPicked}

-- The first account is picked again only while the second is not picked.
pub first_moved :
    (n step first second i : ℕ)
    → i < n
    → step ≡ 0
    → IsPicked n step first second
    → IsPicked n step i second
first_moved n step first second i h e (two, hf, hs, d) = (two, h, hs, inl e)

pub second_up :
    (n step first second : ℕ)
    → 1 ≤ step
    → IsPicked n step first second
    → IsPicked n step first (skip_up first second)
second_up n step first second pos_step (two, hf, hs, d) =
    (two, hf, skip_up-lt n first second hf hs two, second_apart d)
  where
    second_apart : (step ≡ 0) ⊎ (second ≢ first) → (step ≡ 0) ⊎ (skip_up first second ≢ first)
    second_apart (inl e) = absurd (omega (arith, e, pos_step))
    second_apart (inr ne) = inr (skip_up-ne first second ne)

pub second_down :
    (n step first second : ℕ)
    → 1 ≤ step
    → IsPicked n step first second
    → IsPicked n step first (skip_down n first second)
second_down n step first second pos_step (two, hf, hs, d) =
    (two, hf, skip_down-lt n first second hs, second_apart d)
  where
    second_apart : (step ≡ 0) ⊎ (second ≢ first) → (step ≡ 0) ⊎ (skip_down n first second ≢ first)
    second_apart (inl e) = absurd (omega (arith, e, pos_step))
    second_apart (inr ne) = inr (skip_down-ne n first second ne)

-- The second account is set when its step begins.
pub second_begun :
    (n step step' first second : ℕ)
    → IsPicked n step first second
    → IsPicked n step' first (first_other first)
second_begun n step step' first second (two, hf, hs, d) =
    (two, hf, first_other-lt n first two, inr (first_other-ne first))

-- A later step knows what an earlier one knew, and an earlier step asks for less.
pub step_kept :
    (n step step' first second : ℕ)
    → (step ≡ 0 → step' ≡ 0)
    → IsPicked n step first second
    → IsPicked n step' first second
step_kept n step step' first second h (two, hf, hs, d) = (two, hf, hs, ground (arith, d, h))

module _ (Hidden : Type 0) (w : World) (populated : IsPopulated w) where
  send_payment-IsSafe :
      (m : Model) (o : Option ℤ)
      → IsInRange Hidden (record m { view = View.send_money })
      → IsSafe Hidden (send_payment w (record m { view = View.send_money }) o)
  unfolding send_payment IsSafe IsInRange InView
  send_payment-IsSafe m none h = h
  send_payment-IsSafe m (some a) (c, (two, hf, hs, d)) =
      if-IsSafe Hidden (not (ltb_ℤ (pos 0) a)) _ _ (c, (two, hf, hs, d))
        (or_panic-IsSafe Hidden m.cached_accounts m.send_from_index _ hf λ from.
          or_panic-IsSafe Hidden m.cached_accounts m.send_to_index _ hs λ to.
            perform-IsSafe Hidden w _ (transfer_payload w from to a) (transfer_signed w.deliver)
              from _ (transfer_complete w) (transfer_signed-IsAnswer w.deliver)
              (c, (two, hf, hs, d))
              λ u cache. refresh_anyway-IsSafe Hidden w populated _ _ (λ l two. (c, tt)) (c, tt))

  send_enter-IsSafe :
      (m : Model) (n : ℕ)
      → m.send_step ≡ n
      → IsInRange Hidden (record m { view = View.send_money })
      → IsSafe Hidden (send_enter w (record m { view = View.send_money }) n)
  unfolding IsSafe IsInRange InView
  send_enter-IsSafe m zero e (c, h) = (c, second_begun _ _ 1 _ _ h)
  send_enter-IsSafe m (suc zero) e (c, h) =
      (c, step_kept _ m.send_step 2 _ _ (λ z. omega (arith, e, z)) h)
  send_enter-IsSafe m (suc (suc zero)) e h = send_payment-IsSafe m (w.parse_float m.send_amount) h
  send_enter-IsSafe m (suc (suc (suc n))) e h = h

  send_up-IsInRange :
      (m : Model) (n : ℕ)
      → m.send_step ≡ n
      → IsInRange Hidden (record m { view = View.send_money })
      → IsInRange Hidden (send_up n (record m { view = View.send_money }))
  unfolding IsInRange InView
  send_up-IsInRange m zero e (c, h) =
      (c, first_moved _ _ _ _ _ (move_up-lt _ m.send_from_index h.1) e h)
  send_up-IsInRange m (suc zero) e (c, h) = (c, second_up _ m.send_step _ _ (omega (arith, e)) h)
  send_up-IsInRange m (suc (suc n)) e h = h

  send_down-IsInRange :
      (m : Model) (n : ℕ)
      → m.send_step ≡ n
      → IsInRange Hidden (record m { view = View.send_money })
      → IsInRange Hidden (send_down n (record m { view = View.send_money }))
  unfolding IsInRange InView
  send_down-IsInRange m zero e (c, h) =
      (c, first_moved _ _ _ _ _ (move_down-lt _ m.send_from_index h.1) e h)
  send_down-IsInRange m (suc zero) e (c, h) =
      (c, second_down _ m.send_step _ _ (omega (arith, e)) h)
  send_down-IsInRange m (suc (suc n)) e h = h

  pub update_send_money-IsSafe :
      (m : Model) (k : Key)
      → IsInRange Hidden (record m { view = View.send_money })
      → IsSafe Hidden (update_send_money w (record m { view = View.send_money }) k)
  unfolding update_send_money IsSafe IsInRange InView
  update_send_money-IsSafe m k h =
      elim k as (λ k. IsSafe Hidden (update_send_money w (record m { view = View.send_money }) k)) [
        | Key.esc ↦
            if-IsInRange Hidden (ltb 0 m.send_step) _ _
              (h.0, step_kept _ m.send_step (m.send_step - 1) _ _ (λ z. omega (arith, z)) h.1)
              (h.0, tt)
        | Key.up p ↦ send_up-IsInRange m m.send_step refl h
        | Key.down p ↦ send_down-IsInRange m m.send_step refl h
        | Key.enter ↦ send_enter-IsSafe m m.send_step refl h
        | Key.backspace ↦ if-IsInRange Hidden (m.send_step == 2) _ _ h h
        | Key.other t ↦ if-IsInRange Hidden (m.send_step == 2) _ _ h h
        | _ ↦ h
      ]

  pub update_virtual_nodes-IsSafe :
      (m : Model) (k : Key)
      → IsInRange Hidden (record m { view = View.virtual_nodes })
      → IsSafe Hidden (update_virtual_nodes (record m { view = View.virtual_nodes }) k)
  unfolding update_virtual_nodes IsSafe IsInRange InView
  update_virtual_nodes-IsSafe m k h =
      elim k
        as (λ k. IsSafe Hidden (update_virtual_nodes (record m { view = View.virtual_nodes }) k)) [
          | Key.esc ↦ h
          | _ ↦ h
        ]
