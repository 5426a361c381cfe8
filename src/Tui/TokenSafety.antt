-- ===== src/Tui/TokenSafety.antt =====
-- The indices of the token menu and of the view that mints a token (internal/tui/update.go).
use sg_emulator.Base.{
  ℕ, zero, suc, ◌≤◌, ◌<◌, Option, none, some, List, [], length, arith, ltb, ◌==◌,
}
use sg_emulator.Id.{ScalegraphId}
use sg_emulator.Client.{mint_token_signed}
use sg_emulator.Tui.State.{View, Key, Model, World, Outcome, Status}
use sg_emulator.Tui.Accounts.{is_empty}
use sg_emulator.Tui.Tokens.{
  token_menu_item_count, update_token_menu, open_token_item, reset_steps, finished, mint_step,
  mint_account, mint_value, mint_clawback, mint_freeze, mint_chosen, mint_back, chosen, preview,
  update_mint_token,
}
use sg_emulator.Tui.Answers.{mint_token_signed-IsAnswer}
use sg_emulator.Tui.Ranges.{move_up-lt, move_down-lt, move_up-le, move_down-le}
use sg_emulator.Tui.Rules.{
  or_panic-IsSafe, refresh_anyway-IsSafe, refresh_into-IsSafe, perform-IsSafe,
}
use sg_emulator.Tui.AccountSafety.{if-IsInRange}
use sg_emulator.Tui.Invariant.{InView, IsInRange, IsSafe, IsPopulated}

module _ (Hidden : Type 0) (w : World) (populated : IsPopulated w) where
  -- Entering a view of tokens: every index is 0, and the item is one of the first eight.
  open_token_item-IsInRange :
      (n : ℕ) (m : Model) (l : List ScalegraphId)
      → n < token_menu_item_count
      → m.token_menu_cursor < token_menu_item_count
      → 2 ≤ length l
      → IsInRange Hidden (
          open_token_item n (record (reset_steps m) {
            view = View.token_menu;
            cached_accounts = l;
            cached_tokens = [];
          }))
  unfolding IsInRange InView
  open_token_item-IsInRange n m l h c two = ground arith

  pub update_token_menu-IsSafe :
      (m : Model) (k : Key)
      → IsInRange Hidden (record m { view = View.token_menu })
      → IsSafe Hidden (update_token_menu w (record m { view = View.token_menu }) k)
  unfolding update_token_menu IsSafe IsInRange InView
  update_token_menu-IsSafe m k h =
      elim k as (λ k. IsSafe Hidden (update_token_menu w (record m { view = View.token_menu }) k)) [
        | Key.esc ↦ h
        | Key.up p ↦ (move_up-lt _ m.token_menu_cursor h.0, tt)
        | Key.down p ↦ (move_down-lt _ m.token_menu_cursor h.0, tt)
        | Key.enter ↦
            refresh_into-IsSafe Hidden w populated _ _ h
              λ l two. open_token_item-IsInRange m.token_menu_cursor m l h.0 h.0 two
        | _ ↦ h
      ]

  -- A view is left for the token menu when its work is done.
  pub finished-IsSafe :
      (status : Status) (m : Model)
      → m.token_menu_cursor < token_menu_item_count
      → IsSafe Hidden (finished w status m)
  unfolding IsSafe IsInRange InView
  finished-IsSafe status m c =
      refresh_anyway-IsSafe Hidden w populated m _ (λ l two. (c, tt)) (c, tt)

  -- The first item of a list of addresses is no account.
  chosen-IsSafe :
      (l : List ScalegraphId) (i : ℕ) (f : Option ScalegraphId → Outcome)
      → i ≤ length l
      → ((o : Option ScalegraphId) → IsSafe Hidden (f o))
      → IsSafe Hidden (chosen l i f)
  chosen-IsSafe l zero f h k = k none
  chosen-IsSafe l (suc i) f h k = or_panic-IsSafe Hidden l i _ (omega (arith, h)) λ id. k (some id)

  mint_chosen-IsSafe :
      (m : Model)
      → IsInRange Hidden (record m { view = View.mint_token })
      → IsSafe Hidden (mint_chosen w (record m { view = View.mint_token }))
  unfolding mint_chosen IsInRange InView
  mint_chosen-IsSafe m h =
      chosen-IsSafe m.cached_accounts m.token_clawback_index _ h.1.1 λ clawback.
        chosen-IsSafe m.cached_accounts m.token_freeze_index _ h.1.2 λ freeze.
          or_panic-IsSafe Hidden m.cached_accounts m.token_account_index _ h.1.0.1 λ signer.
            perform-IsSafe Hidden w _ _ (mint_token_signed w.deliver) signer _ _
              (mint_token_signed-IsAnswer w.deliver) h
              λ id cache. finished-IsSafe (Status.token_minted (preview id)) _ h.0

  mint_account-IsSafe :
      (m : Model) (k : Key)
      → IsInRange Hidden (record m { view = View.mint_token })
      → IsSafe Hidden (mint_account (record m { view = View.mint_token }) k)
  unfolding IsSafe IsInRange InView
  mint_account-IsSafe m k (c, ((two, ha), hc, hf)) =
      elim k as (λ k. IsSafe Hidden (mint_account (record m { view = View.mint_token }) k)) [
        | Key.up p ↦ (c, ((two, move_up-lt _ m.token_account_index ha), hc, hf))
        | Key.down p ↦ (c, ((two, move_down-lt _ m.token_account_index ha), hc, hf))
        | _ ↦ (c, ((two, ha), hc, hf))
      ]

  mint_value-IsSafe :
      (m : Model) (k : Key)
      → IsInRange Hidden (record m { view = View.mint_token })
      → IsSafe Hidden (mint_value w (record m { view = View.mint_token }) k)
  unfolding IsSafe IsInRange InView
  mint_value-IsSafe m k (c, (ha, hc, hf)) =
      elim k as (λ k. IsSafe Hidden (mint_value w (record m { view = View.mint_token }) k)) [
        | Key.enter ↦
            if-IsInRange Hidden (is_empty m.token_value_input.value) _ _ (c, (ha, hc, hf))
              (c, (ha, omega arith, hf))
        | _ ↦ (c, (ha, hc, hf))
      ]

  mint_clawback-IsSafe :
      (m : Model) (k : Key)
      → IsInRange Hidden (record m { view = View.mint_token })
      → IsSafe Hidden (mint_clawback (record m { view = View.mint_token }) k)
  unfolding IsSafe IsInRange InView
  mint_clawback-IsSafe m k (c, (ha, hc, hf)) =
      elim k as (λ k. IsSafe Hidden (mint_clawback (record m { view = View.mint_token }) k)) [
        | Key.up p ↦ (c, (ha, move_up-le _ m.token_clawback_index hc, hf))
        | Key.down p ↦ (c, (ha, move_down-le _ m.token_clawback_index hc, hf))
        | Key.enter ↦ (c, (ha, hc, omega arith))
        | _ ↦ (c, (ha, hc, hf))
      ]

  mint_freeze-IsSafe :
      (m : Model) (k : Key)
      → IsInRange Hidden (record m { view = View.mint_token })
      → IsSafe Hidden (mint_freeze w (record m { view = View.mint_token }) k)
  unfolding IsSafe IsInRange InView
  mint_freeze-IsSafe m k (c, (ha, hc, hf)) =
      elim k as (λ k. IsSafe Hidden (mint_freeze w (record m { view = View.mint_token }) k)) [
        | Key.up p ↦ (c, (ha, hc, move_up-le _ m.token_freeze_index hf))
        | Key.down p ↦ (c, (ha, hc, move_down-le _ m.token_freeze_index hf))
        | Key.enter ↦ mint_chosen-IsSafe m (c, (ha, hc, hf))
        | _ ↦ (c, (ha, hc, hf))
      ]

  mint_back-IsInRange :
      (m : Model)
      → IsInRange Hidden (record m { view = View.mint_token })
      → IsInRange Hidden (mint_back (record m { view = View.mint_token }))
  unfolding IsInRange InView
  mint_back-IsInRange m h =
      if-IsInRange Hidden (m.token_step == 2) _ _ h
        (if-IsInRange Hidden (ltb 0 m.token_step) _ _ h (h.0, tt))

  mint_step-IsSafe :
      (n : ℕ) (m : Model) (k : Key)
      → IsInRange Hidden (record m { view = View.mint_token })
      → IsSafe Hidden (mint_step w n (record m { view = View.mint_token }) k)
  unfolding IsSafe
  mint_step-IsSafe zero m k h = mint_account-IsSafe m k h
  mint_step-IsSafe (suc zero) m k h = mint_value-IsSafe m k h
  mint_step-IsSafe (suc (suc zero)) m k h = mint_clawback-IsSafe m k h
  mint_step-IsSafe (suc (suc (suc zero))) m k h = mint_freeze-IsSafe m k h
  mint_step-IsSafe (suc (suc (suc (suc n)))) m k h = h

  pub update_mint_token-IsSafe :
      (m : Model) (k : Key)
      → IsInRange Hidden (record m { view = View.mint_token })
      → IsSafe Hidden (update_mint_token w (record m { view = View.mint_token }) k)
  unfolding update_mint_token IsSafe
  update_mint_token-IsSafe m k h =
      elim k as (λ k. IsSafe Hidden (update_mint_token w (record m { view = View.mint_token }) k)) [
        | Key.esc ↦ mint_back-IsInRange m h
        | k' ↦ mint_step-IsSafe m.token_step m k' h
      ]
