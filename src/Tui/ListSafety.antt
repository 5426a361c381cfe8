-- ===== src/Tui/ListSafety.antt =====
-- The indices of the views that burn, list and look up a token (internal/tui/update.go).
use sg_emulator.Base.{ℕ, zero, suc, ◌≤◌, ◌≡◌, refl, length, arith, ltb, ◌==◌, inl, inr, ◌+◌}
use sg_emulator.Client.{burn_token_signed, lookup_token_signed}
use sg_emulator.Tui.State.{View, Key, Model, World, Status}
use sg_emulator.Tui.Effects.{refresh_tokens, refresh_tokens_for_index}
use sg_emulator.Tui.Accounts.{is_empty}
use sg_emulator.Tui.Holdings.{
  own_account, burn_chosen, burn_pick, burn_step, update_burn_token, list_back, list_account,
  list_tokens, list_step, update_token_list, lookup_account, lookup_chosen, lookup_text,
  lookup_answer, lookup_back, lookup_step, update_lookup_token, found,
}
use sg_emulator.Tui.Answers.{burn_token_signed-IsAnswer, lookup_token_signed-IsAnswer}
use sg_emulator.Tui.Ranges.{move_up-lt, move_down-lt}
use sg_emulator.Tui.Rules.{or_panic-IsSafe, perform-IsSafe}
use sg_emulator.Tui.AccountSafety.{if-IsSafe, if-IsInRange}
use sg_emulator.Tui.TokenSafety.{finished-IsSafe}
use sg_emulator.Tui.HoldingSafety.{offer_own-IsInRange, not_first, one_less}
use sg_emulator.Tui.Invariant.{InView, IsInRange, IsSafe, IsPopulated}

module _ (Hidden : Type 0) (w : World) (populated : IsPopulated w) where
  burn_account-IsSafe :
      (m : Model) (k : Key)
      → m.token_step ≡ 0
      → IsInRange Hidden (record m { view = View.burn_token })
      → IsSafe Hidden (own_account w (record m { view = View.burn_token }) k)
  unfolding refresh_tokens refresh_tokens_for_index IsSafe IsInRange InView
  burn_account-IsSafe m k e (c, ((two, ha), ht)) =
      elim k as (λ k. IsSafe Hidden (own_account w (record m { view = View.burn_token }) k)) [
        | Key.up p ↦ (c, ((two, move_up-lt _ m.token_account_index ha), ht))
        | Key.down p ↦ (c, ((two, move_down-lt _ m.token_account_index ha), ht))
        | Key.enter ↦
            offer_own-IsInRange Hidden w populated
              (refresh_tokens w (record m { view = View.burn_token }))
              (c, ((two, ha), inl (omega (arith, e)))) λ h. (c, ((two, ha), inr h))
        | _ ↦ (c, ((two, ha), ht))
      ]

  burn_chosen-IsSafe :
      (m : Model)
      → 1 ≤ m.token_step
      → IsInRange Hidden (record m { view = View.burn_token })
      → IsSafe Hidden (burn_chosen w (record m { view = View.burn_token }))
  unfolding burn_chosen IsInRange InView
  burn_chosen-IsSafe m e (c, ((two, ha), ht)) =
      or_panic-IsSafe Hidden m.cached_accounts m.token_account_index _ ha λ owner.
        or_panic-IsSafe Hidden m.cached_tokens m.token_token_index _ (not_first m.token_step 1 e ht)
          λ token.
            perform-IsSafe Hidden w _ _ (burn_token_signed w.deliver) owner _ _
              (burn_token_signed-IsAnswer w.deliver) (c, ((two, ha), ht))
              λ u cache. finished-IsSafe Hidden w populated Status.burned _ c

  burn_pick-IsSafe :
      (m : Model) (k : Key)
      → m.token_step ≡ 1
      → IsInRange Hidden (record m { view = View.burn_token })
      → IsSafe Hidden (burn_pick w (record m { view = View.burn_token }) k)
  unfolding IsSafe IsInRange InView
  burn_pick-IsSafe m k e (c, ((two, ha), ht)) =
      let t = not_first m.token_step 1 (omega (arith, e)) ht in
      elim k as (λ k. IsSafe Hidden (burn_pick w (record m { view = View.burn_token }) k)) [
        | Key.up p ↦ (c, ((two, ha), inr (move_up-lt _ m.token_token_index t)))
        | Key.down p ↦ (c, ((two, ha), inr (move_down-lt _ m.token_token_index t)))
        | Key.enter ↦ burn_chosen-IsSafe m (omega (arith, e)) (c, ((two, ha), ht))
        | _ ↦ (c, ((two, ha), ht))
      ]

  burn_step-IsSafe :
      (n : ℕ) (m : Model) (k : Key)
      → m.token_step ≡ n
      → IsInRange Hidden (record m { view = View.burn_token })
      → IsSafe Hidden (burn_step w n (record m { view = View.burn_token }) k)
  unfolding IsSafe
  burn_step-IsSafe zero m k e h = burn_account-IsSafe m k e h
  burn_step-IsSafe (suc zero) m k e h = burn_pick-IsSafe m k e h
  burn_step-IsSafe (suc (suc n)) m k e h = h

  pub update_burn_token-IsSafe :
      (m : Model) (k : Key)
      → IsInRange Hidden (record m { view = View.burn_token })
      → IsSafe Hidden (update_burn_token w (record m { view = View.burn_token }) k)
  unfolding update_burn_token IsSafe IsInRange InView
  update_burn_token-IsSafe m k (c, (ha, ht)) =
      elim k as (λ k. IsSafe Hidden (update_burn_token w (record m { view = View.burn_token }) k)) [
        | Key.esc ↦
            if-IsInRange Hidden (ltb 0 m.token_step) _ _ (c, (ha, one_less m.token_step 1 ht))
              (c, tt)
        | k' ↦ burn_step-IsSafe m.token_step m k' refl (c, (ha, ht))
      ]

  list_step-IsSafe :
      (n : ℕ) (m : Model) (k : Key)
      → IsInRange Hidden (record m { view = View.token_list })
      → IsSafe Hidden (list_step w n (record m { view = View.token_list }) k)
  unfolding refresh_tokens refresh_tokens_for_index IsSafe IsInRange InView
  list_step-IsSafe zero m k (c, (two, ha)) =
      elim k as (λ k. IsSafe Hidden (list_account w (record m { view = View.token_list }) k)) [
        | Key.up p ↦ (c, (two, move_up-lt _ m.token_account_index ha))
        | Key.down p ↦ (c, (two, move_down-lt _ m.token_account_index ha))
        | _ ↦ (c, (two, ha))
      ]
  list_step-IsSafe (suc zero) m k h =
      elim k as (λ k. IsSafe Hidden (list_tokens (record m { view = View.token_list }) k)) [
        | Key.up p ↦ if-IsInRange Hidden (ltb 0 m.token_token_index) _ _ h h
        | Key.down p ↦
            if-IsInRange Hidden (ltb (m.token_token_index + 1) (length m.cached_tokens)) _ _ h h
        | _ ↦ h
      ]
  list_step-IsSafe (suc (suc n)) m k h = h

  list_back-IsInRange :
      (m : Model)
      → IsInRange Hidden (record m { view = View.token_list })
      → IsInRange Hidden (list_back (record m { view = View.token_list }))
  unfolding IsInRange InView
  list_back-IsInRange m h = if-IsInRange Hidden (ltb 0 m.token_step) _ _ h (h.0, tt)

  pub update_token_list-IsSafe :
      (m : Model) (k : Key)
      → IsInRange Hidden (record m { view = View.token_list })
      → IsSafe Hidden (update_token_list w (record m { view = View.token_list }) k)
  unfolding update_token_list IsSafe
  update_token_list-IsSafe m k h =
      elim k as (λ k. IsSafe Hidden (update_token_list w (record m { view = View.token_list }) k)) [
        | Key.esc ↦ list_back-IsInRange m h
        | Key.q ↦ list_back-IsInRange m h
        | k' ↦ list_step-IsSafe m.token_step m k' h
      ]

  lookup_chosen-IsSafe :
      (m : Model)
      → IsInRange Hidden (record m { view = View.lookup_token })
      → IsSafe Hidden (lookup_chosen w (record m { view = View.lookup_token }))
  unfolding lookup_chosen IsSafe IsInRange InView
  lookup_chosen-IsSafe m h = if-IsSafe Hidden (is_empty m.lookup_token_input.value) _ _ h (
      or_panic-IsSafe Hidden m.cached_accounts m.token_account_index _ h.1.1.1 λ signer.
        perform-IsSafe Hidden w _ _ (lookup_token_signed w.deliver) signer _ found
          (lookup_token_signed-IsAnswer w.deliver) h λ t cache. h)

  lookup_step-IsSafe :
      (n : ℕ) (m : Model) (k : Key)
      → IsInRange Hidden (record m { view = View.lookup_token })
      → IsSafe Hidden (lookup_step w n (record m { view = View.lookup_token }) k)
  unfolding IsSafe IsInRange InView
  lookup_step-IsSafe zero m k (c, (hidden, (two, ha))) =
      elim k as (λ k. IsSafe Hidden (lookup_account (record m { view = View.lookup_token }) k)) [
        | Key.up p ↦ (c, (hidden, (two, move_up-lt _ m.token_account_index ha)))
        | Key.down p ↦ (c, (hidden, (two, move_down-lt _ m.token_account_index ha)))
        | _ ↦ (c, (hidden, (two, ha)))
      ]
  lookup_step-IsSafe (suc zero) m k h =
      elim k as (λ k. IsSafe Hidden (lookup_text w (record m { view = View.lookup_token }) k)) [
        | Key.enter ↦ lookup_chosen-IsSafe m h
        | _ ↦ h
      ]
  lookup_step-IsSafe (suc (suc zero)) m k h =
      elim k as (λ k. IsSafe Hidden (lookup_answer (record m { view = View.lookup_token }) k)) [
        | Key.enter ↦ (h.0, tt)
        | Key.q ↦ (h.0, tt)
        | _ ↦ h
      ]
  lookup_step-IsSafe (suc (suc (suc n))) m k h = h

  lookup_back-IsInRange :
      (m : Model)
      → IsInRange Hidden (record m { view = View.lookup_token })
      → IsInRange Hidden (lookup_back (record m { view = View.lookup_token }))
  unfolding IsInRange InView
  lookup_back-IsInRange m h =
      if-IsInRange Hidden (m.token_step == 2) _ _ h
        (if-IsInRange Hidden (ltb 0 m.token_step) _ _ h (h.0, tt))

  pub update_lookup_token-IsSafe :
      (m : Model) (k : Key)
      → IsInRange Hidden (record m { view = View.lookup_token })
      → IsSafe Hidden (update_lookup_token w (record m { view = View.lookup_token }) k)
  unfolding update_lookup_token IsSafe
  update_lookup_token-IsSafe m k h =
      elim k
        as (λ k. IsSafe Hidden (update_lookup_token w (record m { view = View.lookup_token }) k)) [
          | Key.esc ↦ lookup_back-IsInRange m h
          | k' ↦ lookup_step-IsSafe m.token_step m k' h
        ]
