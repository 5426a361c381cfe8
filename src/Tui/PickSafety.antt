-- ===== src/Tui/PickSafety.antt =====
-- The indices of the views in which an account picks another account's token
-- (internal/tui/update.go). They differ in the view to which they belong.
use sg_emulator.Base.{
  some, ℕ, zero, suc, ◌<◌, ◌≡◌, refl, List, length, arith, ltb, inl, inr, ◌-◌, Bool-cases,
}
use sg_emulator.Id.{ScalegraphId}
use sg_emulator.Token.{Token}
use sg_emulator.Client.{
  authorize_token_transfer_signed, unauthorize_token_transfer_signed, clawback_token_signed,
  freeze_token_signed, unfreeze_token_signed,
}
use sg_emulator.Tui.State.{View, Key, Model, World, Status}
use sg_emulator.Tui.Effects.{refresh_tokens_for_index}
use sg_emulator.Tui.Accounts.{is_empty}
use sg_emulator.Tui.Tokens.{token_menu_item_count}
use sg_emulator.Tui.Pick.{
  Task, offer, offer_matching, offer_tokens, eligible, filter, act, act_chosen, pick_account,
  pick_source, pick_token, pick_step, update_picking,
}
use sg_emulator.Tui.Answers.{
  authorize-IsAnswer, unauthorize-IsAnswer, clawback_token_signed-IsAnswer,
  freeze_token_signed-IsAnswer, unfreeze_token_signed-IsAnswer,
}
use sg_emulator.Tui.Ranges.{move_up-lt, move_down-lt, at-some}
use sg_emulator.Tui.Rules.{or_panic-IsSafe, perform-IsSafe}
use sg_emulator.Tui.AccountSafety.{if-IsInRange}
use sg_emulator.Tui.SendSafety.{first_moved, second_up, second_down, second_begun, step_kept}
use sg_emulator.Tui.TokenSafety.{finished-IsSafe}
use sg_emulator.Tui.HoldingSafety.{is_empty-false, not_first, one_less}
use sg_emulator.Tui.Invariant.{InView, IsInRange, IsSafe, IsPopulated, IsPicking}

module _ (Hidden : Type 0) (w : World) (populated : IsPopulated w) (v : View)
    (into : (m : Model) → IsPicking m → InView Hidden v m) where
  -- A model of this view.
  abbrev here : Model → Model
  here m = record m { view = v }

  pick_account-IsSafe :
      (m : Model) (k : Key)
      → m.token_step ≡ 0
      → m.token_menu_cursor < token_menu_item_count
      → IsPicking m
      → IsSafe Hidden (pick_account w (here m) k)
  unfolding IsSafe IsInRange
  pick_account-IsSafe m k e c (p, t) = elim k as (λ k. IsSafe Hidden (pick_account w (here m) k)) [
    | Key.up x ↦ (c, into _ (first_moved _ _ _ _ _ (move_up-lt _ m.token_account_index p.1) e p, t))
    | Key.down x ↦
        (c, into _ (first_moved _ _ _ _ _ (move_down-lt _ m.token_account_index p.1) e p, t))
    | Key.enter ↦
        if-IsInRange Hidden (ltb (length m.cached_accounts) 2) _ _ (c, into _ (p, t))
          (c, into _ (second_begun _ m.token_step 1 _ _ p, inl (omega arith)))
    | _ ↦ (c, into _ (p, t))
  ]

  offer-IsSafe :
      (m : Model) (l : List Token)
      → m.token_step ≡ 1
      → m.token_menu_cursor < token_menu_item_count
      → IsPicking m
      → IsSafe Hidden (offer (here m) l)
  unfolding IsSafe IsInRange
  offer-IsSafe m l e c (p, t) = elim (Bool-cases (is_empty l)) [
    | inl q ↦ rw q (c, into _ (p, t))
    | inr q ↦ rw q (
      c,
      into _
          (step_kept _ m.token_step 2 _ _ (λ z. omega (arith, e, z)) p, inr (is_empty-false l q)),
    )
  ]

  offer_matching-IsSafe :
      (task : Task) (m : Model)
      → m.token_step ≡ 1
      → m.token_menu_cursor < token_menu_item_count
      → IsPicking m
      → IsSafe Hidden (offer_matching task (here m))
  offer_matching-IsSafe task m e c (p, t) =
      or_panic-IsSafe Hidden m.cached_accounts m.token_account_index _ p.1
        λ id. offer-IsSafe m (filter (eligible task id) m.cached_tokens) e c (p, t)

  offer_tokens-IsSafe :
      (task : Task) (m : Model)
      → m.token_step ≡ 1
      → m.token_menu_cursor < token_menu_item_count
      → IsPicking m
      → IsSafe Hidden (offer_tokens task (here m))
  offer_tokens-IsSafe Task.authorize m e c h = offer-IsSafe m m.cached_tokens e c h
  offer_tokens-IsSafe Task.unauthorize m e c h = offer-IsSafe m m.cached_tokens e c h
  offer_tokens-IsSafe Task.clawback m e c h = offer_matching-IsSafe Task.clawback m e c h
  offer_tokens-IsSafe Task.freeze m e c h = offer_matching-IsSafe Task.freeze m e c h
  offer_tokens-IsSafe Task.unfreeze m e c h = offer_matching-IsSafe Task.unfreeze m e c h

  pick_source-IsSafe :
      (task : Task) (m : Model) (k : Key)
      → m.token_step ≡ 1
      → m.token_menu_cursor < token_menu_item_count
      → IsPicking m
      → IsSafe Hidden (pick_source w task (here m) k)
  unfolding refresh_tokens_for_index IsSafe IsInRange
  pick_source-IsSafe task m k e c (p, t) =
      elim k as (λ k. IsSafe Hidden (pick_source w task (here m) k)) [
        | Key.up x ↦ (c, into _ (second_up _ m.token_step _ _ (omega (arith, e)) p, t))
        | Key.down x ↦ (c, into _ (second_down _ m.token_step _ _ (omega (arith, e)) p, t))
        | Key.enter ↦
            offer_tokens-IsSafe task (refresh_tokens_for_index w m.token_source_index m) e c
              (p, inl (omega (arith, e)))
        | _ ↦ (c, into _ (p, t))
      ]

  act-IsSafe :
      (task : Task) (first source : ScalegraphId) (token : Token) (m : Model)
      → m.token_menu_cursor < token_menu_item_count
      → IsPicking m
      → IsSafe Hidden (act w task first (some source) token (here m))
  unfolding act IsInRange
  act-IsSafe Task.authorize first source token m c h =
      perform-IsSafe Hidden w _ _ (authorize_token_transfer_signed w.deliver) first _ _
        (authorize-IsAnswer w.deliver) (c, into _ h)
        λ u cache. finished-IsSafe Hidden w populated Status.authorized _ c
  act-IsSafe Task.unauthorize first source token m c h =
      perform-IsSafe Hidden w _ _ (unauthorize_token_transfer_signed w.deliver) first _ _
        (unauthorize-IsAnswer w.deliver) (c, into _ h)
        λ u cache. finished-IsSafe Hidden w populated Status.unauthorized _ c
  act-IsSafe Task.clawback first source token m c h =
      perform-IsSafe Hidden w _ _ (clawback_token_signed w.deliver) first _ _
        (clawback_token_signed-IsAnswer w.deliver) (c, into _ h)
        λ u cache. finished-IsSafe Hidden w populated Status.clawed_back _ c
  act-IsSafe Task.freeze first source token m c h =
      perform-IsSafe Hidden w _ _ (freeze_token_signed w.deliver) first _ _
        (freeze_token_signed-IsAnswer w.deliver) (c, into _ h)
        λ u cache. finished-IsSafe Hidden w populated Status.frozen _ c
  act-IsSafe Task.unfreeze first source token m c h =
      perform-IsSafe Hidden w _ _ (unfreeze_token_signed w.deliver) first _ _
        (unfreeze_token_signed-IsAnswer w.deliver) (c, into _ h)
        λ u cache. finished-IsSafe Hidden w populated Status.unfrozen _ c

  pick_token-IsSafe :
      (task : Task) (m : Model) (k : Key)
      → m.token_step ≡ 2
      → m.token_menu_cursor < token_menu_item_count
      → IsPicking m
      → IsSafe Hidden (pick_token w task (here m) k)
  unfolding act_chosen IsSafe IsInRange
  pick_token-IsSafe task m k e c (p, t) =
      let token = not_first m.token_step 2 (omega (arith, e)) t in
      elim k as (λ k. IsSafe Hidden (pick_token w task (here m) k)) [
        | Key.up x ↦ (c, into _ (p, inr (move_up-lt _ m.token_token_index token)))
        | Key.down x ↦ (c, into _ (p, inr (move_down-lt _ m.token_token_index token)))
        | Key.enter ↦ or_panic-IsSafe Hidden m.cached_tokens m.token_token_index _ token λ tok.
            or_panic-IsSafe Hidden m.cached_accounts m.token_account_index _ p.1 λ first.
              let (source, e') = at-some m.cached_accounts m.token_source_index p.2 in
              rw e' (act-IsSafe task first source tok m c (p, t))
        | _ ↦ (c, into _ (p, t))
      ]

  pick_step-IsSafe :
      (task : Task) (n : ℕ) (m : Model) (k : Key)
      → m.token_step ≡ n
      → m.token_menu_cursor < token_menu_item_count
      → IsPicking m
      → IsSafe Hidden (pick_step w task n (here m) k)
  unfolding IsSafe IsInRange
  pick_step-IsSafe task zero m k e c h = pick_account-IsSafe m k e c h
  pick_step-IsSafe task (suc zero) m k e c h = pick_source-IsSafe task m k e c h
  pick_step-IsSafe task (suc (suc zero)) m k e c h = pick_token-IsSafe task m k e c h
  pick_step-IsSafe task (suc (suc (suc n))) m k e c h = (c, into _ h)

  pub update_picking-IsSafe :
      (task : Task) (m : Model) (k : Key)
      → m.token_menu_cursor < token_menu_item_count
      → IsPicking m
      → IsSafe Hidden (update_picking w task (here m) k)
  unfolding update_picking IsSafe IsInRange InView
  update_picking-IsSafe task m k c (p, t) =
      elim k as (λ k. IsSafe Hidden (update_picking w task (here m) k)) [
        | Key.esc ↦
            if-IsInRange Hidden (ltb 0 m.token_step) _ _
              (
                c,
                into _ (
                  step_kept _ m.token_step (m.token_step - 1) _ _ (λ z. omega (arith, z)) p,
                  one_less m.token_step 2 t,
                ),
              )
              (c, tt)
        | k' ↦ pick_step-IsSafe task m.token_step m k' refl c (p, t)
      ]
