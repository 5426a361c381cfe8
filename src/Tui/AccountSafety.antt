-- ===== src/Tui/AccountSafety.antt =====
-- The indices of the views of accounts (internal/tui/update.go).
use sg_emulator.Base.{
  ℕ, zero, suc, ◌<◌, refl, Bool, true, false, Option, none, some, arith, ltb, ◌==◌, if◌then◌else◌,
  inl, ◌+◌,
}
use sg_emulator.Base.Int.{ℤ, pos, ltb_ℤ}
use sg_emulator.Tui.State.{View, Key, Model, World, Outcome, Status}
use sg_emulator.Tui.Moves.{at}
use sg_emulator.Tui.Effects.{create_account_with_ca, map_error}
use sg_emulator.Tui.Accounts.{
  update_menu, update_create_account, update_account_detail, update_account_detail_single,
  update_transaction_detail, open_item, create_with, edit_focused, refocus, single, is_empty,
  next_focus, previous_focus, selected_count,
}
use sg_emulator.Tui.Answers.{map_error-IsAnswer, create_account_with_ca-IsAnswer}
use sg_emulator.Tui.Ranges.{move_up-lt, move_down-lt}
use sg_emulator.Tui.Rules.{
  or_status-IsSafe, or_panic-IsSafe, refresh_anyway-IsSafe, refresh_into-IsSafe,
}
use sg_emulator.Tui.Invariant.{InView, IsInRange, IsSafe, IsPopulated}
use sg_emulator.Tui.Tokens.{token_menu_item_count}

pub if-IsInRange :
    (Hidden : Type 0) (b : Bool) (m n : Model)
    → IsInRange Hidden m
    → IsInRange Hidden n
    → IsInRange Hidden (if b then m else n)
if-IsInRange Hidden true m n hm hn = hm
if-IsInRange Hidden false m n hm hn = hn

pub if-IsSafe :
    (Hidden : Type 0) (b : Bool) (x y : Outcome)
    → IsSafe Hidden x
    → IsSafe Hidden y
    → IsSafe Hidden (if b then x else y)
if-IsSafe Hidden true x y hx hy = hx
if-IsSafe Hidden false x y hx hy = hy

module _ (Hidden : Type 0) (w : World) (populated : IsPopulated w) where
  open_item-IsSafe :
      (m : Model) (n : ℕ)
      → m.token_menu_cursor < token_menu_item_count
      → IsSafe Hidden (open_item w (record m { view = View.menu }) n)
  unfolding IsSafe IsInRange InView
  open_item-IsSafe m zero cursor = (cursor, tt)
  open_item-IsSafe m (suc zero) cursor =
      refresh_into-IsSafe Hidden w populated (record m { view = View.menu }) _ (cursor, tt)
        λ l two. (cursor, omega (arith, two))
  open_item-IsSafe m (suc (suc zero)) cursor =
      refresh_into-IsSafe Hidden w populated (record m { view = View.menu }) _ (cursor, tt)
        λ l two. (cursor, (two, omega (arith, two), omega (arith, two), inl refl))
  open_item-IsSafe m (suc (suc (suc zero))) cursor = (cursor, tt)
  open_item-IsSafe m (suc (suc (suc (suc zero)))) cursor =
      refresh_into-IsSafe Hidden w populated (record m { view = View.menu }) _ (cursor, tt)
        λ l two. (omega arith, tt)
  open_item-IsSafe m (suc (suc (suc (suc (suc n))))) cursor = (cursor, tt)

  pub update_menu-IsSafe :
      (m : Model) (k : Key)
      → IsInRange Hidden (record m { view = View.menu })
      → IsSafe Hidden (update_menu w (record m { view = View.menu }) k)
  unfolding update_menu IsSafe IsInRange InView
  update_menu-IsSafe m Key.q h = tt
  update_menu-IsSafe m Key.enter h =
      open_item-IsSafe (record m { status_msg = Status.empty }) m.menu_cursor h.0
  update_menu-IsSafe m (Key.up p) h = h
  update_menu-IsSafe m (Key.down p) h = h
  update_menu-IsSafe m Key.ctrl_c h = h
  update_menu-IsSafe m Key.esc h = h
  update_menu-IsSafe m Key.tab h = h
  update_menu-IsSafe m Key.shift_tab h = h
  update_menu-IsSafe m Key.backspace h = h
  update_menu-IsSafe m (Key.other t) h = h

  refocus-IsInRange :
      (m : Model) (n : ℕ)
      → IsInRange Hidden (record m { view = View.create_account })
      → IsInRange Hidden (refocus n (record m { view = View.create_account }))
  unfolding IsInRange InView
  refocus-IsInRange m zero h = h
  refocus-IsInRange m (suc zero) h = h
  refocus-IsInRange m (suc (suc n)) h = h

  edit_focused-IsInRange :
      (m : Model) (n : ℕ) (k : Key)
      → IsInRange Hidden (record m { view = View.create_account })
      → IsInRange Hidden (edit_focused w k n (record m { view = View.create_account }))
  unfolding IsInRange InView
  edit_focused-IsInRange m zero k h = h
  edit_focused-IsInRange m (suc zero) k h = h
  edit_focused-IsInRange m (suc (suc n)) k h = h

  create_with-IsSafe :
      (m : Model) (o : Option ℤ)
      → IsInRange Hidden (record m { view = View.create_account })
      → IsSafe Hidden (create_with w (record m { view = View.create_account }) o)
  unfolding IsSafe IsInRange InView
  create_with-IsSafe m none h = h
  create_with-IsSafe m (some b) h = if-IsSafe Hidden (ltb_ℤ b (pos 0)) _ _ h (
      or_status-IsSafe Hidden (map_error Status.failed (create_account_with_ca w b)) _ _
        (map_error-IsAnswer Status.failed _ (create_account_with_ca-IsAnswer w b)) h
        λ u e. refresh_anyway-IsSafe Hidden w populated _ _ (λ l two. h) h)

  pub update_create_account-IsSafe :
      (m : Model) (k : Key)
      → IsInRange Hidden (record m { view = View.create_account })
      → IsSafe Hidden (update_create_account w (record m { view = View.create_account }) k)
  unfolding update_create_account IsSafe IsInRange InView
  update_create_account-IsSafe m Key.esc h = h
  update_create_account-IsSafe m Key.tab h =
      refocus-IsInRange m (next_focus m.create_account_focus) h
  update_create_account-IsSafe m Key.shift_tab h =
      refocus-IsInRange m (previous_focus m.create_account_focus) h
  update_create_account-IsSafe m Key.enter h =
      if-IsSafe Hidden (m.create_account_focus == 2) _ _
        (create_with-IsSafe m (w.parse_float m.balance_input.value) h)
        (refocus-IsInRange m (next_focus m.create_account_focus) h)
  update_create_account-IsSafe m Key.q h = edit_focused-IsInRange m m.create_account_focus Key.q h
  update_create_account-IsSafe m (Key.up p) h =
      edit_focused-IsInRange m m.create_account_focus (Key.up p) h
  update_create_account-IsSafe m (Key.down p) h =
      edit_focused-IsInRange m m.create_account_focus (Key.down p) h
  update_create_account-IsSafe m Key.ctrl_c h =
      edit_focused-IsInRange m m.create_account_focus Key.ctrl_c h
  update_create_account-IsSafe m Key.backspace h =
      edit_focused-IsInRange m m.create_account_focus Key.backspace h
  update_create_account-IsSafe m (Key.other t) h =
      edit_focused-IsInRange m m.create_account_focus (Key.other t) h

  -- The account's view is left with an account that is there.
  pub update_account_detail-IsSafe :
      (m : Model) (k : Key)
      → IsInRange Hidden (record m { view = View.account_detail })
      → IsSafe Hidden (update_account_detail w (record m { view = View.account_detail }) k)
  unfolding update_account_detail IsSafe IsInRange InView
  update_account_detail-IsSafe m Key.esc h = (h.0, tt)
  update_account_detail-IsSafe m Key.q h = (h.0, tt)
  update_account_detail-IsSafe m (Key.up p) h = (h.0, move_up-lt _ m.selected_account_index h.1)
  update_account_detail-IsSafe m (Key.down p) h = (h.0, move_down-lt _ m.selected_account_index h.1)
  update_account_detail-IsSafe m Key.enter h =
      if-IsSafe Hidden (is_empty m.cached_accounts) _ _ h
        (or_panic-IsSafe Hidden m.cached_accounts m.selected_account_index _ h.1 λ id. h)
  update_account_detail-IsSafe m Key.tab h = h
  update_account_detail-IsSafe m Key.shift_tab h = h
  update_account_detail-IsSafe m Key.ctrl_c h = h
  update_account_detail-IsSafe m Key.backspace h = h
  update_account_detail-IsSafe m (Key.other t) h = h

  single-IsSafe :
      (n : ℕ) (m : Model) (k : Key)
      → IsInRange Hidden (record m { view = View.account_detail_single })
      → IsSafe Hidden (single n (record m { view = View.account_detail_single }) k)
  unfolding IsSafe IsInRange InView
  single-IsSafe n m Key.esc h = h
  single-IsSafe n m Key.q h = h
  single-IsSafe n m (Key.up p) h =
      if-IsInRange Hidden (ltb (m.selected_transaction_index + 1) n) _ _ h h
  single-IsSafe n m (Key.down p) h =
      if-IsInRange Hidden (ltb 0 m.selected_transaction_index) _ _ h h
  single-IsSafe n m Key.enter h = if-IsInRange Hidden (ltb 0 n) _ _ h h
  single-IsSafe n m Key.tab h = h
  single-IsSafe n m Key.shift_tab h = h
  single-IsSafe n m Key.ctrl_c h = h
  single-IsSafe n m Key.backspace h = h
  single-IsSafe n m (Key.other t) h = h

  pub update_account_detail_single-IsSafe :
      (m : Model) (k : Key)
      → IsInRange Hidden (record m { view = View.account_detail_single })
      → IsSafe Hidden
          (update_account_detail_single w (record m { view = View.account_detail_single }) k)
  unfolding update_account_detail_single
  update_account_detail_single-IsSafe m k h =
      single-IsSafe (selected_count w (at m.cached_accounts m.selected_account_index)) m k h

  pub update_transaction_detail-IsSafe :
      (m : Model) (k : Key)
      → IsInRange Hidden (record m { view = View.transaction_detail })
      → IsSafe Hidden (update_transaction_detail (record m { view = View.transaction_detail }) k)
  unfolding update_transaction_detail IsSafe IsInRange InView
  update_transaction_detail-IsSafe m k h =
      elim k
        as (λ k.
          IsSafe Hidden
            (update_transaction_detail (record m { view = View.transaction_detail }) k)) [
              | Key.esc ↦ h
              | _ ↦ h
            ]
