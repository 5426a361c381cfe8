-- ===== src/Tui/Safety.antt =====
-- Sequences of messages to the terminal interface (Update of internal/tui/update.go).
use sg_emulator.Base.{ℕ, true, All, ◌≡◌, ◌≢◌, refl, subst, List, [], ◌∷◌, arith, some}
use sg_emulator.Base.Int.{ℤ, pos, ltb_ℤ}
use sg_emulator.Base.Action.{ok}
use sg_emulator.Account.{Account}
use sg_emulator.Client.{get_accounts}
use sg_emulator.Tui.State.{View, Key, Press, Message, Model, World, Outcome, new_model}
use sg_emulator.Tui.Pick.{
  Task, update_authorize_token_transfer, update_unauthorize_token_transfer, update_clawback_token,
  update_freeze_token, update_unfreeze_token,
}
use sg_emulator.Tui.Moves.{move_up, move_down, first_other, at, sort_slice, insert_by}
use sg_emulator.Tui.Effects.{refresh_accounts}
use sg_emulator.Tui.Accounts.{update_menu}
use sg_emulator.Tui.Send.{update_send_money, send_payment}
use sg_emulator.Tui.Update.{update_view, update, update_all, continue}
use sg_emulator.Tui.AccountSafety.{
  update_menu-IsSafe, update_create_account-IsSafe, update_account_detail-IsSafe,
  update_account_detail_single-IsSafe, update_transaction_detail-IsSafe,
}
use sg_emulator.Tui.SendSafety.{update_send_money-IsSafe, update_virtual_nodes-IsSafe}
use sg_emulator.Tui.TokenSafety.{update_token_menu-IsSafe, update_mint_token-IsSafe}
use sg_emulator.Tui.HoldingSafety.{update_transfer_token-IsSafe}
use sg_emulator.Tui.ListSafety.{
  update_burn_token-IsSafe, update_token_list-IsSafe, update_lookup_token-IsSafe,
}
use sg_emulator.Tui.PickSafety.{update_picking-IsSafe}
use sg_emulator.Tui.Invariant.{InView, IsInRange, IsSafe, IsPopulated}

module _ (Hidden : Type 0) where
  update_view-IsSafe :
      (w : World) (v : View) (m : Model) (k : Key)
      → IsPopulated w
      → IsInRange Hidden (record m { view = v })
      → IsSafe Hidden (update_view w v (record m { view = v }) k)
  unfolding update_view update_authorize_token_transfer update_unauthorize_token_transfer
      update_clawback_token update_freeze_token update_unfreeze_token IsInRange InView
  update_view-IsSafe w View.menu m k p h = update_menu-IsSafe Hidden w p m k h
  update_view-IsSafe w View.create_account m k p h = update_create_account-IsSafe Hidden w p m k h
  update_view-IsSafe w View.account_detail m k p h = update_account_detail-IsSafe Hidden w p m k h
  update_view-IsSafe w View.account_detail_single m k p h =
      update_account_detail_single-IsSafe Hidden w p m k h
  update_view-IsSafe w View.transaction_detail m k p h =
      update_transaction_detail-IsSafe Hidden w p m k h
  update_view-IsSafe w View.send_money m k p h = update_send_money-IsSafe Hidden w p m k h
  update_view-IsSafe w View.virtual_nodes m k p h = update_virtual_nodes-IsSafe Hidden w p m k h
  update_view-IsSafe w View.token_menu m k p h = update_token_menu-IsSafe Hidden w p m k h
  update_view-IsSafe w View.mint_token m k p h = update_mint_token-IsSafe Hidden w p m k h
  update_view-IsSafe w View.authorize_token_transfer m k p h =
      update_picking-IsSafe Hidden w p View.authorize_token_transfer (λ n i. i) Task.authorize m k
        h.0 h.1
  update_view-IsSafe w View.unauthorize_token_transfer m k p h =
      update_picking-IsSafe Hidden w p View.unauthorize_token_transfer (λ n i. i) Task.unauthorize m
        k h.0 h.1
  update_view-IsSafe w View.transfer_token m k p h = update_transfer_token-IsSafe Hidden w p m k h
  update_view-IsSafe w View.token_list m k p h = update_token_list-IsSafe Hidden w p m k h
  update_view-IsSafe w View.burn_token m k p h = update_burn_token-IsSafe Hidden w p m k h
  update_view-IsSafe w View.clawback_token m k p h =
      update_picking-IsSafe Hidden w p View.clawback_token (λ n i. i) Task.clawback m k h.0 h.1
  update_view-IsSafe w View.freeze_token m k p h =
      update_picking-IsSafe Hidden w p View.freeze_token (λ n i. i) Task.freeze m k h.0 h.1
  update_view-IsSafe w View.unfreeze_token m k p (c, (hidden, h)) =
      update_picking-IsSafe Hidden w p View.unfreeze_token (λ n i. (hidden, i)) Task.unfreeze m k c
        h
  update_view-IsSafe w View.lookup_token m k p h = update_lookup_token-IsSafe Hidden w p m k h

  resized-InView :
      (v : View) (m : Model) (width height : ℕ)
      → InView Hidden v m
      → InView Hidden v (record m { width = width; height = height; ready = true })
  unfolding InView
  resized-InView View.menu m width height h = h
  resized-InView View.create_account m width height h = h
  resized-InView View.account_detail m width height h = h
  resized-InView View.account_detail_single m width height h = h
  resized-InView View.transaction_detail m width height h = h
  resized-InView View.send_money m width height h = h
  resized-InView View.virtual_nodes m width height h = h
  resized-InView View.token_menu m width height h = h
  resized-InView View.mint_token m width height h = h
  resized-InView View.authorize_token_transfer m width height h = h
  resized-InView View.unauthorize_token_transfer m width height h = h
  resized-InView View.transfer_token m width height h = h
  resized-InView View.token_list m width height h = h
  resized-InView View.burn_token m width height h = h
  resized-InView View.clawback_token m width height h = h
  resized-InView View.freeze_token m width height h = h
  resized-InView View.unfreeze_token m width height h = h
  resized-InView View.lookup_token m width height h = h

  update-IsSafe :
      (w : World) (m : Model) (msg : Message)
      → IsPopulated w
      → IsInRange Hidden m
      → IsSafe Hidden (update w m msg)
  unfolding update IsSafe IsInRange
  update-IsSafe w m (Message.key k) p h =
      elim k as (λ k. IsSafe Hidden (update w m (Message.key k))) [
        | Key.ctrl_c ↦ tt
        | k' ↦ update_view-IsSafe w m.view m k' p h
      ]
  update-IsSafe w m (Message.window_size width height) p h =
      (h.0, resized-InView m.view m width height h.1)
  update-IsSafe w m Message.another p h = h

  continue-IsSafe :
      (o : Outcome) (f : Model → Outcome)
      → IsSafe Hidden o
      → ((m : Model) → IsInRange Hidden m → IsSafe Hidden (f m))
      → IsSafe Hidden (continue o f)
  unfolding IsSafe
  continue-IsSafe (Outcome.next m) f h k = k m h
  continue-IsSafe Outcome.quit f h k = tt
  continue-IsSafe Outcome.crash f h k = h

  -- From a model whose indices are in range, a sequence of messages, at each of which a fetch of the
  -- accounts gives at least two, ends without a panic, and in such a model unless the program quits:
  -- in each view the indices of accounts and tokens that it uses are in range, and the account that
  -- is picked second, for a payment or a token, is not the first from the step in which it is picked.
  pub update_all-IsSafe :
      (l : List (World × Message)) (m : Model)
      → All (λ p. IsPopulated p.0) l
      → IsInRange Hidden m
      → IsSafe Hidden (update_all l m)
  unfolding update_all IsSafe
  update_all-IsSafe [] m p h = h
  update_all-IsSafe ((w, msg) ∷ l) m p h =
      continue-IsSafe (update w m msg) (update_all l) (update-IsSafe w m msg p.0 h)
        λ m' h'. update_all-IsSafe l m' p.1 h'

pub new_model-IsInRange : (Hidden : Type 0) → IsInRange Hidden new_model
unfolding new_model IsInRange InView
new_model-IsInRange Hidden = (omega arith, tt)

-- The view that a model shows is one of the first eight items of the token menu, if any.
InView-hidden :
    (v : View) (m : Model) → InView ⊥ v m → (v ≢ View.unfreeze_token) × (v ≢ View.lookup_token)
unfolding InView
InView-hidden v m h =
    (λ e. (subst (λ x. InView ⊥ x m) e h).0, λ e. (subst (λ x. InView ⊥ x m) e h).0)

-- As long as a fetch of the accounts gives at least two, no sequence of messages to a new interface
-- leads to the views that unfreeze and look up a token.
pub update_all-hidden :
    (l : List (World × Message)) (m : Model)
    → All (λ p. IsPopulated p.0) l
    → update_all l new_model ≡ Outcome.next m
    → (m.view ≢ View.unfreeze_token) × (m.view ≢ View.lookup_token)
unfolding IsSafe IsInRange
update_all-hidden l m p e =
    let h = subst (IsSafe ⊥) e (update_all-IsSafe ⊥ l new_model p (new_model-IsInRange ⊥)) in
    InView-hidden m.view m h.1

abbrev pub presses : World → List Key → List (World × Message)
presses w [] = []
presses w (k ∷ ks) = (w, Message.key k) ∷ presses w ks

abbrev pub pay_one : List Key
pay_one =
    Key.down Press.arrow
    ∷ Key.down Press.arrow
    ∷ Key.enter
    ∷ Key.enter
    ∷ Key.enter
    ∷ Key.other (b'1' ∷ [])
    ∷ Key.enter
    ∷ []

-- Where a fetch of the accounts gives one account only, and "1" is read as a positive amount, the
-- keys that go to the view of a payment, confirm both accounts, type 1 and confirm it make a new
-- interface panic, whatever the store of credentials and the server answer otherwise.
pub pay_one-panics :
    (w : World) (a : Account) (amount : ℤ)
    → get_accounts w.deliver ≡ ok (a ∷ [])
    → w.parse_float (b'1' ∷ []) ≡ some amount
    → ltb_ℤ (pos 0) amount ≡ true
    → update_all (presses w pay_one) new_model ≡ Outcome.crash
unfolding update_all update update_view new_model update_menu update_send_money send_payment
    refresh_accounts move_up move_down first_other at sort_slice insert_by
pay_one-panics w a amount e f g = rw (e, f, g) refl
