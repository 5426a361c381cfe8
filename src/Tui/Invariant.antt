-- ===== src/Tui/Invariant.antt =====
-- The invariant of the terminal interface (internal/tui/update.go) between two messages: the indices
-- that a view uses are in range, and the account that is picked second is not the first.
use sg_emulator.Base.{ℕ, ◌≤◌, ◌<◌, ◌≡◌, ◌≢◌, ◌⊎◌, ⊤, length, List}
use sg_emulator.Base.Action.{ok}
use sg_emulator.Account.{Account}
use sg_emulator.Client.{get_accounts}
use sg_emulator.Tui.State.{View, Model, World, Outcome}
use sg_emulator.Tui.Tokens.{token_menu_item_count}

-- Of `n` accounts one is picked, and another one.
abbrev pub IsPicked : ℕ → ℕ → ℕ → ℕ → Type 0
IsPicked n step first second =
    (2 ≤ n) × (first < n) × (second < n) × ((step ≡ 0) ⊎ (second ≢ first))

-- From some step on, a token is picked.
abbrev pub HasToken : ℕ → Model → Type 0
HasToken from m = (m.token_step < from) ⊎ (m.token_token_index < length m.cached_tokens)

abbrev pub HasAccount : Model → Type 0
HasAccount m = (2 ≤ length m.cached_accounts) × (m.token_account_index < length m.cached_accounts)

abbrev pub IsPicking : Model → Type 0
IsPicking m =
    IsPicked (length m.cached_accounts) m.token_step m.token_account_index m.token_source_index
    × HasToken 2 m

-- The two views beyond the end of the token menu are entered only if `Hidden` holds.
module _ (Hidden : Type 0) where
  unfoldable pub InView : View → Model → Type 0
  InView View.menu m = ⊤
  InView View.create_account m = ⊤
  InView View.account_detail m = m.selected_account_index < length m.cached_accounts
  InView View.account_detail_single m = m.selected_account_index < length m.cached_accounts
  InView View.transaction_detail m = m.selected_account_index < length m.cached_accounts
  InView View.send_money m =
      IsPicked (length m.cached_accounts) m.send_step m.send_from_index m.send_to_index
  InView View.virtual_nodes m = ⊤
  InView View.token_menu m = ⊤
  InView View.mint_token m =
      HasAccount m
      × (m.token_clawback_index ≤ length m.cached_accounts)
      × (m.token_freeze_index ≤ length m.cached_accounts)
  InView View.authorize_token_transfer m = IsPicking m
  InView View.unauthorize_token_transfer m = IsPicking m
  InView View.transfer_token m =
      HasAccount m
      × HasToken 1 m
      × (m.token_to_account_index < length m.cached_accounts)
      × ((m.token_step < 2) ⊎ (m.token_to_account_index ≢ m.token_account_index))
  InView View.token_list m = HasAccount m
  InView View.burn_token m = HasAccount m × HasToken 1 m
  InView View.clawback_token m = IsPicking m
  InView View.freeze_token m = IsPicking m
  InView View.unfreeze_token m = Hidden × IsPicking m
  InView View.lookup_token m = Hidden × HasAccount m

  unfoldable pub IsInRange : Model → Type 0
  IsInRange m = (m.token_menu_cursor < token_menu_item_count) × InView m.view m

  -- What a message may lead to.
  unfoldable pub IsSafe : Outcome → Type 0
  IsSafe (Outcome.next m) = IsInRange m
  IsSafe Outcome.quit = ⊤
  IsSafe Outcome.crash = ⊥

-- Whenever the accounts are fetched there are at least two.
unfoldable pub IsPopulated : World → Type 0
IsPopulated w = (l : List Account) → get_accounts w.deliver ≡ ok l → 2 ≤ length l
