-- ===== src/Tui/Tokens.antt =====
-- The token menu and the views that mint, transfer and burn a token (updateTokenMenu,
-- updateMintToken, updateTransferToken and updateBurnToken of internal/tui/update.go).
use sg_emulator.Base.{
  ℕ, zero, suc, ◌+◌, ◌-◌, Option, none, some, List, [], ◌∷◌, ltb, ◌==◌, if◌then◌else◌, length,
}
use sg_emulator.Base.Bytes.{Bytes}
use sg_emulator.Base.Word.{to_int64}
use sg_emulator.Id.{ScalegraphId, to_string}
use sg_emulator.Account.{get_nonce}
use sg_emulator.Requests.{MintTokenPayload}
use sg_emulator.Client.{mint_token_signed}
use sg_emulator.Tui.State.{View, Key, Status, Model, World, Outcome}
use sg_emulator.Tui.Moves.{move_up, move_down, at, or_panic}
use sg_emulator.Tui.Effects.{refresh_anyway, perform}
use sg_emulator.Tui.Accounts.{show, focus, blur, clear, is_empty, refresh_into}

abbrev pub token_menu_item_count : ℕ
token_menu_item_count = 8

abbrev pub reset_steps : Model → Model
reset_steps m = record m {
  token_step = 0;
  token_account_index = 0;
  token_to_account_index = 0;
  token_source_index = 0;
  token_clawback_index = 0;
  token_freeze_index = 0;
  token_token_index = 0;
  token_list_offset = 0;
  status_msg = Status.empty;
}

abbrev pub open_mint_token : Model → Model
open_mint_token m = record m {
  view = View.mint_token;
  token_value_input = blur (clear m.token_value_input);
}

abbrev pub open_lookup_token : Model → Model
open_lookup_token m = record m {
  view = View.lookup_token;
  lookup_token_input = blur (clear m.lookup_token_input);
  lookup_result = none;
}

abbrev pub open_token_item : ℕ → Model → Model
open_token_item n m =
    if n == 0
    then open_mint_token m
    else if n == 1
    then show View.authorize_token_transfer m
    else if n == 2
    then show View.unauthorize_token_transfer m
    else if n == 3
    then show View.transfer_token m
    else if n == 4
    then show View.token_list m
    else if n == 5
    then show View.burn_token m
    else if n == 6
    then show View.clawback_token m
    else if n == 7
    then show View.freeze_token m
    else if n == 8
    then show View.unfreeze_token m
    else if n == 9
    then open_lookup_token m
    else m

unfoldable pub update_token_menu : World → Model → Key → Outcome
update_token_menu w m Key.esc =
    Outcome.next (record m { view = View.menu; status_msg = Status.empty })
update_token_menu w m (Key.up p) =
    Outcome.next (record m { token_menu_cursor = move_up m.token_menu_cursor })
update_token_menu w m (Key.down p) =
    Outcome.next
      (record m { token_menu_cursor = move_down token_menu_item_count m.token_menu_cursor })
update_token_menu w m Key.enter =
    refresh_into w (reset_steps m) (open_token_item m.token_menu_cursor)
update_token_menu w m _ = Outcome.next m

-- `esc` in a view of several steps: one step back, or back to the menu.
abbrev pub step_back : Model → Outcome
step_back m = Outcome.next (
    if ltb 0 m.token_step
    then record m { token_step = m.token_step - 1; status_msg = Status.empty }
    else show View.token_menu m)

abbrev pub finished : World → Status → Model → Outcome
finished w status m =
    refresh_anyway w m
      λ m'. Outcome.next (record m' { status_msg = status; view = View.token_menu; token_step = 0 })

abbrev pub account_up : Model → Model
account_up m = record m { token_account_index = move_up m.token_account_index }

abbrev pub account_down : Model → Model
account_down m = record m {
  token_account_index = move_down (length m.cached_accounts) m.token_account_index;
}

abbrev pub token_up : Model → Model
token_up m = record m { token_token_index = move_up m.token_token_index }

abbrev pub token_down : Model → Model
token_down m = record m {
  token_token_index = move_down (length m.cached_tokens) m.token_token_index;
}

-- Minting: the account, the value, who can claw the token back, who can freeze it.
abbrev pub mint_account : Model → Key → Outcome
mint_account m (Key.up p) = Outcome.next (account_up m)
mint_account m (Key.down p) = Outcome.next (account_down m)
mint_account m Key.enter =
    Outcome.next
      (record m { token_step = 1; token_value_input = focus (clear m.token_value_input) })
mint_account m _ = Outcome.next m

abbrev pub mint_value : World → Model → Key → Outcome
mint_value w m Key.enter = Outcome.next (
    if is_empty m.token_value_input.value
    then record m { status_msg = Status.value_empty }
    else record m {
      token_step = 2;
      token_clawback_index = 0;
      token_value_input = blur m.token_value_input;
    })
mint_value w m k = Outcome.next (record m { token_value_input = w.edit k m.token_value_input })

abbrev pub mint_clawback : Model → Key → Outcome
mint_clawback m (Key.up p) =
    Outcome.next (record m { token_clawback_index = move_up m.token_clawback_index })
mint_clawback m (Key.down p) = Outcome.next (record m {
  token_clawback_index = move_down (length m.cached_accounts + 1) m.token_clawback_index;
})
mint_clawback m Key.enter =
    Outcome.next (record m { token_step = 3; token_freeze_index = 0; status_msg = Status.empty })
mint_clawback m _ = Outcome.next m

-- The first item of the list is "none"; the others are the accounts.
abbrev pub chosen : List ScalegraphId → ℕ → (Option ScalegraphId → Outcome) → Outcome
chosen l zero f = f none
chosen l (suc i) f = or_panic (at l i) λ id. f (some id)

abbrev pub print_address : Option ScalegraphId → Option Bytes
print_address none = none
print_address (some id) = some (to_string id)

abbrev pub mint_payload :
    World → ScalegraphId → Bytes → Option ScalegraphId → Option ScalegraphId → MintTokenPayload
mint_payload w signer value clawback freeze = record {
  token_value = value;
  clawback_address = print_address clawback;
  freeze_address = print_address freeze;
  nonce = to_int64 (get_nonce (w.account signer));
}

-- At most eight bytes, and three points if there were more.
abbrev pub preview : Bytes → Bytes
preview (a ∷ b ∷ c ∷ d ∷ e ∷ f ∷ g ∷ h ∷ i ∷ l) =
    a ∷ b ∷ c ∷ d ∷ e ∷ f ∷ g ∷ h ∷ b'.' ∷ b'.' ∷ b'.' ∷ []
preview l = l

unfoldable pub mint_chosen : World → Model → Outcome
mint_chosen w m = chosen m.cached_accounts m.token_clawback_index λ clawback.
    chosen m.cached_accounts m.token_freeze_index λ freeze.
      or_panic (at m.cached_accounts m.token_account_index) λ signer.
        perform w w.json.mint_token
          (some (mint_payload w signer m.token_value_input.value clawback freeze))
          (mint_token_signed w.deliver) signer m λ id. finished w (Status.token_minted (preview id))

abbrev pub mint_freeze : World → Model → Key → Outcome
mint_freeze w m (Key.up p) =
    Outcome.next (record m { token_freeze_index = move_up m.token_freeze_index })
mint_freeze w m (Key.down p) = Outcome.next (record m {
  token_freeze_index = move_down (length m.cached_accounts + 1) m.token_freeze_index;
})
mint_freeze w m Key.enter = mint_chosen w m
mint_freeze w m _ = Outcome.next m

abbrev pub mint_back : Model → Model
mint_back m =
    if m.token_step == 2
    then record m {
      token_step = 1;
      status_msg = Status.empty;
      token_value_input = focus m.token_value_input;
    }
    else if ltb 0 m.token_step
    then record m { token_step = m.token_step - 1; status_msg = Status.empty }
    else show View.token_menu m

abbrev pub mint_step : World → ℕ → Model → Key → Outcome
mint_step w zero m k = mint_account m k
mint_step w (suc zero) m k = mint_value w m k
mint_step w (suc (suc zero)) m k = mint_clawback m k
mint_step w (suc (suc (suc zero))) m k = mint_freeze w m k
mint_step w (suc (suc (suc (suc n)))) m k = Outcome.next m

unfoldable pub update_mint_token : World → Model → Key → Outcome
update_mint_token w m Key.esc = Outcome.next (mint_back m)
update_mint_token w m k = mint_step w m.token_step m k
