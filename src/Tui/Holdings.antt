-- ===== src/Tui/Holdings.antt =====
-- The views that transfer, burn, list and look up a token (updateTransferToken, updateBurnToken,
-- updateTokenList and updateLookupToken of internal/tui/update.go).
use sg_emulator.Base.{
  some, ℕ, zero, suc, ◌+◌, ◌-◌, Option, none, ltb, leb, ◌==◌, if◌then◌else◌, length,
}
use sg_emulator.Id.{ScalegraphId, to_string}
use sg_emulator.Token.{Token, token_id}
use sg_emulator.Account.{get_nonce}
use sg_emulator.Requests.{TokenPayload, BurnTokenPayload, LookupTokenPayload}
use sg_emulator.Client.{transfer_token_signed, burn_token_signed, lookup_token_signed}
use sg_emulator.Tui.State.{View, Key, Status, Model, World, Outcome}
use sg_emulator.Tui.Moves.{skip_up, skip_down, first_other, at, or_panic}
use sg_emulator.Tui.Effects.{refresh_tokens, perform}
use sg_emulator.Tui.Accounts.{show, focus, blur, clear, is_empty}
use sg_emulator.Tui.Tokens.{step_back, finished, account_up, account_down, token_up, token_down}

-- Transferring and burning: the account, then one of its tokens.
abbrev pub offer_own : Model → Model
offer_own m =
    if is_empty m.cached_tokens
    then record m { status_msg = Status.no_owned_tokens }
    else record m { token_step = 1; token_token_index = 0; status_msg = Status.empty }

abbrev pub own_account : World → Model → Key → Outcome
own_account w m (Key.up p) = Outcome.next (account_up m)
own_account w m (Key.down p) = Outcome.next (account_down m)
own_account w m Key.enter = Outcome.next (offer_own (refresh_tokens w m))
own_account w m _ = Outcome.next m

abbrev pub transfer_pick : Model → Key → Outcome
transfer_pick m (Key.up p) = Outcome.next (token_up m)
transfer_pick m (Key.down p) = Outcome.next (token_down m)
transfer_pick m Key.enter = Outcome.next (record m {
  token_step = 2;
  token_to_account_index = first_other m.token_account_index;
  status_msg = Status.empty;
})
transfer_pick m _ = Outcome.next m

abbrev pub transfer_payload : World → ScalegraphId → ScalegraphId → Token → TokenPayload
transfer_payload w from to token = record {
  from = to_string from;
  to = to_string to;
  token_id = token_id token;
  nonce = get_nonce (w.account from);
}

unfoldable pub transfer_chosen : World → Model → Outcome
transfer_chosen w m = or_panic (at m.cached_accounts m.token_account_index) λ from.
    or_panic (at m.cached_accounts m.token_to_account_index) λ to.
      or_panic (at m.cached_tokens m.token_token_index) λ token.
        perform w w.json.transfer_token (some (transfer_payload w from to token))
          (transfer_token_signed w.deliver) from m λ u. finished w Status.transferred

abbrev pub transfer_receiver : World → Model → Key → Outcome
transfer_receiver w m (Key.up p) =
    Outcome.next
      (record m { token_to_account_index = skip_up m.token_account_index m.token_to_account_index })
transfer_receiver w m (Key.down p) = Outcome.next (record m {
  token_to_account_index =
      skip_down (length m.cached_accounts) m.token_account_index m.token_to_account_index;
})
transfer_receiver w m Key.enter = transfer_chosen w m
transfer_receiver w m _ = Outcome.next m

abbrev pub transfer_step : World → ℕ → Model → Key → Outcome
transfer_step w zero m k = own_account w m k
transfer_step w (suc zero) m k = transfer_pick m k
transfer_step w (suc (suc zero)) m k = transfer_receiver w m k
transfer_step w (suc (suc (suc n))) m k = Outcome.next m

unfoldable pub update_transfer_token : World → Model → Key → Outcome
update_transfer_token w m Key.esc = step_back m
update_transfer_token w m k = transfer_step w m.token_step m k

abbrev pub burn_payload : World → ScalegraphId → Token → BurnTokenPayload
burn_payload w owner token = record {
  account_id = to_string owner;
  token_id = token_id token;
  nonce = get_nonce (w.account owner);
}

unfoldable pub burn_chosen : World → Model → Outcome
burn_chosen w m = or_panic (at m.cached_accounts m.token_account_index) λ owner.
    or_panic (at m.cached_tokens m.token_token_index) λ token.
      perform w w.json.burn_token (some (burn_payload w owner token)) (burn_token_signed w.deliver)
        owner m λ u. finished w Status.burned

abbrev pub burn_pick : World → Model → Key → Outcome
burn_pick w m (Key.up p) = Outcome.next (token_up m)
burn_pick w m (Key.down p) = Outcome.next (token_down m)
burn_pick w m Key.enter = burn_chosen w m
burn_pick w m _ = Outcome.next m

abbrev pub burn_step : World → ℕ → Model → Key → Outcome
burn_step w zero m k = own_account w m k
burn_step w (suc zero) m k = burn_pick w m k
burn_step w (suc (suc n)) m k = Outcome.next m

unfoldable pub update_burn_token : World → Model → Key → Outcome
update_burn_token w m Key.esc = step_back m
update_burn_token w m k = burn_step w m.token_step m k

-- How many tokens a list shows.
abbrev pub max_display : ℕ → ℕ
max_display height =
    let wanted = if ltb 20 height then height - 16 else 8 in if ltb wanted 3 then 3 else wanted

-- The list scrolls with its cursor.
abbrev pub list_up : Model → Model
list_up m =
    if ltb 0 m.token_token_index
    then record m {
      token_token_index = m.token_token_index - 1;
      token_list_offset =
          if ltb (m.token_token_index - 1) m.token_list_offset
          then m.token_token_index - 1
          else m.token_list_offset;
    }
    else m

abbrev pub list_down : Model → Model
list_down m =
    if ltb (m.token_token_index + 1) (length m.cached_tokens)
    then record m {
      token_token_index = m.token_token_index + 1;
      token_list_offset =
          if leb (m.token_list_offset + max_display m.height) (m.token_token_index + 1)
          then m.token_token_index + 1 + 1 - max_display m.height
          else m.token_list_offset;
    }
    else m

abbrev pub list_back : Model → Model
list_back m =
    if ltb 0 m.token_step
    then record m { token_step = m.token_step - 1; token_list_offset = 0; token_token_index = 0 }
    else show View.token_menu m

abbrev pub list_account : World → Model → Key → Outcome
list_account w m (Key.up p) = Outcome.next (account_up m)
list_account w m (Key.down p) = Outcome.next (account_down m)
list_account w m Key.enter =
    Outcome.next
      (record (refresh_tokens w m) { token_step = 1; token_token_index = 0; token_list_offset = 0 })
list_account w m _ = Outcome.next m

abbrev pub list_tokens : Model → Key → Outcome
list_tokens m (Key.up p) = Outcome.next (list_up m)
list_tokens m (Key.down p) = Outcome.next (list_down m)
list_tokens m _ = Outcome.next m

abbrev pub list_step : World → ℕ → Model → Key → Outcome
list_step w zero m k = list_account w m k
list_step w (suc zero) m k = list_tokens m k
list_step w (suc (suc n)) m k = Outcome.next m

unfoldable pub update_token_list : World → Model → Key → Outcome
update_token_list w m Key.esc = Outcome.next (list_back m)
update_token_list w m Key.q = Outcome.next (list_back m)
update_token_list w m k = list_step w m.token_step m k

-- Looking up: the account that signs, the token's identifier, the answer.
abbrev pub lookup_account : Model → Key → Outcome
lookup_account m (Key.up p) = Outcome.next (account_up m)
lookup_account m (Key.down p) = Outcome.next (account_down m)
lookup_account m Key.enter = Outcome.next (record m {
  token_step = 1;
  lookup_token_input = focus (clear m.lookup_token_input);
  lookup_result = none;
  status_msg = Status.empty;
})
lookup_account m _ = Outcome.next m

abbrev pub found : Option Token → Model → Outcome
found t m = Outcome.next (record m {
  lookup_result = t;
  lookup_token_input = blur m.lookup_token_input;
  token_step = 2;
  status_msg = Status.empty;
})

abbrev pub lookup_payload : Model → ScalegraphId → LookupTokenPayload
lookup_payload m signer = record {
  token_id = m.lookup_token_input.value;
  account_id = to_string signer;
}

unfoldable pub lookup_chosen : World → Model → Outcome
lookup_chosen w m =
    if is_empty m.lookup_token_input.value
    then Outcome.next (record m { status_msg = Status.id_empty })
    else or_panic (at m.cached_accounts m.token_account_index) λ signer.
      perform w w.json.lookup_token (some (lookup_payload m signer)) (lookup_token_signed w.deliver)
        signer m found

abbrev pub lookup_text : World → Model → Key → Outcome
lookup_text w m Key.enter = lookup_chosen w m
lookup_text w m k = Outcome.next (record m { lookup_token_input = w.edit k m.lookup_token_input })

abbrev pub lookup_shown : Model → Outcome
lookup_shown m =
    Outcome.next (record m { view = View.token_menu; token_step = 0; lookup_result = none })

abbrev pub lookup_answer : Model → Key → Outcome
lookup_answer m Key.enter = lookup_shown m
lookup_answer m Key.q = lookup_shown m
lookup_answer m _ = Outcome.next m

abbrev pub lookup_back : Model → Model
lookup_back m =
    if m.token_step == 2
    then record m {
      token_step = 1;
      status_msg = Status.empty;
      lookup_result = none;
      lookup_token_input = focus m.lookup_token_input;
    }
    else if ltb 0 m.token_step
    then record m { token_step = m.token_step - 1; status_msg = Status.empty; lookup_result = none }
    else show View.token_menu m

abbrev pub lookup_step : World → ℕ → Model → Key → Outcome
lookup_step w zero m k = lookup_account m k
lookup_step w (suc zero) m k = lookup_text w m k
lookup_step w (suc (suc zero)) m k = lookup_answer m k
lookup_step w (suc (suc (suc n))) m k = Outcome.next m

unfoldable pub update_lookup_token : World → Model → Key → Outcome
update_lookup_token w m Key.esc = Outcome.next (lookup_back m)
update_lookup_token w m k = lookup_step w m.token_step m k
