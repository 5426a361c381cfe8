-- ===== src/Tui/Pick.antt =====
-- The five views in which an account picks another account's token: updateAuthorizeTokenTransfer,
-- updateUnauthorizeTokenTransfer, updateClawbackToken, updateFreezeToken and updateUnfreezeToken of
-- internal/tui/update.go, which have the same three steps.
use sg_emulator.Base.{
  ℕ, zero, suc, Bool, true, false, not, ◌&&◌, Option, none, some, List, [], ◌∷◌, ltb, if◌then◌else◌,
  length,
}
use mathlib.Core.Option
use sg_emulator.Base.Bytes.{bytes_eq}
use sg_emulator.Id.{ScalegraphId, to_string}
use sg_emulator.Token.{Token, token_id}
use sg_emulator.Account.{get_nonce}
use sg_emulator.Requests.{AuthorizePayload, TokenPayload, FreezePayload}
use sg_emulator.Client.{
  authorize_token_transfer_signed, unauthorize_token_transfer_signed, clawback_token_signed,
  freeze_token_signed, unfreeze_token_signed,
}
use sg_emulator.Tui.State.{Key, Status, Model, World, Outcome}
use sg_emulator.Tui.Moves.{skip_up, skip_down, first_other, at, or_panic}
use sg_emulator.Tui.Effects.{refresh_tokens_for_index, perform}
use sg_emulator.Tui.Accounts.{is_empty}
use sg_emulator.Tui.Tokens.{step_back, finished, account_up, account_down, token_up, token_down}

-- What is done with the token; the account that is picked first signs.
pub data Task : Type 0 where
  authorize unauthorize clawback freeze unfreeze : Task

abbrev pub is_address : Option ScalegraphId → ScalegraphId → Bool
is_address none id = false
is_address (some a) id = bytes_eq a id

abbrev pub filter : (Token → Bool) → List Token → List Token
filter p [] = []
filter p (t ∷ l) = let rest = filter p l in if p t then t ∷ rest else rest

-- The tokens of the source that the task is for.
unfoldable pub eligible : Task → ScalegraphId → Token → Bool
eligible Task.authorize id t = true
eligible Task.unauthorize id t = true
eligible Task.clawback id t = is_address t.clawback_address id
eligible Task.freeze id t = is_address t.freeze_address id && not t.frozen
eligible Task.unfreeze id t = is_address t.freeze_address id && t.frozen

abbrev pub offer : Model → List Token → Outcome
offer m tokens = Outcome.next (
    if is_empty tokens then record m { status_msg = Status.no_matching_tokens } else record m {
      cached_tokens = tokens;
      token_step = 2;
      token_token_index = 0;
      status_msg = Status.empty;
    })

abbrev pub offer_matching : Task → Model → Outcome
offer_matching task m =
    or_panic (at m.cached_accounts m.token_account_index)
      λ id. offer m (filter (eligible task id) m.cached_tokens)

-- Authorizing and unauthorizing do not look at the first account here.
abbrev pub offer_tokens : Task → Model → Outcome
offer_tokens Task.authorize m = offer m m.cached_tokens
offer_tokens Task.unauthorize m = offer m m.cached_tokens
offer_tokens Task.clawback m = offer_matching Task.clawback m
offer_tokens Task.freeze m = offer_matching Task.freeze m
offer_tokens Task.unfreeze m = offer_matching Task.unfreeze m

module _ (w : World) where
  abbrev pub slot_payload : ScalegraphId → ScalegraphId → Token → AuthorizePayload
  slot_payload first source token = record {
    account_id = to_string first;
    token_id = token_id token;
    token_owner_id = to_string source;
    nonce = get_nonce (w.account first);
  }

  abbrev pub claw_payload : ScalegraphId → ScalegraphId → Token → TokenPayload
  claw_payload first source token = record {
    from = to_string source;
    to = to_string first;
    token_id = token_id token;
    nonce = get_nonce (w.account first);
  }

  abbrev pub freeze_payload : ScalegraphId → ScalegraphId → Token → FreezePayload
  freeze_payload first source token = record {
    freeze_authority = to_string first;
    token_holder = to_string source;
    token_id = token_id token;
    nonce = get_nonce (w.account first);
  }

  -- Authorizing and unauthorizing index the source only when the payload is built, after the key.
  unfoldable pub act : Task → ScalegraphId → Option ScalegraphId → Token → Model → Outcome
  act Task.authorize first source token m =
      perform w w.json.authorize (Option.map (λ s. slot_payload first s token) source)
        (authorize_token_transfer_signed w.deliver) first m λ u. finished w Status.authorized
  act Task.unauthorize first source token m =
      perform w w.json.unauthorize (Option.map (λ s. slot_payload first s token) source)
        (unauthorize_token_transfer_signed w.deliver) first m λ u. finished w Status.unauthorized
  act Task.clawback first source token m = or_panic source λ s.
      perform w w.json.clawback_token (some (claw_payload first s token))
        (clawback_token_signed w.deliver) first m λ u. finished w Status.clawed_back
  act Task.freeze first source token m = or_panic source λ s.
      perform w w.json.freeze (some (freeze_payload first s token)) (freeze_token_signed w.deliver)
        first m λ u. finished w Status.frozen
  act Task.unfreeze first source token m = or_panic source λ s.
      perform w w.json.unfreeze (some (freeze_payload first s token))
        (unfreeze_token_signed w.deliver) first m λ u. finished w Status.unfrozen

  unfoldable pub act_chosen : Task → Model → Outcome
  act_chosen task m = or_panic (at m.cached_tokens m.token_token_index) λ token.
      or_panic (at m.cached_accounts m.token_account_index)
        λ first. act task first (at m.cached_accounts m.token_source_index) token m

  abbrev pub pick_account : Model → Key → Outcome
  pick_account m (Key.up p) = Outcome.next (account_up m)
  pick_account m (Key.down p) = Outcome.next (account_down m)
  pick_account m Key.enter = Outcome.next (
      if ltb (length m.cached_accounts) 2
      then record m { status_msg = Status.need_two_accounts }
      else record m {
        token_step = 1;
        token_source_index = first_other m.token_account_index;
        status_msg = Status.empty;
      })
  pick_account m _ = Outcome.next m

  abbrev pub pick_source : Task → Model → Key → Outcome
  pick_source task m (Key.up p) =
      Outcome.next
        (record m { token_source_index = skip_up m.token_account_index m.token_source_index })
  pick_source task m (Key.down p) = Outcome.next (record m {
    token_source_index =
        skip_down (length m.cached_accounts) m.token_account_index m.token_source_index;
  })
  pick_source task m Key.enter =
      offer_tokens task (refresh_tokens_for_index w m.token_source_index m)
  pick_source task m _ = Outcome.next m

  abbrev pub pick_token : Task → Model → Key → Outcome
  pick_token task m (Key.up p) = Outcome.next (token_up m)
  pick_token task m (Key.down p) = Outcome.next (token_down m)
  pick_token task m Key.enter = act_chosen task m
  pick_token task m _ = Outcome.next m

  abbrev pub pick_step : Task → ℕ → Model → Key → Outcome
  pick_step task zero m k = pick_account m k
  pick_step task (suc zero) m k = pick_source task m k
  pick_step task (suc (suc zero)) m k = pick_token task m k
  pick_step task (suc (suc (suc n))) m k = Outcome.next m

  -- What the handlers of the five views have in common.
  unfoldable pub update_picking : Task → Model → Key → Outcome
  update_picking task m Key.esc = step_back m
  update_picking task m k = pick_step task m.token_step m k

  unfoldable pub update_authorize_token_transfer : Model → Key → Outcome
  update_authorize_token_transfer m k = update_picking Task.authorize m k

  unfoldable pub update_unauthorize_token_transfer : Model → Key → Outcome
  update_unauthorize_token_transfer m k = update_picking Task.unauthorize m k

  unfoldable pub update_clawback_token : Model → Key → Outcome
  update_clawback_token m k = update_picking Task.clawback m k

  unfoldable pub update_freeze_token : Model → Key → Outcome
  update_freeze_token m k = update_picking Task.freeze m k

  unfoldable pub update_unfreeze_token : Model → Key → Outcome
  update_unfreeze_token m k = update_picking Task.unfreeze m k
