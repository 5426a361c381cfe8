-- ===== src/Tui/Update.antt =====
-- Update of internal/tui/update.go, and what becomes of a model in a sequence of messages.
use sg_emulator.Base.{true, List, [], ◌∷◌}
use sg_emulator.Tui.State.{View, Key, Message, Model, World, Outcome}
use sg_emulator.Tui.Accounts.{
  update_menu, update_create_account, update_account_detail, update_account_detail_single,
  update_transaction_detail,
}
use sg_emulator.Tui.Send.{update_send_money, update_virtual_nodes}
use sg_emulator.Tui.Tokens.{update_token_menu, update_mint_token}
use sg_emulator.Tui.Holdings.{
  update_transfer_token, update_burn_token, update_token_list, update_lookup_token,
}
use sg_emulator.Tui.Pick.{
  update_authorize_token_transfer, update_unauthorize_token_transfer, update_clawback_token,
  update_freeze_token, update_unfreeze_token,
}

-- The handler of each view.
unfoldable pub update_view : World → View → Model → Key → Outcome
update_view w View.menu m k = update_menu w m k
update_view w View.create_account m k = update_create_account w m k
update_view w View.account_detail m k = update_account_detail w m k
update_view w View.account_detail_single m k = update_account_detail_single w m k
update_view w View.transaction_detail m k = update_transaction_detail m k
update_view w View.send_money m k = update_send_money w m k
update_view w View.virtual_nodes m k = update_virtual_nodes m k
update_view w View.token_menu m k = update_token_menu w m k
update_view w View.mint_token m k = update_mint_token w m k
update_view w View.authorize_token_transfer m k = update_authorize_token_transfer w m k
update_view w View.unauthorize_token_transfer m k = update_unauthorize_token_transfer w m k
update_view w View.transfer_token m k = update_transfer_token w m k
update_view w View.token_list m k = update_token_list w m k
update_view w View.burn_token m k = update_burn_token w m k
update_view w View.clawback_token m k = update_clawback_token w m k
update_view w View.freeze_token m k = update_freeze_token w m k
update_view w View.unfreeze_token m k = update_unfreeze_token w m k
update_view w View.lookup_token m k = update_lookup_token w m k

unfoldable pub update : World → Model → Message → Outcome
update w m (Message.key Key.ctrl_c) = Outcome.quit
update w m (Message.key k) = update_view w m.view m k
update w m (Message.window_size width height) =
    Outcome.next (record m { width = width; height = height; ready = true })
update w m Message.another = Outcome.next m

abbrev pub continue : Outcome → (Model → Outcome) → Outcome
continue (Outcome.next m) f = f m
continue Outcome.quit f = Outcome.quit
continue Outcome.crash f = Outcome.crash

-- A sequence of messages, each with what it meets.
unfoldable pub update_all : List (World × Message) → Model → Outcome
update_all [] m = Outcome.next m
update_all ((w, msg) ∷ rest) m = continue (update w m msg) (update_all rest)
