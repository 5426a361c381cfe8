-- ===== src/Tui/Accounts.antt =====
-- The views of accounts and payments: updateMenu, updateCreateAccount, updateAccountDetail,
-- updateAccountDetailSingle, updateTransactionDetail, updateSendMoney and updateVirtualNodes of
-- internal/tui/update.go.
use sg_emulator.Base.{
  ℕ, zero, suc, ◌+◌, ◌-◌, Bool, true, false, ◌&&◌, Option, none, some, List, [], ◌∷◌, ltb, ◌==◌,
  if◌then◌else◌, length,
}
use sg_emulator.Base.Dict.{insert}
use sg_emulator.Base.Int.{ℤ, pos, ltb_ℤ}
use sg_emulator.Id.{ScalegraphId}
use sg_emulator.Chain.{Block, block_transaction, get_blocks}
use sg_emulator.Tui.State.{View, Key, Input, Status, Model, World, Outcome}
use sg_emulator.Tui.Moves.{move_up, move_down, at, or_panic}
use sg_emulator.Tui.Effects.{
  map_error, or_status, refresh_accounts, refresh_anyway, create_account_with_ca,
}

-- The length of `menuItems`.
abbrev pub menu_item_count : ℕ
menu_item_count = 5

abbrev pub focus : Input → Input
focus i = record i { is_focused = true }

abbrev pub blur : Input → Input
blur i = record i { is_focused = false }

abbrev pub clear : Input → Input
clear i = record i { value = [] }

abbrev pub is_empty : {A : Type 0} → List A → Bool
is_empty [] = true
is_empty (x ∷ l) = false

abbrev pub show : View → Model → Model
show v m = record m { view = v }

-- Refreshing on the way into a view: an error is shown, and the view stays.
abbrev pub refresh_into : World → Model → (Model → Model) → Outcome
refresh_into w m f =
    or_status (map_error Status.failed (refresh_accounts w m)) m λ m'. Outcome.next (f m')

abbrev pub open_create_account : Model → Model
open_create_account m = record m {
  view = View.create_account;
  create_account_focus = 0;
  balance_input = focus (clear m.balance_input);
  name_input = blur (clear m.name_input);
}

abbrev pub open_send_money : Model → Model
open_send_money m = record m {
  view = View.send_money;
  send_step = 0;
  send_from_index = 0;
  send_to_index = 0;
  send_amount = [];
}

abbrev pub open_item : World → Model → ℕ → Outcome
open_item w m zero = Outcome.next (open_create_account m)
open_item w m (suc zero) =
    refresh_into w m λ m'. record m' { view = View.account_detail; selected_account_index = 0 }
open_item w m (suc (suc zero)) = refresh_into w m open_send_money
open_item w m (suc (suc (suc zero))) =
    Outcome.next (record m { view = View.virtual_nodes; send_amount = [] })
open_item w m (suc (suc (suc (suc zero)))) =
    refresh_into w m λ m'. record m' { view = View.token_menu; token_menu_cursor = 0 }
open_item w m (suc (suc (suc (suc (suc n))))) = Outcome.next m

unfoldable pub update_menu : World → Model → Key → Outcome
update_menu w m Key.q = Outcome.quit
update_menu w m (Key.up p) = Outcome.next (record m { menu_cursor = move_up m.menu_cursor })
update_menu w m (Key.down p) =
    Outcome.next (record m { menu_cursor = move_down menu_item_count m.menu_cursor })
update_menu w m Key.enter = open_item w (record m { status_msg = Status.empty }) m.menu_cursor
update_menu w m _ = Outcome.next m

-- The inputs, after the focus has moved.
abbrev pub refocus : ℕ → Model → Model
refocus zero m = record m {
  create_account_focus = 0;
  balance_input = focus m.balance_input;
  name_input = blur m.name_input;
}
refocus (suc zero) m = record m {
  create_account_focus = 1;
  balance_input = blur m.balance_input;
  name_input = focus m.name_input;
}
refocus (suc (suc n)) m = record m {
  create_account_focus = suc (suc n);
  balance_input = blur m.balance_input;
  name_input = blur m.name_input;
}

abbrev pub next_focus : ℕ → ℕ
next_focus i = if ltb 2 (i + 1) then 0 else i + 1

abbrev pub previous_focus : ℕ → ℕ
previous_focus i = if ltb 0 i then i - 1 else 2

abbrev pub named : ScalegraphId → Model → Model
named id m = record m {
  account_names =
      if is_empty m.name_input.value
      then m.account_names
      else insert id m.name_input.value m.account_names;
}

abbrev pub account_created : Model → Model
account_created m = record m {
  status_msg = Status.account_created;
  view = View.menu;
  balance_input = blur m.balance_input;
  name_input = blur m.name_input;
}

abbrev pub create_with : World → Model → Option ℤ → Outcome
create_with w m none = Outcome.next (record m { status_msg = Status.invalid_balance })
create_with w m (some balance) =
    if ltb_ℤ balance (pos 0)
    then Outcome.next (record m { status_msg = Status.invalid_balance })
    else or_status (map_error Status.failed (create_account_with_ca w balance)) m
        λ u. refresh_anyway w (named w.created m) λ m'. Outcome.next (account_created m')

abbrev pub edit_focused : World → Key → ℕ → Model → Model
edit_focused w k zero m = record m { balance_input = w.edit k m.balance_input }
edit_focused w k (suc zero) m = record m { name_input = w.edit k m.name_input }
edit_focused w k (suc (suc n)) m = m

unfoldable pub update_create_account : World → Model → Key → Outcome
update_create_account w m Key.esc = Outcome.next (record m {
  view = View.menu;
  balance_input = blur m.balance_input;
  name_input = blur m.name_input;
  status_msg = Status.empty;
})
update_create_account w m Key.tab = Outcome.next (refocus (next_focus m.create_account_focus) m)
update_create_account w m Key.shift_tab =
    Outcome.next (refocus (previous_focus m.create_account_focus) m)
update_create_account w m Key.enter =
    if m.create_account_focus == 2
    then create_with w m (w.parse_float m.balance_input.value)
    else Outcome.next (refocus (next_focus m.create_account_focus) m)
update_create_account w m k = Outcome.next (edit_focused w k m.create_account_focus m)

-- The blocks that have a transaction.
abbrev pub count_transactions : List Block → ℕ
count_transactions [] = 0
count_transactions (b ∷ l) = elim (block_transaction b) [
  | none ↦ count_transactions l
  | some t ↦ suc (count_transactions l)
]

abbrev pub tx_count : World → ScalegraphId → ℕ
tx_count w id = count_transactions (get_blocks (w.account id).blockchain)

unfoldable pub update_account_detail : World → Model → Key → Outcome
update_account_detail w m Key.esc = Outcome.next (show View.menu m)
update_account_detail w m Key.q = Outcome.next (show View.menu m)
update_account_detail w m (Key.up p) =
    Outcome.next (record m { selected_account_index = move_up m.selected_account_index })
update_account_detail w m (Key.down p) = Outcome.next (record m {
  selected_account_index = move_down (length m.cached_accounts) m.selected_account_index;
})
update_account_detail w m Key.enter =
    if is_empty m.cached_accounts
    then Outcome.next m
    else or_panic (at m.cached_accounts m.selected_account_index) λ id. Outcome.next (record m {
      selected_transaction_index = tx_count w id - 1;
      transaction_offset = 0;
      view = View.account_detail_single;
    })
update_account_detail w m _ = Outcome.next m

abbrev pub selected_count : World → Option ScalegraphId → ℕ
selected_count w none = 0
selected_count w (some id) = tx_count w id

-- Newer transactions have larger indices, and stand higher.
abbrev pub newer : ℕ → Model → Model
newer n m =
    if ltb (m.selected_transaction_index + 1) n
    then record m {
      selected_transaction_index = m.selected_transaction_index + 1;
      transaction_offset =
          if ltb n (m.selected_transaction_index + 1 + m.transaction_offset + 1)
            && ltb (m.transaction_offset + 1) n
          then m.transaction_offset + 1
          else m.transaction_offset;
    }
    else m

abbrev pub older : ℕ → Model → Model
older n m =
    if ltb 0 m.selected_transaction_index
    then record m {
      selected_transaction_index = m.selected_transaction_index - 1;
      transaction_offset =
          if ltb (m.selected_transaction_index - 1 + m.transaction_offset + 5) n
          then m.transaction_offset - 1
          else m.transaction_offset;
    }
    else m

abbrev pub single : ℕ → Model → Key → Outcome
single n m Key.esc = Outcome.next (show View.account_detail m)
single n m Key.q = Outcome.next (show View.account_detail m)
single n m (Key.up p) = Outcome.next (newer n m)
single n m (Key.down p) = Outcome.next (older n m)
single n m Key.enter = Outcome.next (if ltb 0 n then show View.transaction_detail m else m)
single n m _ = Outcome.next m

unfoldable pub update_account_detail_single : World → Model → Key → Outcome
update_account_detail_single w m k =
    single (selected_count w (at m.cached_accounts m.selected_account_index)) m k

unfoldable pub update_transaction_detail : Model → Key → Outcome
update_transaction_detail m Key.esc = Outcome.next (show View.account_detail_single m)
update_transaction_detail m Key.q = Outcome.next (show View.account_detail_single m)
update_transaction_detail m _ = Outcome.next m
