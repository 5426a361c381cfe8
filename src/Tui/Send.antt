-- ===== src/Tui/Send.antt =====
-- The views of a payment and of the virtual nodes (updateSendMoney and updateVirtualNodes of
-- internal/tui/update.go).
use sg_emulator.Base.{
  ℕ, zero, suc, ◌-◌, Bool, not, ◌&&◌, ◌||◌, Option, none, some, [], ◌∷◌, ◌++◌, ltb, leb, ◌==◌,
  if◌then◌else◌, length, ⊤,
}
use sg_emulator.Base.Bytes.{Bytes}
use sg_emulator.Base.Int.{ℤ, pos, ltb_ℤ}
use sg_emulator.Id.{ScalegraphId, to_string}
use sg_emulator.Account.{get_nonce}
use sg_emulator.Requests.{TransferPayload}
use sg_emulator.Client.{transfer_signed}
use sg_emulator.Tui.State.{View, Key, Status, Model, World, Outcome}
use sg_emulator.Tui.Moves.{move_up, move_down, skip_up, skip_down, first_other, at, or_panic}
use sg_emulator.Tui.Effects.{refresh_anyway, perform}
use sg_emulator.Tui.Accounts.{show}

abbrev pub without_last : Bytes → Bytes
without_last [] = []
without_last (x ∷ []) = []
without_last (x ∷ y ∷ l) = x ∷ without_last (y ∷ l)

abbrev pub is_amount_digit : ℕ → Bool
is_amount_digit c = (leb b'0' c && leb c b'9') || (c == b'.')

-- A key of one byte that is a digit or a point is put at the end of the amount.
abbrev pub typed : Bytes → Bytes → Bytes
typed (c ∷ []) amount = if is_amount_digit c then amount ++ (c ∷ []) else amount
typed [] amount = amount
typed (c ∷ d ∷ l) amount = amount

abbrev pub send_up : ℕ → Model → Model
send_up zero m = record m { send_from_index = move_up m.send_from_index }
send_up (suc zero) m = record m { send_to_index = skip_up m.send_from_index m.send_to_index }
send_up (suc (suc n)) m = m

abbrev pub send_down : ℕ → Model → Model
send_down zero m = record m {
  send_from_index = move_down (length m.cached_accounts) m.send_from_index;
}
send_down (suc zero) m = record m {
  send_to_index = skip_down (length m.cached_accounts) m.send_from_index m.send_to_index;
}
send_down (suc (suc n)) m = m

abbrev pub invalid_amount : Model → Outcome
invalid_amount m = Outcome.next (record m { status_msg = Status.invalid_amount })

abbrev pub transfer_complete : World → ⊤ → Model → Outcome
transfer_complete w u m = refresh_anyway w m λ m'.
    Outcome.next
      (record m' { status_msg = Status.transfer_complete; view = View.menu; send_step = 0 })

abbrev pub transfer_payload : World → ScalegraphId → ScalegraphId → ℤ → TransferPayload
transfer_payload w from to amount = record {
  from = to_string from;
  to = to_string to;
  amount = amount;
  nonce = get_nonce (w.account from);
  timestamp = w.payload_time;
}

unfoldable pub send_payment : World → Model → Option ℤ → Outcome
send_payment w m none = invalid_amount m
send_payment w m (some amount) =
    if not (ltb_ℤ (pos 0) amount)
    then invalid_amount m
    else or_panic (at m.cached_accounts m.send_from_index) λ from.
      or_panic (at m.cached_accounts m.send_to_index) λ to.
        perform w w.json.transfer (some (transfer_payload w from to amount))
          (transfer_signed w.deliver) from m (transfer_complete w)

abbrev pub send_enter : World → Model → ℕ → Outcome
send_enter w m zero =
    Outcome.next (record m { send_step = 1; send_to_index = first_other m.send_from_index })
send_enter w m (suc zero) = Outcome.next (record m { send_step = 2; send_amount = [] })
send_enter w m (suc (suc zero)) = send_payment w m (w.parse_float m.send_amount)
send_enter w m (suc (suc (suc n))) = Outcome.next m

unfoldable pub update_send_money : World → Model → Key → Outcome
update_send_money w m Key.esc = Outcome.next (
    if ltb 0 m.send_step
    then record m { send_step = m.send_step - 1; status_msg = Status.empty }
    else show View.menu m)
update_send_money w m (Key.up p) = Outcome.next (send_up m.send_step m)
update_send_money w m (Key.down p) = Outcome.next (send_down m.send_step m)
update_send_money w m Key.enter = send_enter w m m.send_step
update_send_money w m Key.backspace =
    Outcome.next
      (if m.send_step == 2 then record m { send_amount = without_last m.send_amount } else m)
update_send_money w m (Key.other text) =
    Outcome.next
      (if m.send_step == 2 then record m { send_amount = typed text m.send_amount } else m)
update_send_money w m _ = Outcome.next m

unfoldable pub update_virtual_nodes : Model → Key → Outcome
update_virtual_nodes m Key.q =
    Outcome.next (record m { view = View.menu; status_msg = Status.empty })
update_virtual_nodes m Key.esc =
    Outcome.next (record m { view = View.menu; status_msg = Status.empty })
update_virtual_nodes m _ = Outcome.next m
