-- ===== src/AccountLaws/Keyed/Handlers.antt =====
-- The handlers of internal/scalegraph/account.go keep every token under its own identifier.
use sg_emulator.Base.{Option, none, some}
use sg_emulator.Base.Bytes.{Bytes}
use sg_emulator.Token.{Token}
use sg_emulator.Account.{
  mint_token, add_token_from_transfer, remove_token, add_token, burn_token, reserve_slot,
  handle_mint, handle_transfer, handle_burn, handle_mint_token, handle_transfer_token,
  handle_authorize_token_transfer, handle_unauthorize_token_transfer, handle_burn_token,
  handle_clawback_token, handle_freeze_token, handle_unfreeze_token, handle,
}
use sg_emulator.Transaction.{
  Transaction, CurrencyTransaction, MintTokenTransaction, TokenTransaction, SlotTransaction,
  BurnTokenTransaction,
}
use sg_emulator.AccountLaws.Methods.{Maintains}
use sg_emulator.AccountLaws.Keyed.Store.{
  FitsKey, IsKeyed, KeepsKeys, put-IsKeyed, slot-IsKeyed, mark-IsKeyed, remove-IsKeyed, key_rules,
}

pub mint_token-Maintains : (t : Token) → Maintains KeepsKeys (mint_token t)
unfolding mint_token
mint_token-Maintains t = search key_rules depth 20

pub add_token_from_transfer-Maintains :
    (t : Token) → Maintains KeepsKeys (add_token_from_transfer t)
unfolding add_token_from_transfer
add_token_from_transfer-Maintains t = search key_rules depth 20

pub remove_token-Maintains : (t : Bytes) → Maintains KeepsKeys (remove_token t)
unfolding remove_token
remove_token-Maintains t = search key_rules depth 20

pub add_token-Maintains : (t : Token) → Maintains KeepsKeys (add_token t)
unfolding add_token
add_token-Maintains t = search key_rules depth 20

pub burn_token-Maintains : (t : Bytes) → Maintains KeepsKeys (burn_token t)
unfolding burn_token
burn_token-Maintains t = search key_rules depth 20

pub ruleset token_rules = (
  key_rules, mint_token-Maintains, add_token_from_transfer-Maintains, remove_token-Maintains,
  add_token-Maintains, burn_token-Maintains,
)

reserve_slot-Maintains : (k : Bytes) (o : Option Token) → Maintains KeepsKeys (reserve_slot k o)
reserve_slot-Maintains k none = search key_rules depth 14
reserve_slot-Maintains k (some t) = search key_rules depth 14

handle_mint-Maintains : (t : CurrencyTransaction) → Maintains KeepsKeys (handle_mint t)
unfolding handle_mint
handle_mint-Maintains t = search token_rules depth 20

handle_transfer-Maintains : (t : CurrencyTransaction) → Maintains KeepsKeys (handle_transfer t)
unfolding handle_transfer
handle_transfer-Maintains t = search token_rules depth 20

handle_burn-Maintains : (t : CurrencyTransaction) → Maintains KeepsKeys (handle_burn t)
unfolding handle_burn
handle_burn-Maintains t = search token_rules depth 20

handle_mint_token-Maintains : (t : MintTokenTransaction) → Maintains KeepsKeys (handle_mint_token t)
unfolding handle_mint_token
handle_mint_token-Maintains t = search token_rules depth 20

handle_transfer_token-Maintains :
    (t : TokenTransaction) → Maintains KeepsKeys (handle_transfer_token t)
unfolding handle_transfer_token
handle_transfer_token-Maintains t = search token_rules depth 20

handle_authorize_token_transfer-Maintains :
    (t : SlotTransaction) → Maintains KeepsKeys (handle_authorize_token_transfer t)
unfolding handle_authorize_token_transfer
handle_authorize_token_transfer-Maintains t = search (token_rules, reserve_slot-Maintains) depth 20

handle_unauthorize_token_transfer-Maintains :
    (t : SlotTransaction) → Maintains KeepsKeys (handle_unauthorize_token_transfer t)
unfolding handle_unauthorize_token_transfer
handle_unauthorize_token_transfer-Maintains t = search token_rules depth 20

handle_burn_token-Maintains : (t : BurnTokenTransaction) → Maintains KeepsKeys (handle_burn_token t)
unfolding handle_burn_token
handle_burn_token-Maintains t = search token_rules depth 20

handle_clawback_token-Maintains :
    (t : TokenTransaction) → Maintains KeepsKeys (handle_clawback_token t)
unfolding handle_clawback_token
handle_clawback_token-Maintains t = search token_rules depth 20

handle_freeze_token-Maintains : (t : SlotTransaction) → Maintains KeepsKeys (handle_freeze_token t)
unfolding handle_freeze_token
handle_freeze_token-Maintains t = search token_rules depth 20

handle_unfreeze_token-Maintains :
    (t : SlotTransaction) → Maintains KeepsKeys (handle_unfreeze_token t)
unfolding handle_unfreeze_token
handle_unfreeze_token-Maintains t = search token_rules depth 20

pub handle-Maintains : (trx : Transaction) → Maintains KeepsKeys (handle trx)
unfolding handle
handle-Maintains (Transaction.mint t) = record { apply = (handle_mint-Maintains t).apply }
handle-Maintains (Transaction.transfer t) = record { apply = (handle_transfer-Maintains t).apply }
handle-Maintains (Transaction.burn t) = record { apply = (handle_burn-Maintains t).apply }
handle-Maintains (Transaction.mint_token t) = record {
  apply = (handle_mint_token-Maintains t).apply;
}
handle-Maintains (Transaction.transfer_token t) = record {
  apply = (handle_transfer_token-Maintains t).apply;
}
handle-Maintains (Transaction.authorize_token_transfer t) = record {
  apply = (handle_authorize_token_transfer-Maintains t).apply;
}
handle-Maintains (Transaction.unauthorize_token_transfer t) = record {
  apply = (handle_unauthorize_token_transfer-Maintains t).apply;
}
handle-Maintains (Transaction.burn_token t) = record {
  apply = (handle_burn_token-Maintains t).apply;
}
handle-Maintains (Transaction.clawback_token t) = record {
  apply = (handle_clawback_token-Maintains t).apply;
}
handle-Maintains (Transaction.freeze_token t) = record {
  apply = (handle_freeze_token-Maintains t).apply;
}
handle-Maintains (Transaction.unfreeze_token t) = record {
  apply = (handle_unfreeze_token-Maintains t).apply;
}
