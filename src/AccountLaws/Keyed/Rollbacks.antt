-- ===== src/AccountLaws/Keyed/Rollbacks.antt =====
-- The rollback handlers of internal/scalegraph/account.go keep every token under its own identifier.
use sg_emulator.Base.{◌≡◌, refl, Option, none, some}
use sg_emulator.Base.Bytes.{Bytes}
use sg_emulator.Base.Dict.{Dict, lookup}
use sg_emulator.Token.{Token}
use sg_emulator.Account.{
  refreeze, thaw, rollback_mint, rollback_transfer, rollback_burn, rollback_mint_token,
  rollback_transfer_token, rollback_authorize_token_transfer, rollback_unauthorize_token_transfer,
  rollback_burn_token, rollback_clawback_token, rollback_freeze_token, rollback_unfreeze_token,
  rollback,
}
use sg_emulator.Transaction.{
  Transaction, CurrencyTransaction, MintTokenTransaction, TokenTransaction, SlotTransaction,
  BurnTokenTransaction,
}
use sg_emulator.AccountLaws.Methods.{Maintains}
use sg_emulator.AccountLaws.Keyed.Store.{IsKeyed, KeepsKeys, key_rules}
use sg_emulator.AccountLaws.Keyed.Handlers.{token_rules}

thaw_found-Maintains :
    (k : Bytes) (s : Dict Token) (o : Option Token)
    → IsKeyed s
    → lookup k s ≡ o
    → Maintains KeepsKeys (thaw k o)
thaw_found-Maintains k s none h e = search key_rules depth 8
thaw_found-Maintains k s (some t) h e = search (key_rules, e) depth 8

thaw-Maintains :
    (k : Bytes) (s : Dict Token) → IsKeyed s → Maintains KeepsKeys (thaw k (lookup k s))
thaw-Maintains k s h = thaw_found-Maintains k s (lookup k s) h refl

refreeze_found-Maintains :
    (k : Bytes) (s : Dict Token) (o : Option Token)
    → IsKeyed s
    → lookup k s ≡ o
    → Maintains KeepsKeys (refreeze k o)
refreeze_found-Maintains k s none h e = search key_rules depth 8
refreeze_found-Maintains k s (some t) h e = search (key_rules, e) depth 8

refreeze-Maintains :
    (k : Bytes) (s : Dict Token) → IsKeyed s → Maintains KeepsKeys (refreeze k (lookup k s))
refreeze-Maintains k s h = refreeze_found-Maintains k s (lookup k s) h refl

rollback_mint-Maintains : (t : CurrencyTransaction) → Maintains KeepsKeys (rollback_mint t)
unfolding rollback_mint
rollback_mint-Maintains t = search token_rules depth 20

rollback_transfer-Maintains : (t : CurrencyTransaction) → Maintains KeepsKeys (rollback_transfer t)
unfolding rollback_transfer
rollback_transfer-Maintains t = search token_rules depth 20

rollback_burn-Maintains : (t : CurrencyTransaction) → Maintains KeepsKeys (rollback_burn t)
unfolding rollback_burn
rollback_burn-Maintains t = search token_rules depth 20

rollback_mint_token-Maintains :
    (t : MintTokenTransaction) → Maintains KeepsKeys (rollback_mint_token t)
unfolding rollback_mint_token
rollback_mint_token-Maintains t = search token_rules depth 20

rollback_transfer_token-Maintains :
    (t : TokenTransaction) → Maintains KeepsKeys (rollback_transfer_token t)
unfolding rollback_transfer_token
rollback_transfer_token-Maintains t = search token_rules depth 20

rollback_authorize_token_transfer-Maintains :
    (t : SlotTransaction) → Maintains KeepsKeys (rollback_authorize_token_transfer t)
unfolding rollback_authorize_token_transfer
rollback_authorize_token_transfer-Maintains t = search token_rules depth 20

rollback_unauthorize_token_transfer-Maintains :
    (t : SlotTransaction) → Maintains KeepsKeys (rollback_unauthorize_token_transfer t)
unfolding rollback_unauthorize_token_transfer
rollback_unauthorize_token_transfer-Maintains t = search token_rules depth 20

rollback_burn_token-Maintains :
    (t : BurnTokenTransaction) → Maintains KeepsKeys (rollback_burn_token t)
unfolding rollback_burn_token
rollback_burn_token-Maintains t = search token_rules depth 20

rollback_clawback_token-Maintains :
    (t : TokenTransaction) → Maintains KeepsKeys (rollback_clawback_token t)
unfolding rollback_clawback_token
rollback_clawback_token-Maintains t = search token_rules depth 20

rollback_freeze_token-Maintains :
    (t : SlotTransaction) → Maintains KeepsKeys (rollback_freeze_token t)
unfolding rollback_freeze_token
rollback_freeze_token-Maintains t = search (token_rules, thaw-Maintains) depth 20

rollback_unfreeze_token-Maintains :
    (t : SlotTransaction) → Maintains KeepsKeys (rollback_unfreeze_token t)
unfolding rollback_unfreeze_token
rollback_unfreeze_token-Maintains t = search (token_rules, refreeze-Maintains) depth 20

pub rollback-Maintains : (trx : Transaction) → Maintains KeepsKeys (rollback trx)
unfolding rollback
rollback-Maintains (Transaction.mint t) = record { apply = (rollback_mint-Maintains t).apply }
rollback-Maintains (Transaction.transfer t) = record {
  apply = (rollback_transfer-Maintains t).apply;
}
rollback-Maintains (Transaction.burn t) = record { apply = (rollback_burn-Maintains t).apply }
rollback-Maintains (Transaction.mint_token t) = record {
  apply = (rollback_mint_token-Maintains t).apply;
}
rollback-Maintains (Transaction.transfer_token t) = record {
  apply = (rollback_transfer_token-Maintains t).apply;
}
rollback-Maintains (Transaction.authorize_token_transfer t) = record {
  apply = (rollback_authorize_token_transfer-Maintains t).apply;
}
rollback-Maintains (Transaction.unauthorize_token_transfer t) = record {
  apply = (rollback_unauthorize_token_transfer-Maintains t).apply;
}
rollback-Maintains (Transaction.burn_token t) = record {
  apply = (rollback_burn_token-Maintains t).apply;
}
rollback-Maintains (Transaction.clawback_token t) = record {
  apply = (rollback_clawback_token-Maintains t).apply;
}
rollback-Maintains (Transaction.freeze_token t) = record {
  apply = (rollback_freeze_token-Maintains t).apply;
}
rollback-Maintains (Transaction.unfreeze_token t) = record {
  apply = (rollback_unfreeze_token-Maintains t).apply;
}
