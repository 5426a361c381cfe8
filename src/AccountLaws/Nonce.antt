-- ===== src/AccountLaws/Nonce.antt =====
-- The count of outgoing transactions (outgoingTxCount of internal/scalegraph/account.go), which is
-- the nonce that the next signed transaction of the account must carry.
use sg_emulator.Base.{⊤, ℕ, ◌≡◌, ◌∙◌, ap, Bool, true, false, not, ◌&&◌, arith, if◌then◌else◌}
use sg_emulator.Base.Int.{eqb_ℤ_iff}
use sg_emulator.Base.Word.{inc64, to_int64}
use sg_emulator.Base.Action.{ok}
use sg_emulator.Id.{ScalegraphId}
use sg_emulator.Transaction.{
  Transaction, CurrencyTransaction, MintTokenTransaction, TokenTransaction, SlotTransaction,
  BurnTokenTransaction,
}
use sg_emulator.Account.{
  Account, is_self, mint_token, add_token_from_transfer, remove_token, add_token, burn_token,
  handle_mint, handle_transfer, handle_burn, handle_mint_token, handle_transfer_token,
  handle_authorize_token_transfer, handle_unauthorize_token_transfer, handle_burn_token,
  handle_clawback_token, handle_freeze_token, handle_unfreeze_token, handle, append_transaction,
}
use sg_emulator.AccountLaws.Atomic.{append_transaction_ok}

-- Whether this account is the one whose signature the transaction needs. Of a clawback that is the
-- receiver, of a newly minted token too; money is minted and burned without a signature.
abbrev pub signs : Transaction → Account → Bool
signs (Transaction.mint t) a = false
signs (Transaction.transfer t) a = is_self t.sender a
signs (Transaction.burn t) a = false
signs (Transaction.mint_token t) a = is_self t.receiver a
signs (Transaction.transfer_token t) a = is_self t.sender a
signs (Transaction.clawback_token t) a = not (is_self t.sender a) && is_self t.receiver a
signs (Transaction.authorize_token_transfer t) a = is_self t.sender a
signs (Transaction.unauthorize_token_transfer t) a = is_self t.sender a
signs (Transaction.burn_token t) a = is_self t.account_id a
signs (Transaction.freeze_token t) a = is_self t.sender a
signs (Transaction.unfreeze_token t) a = is_self t.sender a

-- The nonce that a transaction carries, as a number; a plain transfer carries none.
abbrev pub MatchesNonce : Transaction → ℕ → Type 0
MatchesNonce (Transaction.mint t) n = ⊤
MatchesNonce (Transaction.transfer t) n = ⊤
MatchesNonce (Transaction.burn t) n = ⊤
MatchesNonce (Transaction.mint_token t) n = t.token.nonce ≡ to_int64 n
MatchesNonce (Transaction.transfer_token t) n = t.nonce ≡ n
MatchesNonce (Transaction.clawback_token t) n = t.nonce ≡ n
MatchesNonce (Transaction.authorize_token_transfer t) n = t.nonce ≡ n
MatchesNonce (Transaction.unauthorize_token_transfer t) n = t.nonce ≡ n
MatchesNonce (Transaction.burn_token t) n = t.nonce ≡ n
MatchesNonce (Transaction.freeze_token t) n = t.nonce ≡ n
MatchesNonce (Transaction.unfreeze_token t) n = t.nonce ≡ n

-- What every successful handler does to the fields that identify an account and to its count.
pub record Counted (trx : Transaction) (a b : Account) : Type 0 where
  pub same_id : b.id ≡ a.id
  pub same_key : b.public_key ≡ a.public_key
  pub same_certificate : b.certificate ≡ a.certificate
  pub same_chain : b.blockchain ≡ a.blockchain
  pub count :
      b.outgoing_tx_count ≡ (if signs trx a then inc64 a.outgoing_tx_count else a.outgoing_tx_count)
  pub matched : signs trx a ≡ true → MatchesNonce trx a.outgoing_tx_count

mint-Counted :
    (t : CurrencyTransaction) (a : Account)
    → (handle_mint t a).0 ≡ ok tt
    → Counted (Transaction.mint t) a (handle_mint t a).1
unfolding handle_mint
mint-Counted t a h = ground (arith)

transfer-Counted :
    (t : CurrencyTransaction) (a : Account)
    → (handle_transfer t a).0 ≡ ok tt
    → Counted (Transaction.transfer t) a (handle_transfer t a).1
unfolding handle_transfer
transfer-Counted t a h = ground (arith)

burn-Counted :
    (t : CurrencyTransaction) (a : Account)
    → (handle_burn t a).0 ≡ ok tt
    → Counted (Transaction.burn t) a (handle_burn t a).1
unfolding handle_burn
burn-Counted t a h = ground (arith)

mint_token-Counted :
    (t : MintTokenTransaction) (a : Account)
    → (handle_mint_token t a).0 ≡ ok tt
    → Counted (Transaction.mint_token t) a (handle_mint_token t a).1
unfolding handle_mint_token mint_token
mint_token-Counted t a h = ground (arith, eqb_ℤ_iff t.token.nonce (to_int64 a.outgoing_tx_count))

transfer_token-Counted :
    (t : TokenTransaction) (a : Account)
    → (handle_transfer_token t a).0 ≡ ok tt
    → Counted (Transaction.transfer_token t) a (handle_transfer_token t a).1
unfolding handle_transfer_token remove_token add_token_from_transfer
transfer_token-Counted t a h = ground (arith)

authorize_token_transfer-Counted :
    (t : SlotTransaction) (a : Account)
    → (handle_authorize_token_transfer t a).0 ≡ ok tt
    → Counted (Transaction.authorize_token_transfer t) a (handle_authorize_token_transfer t a).1
unfolding handle_authorize_token_transfer
authorize_token_transfer-Counted t a h = ground (arith)

unauthorize_token_transfer-Counted :
    (t : SlotTransaction) (a : Account)
    → (handle_unauthorize_token_transfer t a).0 ≡ ok tt
    → Counted (Transaction.unauthorize_token_transfer t) a (handle_unauthorize_token_transfer t a).1
unfolding handle_unauthorize_token_transfer
unauthorize_token_transfer-Counted t a h = ground (arith)

burn_token-Counted :
    (t : BurnTokenTransaction) (a : Account)
    → (handle_burn_token t a).0 ≡ ok tt
    → Counted (Transaction.burn_token t) a (handle_burn_token t a).1
unfolding handle_burn_token burn_token
burn_token-Counted t a h = ground (arith)

clawback_token-Counted :
    (t : TokenTransaction) (a : Account)
    → (handle_clawback_token t a).0 ≡ ok tt
    → Counted (Transaction.clawback_token t) a (handle_clawback_token t a).1
unfolding handle_clawback_token remove_token add_token
clawback_token-Counted t a h = ground (arith)

freeze_token-Counted :
    (t : SlotTransaction) (a : Account)
    → (handle_freeze_token t a).0 ≡ ok tt
    → Counted (Transaction.freeze_token t) a (handle_freeze_token t a).1
unfolding handle_freeze_token
freeze_token-Counted t a h = ground (arith)

unfreeze_token-Counted :
    (t : SlotTransaction) (a : Account)
    → (handle_unfreeze_token t a).0 ≡ ok tt
    → Counted (Transaction.unfreeze_token t) a (handle_unfreeze_token t a).1
unfolding handle_unfreeze_token
unfreeze_token-Counted t a h = ground (arith)

pub handle-Counted :
    (trx : Transaction) (a : Account) → (handle trx a).0 ≡ ok tt → Counted trx a (handle trx a).1
unfolding handle
handle-Counted (Transaction.mint t) a h = mint-Counted t a h
handle-Counted (Transaction.transfer t) a h = transfer-Counted t a h
handle-Counted (Transaction.burn t) a h = burn-Counted t a h
handle-Counted (Transaction.mint_token t) a h = mint_token-Counted t a h
handle-Counted (Transaction.transfer_token t) a h = transfer_token-Counted t a h
handle-Counted (Transaction.authorize_token_transfer t) a h = authorize_token_transfer-Counted t a h
handle-Counted (Transaction.unauthorize_token_transfer t) a h =
    unauthorize_token_transfer-Counted t a h
handle-Counted (Transaction.burn_token t) a h = burn_token-Counted t a h
handle-Counted (Transaction.clawback_token t) a h = clawback_token-Counted t a h
handle-Counted (Transaction.freeze_token t) a h = freeze_token-Counted t a h
handle-Counted (Transaction.unfreeze_token t) a h = unfreeze_token-Counted t a h

-- When `appendTransaction` succeeds the count goes up by one, with the wrap-around of a uint64, if
-- this account is the one that signs the transaction, and else stays; and an account that signs a
-- transaction with a nonce accepts it only at its own count. The identifier stays.
pub append_transaction_count :
    (block_id : ScalegraphId) (trx : Transaction) (a : Account)
    → (append_transaction block_id trx a).0 ≡ ok tt
    → let b = (append_transaction block_id trx a).1 in
      (b.outgoing_tx_count
        ≡ (if signs trx a then inc64 a.outgoing_tx_count else a.outgoing_tx_count))
      × (signs trx a ≡ true → MatchesNonce trx a.outgoing_tx_count)
      × (b.id ≡ a.id)
append_transaction_count block_id trx a h =
    let (done, e) = append_transaction_ok block_id trx a h in
    let c = handle-Counted trx a done in
    (ap (λ b. b.outgoing_tx_count) e ∙ c.count, c.matched, ap (λ b. b.id) e ∙ c.same_id)
