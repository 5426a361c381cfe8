-- ===== src/AccountLaws/Soundness.antt =====
-- An account's identifier, the bound on its count and the shape of its blockchain, under
-- appendTransaction and rollbacklatestTransaction (internal/scalegraph/account.go).
use sg_emulator.Base.{
  ⊤, ℕ, ◌<◌, ◌≡◌, ◌≢◌, refl, sym, subst, ◌⊎◌, inl, inr, ◌∙◌, arith, Bool, true, false,
  if◌then◌else◌,
}
use sg_emulator.Base.Word.{u64_mod, inc64, inc64-lt, dec64-lt}
use sg_emulator.Base.Action.{Result, ok, err, panic}
use sg_emulator.Errors.{Error}
use sg_emulator.Id.{ScalegraphId}
use sg_emulator.Transaction.{
  Transaction, CurrencyTransaction, MintTokenTransaction, TokenTransaction, SlotTransaction,
  BurnTokenTransaction,
}
use sg_emulator.Chain.{remove_latest_block}
use sg_emulator.Chain.Laws.{IsChain, append-IsChain, remove_latest_block-IsChain}
use sg_emulator.Account.{
  Account, remove_token, add_token, append_transaction, rollback_mint, rollback_transfer,
  rollback_burn, rollback_mint_token, rollback_transfer_token, rollback_authorize_token_transfer,
  rollback_unauthorize_token_transfer, rollback_burn_token, rollback_clawback_token,
  rollback_freeze_token, rollback_unfreeze_token, rollback, rollback_latest_transaction,
}
use sg_emulator.AccountLaws.Atomic.{append_transaction_ok, append_transaction_atomic}
use sg_emulator.AccountLaws.Nonce.{signs, handle-Counted}

-- The account that is kept under the identifier `k`.
pub record IsSound (k : ScalegraphId) (a : Account) : Type 0 where
  pub keyed : a.id ≡ k
  pub bounded : a.outgoing_tx_count < u64_mod
  pub chained : IsChain a.blockchain

-- Whether a result is a success.
pub Result-cases : (r : Result Error ⊤) → (r ≡ ok tt) ⊎ (r ≢ ok tt)
Result-cases (ok u) = inl refl
Result-cases (err e) = inr (λ h. cc)
Result-cases panic = inr (λ h. cc)

inc64-bounded : (c : Bool) (n : ℕ) → n < u64_mod → (if c then inc64 n else n) < u64_mod
inc64-bounded true n h = inc64-lt n
inc64-bounded false n h = h

accepted-IsSound :
    (block_id k : ScalegraphId) (trx : Transaction) (a : Account)
    → IsSound k a
    → (append_transaction block_id trx a).0 ≡ ok tt
    → IsSound k (append_transaction block_id trx a).1
accepted-IsSound block_id k trx a v h =
    let (done, e) = append_transaction_ok block_id trx a h in
    let c = handle-Counted trx a done in
    rw e (record {
      keyed = c.same_id ∙ v.keyed;
      bounded = subst (λ n. n < u64_mod) (sym c.count) (inc64-bounded (signs trx a) _ v.bounded);
      chained = append-IsChain block_id trx _ (subst IsChain (sym c.same_chain) v.chained);
    })

-- An attempt to append a transaction to a sound account, whether it succeeds or not, keeps the
-- account sound: its identifier, the bound on its count and the shape of its chain.
pub append_transaction-IsSound :
    (block_id k : ScalegraphId) (trx : Transaction) (a : Account)
    → IsSound k a
    → IsSound k (append_transaction block_id trx a).1
append_transaction-IsSound block_id k trx a v =
    elim (Result-cases (append_transaction block_id trx a).0) [
      | inl h ↦ accepted-IsSound block_id k trx a v h
      | inr h ↦ rw (append_transaction_atomic block_id trx a h) v
    ]

-- What a rollback handler leaves alone, whatever its result.
pub record Uncounted (a b : Account) : Type 0 where
  pub same_id : b.id ≡ a.id
  pub same_chain : b.blockchain ≡ a.blockchain
  pub bounded : a.outgoing_tx_count < u64_mod → b.outgoing_tx_count < u64_mod

mint-Uncounted : (t : CurrencyTransaction) (a : Account) → Uncounted a (rollback_mint t a).1
unfolding rollback_mint
mint-Uncounted t a = ground (arith, dec64-lt a.outgoing_tx_count)

transfer-Uncounted : (t : CurrencyTransaction) (a : Account) → Uncounted a (rollback_transfer t a).1
unfolding rollback_transfer
transfer-Uncounted t a = ground (arith, dec64-lt a.outgoing_tx_count)

burn-Uncounted : (t : CurrencyTransaction) (a : Account) → Uncounted a (rollback_burn t a).1
unfolding rollback_burn
burn-Uncounted t a = ground (arith, dec64-lt a.outgoing_tx_count)

mint_token-Uncounted :
    (t : MintTokenTransaction) (a : Account) → Uncounted a (rollback_mint_token t a).1
unfolding rollback_mint_token
mint_token-Uncounted t a = ground (arith, dec64-lt a.outgoing_tx_count)

transfer_token-Uncounted :
    (t : TokenTransaction) (a : Account) → Uncounted a (rollback_transfer_token t a).1
unfolding rollback_transfer_token
transfer_token-Uncounted t a = ground (arith, dec64-lt a.outgoing_tx_count)

authorize_token_transfer-Uncounted :
    (t : SlotTransaction) (a : Account) → Uncounted a (rollback_authorize_token_transfer t a).1
unfolding rollback_authorize_token_transfer
authorize_token_transfer-Uncounted t a = ground (arith, dec64-lt a.outgoing_tx_count)

unauthorize_token_transfer-Uncounted :
    (t : SlotTransaction) (a : Account) → Uncounted a (rollback_unauthorize_token_transfer t a).1
unfolding rollback_unauthorize_token_transfer
unauthorize_token_transfer-Uncounted t a = ground (arith, dec64-lt a.outgoing_tx_count)

burn_token-Uncounted :
    (t : BurnTokenTransaction) (a : Account) → Uncounted a (rollback_burn_token t a).1
unfolding rollback_burn_token
burn_token-Uncounted t a = ground (arith, dec64-lt a.outgoing_tx_count)

clawback_token-Uncounted :
    (t : TokenTransaction) (a : Account) → Uncounted a (rollback_clawback_token t a).1
unfolding rollback_clawback_token remove_token add_token
clawback_token-Uncounted t a = ground (arith, dec64-lt a.outgoing_tx_count)

freeze_token-Uncounted :
    (t : SlotTransaction) (a : Account) → Uncounted a (rollback_freeze_token t a).1
unfolding rollback_freeze_token
freeze_token-Uncounted t a = ground (arith, dec64-lt a.outgoing_tx_count)

unfreeze_token-Uncounted :
    (t : SlotTransaction) (a : Account) → Uncounted a (rollback_unfreeze_token t a).1
unfolding rollback_unfreeze_token
unfreeze_token-Uncounted t a = ground (arith, dec64-lt a.outgoing_tx_count)

rollback-Uncounted : (trx : Transaction) (a : Account) → Uncounted a (rollback trx a).1
unfolding rollback
rollback-Uncounted (Transaction.mint t) a = mint-Uncounted t a
rollback-Uncounted (Transaction.transfer t) a = transfer-Uncounted t a
rollback-Uncounted (Transaction.burn t) a = burn-Uncounted t a
rollback-Uncounted (Transaction.mint_token t) a = mint_token-Uncounted t a
rollback-Uncounted (Transaction.transfer_token t) a = transfer_token-Uncounted t a
rollback-Uncounted (Transaction.authorize_token_transfer t) a =
    authorize_token_transfer-Uncounted t a
rollback-Uncounted (Transaction.unauthorize_token_transfer t) a =
    unauthorize_token_transfer-Uncounted t a
rollback-Uncounted (Transaction.burn_token t) a = burn_token-Uncounted t a
rollback-Uncounted (Transaction.clawback_token t) a = clawback_token-Uncounted t a
rollback-Uncounted (Transaction.freeze_token t) a = freeze_token-Uncounted t a
rollback-Uncounted (Transaction.unfreeze_token t) a = unfreeze_token-Uncounted t a

rolled_back-IsSound :
    (k : ScalegraphId) (trx : Transaction) (a : Account)
    → IsSound k a
    → IsSound k (rollback trx (record a { blockchain = remove_latest_block a.blockchain })).1
rolled_back-IsSound k trx a v =
    let b = record a { blockchain = remove_latest_block a.blockchain } in
    let u = rollback-Uncounted trx b in
    record {
      keyed = u.same_id ∙ v.keyed;
      bounded = u.bounded v.bounded;
      chained =
          subst IsChain (sym u.same_chain) (remove_latest_block-IsChain a.blockchain v.chained);
    }

-- An attempt to roll a transaction back, whether it succeeds or not, keeps a sound account sound.
pub rollback_latest_transaction-IsSound :
    (k : ScalegraphId) (trx : Transaction) (a : Account)
    → IsSound k a
    → IsSound k (rollback_latest_transaction trx a).1
unfolding rollback_latest_transaction
rollback_latest_transaction-IsSound k trx a v = ground (arith, rolled_back-IsSound k trx a v)
