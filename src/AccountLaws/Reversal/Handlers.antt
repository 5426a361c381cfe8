-- ===== src/AccountLaws/Reversal/Handlers.antt =====
-- What each handler of a transaction and its rollback handler (handleXTx and rollbackXTx of
-- internal/scalegraph/account.go) do together.
use sg_emulator.Base.{
  ⊤, ◌<◌, ◌≡◌, refl, true, false, none, some, arith, if◌then◌else◌, Option-cases, inl, inr,
}
use sg_emulator.Base.Bytes.{Bytes}
use sg_emulator.Base.Dict.{
  lookup, lookup-insert_self, lookup-delete_self, delete-insert, insert-delete, insert-insert,
}
use sg_emulator.Base.Int.{ℤ}
use sg_emulator.Base.Amount.{◌⊞◌, ◌⊟◌}
use sg_emulator.Base.Word.{u64_mod, dec64-inc64}
use sg_emulator.Base.Action.{Result, ok}
use sg_emulator.Errors.{Error}
use sg_emulator.Token.{token_id, placeholder}
use sg_emulator.Transaction.{
  Transaction, CurrencyTransaction, MintTokenTransaction, TokenTransaction, SlotTransaction,
}
use sg_emulator.Account.{
  Account, is_self, mint_token, remove_token, add_token, handle_mint, handle_transfer, handle_burn,
  handle_mint_token, handle_transfer_token, handle_authorize_token_transfer,
  handle_unauthorize_token_transfer, handle_clawback_token, handle_freeze_token,
  handle_unfreeze_token, handle, rollback_mint, rollback_transfer, rollback_burn,
  rollback_mint_token, rollback_transfer_token, rollback_authorize_token_transfer,
  rollback_unauthorize_token_transfer, rollback_clawback_token, rollback_freeze_token,
  rollback_unfreeze_token, rollback, mbr_slot_cost, mbr_token_cost, mbr_freeze_cost,
  mbr_unfreeze_cost,
}

-- Equal but for the order of the entries in the token store, which a Go map does not have.
pub record SameFields (a b : Account) : Type 0 where
  pub id : b.id ≡ a.id
  pub balance : b.balance ≡ a.balance
  pub mbr : b.mbr ≡ a.mbr
  pub blockchain : b.blockchain ≡ a.blockchain
  pub public_key : b.public_key ≡ a.public_key
  pub certificate : b.certificate ≡ a.certificate
  pub outgoing_tx_count : b.outgoing_tx_count ≡ a.outgoing_tx_count

abbrev pub SameStore : Account → Account → Type 0
SameStore a b = (k : Bytes) → lookup k b.token_store ≡ lookup k a.token_store

abbrev pub Reverted : Account → Result Error ⊤ × Account → Type 0
Reverted a (r, b) = (r ≡ ok tt) × SameFields a b × SameStore a b

-- What is added to an amount can be taken back: rounding leaves the amount as it was.
abbrev pub AddsExactly : ℤ → ℤ → Type 0
AddsExactly x y = x ⊞ y ⊟ y ≡ x

abbrev pub TakesExactly : ℤ → ℤ → Type 0
TakesExactly x y = x ⊟ y ⊞ y ≡ x

module _ (a : Account) (bound : a.outgoing_tx_count < u64_mod) where
  mint-Reverted :
      (t : CurrencyTransaction)
      → AddsExactly a.balance t.amount
      → (handle_mint t a).0 ≡ ok tt
      → Reverted a (rollback_mint t (handle_mint t a).1)
  unfolding handle_mint rollback_mint
  mint-Reverted t x h = (refl, ground (arith, x), λ k. refl)

  transfer-Reverted :
      (t : CurrencyTransaction)
      → (is_self t.sender a ≡ true → TakesExactly a.balance t.amount)
        × (is_self t.receiver a ≡ true → AddsExactly a.balance t.amount)
      → (handle_transfer t a).0 ≡ ok tt
      → Reverted a (rollback_transfer t (handle_transfer t a).1)
  unfolding handle_transfer rollback_transfer
  transfer-Reverted t x h = (
    ground arith,
    ground (arith, x.0, x.1, dec64-inc64 a.outgoing_tx_count bound),
    λ k. ground arith,
  )

  burn-Reverted :
      (t : CurrencyTransaction)
      → (is_self t.receiver a ≡ true → TakesExactly a.balance t.amount)
      → (handle_burn t a).0 ≡ ok tt
      → Reverted a (rollback_burn t (handle_burn t a).1)
  unfolding handle_burn rollback_burn
  burn-Reverted t x h = (ground arith, ground (arith, x), λ k. ground arith)

  mint_token-Reverted :
      (t : MintTokenTransaction)
      → (is_self t.receiver a ≡ true → AddsExactly a.mbr mbr_token_cost)
      → (handle_mint_token t a).0 ≡ ok tt
      → Reverted a (rollback_mint_token t (handle_mint_token t a).1)
  unfolding handle_mint_token mint_token rollback_mint_token
  mint_token-Reverted t x h = (
    ground (arith, lookup-insert_self (token_id t.token) t.token a.token_store),
    ground (
      arith,
      lookup-insert_self (token_id t.token) t.token a.token_store,
      dec64-inc64 a.outgoing_tx_count bound,
      x,
    ),
    λ k. ground (
      arith,
      lookup-insert_self (token_id t.token) t.token a.token_store,
      delete-insert (token_id t.token) a.token_store t.token k,
    ),
  )

  transfer_token-Reverted :
      (t : TokenTransaction)
      → is_self t.sender a ≡ true
      → lookup (token_id t.token) a.token_store ≡ some t.token
      → (handle_transfer_token t a).0 ≡ ok tt
      → Reverted a (rollback_transfer_token t (handle_transfer_token t a).1)
  unfolding handle_transfer_token rollback_transfer_token remove_token
  transfer_token-Reverted t me e h = (
    ground (arith),
    ground (arith, dec64-inc64 a.outgoing_tx_count bound),
    λ k. ground (arith, insert-delete (token_id t.token) a.token_store t.token k),
  )

  authorize_token_transfer-Reverted :
      (t : SlotTransaction)
      → lookup t.token_id a.token_store ≡ none
      → (is_self t.sender a ≡ true → AddsExactly a.mbr mbr_slot_cost)
      → (handle_authorize_token_transfer t a).0 ≡ ok tt
      → Reverted a (rollback_authorize_token_transfer t (handle_authorize_token_transfer t a).1)
  unfolding handle_authorize_token_transfer rollback_authorize_token_transfer
  authorize_token_transfer-Reverted t e x h = (
    ground (arith),
    ground (arith, dec64-inc64 a.outgoing_tx_count bound, x),
    λ k. ground (arith, delete-insert t.token_id a.token_store placeholder k),
  )

  unauthorize_token_transfer-Reverted :
      (t : SlotTransaction)
      → lookup t.token_id a.token_store ≡ some placeholder
      → (is_self t.sender a ≡ true → TakesExactly a.mbr mbr_slot_cost)
      → (handle_unauthorize_token_transfer t a).0 ≡ ok tt
      → Reverted a (rollback_unauthorize_token_transfer t (handle_unauthorize_token_transfer t a).1)
  unfolding handle_unauthorize_token_transfer rollback_unauthorize_token_transfer
  unauthorize_token_transfer-Reverted t e x h = (
    ground (arith),
    ground (arith, dec64-inc64 a.outgoing_tx_count bound, x),
    λ k. ground (arith, insert-delete t.token_id a.token_store placeholder k),
  )

  clawback_token-Reverted :
      (t : TokenTransaction)
      → lookup (token_id t.token) a.token_store
        ≡ (if is_self t.sender a then some t.token else none)
      → (handle_clawback_token t a).0 ≡ ok tt
      → Reverted a (rollback_clawback_token t (handle_clawback_token t a).1)
  unfolding handle_clawback_token rollback_clawback_token remove_token add_token
  clawback_token-Reverted t e h = (
    ground (
      arith,
      lookup-delete_self (token_id t.token) a.token_store,
      lookup-insert_self (token_id t.token) t.token a.token_store,
    ),
    ground (
      arith,
      lookup-delete_self (token_id t.token) a.token_store,
      lookup-insert_self (token_id t.token) t.token a.token_store,
      dec64-inc64 a.outgoing_tx_count bound,
    ),
    λ k. ground (
      arith,
      lookup-delete_self (token_id t.token) a.token_store,
      lookup-insert_self (token_id t.token) t.token a.token_store,
      insert-delete (token_id t.token) a.token_store t.token k,
      delete-insert (token_id t.token) a.token_store t.token k,
    ),
  )

  freeze_token-Reverted :
      (t : SlotTransaction)
      → (is_self t.sender a ≡ true → AddsExactly a.mbr mbr_freeze_cost)
      → (handle_freeze_token t a).0 ≡ ok tt
      → Reverted a (rollback_freeze_token t (handle_freeze_token t a).1)
  unfolding handle_freeze_token rollback_freeze_token
  freeze_token-Reverted t x h = elim (Option-cases (lookup t.token_id a.token_store)) [
    | inl e ↦
        (ground arith, ground (arith, x, dec64-inc64 a.outgoing_tx_count bound), λ k. ground arith)
    | inr (tok, e) ↦
        let found = lookup-insert_self t.token_id (record tok { frozen = true }) a.token_store in
        (
          ground (arith, found),
          ground (arith, found, x, dec64-inc64 a.outgoing_tx_count bound),
          λ k. ground (
            arith,
            found,
            insert-insert t.token_id a.token_store tok (record tok { frozen = true }) k,
          ),
        )
  ]

  unfreeze_token-Reverted :
      (t : SlotTransaction)
      → (is_self t.sender a ≡ true → TakesExactly a.mbr mbr_unfreeze_cost)
      → (handle_unfreeze_token t a).0 ≡ ok tt
      → Reverted a (rollback_unfreeze_token t (handle_unfreeze_token t a).1)
  unfolding handle_unfreeze_token rollback_unfreeze_token
  unfreeze_token-Reverted t x h = elim (Option-cases (lookup t.token_id a.token_store)) [
    | inl e ↦
        (ground arith, ground (arith, x, dec64-inc64 a.outgoing_tx_count bound), λ k. ground arith)
    | inr (tok, e) ↦
        let found = lookup-insert_self t.token_id (record tok { frozen = false }) a.token_store in
        (
          ground (arith, found),
          ground (arith, found, x, dec64-inc64 a.outgoing_tx_count bound),
          λ k. ground (
            arith,
            found,
            insert-insert t.token_id a.token_store tok (record tok { frozen = false }) k,
          ),
        )
  ]

-- The transactions whose rollback is exact, by the state before, where rounding is, too: the amount
-- that the handler adds or takes can be taken or added back. A burn of a token is not among them,
-- nor is the receiving side of a token transfer; an authorization is if there was no slot before
-- it, and so on.
abbrev pub IsRevertible : Transaction → Account → Type 0
IsRevertible (Transaction.mint t) a = AddsExactly a.balance t.amount
IsRevertible (Transaction.transfer t) a =
    (is_self t.sender a ≡ true → TakesExactly a.balance t.amount)
    × (is_self t.receiver a ≡ true → AddsExactly a.balance t.amount)
IsRevertible (Transaction.burn t) a =
    (is_self t.receiver a ≡ true → TakesExactly a.balance t.amount)
IsRevertible (Transaction.mint_token t) a =
    (is_self t.receiver a ≡ true → AddsExactly a.mbr mbr_token_cost)
IsRevertible (Transaction.transfer_token t) a =
    (is_self t.sender a ≡ true) × (lookup (token_id t.token) a.token_store ≡ some t.token)
IsRevertible (Transaction.clawback_token t) a =
    lookup (token_id t.token) a.token_store ≡ (if is_self t.sender a then some t.token else none)
IsRevertible (Transaction.authorize_token_transfer t) a =
    (lookup t.token_id a.token_store ≡ none)
    × (is_self t.sender a ≡ true → AddsExactly a.mbr mbr_slot_cost)
IsRevertible (Transaction.unauthorize_token_transfer t) a =
    (lookup t.token_id a.token_store ≡ some placeholder)
    × (is_self t.sender a ≡ true → TakesExactly a.mbr mbr_slot_cost)
IsRevertible (Transaction.burn_token t) a = ⊥
IsRevertible (Transaction.freeze_token t) a =
    (is_self t.sender a ≡ true → AddsExactly a.mbr mbr_freeze_cost)
IsRevertible (Transaction.unfreeze_token t) a =
    (is_self t.sender a ≡ true → TakesExactly a.mbr mbr_unfreeze_cost)

-- A handler that has succeeded on such a transaction is undone by its rollback handler.
pub handle-Reverted :
    (trx : Transaction) (a : Account)
    → a.outgoing_tx_count < u64_mod
    → IsRevertible trx a
    → (handle trx a).0 ≡ ok tt
    → Reverted a (rollback trx (handle trx a).1)
unfolding handle rollback
handle-Reverted (Transaction.mint t) a b p h = mint-Reverted a b t p h
handle-Reverted (Transaction.transfer t) a b p h = transfer-Reverted a b t p h
handle-Reverted (Transaction.burn t) a b p h = burn-Reverted a b t p h
handle-Reverted (Transaction.mint_token t) a b p h = mint_token-Reverted a b t p h
handle-Reverted (Transaction.transfer_token t) a b p h = transfer_token-Reverted a b t p.0 p.1 h
handle-Reverted (Transaction.clawback_token t) a b p h = clawback_token-Reverted a b t p h
handle-Reverted (Transaction.authorize_token_transfer t) a b p h =
    authorize_token_transfer-Reverted a b t p.0 p.1 h
handle-Reverted (Transaction.unauthorize_token_transfer t) a b p h =
    unauthorize_token_transfer-Reverted a b t p.0 p.1 h
handle-Reverted (Transaction.burn_token t) a b p h = absurd p
handle-Reverted (Transaction.freeze_token t) a b p h = freeze_token-Reverted a b t p h
handle-Reverted (Transaction.unfreeze_token t) a b p h = unfreeze_token-Reverted a b t p h
