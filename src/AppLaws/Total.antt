-- ===== src/AppLaws/Total.antt =====
-- The money in all accounts together (internal/scalegraph/app.go), as an exact sum.
use sg_emulator.Base.{false, ◌≡◌, refl, ◌∙◌, ap, Option, none, some, [], ◌∷◌, arith, inl, inr}
use sg_emulator.Base.Bytes.{bytes_eq}
use sg_emulator.Base.Dict.{Dict, lookup, insert, lookup-insert}
use sg_emulator.Base.Int.{ℤ, pos, ◌+ℤ◌, ◌-ℤ◌, pos_part, neg_part, int_laws, +ℤ_cancel_right}
use sg_emulator.Base.Amount.{◌⊞◌, ◌⊟◌}
use sg_emulator.Id.{ScalegraphId}
use sg_emulator.Transaction.{Transaction}
use sg_emulator.Account.{Account, Method, append_transaction, rollback_latest_transaction}
use sg_emulator.AccountLaws.Balance.{
  IsTokenTransaction, append_transaction-balance, rollback_latest_transaction-balance,
}
use sg_emulator.Requests.{
  TransferRequest, MintTokenRequest, TokenRequest, AuthorizeRequest, BurnTokenRequest,
  FreezeRequest,
}
use sg_emulator.App.{
  App, Ids, run_method, on_account, append_both, transfer, mint_token, authorize_token_transfer,
  unauthorize_token_transfer, transfer_token, burn_token, clawback_token, freeze_token,
  unfreeze_token,
}
use sg_emulator.AppLaws.Preserves.{Preserves, rules}
use sg_emulator.AppLaws.Sound.{AllSound}
use sg_emulator.AppLaws.Transfer.{transfer_outcome}

pub sum : Dict Account → ℤ
sum [] = pos 0
sum ((k, a) ∷ m) = a.balance +ℤ sum m

pub total : App → ℤ
total app = sum app.accounts

sum-insert :
    (k : ScalegraphId) (a b : Account) (m : Dict Account)
    → lookup k m ≡ some a
    → sum (insert k b m) +ℤ a.balance ≡ sum m +ℤ b.balance
unfolding sum lookup insert
sum-insert k a b [] e = cc
sum-insert k a b ((j, c) ∷ m) e = grind (int_laws, sum-insert k a b m)

abbrev pub HasTotal : ℤ → App → Type 0
HasTotal c app = total app ≡ c

module _ (c : ℤ) where
  run_method-HasTotal :
      {A : Type 0} (id : ScalegraphId) (m : Method A) (o : Option Account) (app : App)
      → lookup id app.accounts ≡ o
      → ((a : Account) → (m a).1.balance ≡ a.balance)
      → HasTotal c app
      → HasTotal c (run_method id m o app).1
  unfolding total
  run_method-HasTotal id m none app e keep h = h
  run_method-HasTotal id m (some a) app e keep h =
      +ℤ_cancel_right _ _ _ _ (sum-insert id a (m a).1 app.accounts e) (keep a) ∙ h

  append-HasTotal :
      (id block_id : ScalegraphId) (trx : Transaction)
      → IsTokenTransaction trx
      → Preserves (HasTotal c) (on_account id (append_transaction block_id trx))
  unfolding on_account
  append-HasTotal id block_id trx p = record {
    apply = λ app.
        run_method-HasTotal id _ (lookup id app.accounts) app refl
          (λ a. append_transaction-balance block_id trx a p);
  }

  rollback-HasTotal :
      (id : ScalegraphId) (trx : Transaction)
      → IsTokenTransaction trx
      → Preserves (HasTotal c) (on_account id (rollback_latest_transaction trx))
  unfolding on_account
  rollback-HasTotal id trx p = record {
    apply = λ app.
        run_method-HasTotal id _ (lookup id app.accounts) app refl
          (λ a. rollback_latest_transaction-balance trx a p);
  }

  append_both-HasTotal :
      (ids : Ids) (first second : ScalegraphId) (trx : Transaction)
      → IsTokenTransaction trx
      → Preserves (HasTotal c) (append_both ids first second trx)
  unfolding append_both
  append_both-HasTotal ids first second trx p = search (rules, append-HasTotal, rollback-HasTotal)

  pub mint_token-HasTotal :
      (ids : Ids) (req : MintTokenRequest) → Preserves (HasTotal c) (mint_token ids req)
  unfolding mint_token
  mint_token-HasTotal ids req = search (rules, append-HasTotal) depth 14

  pub authorize_token_transfer-HasTotal :
      (ids : Ids) (req : AuthorizeRequest)
      → Preserves (HasTotal c) (authorize_token_transfer ids req)
  unfolding authorize_token_transfer
  authorize_token_transfer-HasTotal ids req = search (rules, append_both-HasTotal) depth 14

  pub unauthorize_token_transfer-HasTotal :
      (ids : Ids) (req : AuthorizeRequest)
      → Preserves (HasTotal c) (unauthorize_token_transfer ids req)
  unfolding unauthorize_token_transfer
  unauthorize_token_transfer-HasTotal ids req = search (rules, append_both-HasTotal) depth 14

  pub transfer_token-HasTotal :
      (ids : Ids) (req : TokenRequest) → Preserves (HasTotal c) (transfer_token ids req)
  unfolding transfer_token
  transfer_token-HasTotal ids req = search (rules, append_both-HasTotal) depth 14

  pub clawback_token-HasTotal :
      (ids : Ids) (req : TokenRequest) → Preserves (HasTotal c) (clawback_token ids req)
  unfolding clawback_token
  clawback_token-HasTotal ids req = search (rules, append_both-HasTotal) depth 14

  pub freeze_token-HasTotal :
      (ids : Ids) (req : FreezeRequest) → Preserves (HasTotal c) (freeze_token ids req)
  unfolding freeze_token
  freeze_token-HasTotal ids req = search (rules, append_both-HasTotal) depth 14

  pub unfreeze_token-HasTotal :
      (ids : Ids) (req : FreezeRequest) → Preserves (HasTotal c) (unfreeze_token ids req)
  unfolding unfreeze_token
  unfreeze_token-HasTotal ids req = search (rules, append_both-HasTotal) depth 14

  pub burn_token-HasTotal :
      (ids : Ids) (req : BurnTokenRequest) → Preserves (HasTotal c) (burn_token ids req)
  unfolding burn_token
  burn_token-HasTotal ids req = search (rules, append-HasTotal) depth 14

moved_total :
    (from to : ScalegraphId) (f f' t t' : Account) (amount : ℤ) (m : Dict Account)
    → lookup from m ≡ some f
    → lookup to m ≡ some t
    → bytes_eq from to ≡ false
    → f'.balance ≡ f.balance -ℤ amount
    → t'.balance ≡ t.balance +ℤ amount
    → sum (insert to t' (insert from f' m)) ≡ sum m
moved_total from to f f' t t' amount m ef et ne pf pt =
    let first = sum-insert from f f' m ef in
    let second =
      sum-insert to t t' (insert from f' m) (ground (arith, lookup-insert to from f' m)) in
    omega (
      int_laws,
      ap pos_part first,
      ap neg_part first,
      ap pos_part second,
      ap neg_part second,
      ap pos_part pf,
      ap neg_part pf,
      ap pos_part pt,
      ap neg_part pt,
    )

-- Neither the payer's balance nor the payee's is rounded by this transfer.
pub record RoundsNothing (req : TransferRequest) (app : App) : Type 0 where
  pub payer :
      (f : Account)
      → lookup req.from app.accounts ≡ some f
      → f.balance ⊟ req.amount ≡ f.balance -ℤ req.amount
  pub payee :
      (t : Account)
      → lookup req.to app.accounts ≡ some t
      → t.balance ⊞ req.amount ≡ t.balance +ℤ req.amount

-- A transfer that rounds nothing leaves the money of all accounts together as it was, whether it is
-- accepted or refused.
pub total-transfer :
    (ids : Ids) (req : TransferRequest) (app : App)
    → AllSound app
    → RoundsNothing req app
    → total (transfer ids req app).1 ≡ total app
unfolding total
total-transfer ids req app sound exact = elim (transfer_outcome ids req app sound) [
  | inl (e, same) ↦ rw same
  | inr acc ↦ rw acc.result (
      moved_total req.from req.to acc.payer _ acc.payee _ req.amount app.accounts acc.found_payer
        acc.found_payee acc.distinct (exact.payer acc.payer acc.found_payer)
        (exact.payee acc.payee acc.found_payee))
]
