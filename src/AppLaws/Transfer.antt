-- ===== src/AppLaws/Transfer.antt =====
-- A transfer of money between two accounts (App.Transfer of internal/scalegraph/app.go): what it
-- does on every path.
use sg_emulator.Base.{
  ⊤, ◌≡◌, false, some, arith, if◌then◌else◌, Bool-cases, Option-cases, ◌==◌, ==_iff, ◌⊎◌, inl, inr,
}
use sg_emulator.Base.Bytes.{bytes_eq, bytes_eq_iff, bytes_eq_refl}
use sg_emulator.Base.Dict.{lookup, insert, lookup-insert, insert_same}
use sg_emulator.Base.Int.{ℤ, ◌≤ℤ◌, ltb_ℤ}
use sg_emulator.Base.Amount.{◌⊞◌, ◌⊟◌}
use sg_emulator.Base.Word.{inc64}
use sg_emulator.Base.Action.{Result, ok, err}
use sg_emulator.Errors.{
  Error, insufficient_balance, source_not_found, destination_not_found, self_transfer,
  nonce_mismatch,
}
use sg_emulator.Id.{ScalegraphId}
use sg_emulator.Transaction.{Transaction, new_transfer_transaction}
use sg_emulator.Chain.{append}
use sg_emulator.Account.{Account, handle, handle_transfer, append_transaction, get_nonce}
use sg_emulator.Requests.{TransferRequest}
use sg_emulator.App.{App, Ids, transfer, on_account}
use sg_emulator.AppLaws.Sound.{AllSound}

-- The sender after a transfer: it has paid, counted one more transaction and added a block.
abbrev pub paid : ScalegraphId → Transaction → ℤ → Account → Account
paid block_id trx amount f = record f {
  balance = f.balance ⊟ amount;
  blockchain = append block_id trx f.blockchain;
  outgoing_tx_count = inc64 f.outgoing_tx_count;
}

-- The receiver: it has been paid and added a block.
abbrev pub credited : ScalegraphId → Transaction → ℤ → Account → Account
credited block_id trx amount t = record t {
  balance = t.balance ⊞ amount;
  blockchain = append block_id trx t.blockchain;
}

module _ (block_id trx_id from to : ScalegraphId) (amount : ℤ) (ne : bytes_eq from to ≡ false) where
  abbrev trx : Transaction
  trx = new_transfer_transaction trx_id from to amount

  sender_side :
      (f : Account)
      → f.id ≡ from
      → append_transaction block_id trx f ≡ (
          if ltb_ℤ (f.balance ⊟ f.mbr) amount
          then (err insufficient_balance, f)
          else (ok tt, paid block_id trx amount f))
  unfolding append_transaction handle handle_transfer
  sender_side f e = ground (arith, bytes_eq_refl from, bytes_eq_iff to from, bytes_eq_iff from to)

  receiver_side :
      (t : Account)
      → t.id ≡ to
      → append_transaction block_id trx t ≡ (ok tt, credited block_id trx amount t)
  unfolding append_transaction handle handle_transfer
  receiver_side t e = ground (arith, bytes_eq_refl to, ne)

module _ (ids : Ids) (req : TransferRequest) (app : App) (sound : AllSound app) where
  abbrev pub sent : Transaction
  sent = new_transfer_transaction ids.transaction req.from req.to req.amount

  -- The second append goes to the account that the first one left alone.
  module _ (f t : Account) (found_from : lookup req.from app.accounts ≡ some f)
      (found_to : lookup req.to app.accounts ≡ some t) (ne : bytes_eq req.from req.to ≡ false) where
    transfer_found :
        req.nonce ≡ f.outgoing_tx_count
        → transfer ids req app ≡ (
            if ltb_ℤ (f.balance ⊟ f.mbr) req.amount then (err insufficient_balance, app) else (
              ok tt,
              record app {
                accounts =
                    insert req.to
                      (credited ids.second_block sent req.amount t)
                      (insert req.from (paid ids.first_block sent req.amount f) app.accounts);
              },
            ))
    unfolding transfer on_account get_nonce
    transfer_found nonce = ground (
      arith,
      found_from,
      (sound req.from f found_from).keyed,
      (sound req.to t found_to).keyed,
      sender_side ids.first_block ids.transaction req.from req.to req.amount ne f
          (sound req.from f found_from).keyed,
      receiver_side ids.second_block ids.transaction req.from req.to req.amount ne t
          (sound req.to t found_to).keyed,
      insert_same req.from f app.accounts found_from,
      lookup-insert req.to req.from (paid ids.first_block sent req.amount f) app.accounts,
    )

  -- The transfer was accepted: both accounts are there and differ, the nonce is the sender's count,
  -- the free balance of the sender covers the amount, and the accounts have changed accordingly.
  pub record Accepted (r : Result Error ⊤ × App) : Type 0 where
    pub payer : Account
    pub payee : Account
    pub found_payer : lookup req.from app.accounts ≡ some payer
    pub found_payee : lookup req.to app.accounts ≡ some payee
    pub distinct : bytes_eq req.from req.to ≡ false
    pub fresh : req.nonce ≡ payer.outgoing_tx_count
    pub covered : req.amount ≤ℤ payer.balance ⊟ payer.mbr
    pub result : r ≡ (
      ok tt,
      record app {
        accounts =
            insert req.to
              (credited ids.second_block sent req.amount payee)
              (insert req.from (paid ids.first_block sent req.amount payer) app.accounts);
      },
    )

  abbrev pub Refused : Result Error ⊤ × App → Type 0
  Refused r = (e : Error) × (r ≡ (err e, app))

  covered_case :
      (f t : Account)
      → lookup req.from app.accounts ≡ some f
      → lookup req.to app.accounts ≡ some t
      → bytes_eq req.from req.to ≡ false
      → req.nonce ≡ f.outgoing_tx_count
      → Refused (transfer ids req app) ⊎ Accepted (transfer ids req app)
  covered_case f t ef et ne nonce = elim (Bool-cases (ltb_ℤ (f.balance ⊟ f.mbr) req.amount)) [
    | inl short ↦ inl (insufficient_balance, ground (arith, transfer_found f t ef et ne nonce))
    | inr enough ↦ inr (record {
      payer = f;
      payee = t;
      found_payer = ef;
      found_payee = et;
      distinct = ne;
      fresh = nonce;
      covered = ground arith;
      result = ground (arith, transfer_found f t ef et ne nonce);
    })
  ]

  checked_case :
      (f t : Account)
      → lookup req.from app.accounts ≡ some f
      → lookup req.to app.accounts ≡ some t
      → Refused (transfer ids req app) ⊎ Accepted (transfer ids req app)
  unfolding transfer get_nonce
  checked_case f t ef et = elim (Bool-cases (bytes_eq req.from req.to)) [
    | inl same ↦ inl (self_transfer, ground arith)
    | inr ne ↦ elim (Bool-cases (req.nonce == f.outgoing_tx_count)) [
      | inl fresh ↦ covered_case f t ef et ne ((==_iff _ _).0 fresh)
      | inr stale ↦ inl (nonce_mismatch, ground arith)
    ]
  ]

  -- Over a sound application, a transfer is either refused with an error, and then no account
  -- changes at all, or every condition held: both accounts exist and differ, the nonce is current
  -- and the amount is covered; and then exactly these two accounts change, by the amount (added and
  -- subtracted with the rounding of float64), one count of the payer and one block on each side.
  pub transfer_outcome : Refused (transfer ids req app) ⊎ Accepted (transfer ids req app)
  unfolding transfer
  transfer_outcome = elim (Option-cases (lookup req.from app.accounts)) [
    | inl missing ↦ inl (source_not_found, ground arith)
    | inr (f, ef) ↦ elim (Option-cases (lookup req.to app.accounts)) [
      | inl missing ↦ inl (destination_not_found, ground arith)
      | inr (t, et) ↦ checked_case f t ef et
    ]
  ]
