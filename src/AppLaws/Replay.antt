-- ===== src/AppLaws/Replay.antt =====
-- A request that has been accepted once (App.Transfer of internal/scalegraph/app.go).
use sg_emulator.Base.{subst, ◌≡◌, ◌≢◌, sym, ◌∙◌, ap, false, arith, some, inl, inr}
use sg_emulator.Base.Bytes.{bytes_eq, bytes_eq_iff}
use sg_emulator.Base.Dict.{lookup, insert, lookup-insert, lookup-insert_self}
use sg_emulator.Base.Word.{inc64-ne}
use sg_emulator.Base.Action.{ok, err}
use sg_emulator.Errors.{nonce_mismatch}
use sg_emulator.Account.{Account, get_nonce}
use sg_emulator.Requests.{TransferRequest}
use sg_emulator.App.{App, Ids, transfer}
use sg_emulator.AppLaws.Sound.{AllSound}
use sg_emulator.AppLaws.Transfer.{paid, credited, sent, Accepted, transfer_outcome}

-- The payer and the payee are found, but the nonce is not the payer's count.
stale_refused :
    (ids : Ids) (req : TransferRequest) (app : App) (f t : Account)
    → lookup req.from app.accounts ≡ some f
    → lookup req.to app.accounts ≡ some t
    → bytes_eq req.from req.to ≡ false
    → f.outgoing_tx_count ≢ req.nonce
    → transfer ids req app ≡ (err nonce_mismatch, app)
unfolding transfer get_nonce
stale_refused ids req app f t ef et ne stale = ground arith

module _ (ids again : Ids) (req : TransferRequest) (app app' : App) (sound : AllSound app) where
  replay_refused :
      Accepted ids req app sound (ok tt, app')
      → transfer again req app' ≡ (err nonce_mismatch, app')
  replay_refused a =
      let state = ap (λ r. r.1) a.result in
      let payer' = paid ids.first_block (sent ids req app sound) req.amount a.payer in
      let payee' = credited ids.second_block (sent ids req app sound) req.amount a.payee in
      let found_from : lookup req.from app'.accounts ≡ some payer' = rw state (
        ground (
          arith,
          a.distinct,
          bytes_eq_iff req.from req.to,
          bytes_eq_iff req.to req.from,
          lookup-insert req.from req.to payee' (insert req.from payer' app.accounts),
          lookup-insert_self req.from payer' app.accounts,
        )) in
      let found_to : lookup req.to app'.accounts ≡ some payee' =
        rw state (lookup-insert_self req.to payee' (insert req.from payer' app.accounts)) in
      stale_refused again req app' payer' payee' found_from found_to a.distinct (λ e.
        inc64-ne a.payer.outgoing_tx_count (sound req.from a.payer a.found_payer).bounded
          (e ∙ a.fresh))

  -- On a sound application, a transfer that was accepted is refused with a nonce mismatch when the
  -- same request comes again, and changes nothing then, whatever identifiers are drawn for it.
  pub transfer_replayed :
      transfer ids req app ≡ (ok tt, app') → transfer again req app' ≡ (err nonce_mismatch, app')
  transfer_replayed done = elim (transfer_outcome ids req app sound) [
    | inl (e, refused) ↦ let clash = sym done ∙ refused in cc clash
    | inr accepted ↦ replay_refused (subst (Accepted ids req app sound) done accepted)
  ]
