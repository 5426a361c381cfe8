-- ===== src/ServerLaws/Settled.antt =====
-- A request for a transfer from its envelope to the accounts (handleRequest and handleTransfer of
-- internal/server/server.go).
use sg_emulator.Base.{⊤, ◌≡◌, refl, sym, ◌∙◌, ap, subst, length, inl, inr}
use sg_emulator.Base.Action.{Result, ok, after, pure}
use sg_emulator.Errors.{Error}
use sg_emulator.Id.{id_length}
use sg_emulator.Requests.{TransferRequest}
use sg_emulator.App.{App, transfer}
use sg_emulator.AppLaws.Sound.{AllSound}
use sg_emulator.AppLaws.Transfer.{Accepted, transfer_outcome}
use sg_emulator.VerifyLaws.Envelope.{after_ok, Authentic, verify_envelope_data-Authentic}
use sg_emulator.VerifyLaws.Payload.{SignedTransfer, verify_transfer-SignedTransfer}
use sg_emulator.Server.{
  Request, Response, Environment, Draw, signature_verifier, verify, handler, handle_request,
}
use sg_emulator.ServerLaws.Money.{after_same}
use sg_emulator.ServerLaws.ReadOnly.{verify-Preserves}

module _ (env : Environment) (draw : Draw) (r : TransferRequest) (app : App)
    (sound : AllSound app) where
  -- The transfer was signed by its payer, authentically, and the application has accepted it.
  pub record Settled : Type 0 where
    pub signed : SignedTransfer env.crypto (signature_verifier env draw) env.ca_key env.json r app
    pub authentic :
        Authentic env.crypto env.verifier draw.cert_time draw.now
          (env.json.transfer signed.envelope.payload)
          signed.envelope.signature
    pub accepted : Accepted draw.ids r app sound (transfer draw.ids r app)
    pub state : (handle_request env draw (Request.transfer r) app).1 ≡ (transfer draw.ids r app).1

  done-Accepted :
      (transfer draw.ids r app).0 ≡ ok tt → Accepted draw.ids r app sound (transfer draw.ids r app)
  done-Accepted done = elim (transfer_outcome draw.ids r app sound) [
    | inl (e, refused) ↦ let clash = sym done ∙ ap (λ s. s.0) refused in cc clash
    | inr accepted ↦ accepted
  ]

  transferred :
      (s : Result Error ⊤ × App)
      → (after s (λ u. pure Response.done)).0 ≡ ok Response.done
      → s.0 ≡ ok tt
  transferred s h = let (u, a, e, q) = after_ok s _ Response.done h in ap (λ p. p.0) e

  -- On a sound application, if the server answers a transfer whose payer is named by 20 bytes with
  -- success, the request carried an envelope whose signature is authentic, the payer is its signer,
  -- its payload names the accounts, amount and nonce of the request, and the application has
  -- accepted exactly this transfer.
  pub handle_request-Settled :
      length r.from ≡ id_length
      → (handle_request env draw (Request.transfer r) app).0 ≡ ok Response.done
      → Settled
  unfolding handle_request handler verify
  handle_request-Settled l h =
      let (u, app1, e, h1) =
        after_ok (verify env draw (Request.transfer r) app) _ Response.done h in
      let unchanged =
        (verify-Preserves env draw (λ a. a ≡ app) (Request.transfer r)).apply app refl in
      let here = sym (ap (λ p. p.1) e) ∙ unchanged in
      let signed =
        verify_transfer-SignedTransfer env.crypto (signature_verifier env draw) env.ca_key env.json
          r app l (ap (λ p. p.0) e) in
      let done = transferred (transfer draw.ids r app) (
        subst (λ a. (after (transfer draw.ids r a) (λ u. pure Response.done)).0 ≡ ok Response.done)
          here h1) in
      record {
        signed = signed;
        authentic =
            verify_envelope_data-Authentic env.crypto env.verifier draw.cert_time draw.now
              signed.envelope.signature.signer_id (env.json.transfer signed.envelope.payload)
              signed.envelope.signature app signed.verified;
        accepted = done-Accepted done;
        state =
            ap (λ s. (after s (λ u. handler env draw (Request.transfer r))).1) e
            ∙ after_same (transfer draw.ids r app1)
            ∙ ap (λ a. (transfer draw.ids r a).1) here;
      }
