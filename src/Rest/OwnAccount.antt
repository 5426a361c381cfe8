-- ===== src/Rest/OwnAccount.antt =====
-- Who is shown an account over REST (internal/transport/rest/rest.go, through the client and the
-- server).
use mathlib.Core.Option.{some-injective}
use sg_emulator.Base.{◌≡◌, refl, sym, ◌∙◌, ap, Bool-cases, inl, inr, Option, none, some, arith}
use sg_emulator.Base.Bytes.{bytes_eq, bytes_eq_iff}
use sg_emulator.Base.Dict.{lookup}
use sg_emulator.Base.Action.{Result, ok, err, panic, or_fail}
use sg_emulator.Errors.{Error, account_not_found}
use sg_emulator.Id.{ScalegraphId, from_string, to_string}
use sg_emulator.Account.{Account}
use sg_emulator.App
use sg_emulator.App.{App, find_account}
use sg_emulator.Requests.{SignedEnvelope, GetAccountPayload, GetAccountRequest}
use sg_emulator.Server.{
  Request, Response, Environment, Draw, verify, handler, handle_request, signature_verifier,
}
use sg_emulator.Verify.{verify_get_account}
use sg_emulator.VerifyLaws.Envelope.{Authentic, after_ok, verify_envelope_data-Authentic}
use sg_emulator.VerifyLaws.Payload.{verify_request-Checked}
use sg_emulator.ServerLaws.ReadOnly.{verify-Preserves}
use sg_emulator.Client
use sg_emulator.Client.{Delivery, send, send_request, as_account}
use sg_emulator.Rest.{
  Reply, Body, respond, account_response, account_reply, get_my_account, handle_get_my_account,
}

or_fail_ok :
    {A : Type 0} (o : Option A) (e : Error) (app : App) (a : A)
    → (or_fail o e app).0 ≡ ok a
    → o ≡ some a
or_fail_ok none e app a h = cc
or_fail_ok (some b) e app a h = let same : b ≡ a = cc in ap some same

-- What the client gets of the result of a request; of a crash it gets no answer.
abbrev pub response_of : Result Error Response → Delivery
response_of (ok resp) = Delivery.answered resp
response_of (err e) = Delivery.refused e
response_of panic = Delivery.timed_out

module _ (env : Environment) (draw : Draw) (app : App) where
  -- The client's requests go to a server with these accounts.
  abbrev pub deliver : Request → Delivery
  deliver r = response_of (handle_request env draw r app).0

  -- An account was shown: the signer is the account itself, the signature is authentic, and what is
  -- shown is the account that the server has under this identifier.
  pub record Shown (body : Option (Option (SignedEnvelope GetAccountPayload))) (reply : Reply)
      : Type 0 where
    pub envelope : SignedEnvelope GetAccountPayload
    pub id : ScalegraphId
    pub account : Account
    pub asked : body ≡ some (some envelope)
    pub names : from_string envelope.payload.account_id ≡ ok id
    pub own : envelope.signature.signer_id ≡ envelope.payload.account_id
    pub authentic :
        Authentic env.crypto env.verifier draw.cert_time draw.now
          (env.json.get_account envelope.payload)
          envelope.signature
    pub found : lookup id app.accounts ≡ some account
    pub shown : reply ≡ respond 200 (Body.account (account_response account))

  found_of :
      (r : GetAccountRequest) (a : Account)
      → (handle_request env draw (Request.get_account r) app).0 ≡ ok (Response.account a)
      → ((verify env draw (Request.get_account r) app).0 ≡ ok tt)
        × (lookup r.account_id app.accounts ≡ some a)
  unfolding handle_request handler App.get_account
  found_of r a h =
      let (u, app1, e1, h1) =
        after_ok (verify env draw (Request.get_account r) app) _ (Response.account a) h in
      let unchanged =
        ap (λ p. p.1) (sym e1)
        ∙ (verify-Preserves env draw (λ x. x ≡ app) (Request.get_account r)).apply app refl in
      let (b, app2, e2, h2) = after_ok (App.get_account r app1) _ (Response.account a) h1 in
      let same : b ≡ a = cc in
      (
        ap (λ p. p.0) e1,
        ap (λ x. lookup r.account_id x.accounts) (sym unchanged)
            ∙ or_fail_ok (lookup r.account_id app1.accounts) account_not_found app1 b
                (ap (λ p. p.0) e2)
            ∙ ap some same,
      )

  answered_account :
      (res : Result Error Response) (a : Account)
      → send as_account (response_of res) ≡ ok a
      → res ≡ ok (Response.account a)
  unfolding send send_request
  answered_account (ok (Response.account b)) a h =
      let same : b ≡ a = cc in ap (λ x. ok (Response.account x)) same
  answered_account (ok Response.done) a h = cc
  answered_account (ok (Response.count n)) a h = cc
  answered_account (ok (Response.accounts l)) a h = cc
  answered_account (ok (Response.token_id x)) a h = cc
  answered_account (ok (Response.token t)) a h = cc
  answered_account (err x) a h = cc
  answered_account panic a h = cc

  replied_account :
      (res : Result Error Account)
      → (account_reply deliver res).status ≡ 200
      → (a : Account) × (res ≡ ok a)
  unfolding respond
  replied_account (ok a) h = (a, refl)
  replied_account (err x) h = absurd (omega (arith, h))
  replied_account panic h = absurd (omega (arith, h))

  own-Shown :
      (e : SignedEnvelope GetAccountPayload) (id : ScalegraphId)
      → from_string e.payload.account_id ≡ ok id
      → e.signature.signer_id ≡ e.payload.account_id
      → (account_reply deliver (Client.get_account deliver id (some e))).status ≡ 200
      → Shown (some (some e)) (account_reply deliver (Client.get_account deliver id (some e)))
  unfolding Client.get_account verify verify_get_account
  own-Shown e id named own h =
      let r : GetAccountRequest = record { account_id = id; signed_envelope = some e } in
      let (a, is) = replied_account (Client.get_account deliver id (some e)) h in
      let (verified, found) =
        found_of r a
          (answered_account (handle_request env draw (Request.get_account r) app).0 a is) in
      let k =
        verify_request-Checked env.crypto (signature_verifier env draw) env.ca_key
          env.json.get_account (some e) (to_string id) _ app verified in
      let same : k.envelope ≡ e = some-injective _ _ (sym k.present) in
      record {
        envelope = e;
        id = id;
        account = a;
        asked = refl;
        names = named;
        own = own;
        authentic =
            verify_envelope_data-Authentic env.crypto env.verifier draw.cert_time draw.now
              e.signature.signer_id (env.json.get_account e.payload) e.signature app
              (rw same at k.verified);
        found = found;
        shown = ap (account_reply deliver) is;
      }

  named-Shown :
      (e : SignedEnvelope GetAccountPayload) (q : Result Error ScalegraphId)
      → from_string e.payload.account_id ≡ q
      → (get_my_account deliver e q).status ≡ 200
      → Shown (some (some e)) (get_my_account deliver e q)
  unfolding respond
  named-Shown e (err x) named h = absurd (omega (arith, h))
  named-Shown e panic named h = absurd (omega (arith, h))
  named-Shown e (ok id) named h =
      elim (Bool-cases (bytes_eq e.signature.signer_id e.payload.account_id)) [
        | inl own ↦ rw own (own-Shown e id named ((bytes_eq_iff _ _).0 own) (rw own at h))
        | inr other ↦ absurd (omega (arith, rw other at h))
      ]

  -- Over REST an account is shown to itself alone: if the reply is 200, the request was signed by
  -- the account that it names, the signature is authentic, and what is shown is what the server
  -- has under this identifier.
  pub handle_get_my_account-Shown :
      (body : Option (Option (SignedEnvelope GetAccountPayload)))
      → (handle_get_my_account deliver body).status ≡ 200
      → Shown body (handle_get_my_account deliver body)
  unfolding handle_get_my_account respond
  handle_get_my_account-Shown none h = absurd (omega (arith, h))
  handle_get_my_account-Shown (some none) h = absurd (omega (arith, h))
  handle_get_my_account-Shown (some (some e)) h =
      named-Shown e (from_string e.payload.account_id) refl h
