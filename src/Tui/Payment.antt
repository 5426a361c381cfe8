-- ===== src/Tui/Payment.antt =====
-- A payment that the terminal interface calls complete (updateSendMoney of internal/tui/update.go, over
-- the client and the server).
use sg_emulator.Base.{⊤, ℕ, ◌≡◌, ◌≢◌, refl, Bool-cases, not, some, inl, inr, length, arith}
use sg_emulator.Base.Bytes.{Bytes, AreBytes}
use sg_emulator.Base.Int.{ℤ, pos, ltb_ℤ}
use sg_emulator.Base.Action.{Result, ok, err, panic}
use sg_emulator.Errors.{Error, invalid_private_key_pem}
use sg_emulator.Id.{ScalegraphId, id_length, from_string, to_string}
use sg_emulator.Id.RoundTrip.{from_string-to_string}
use sg_emulator.Account.{get_nonce}
use sg_emulator.App.{App}
use sg_emulator.AppLaws.Sound.{AllSound}
use sg_emulator.Requests.{SignedEnvelope, TransferPayload, TransferRequest}
use sg_emulator.Server.{Request, Environment, Draw, handle_request}
use sg_emulator.ServerLaws.Settled.{Settled, handle_request-Settled}
use sg_emulator.Signer.{sign, create_signed_envelope}
use sg_emulator.Client.{send, as_done, transfer_signed, transfer_request}
use sg_emulator.Rest.OwnAccount.{deliver}
use sg_emulator.Connect.EndToEnd.{answered_done}
use sg_emulator.Tui.State.{Model, World, Status, Outcome, AccountCredentials}
use sg_emulator.Tui.Moves.{at}
use sg_emulator.Tui.Effects.{
  and_then, map_error, or_error, or_status, get_credentials, send_signed, perform,
}
use sg_emulator.Tui.Send.{send_payment, transfer_payload, transfer_complete}

-- The interface says that a payment is complete.
unfoldable pub SaysComplete : Outcome → Type 0
SaysComplete (Outcome.next m) = m.status_msg ≡ Status.transfer_complete
SaysComplete Outcome.quit = ⊥
SaysComplete Outcome.crash = ⊥

-- A step that says so only by going on.
GoesOn : {A : Type 0} → Result Status A → Type 0
GoesOn (ok a) = ⊤
GoesOn (err s) = s ≢ Status.transfer_complete
GoesOn panic = ⊤

or_status_done :
    {A : Type 0} (r : Result Status A) (m : Model) (f : A → Outcome)
    → GoesOn r
    → SaysComplete (or_status r m f)
    → (a : A) × (r ≡ ok a) × SaysComplete (f a)
unfolding GoesOn SaysComplete
or_status_done (ok a) m f g h = (a, refl, h)
or_status_done (err s) m f g h = absurd (g h)
or_status_done panic m f g h = absurd h

map_error-GoesOn :
    {E A : Type 0} (f : E → Status) (r : Result E A)
    → ((e : E) → f e ≢ Status.transfer_complete)
    → GoesOn (map_error f r)
unfolding GoesOn
map_error-GoesOn f (ok a) k = tt
map_error-GoesOn f (err e) k = k e
map_error-GoesOn f panic k = tt

and_then-GoesOn :
    {A B : Type 0} (r : Result Status A) (f : A → Result Status B)
    → GoesOn r
    → ((a : A) → GoesOn (f a))
    → GoesOn (and_then r f)
unfolding GoesOn
and_then-GoesOn (ok a) f g k = k a
and_then-GoesOn (err s) f g k = g
and_then-GoesOn panic f g k = tt

and_then_ok :
    {E A B : Type 0} (r : Result E A) (f : A → Result E B) (b : B)
    → and_then r f ≡ ok b
    → (a : A) × (r ≡ ok a) × (f a ≡ ok b)
and_then_ok (ok a) f b h = (a, refl, h)
and_then_ok (err e) f b h = cc
and_then_ok panic f b h = cc

map_error_inv :
    {E D A : Type 0} (f : E → D) (r : Result E A) (a : A) → map_error f r ≡ ok a → r ≡ ok a
map_error_inv f (ok b) a e = cc
map_error_inv f (err x) a e = cc
map_error_inv f panic a e = cc

module _ (w : World) where
  send_signed-GoesOn :
      {T A : Type 0} (bytes_of : T → Bytes) (payload : T) (call : SignedEnvelope T → Result Error A)
      → (id : ScalegraphId) (creds : AccountCredentials)
      → GoesOn (send_signed w bytes_of (some payload) call id creds)
  unfolding send_signed
  send_signed-GoesOn bytes_of payload call id creds =
      and_then-GoesOn _ _
        (map_error-GoesOn Status.private_key_failed
          (or_error (w.decode_private_key_pem creds.private_key_pem) invalid_private_key_pem)
          λ e h. cc)
        λ key.
          and_then-GoesOn _ _
            (map_error-GoesOn Status.sign_failed
              (create_signed_envelope w.ed25519_sign bytes_of payload key (to_string id) w.now)
              λ e h. cc)
            λ envelope. map_error-GoesOn Status.failed (call envelope) λ e h. cc

  -- An envelope that is created has the payload.
  create_signed_envelope_payload :
      {T : Type 0} (bytes_of : T → Bytes) (payload : T) (key id : Bytes) (now : ℤ)
      → (e : SignedEnvelope T)
      → create_signed_envelope w.ed25519_sign bytes_of payload key id now ≡ ok e
      → e.payload ≡ payload
  unfolding create_signed_envelope sign
  create_signed_envelope_payload bytes_of payload key id now e h = ground (arith, h)

  module _ {T A : Type 0} (bytes_of : T → Bytes) (payload : T)
      (call : SignedEnvelope T → Result Error A) (id : ScalegraphId) where
    -- The steps after the key is parsed, and after the envelope is signed.
    abbrev call_with : SignedEnvelope T → Result Status A
    call_with envelope = map_error Status.failed (call envelope)

    abbrev signed_with : Bytes → Result Error (SignedEnvelope T)
    signed_with key =
        create_signed_envelope w.ed25519_sign bytes_of payload key (to_string id) w.now

    abbrev sign_and_call : Bytes → Result Status A
    sign_and_call key = and_then (map_error Status.sign_failed (signed_with key)) call_with

    -- A call that succeeded was made with an envelope of the payload.
    send_signed_ok :
        (creds : AccountCredentials) (a : A)
        → send_signed w bytes_of (some payload) call id creds ≡ ok a
        → (e : SignedEnvelope T) × (e.payload ≡ payload) × (call e ≡ ok a)
    unfolding send_signed
    send_signed_ok creds a h =
        let parsed =
          or_error (w.decode_private_key_pem creds.private_key_pem) invalid_private_key_pem in
        let (key, e1, h1) =
          and_then_ok (map_error Status.private_key_failed parsed) sign_and_call a h in
        let (envelope, e2, h2) =
          and_then_ok (map_error Status.sign_failed (signed_with key)) call_with a h1 in
        (
          envelope,
          create_signed_envelope_payload bytes_of payload key (to_string id) w.now envelope
              (map_error_inv Status.sign_failed (signed_with key) envelope e2),
          map_error_inv Status.failed (call envelope) a h2,
        )

    perform_done :
        (m : Model) (done : A → Model → Outcome)
        → SaysComplete (perform w bytes_of (some payload) call id m done)
        → (e : SignedEnvelope T) × (a : A) × (e.payload ≡ payload) × (call e ≡ ok a)
    unfolding perform
    perform_done m done h =
        let (found, e1, h1) =
          or_status_done (map_error Status.credentials_failed (get_credentials w id m)) m _
            (map_error-GoesOn Status.credentials_failed (get_credentials w id m) λ e q. cc) h in
        let (a, e2, h2) =
          or_status_done (send_signed w bytes_of (some payload) call id found.0) found.1 _
            (send_signed-GoesOn bytes_of payload call id found.0) h1 in
        let (envelope, same, called) = send_signed_ok found.0 a e2 in (envelope, a, same, called)

-- A payment of an amount from one account to another, which the application has accepted.
pub record Paid (env : Environment) (draw : Draw) (app : App) (sound : AllSound app)
    (from to : ScalegraphId) (amount : ℤ) (nonce : ℕ) : Type 0 where
  pub request : TransferRequest
  pub payer : request.from ≡ from
  pub receiver : request.to ≡ to
  pub same_amount : request.amount ≡ amount
  pub same_nonce : request.nonce ≡ nonce
  pub settled : Settled env draw request app sound

module _ (w : World) (env : Environment) (draw : Draw) (app : App) (sound : AllSound app)
    (delivers : (r : TransferRequest)
      → w.deliver (Request.transfer r) ≡ deliver env draw app (Request.transfer r)) where
  request_of : ScalegraphId → ScalegraphId → SignedEnvelope TransferPayload → TransferRequest
  request_of from to e = record {
    from = from;
    to = to;
    amount = e.payload.amount;
    nonce = e.payload.nonce;
    signed_envelope = some e;
  }

  transfer_signed-Paid :
      (from to : ScalegraphId) (amount : ℤ) (e : SignedEnvelope TransferPayload)
      → from_string (to_string from) ≡ ok from
      → from_string (to_string to) ≡ ok to
      → length from ≡ id_length
      → e.payload ≡ transfer_payload w from to amount
      → transfer_signed w.deliver e ≡ ok tt
      → Paid env draw app sound from to amount (get_nonce (w.account from))
  unfolding transfer_signed transfer_request request_of
  transfer_signed-Paid from to amount e pf pt l same h =
      let from_text : from_string e.payload.from ≡ ok from = rw same pf in
      let to_text : from_string e.payload.to ≡ ok to = rw same pt in
      let sent : send as_done (deliver env draw app (Request.transfer (request_of from to e)))
          ≡ ok tt =
        rw (from_text, to_text, delivers (request_of from to e)) at h in
      let done =
        answered_done (handle_request env draw (Request.transfer (request_of from to e)) app).0
          sent in
      record {
        request = request_of from to e;
        payer = refl;
        receiver = refl;
        same_amount = rw same refl;
        same_nonce = rw same refl;
        settled = handle_request-Settled env draw (request_of from to e) app sound l done;
      }

  -- On a sound application, if the interface says that a payment is complete, then the transfer of
  -- this amount between the accounts that were picked, with the payer's nonce, has been authentically
  -- signed by the payer and accepted by the application.
  pub send_payment-Paid :
      (m : Model) (amount : ℤ) (from to : ScalegraphId)
      → at m.cached_accounts m.send_from_index ≡ some from
      → at m.cached_accounts m.send_to_index ≡ some to
      → AreBytes from
      → length from ≡ id_length
      → AreBytes to
      → length to ≡ id_length
      → SaysComplete (send_payment w m (some amount))
      → Paid env draw app sound from to amount (get_nonce (w.account from))
  unfolding send_payment SaysComplete
  send_payment-Paid m amount from to ef et bf lf bt lt h =
      elim (Bool-cases (not (ltb_ℤ (pos 0) amount))) [
        | inl bad ↦ let k = rw bad at h in cc
        | inr good ↦
            let k = rw (good, ef, et) at h in
            let (e, u, same, called) =
              perform_done w w.json.transfer (transfer_payload w from to amount)
                (transfer_signed w.deliver) from m (transfer_complete w) k in
            transfer_signed-Paid from to amount e (from_string-to_string from bf lf)
              (from_string-to_string to bt lt) lf same called
      ]
