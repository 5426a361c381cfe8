-- ===== src/Connect/EndToEnd.antt =====
-- A transfer from the message of a client to the accounts (internal/transport/connect, through the
-- client and the server).
use sg_emulator.Base.{⊤, ◌≡◌, refl, some, Option-cases, inl, inr}
use sg_emulator.Base.Action.{Result, ok, err, panic}
use sg_emulator.Errors.{Error}
use sg_emulator.Id.{ScalegraphId, from_string}
use sg_emulator.Id.RoundTrip.{from_string_bounds}
use sg_emulator.Token.{Signature}
use sg_emulator.App.{App}
use sg_emulator.AppLaws.Sound.{AllSound}
use sg_emulator.Requests.{TransferRequest}
use sg_emulator.Server.{Request, Response, Environment, Draw, handle_request}
use sg_emulator.ServerLaws.Settled.{Settled, handle_request-Settled}
use sg_emulator.Client.{send, send_request, as_done, transfer_signed, transfer_request}
use sg_emulator.Rest.OwnAccount.{deliver, response_of}
use sg_emulator.Connect.{
  Base64, EnvelopeMessage, TransferMessage, to_uint64, Answer, answer_of, convert_signature,
  convert_transfer_payload, convert_envelope, connect_transfer,
}

pub answered_done :
    (res : Result Error Response) → send as_done (response_of res) ≡ ok tt → res ≡ ok Response.done
unfolding send send_request
answered_done (ok Response.done) h = refl
answered_done (ok (Response.account b)) h = cc
answered_done (ok (Response.count n)) h = cc
answered_done (ok (Response.accounts l)) h = cc
answered_done (ok (Response.token_id x)) h = cc
answered_done (ok (Response.token t)) h = cc
answered_done (err x) h = cc
answered_done panic h = cc

answer_ok : (q : Result Error ⊤) → answer_of q ≡ Answer.successful tt → q ≡ ok tt
answer_ok (ok u) h = refl
answer_ok (err e) h = cc
answer_ok panic h = cc

module _ (base64 : Base64) (env : Environment) (draw : Draw) (app : App)
    (sound : AllSound app) where
  -- The transfer that a message asks for has been carried out.
  pub record Performed (m : EnvelopeMessage TransferMessage) : Type 0 where
    pub request : TransferRequest
    pub signature : Signature
    pub decoded : convert_signature base64 m.signature ≡ some signature
    pub from : from_string m.payload.from ≡ ok request.from
    pub to : from_string m.payload.to ≡ ok request.to
    pub amount : request.amount ≡ m.payload.amount
    pub nonce : request.nonce ≡ to_uint64 m.payload.nonce
    pub settled : Settled env draw request app sound

  parsed-Performed :
      (m : EnvelopeMessage TransferMessage) (s : Signature) (a b : Result Error ScalegraphId)
      → convert_signature base64 m.signature ≡ some s
      → from_string m.payload.from ≡ a
      → from_string m.payload.to ≡ b
      → connect_transfer base64 (deliver env draw app) m ≡ Answer.successful tt
      → Performed m
  unfolding connect_transfer convert_envelope transfer_signed transfer_request
      convert_transfer_payload
  parsed-Performed m s (ok x) (ok y) es ea eb h =
      let r : TransferRequest = record {
        from = x;
        to = y;
        amount = m.payload.amount;
        nonce = to_uint64 m.payload.nonce;
        signed_envelope =
            some (record { payload = convert_transfer_payload m.payload; signature = s });
      } in
      let answer : answer_of (send as_done (deliver env draw app (Request.transfer r)))
          ≡ Answer.successful tt =
        rw (es, ea, eb) at h in
      let done =
        answered_done (handle_request env draw (Request.transfer r) app).0 (answer_ok _ answer) in
      record {
        request = r;
        signature = s;
        decoded = es;
        from = ea;
        to = eb;
        amount = refl;
        nonce = refl;
        settled =
            handle_request-Settled env draw r app sound (from_string_bounds m.payload.from x ea).0
              done;
      }
  parsed-Performed m s (ok x) (err y) es ea eb h = let k = rw (es, ea, eb) at h in cc
  parsed-Performed m s (ok x) panic es ea eb h = let k = rw (es, ea, eb) at h in cc
  parsed-Performed m s (err x) b es ea eb h = let k = rw (es, ea) at h in cc
  parsed-Performed m s panic b es ea eb h = let k = rw (es, ea) at h in cc

  -- On a sound application, if the Connect transport, over a client of the server, answers a transfer
  -- with success, then the message's signature could be decoded, its two account texts be parsed,
  -- and the request with these accounts, this amount and this nonce, taken modulo 2^64, has been
  -- authentically signed by its payer and accepted by the application.
  pub connect_transfer-Performed :
      (m : EnvelopeMessage TransferMessage)
      → connect_transfer base64 (deliver env draw app) m ≡ Answer.successful tt
      → Performed m
  unfolding connect_transfer convert_envelope
  connect_transfer-Performed m h = elim (Option-cases (convert_signature base64 m.signature)) [
    | inl undecoded ↦ let k = rw undecoded at h in cc
    | inr (s, es) ↦
        parsed-Performed m s (from_string m.payload.from) (from_string m.payload.to) es refl refl h
  ]
