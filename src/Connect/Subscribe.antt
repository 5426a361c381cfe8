-- ===== src/Connect/Subscribe.antt =====
-- Subscriptions to events (Subscribe of internal/transport/connect/connect.go): who is admitted, to
-- which topic, and which events pass the filter. The stream itself is left out.
use mathlib.Core.Option.{some-injective}
use sg_emulator.Base.{
  ⊤, ◌≡◌, refl, sym, ◌∙◌, ap, Bool, true, false, ◌||◌, Option, none, some, List, [], ◌∷◌,
  if◌then◌else◌, arith, Bool-cases, inl, inr,
}
use sg_emulator.Base.Bytes.{Bytes, bytes_eq, bytes_eq_iff}
use sg_emulator.Base.Action.{Result, ok, err, panic}
use sg_emulator.Errors.{Error}
use sg_emulator.Id.{ScalegraphId, from_string, to_string}
use sg_emulator.Id.RoundTrip.{from_string_bounds}
use sg_emulator.App.{App}
use sg_emulator.Requests.{SignedEnvelope, SubscribePayload, SubscribeEventsRequest}
use sg_emulator.Server.{Environment, Draw, signature_verifier}
use sg_emulator.Verify.{verify_subscribe_events}
use sg_emulator.VerifyLaws.Envelope.{Authentic, verify_envelope_data-Authentic}
use sg_emulator.VerifyLaws.Payload.{verify_request-Checked, expected_id-to_string}
use sg_emulator.Events.{topic_of}
use sg_emulator.Connect.Convert.{Base64, EnvelopeMessage, convert_envelope}

-- The accounts of `activeSubscriptions`.
unfoldable pub is_active : Bytes → List Bytes → Bool
is_active id [] = false
is_active id (x ∷ xs) = bytes_eq x id || is_active id xs

-- An error of the handler, by its code, or the topic that is subscribed to; `aborted` is a panic.
pub data Admission : Type 0 where
  invalid_argument unauthenticated already_exists aborted : Admission
  admitted : Bytes → Admission

-- An empty filter lets every type of event pass.
unfoldable pub passes : List Bytes → Bytes → Bool
passes [] event_type = true
passes (x ∷ xs) event_type = is_active event_type (x ∷ xs)

module _ (base64 : Base64) (env : Environment) (draw : Draw) (app : App) where
  abbrev pub guard : Bytes → List Bytes → Admission × List Bytes
  guard account active =
      if is_active account active
      then (Admission.already_exists, active)
      else (Admission.admitted (topic_of account), account ∷ active)

  abbrev pub verified : Bytes → List Bytes → Result Error ⊤ → Admission × List Bytes
  verified account active (ok u) = guard account active
  verified account active (err e) = (Admission.unauthenticated, active)
  verified account active panic = (Admission.aborted, active)

  abbrev pub events_request :
      SignedEnvelope SubscribePayload → ScalegraphId → SubscribeEventsRequest
  events_request e id = record {
    account_id = id;
    event_types = e.payload.event_types;
    signed_envelope = some e;
  }

  abbrev pub named :
      SignedEnvelope SubscribePayload
      → List Bytes
      → Result Error ScalegraphId
      → Admission × List Bytes
  named e active (ok id) =
      verified e.payload.account_id active
        (verify_subscribe_events env.crypto (signature_verifier env draw) env.ca_key env.json
          (events_request e id) app).0
  named e active (err x) = (Admission.invalid_argument, active)
  named e active panic = (Admission.aborted, active)

  abbrev pub converted :
      List Bytes → Option (SignedEnvelope SubscribePayload) → Admission × List Bytes
  converted active none = (Admission.invalid_argument, active)
  converted active (some e) = named e active (from_string e.payload.account_id)

  -- `Subscribe` up to the call of the subscriber, over the accounts with an active subscription.
  unfoldable pub subscribe : List Bytes → EnvelopeMessage SubscribePayload → Admission × List Bytes
  subscribe active m = converted active (convert_envelope base64 (λ p. p) m)

  -- The subscription of an account that has signed for it, to its own topic, its first.
  pub record Subscribed (active : List Bytes) (topic : Bytes) (r : Admission × List Bytes)
      : Type 0 where
    pub envelope : SignedEnvelope SubscribePayload
    pub id : ScalegraphId
    pub authentic :
        Authentic env.crypto env.verifier draw.cert_time draw.now
          (env.json.subscribe envelope.payload)
          envelope.signature
    pub signer : envelope.signature.signer_id ≡ to_string id
    pub own_topic : topic ≡ topic_of (to_string id)
    pub was_free : is_active (to_string id) active ≡ false
    pub entered : r.1 ≡ to_string id ∷ active

  guard_free :
      (account : Bytes) (active : List Bytes) (topic : Bytes)
      → (guard account active).0 ≡ Admission.admitted topic
      → (topic ≡ topic_of account)
        × (is_active account active ≡ false)
        × ((guard account active).1 ≡ account ∷ active)
  guard_free account active topic h = elim (Bool-cases (is_active account active)) [
    | inl taken ↦ let k = rw taken at h in cc
    | inr free ↦
        let k : Admission.admitted (topic_of account) ≡ Admission.admitted topic = rw free at h in
        (cc, free, rw free refl)
  ]

  verified_ok :
      (account : Bytes) (active : List Bytes) (q : Result Error ⊤) (topic : Bytes)
      → (verified account active q).0 ≡ Admission.admitted topic
      → q ≡ ok tt
  verified_ok account active (ok u) topic h = refl
  verified_ok account active (err e) topic h = cc
  verified_ok account active panic topic h = cc

  named-Subscribed :
      (e : SignedEnvelope SubscribePayload) (active : List Bytes) (topic : Bytes)
      (q : Result Error ScalegraphId)
      → from_string e.payload.account_id ≡ q
      → (named e active q).0 ≡ Admission.admitted topic
      → Subscribed active topic (named e active q)
  unfolding verify_subscribe_events
  named-Subscribed e active topic (err x) is h = cc
  named-Subscribed e active topic panic is h = cc
  named-Subscribed e active topic (ok id) is h =
      let accepted = verified_ok e.payload.account_id active _ topic h in
      let k =
        verify_request-Checked env.crypto (signature_verifier env draw) env.ca_key
          env.json.subscribe (some e) (to_string id) _ app accepted in
      let same : k.envelope ≡ e = some-injective _ _ (sym k.present) in
      let m = k.matches in
      let own : k.envelope.payload.account_id ≡ to_string id =
        ground (arith, m, bytes_eq_iff k.envelope.payload.account_id (to_string id)) in
      let account_is : e.payload.account_id ≡ to_string id = rw same at own in
      let (topic_is, free, entered) =
        guard_free e.payload.account_id active topic (rw accepted at h) in
      record {
        envelope = e;
        id = id;
        authentic =
            verify_envelope_data-Authentic env.crypto env.verifier draw.cert_time draw.now
              e.signature.signer_id (env.json.subscribe e.payload) e.signature app
              (rw same at k.verified);
        signer =
            ap (λ x. x.signature.signer_id) (sym same)
            ∙ k.signer
            ∙ expected_id-to_string env.crypto env.ca_key id (from_string_bounds _ id is).0;
        own_topic = topic_is ∙ ap topic_of account_is;
        was_free = rw account_is at free;
        entered = rw accepted (entered ∙ ap (λ x. x ∷ active) account_is);
      }

  converted-Subscribed :
      (o : Option (SignedEnvelope SubscribePayload)) (active : List Bytes) (topic : Bytes)
      → (converted active o).0 ≡ Admission.admitted topic
      → Subscribed active topic (converted active o)
  converted-Subscribed none active topic h = cc
  converted-Subscribed (some e) active topic h =
      named-Subscribed e active topic (from_string e.payload.account_id) refl h

  -- Whoever is admitted to a stream of events has authentically
  -- signed for it with the account whose topic the stream is, and had no subscription before; this
  -- one has been entered.
  pub subscribe-Subscribed :
      (active : List Bytes) (m : EnvelopeMessage SubscribePayload) (topic : Bytes)
      → (subscribe active m).0 ≡ Admission.admitted topic
      → Subscribed active topic (subscribe active m)
  unfolding subscribe
  subscribe-Subscribed active m topic h =
      converted-Subscribed (convert_envelope base64 (λ p. p) m) active topic h
