-- ===== src/Events/Laws.antt =====
-- What the published events tell (internal/server/event_builder.go and publishEvent of
-- internal/server/server.go).
use mathlib.Core.List.{
  Mem, Mem-prop, mem-cons, mem-cons_self, mem-cons_of_mem, mem-append, not-mem-nil,
}
use mathlib.Core.Logic.Or
use sg_emulator.Base.{
  ◌≡◌, refl, sym, ap, subst, false, Option, some, List, [], ◌∷◌, Bool-cases, inl, inr, arith, ◌⊎◌,
}
use sg_emulator.Base.Int.{ℤ}
use sg_emulator.Base.Bytes.{Bytes, bytes_eq, bytes_eq_iff}
use sg_emulator.Base.Action.{Result, ok, err, panic}
use sg_emulator.Errors.{Error}
use sg_emulator.Id.{ScalegraphId}
use sg_emulator.App.{App}
use sg_emulator.Requests.{SignedEnvelope, MintTokenPayload}
use sg_emulator.VerifyLaws.Envelope.{after_ok}
use sg_emulator.VerifyLaws.Payload.{verify_mint_token-SignedMintToken}
use sg_emulator.Server.{
  Request, Response, Environment, Draw, handle_request, verify, signature_verifier,
}
use sg_emulator.Registry.{Registry, VirtualApp, list_apps}
use sg_emulator.Events.{
  EventInfo, Event, Publication, Marshal, build_event, event_involved_accounts, extract_event_info,
  topic_of, publish_to, publish_all, publish_event, answer, publish_after, handle_and_publish,
  mint_token_info, publish_info,
}

-- The publication of an event to one account's topic on one virtual app.
abbrev pub publication : Bytes → Event → Bytes → VirtualApp → Publication
publication payload event id v = record {
  app_id = v.id;
  topic = topic_of id;
  payload = payload;
  event_type = event.event_type;
}

module _ (payload : Bytes) (event : Event) where
  mem-publish_to :
      (id : Bytes) (ids : List Bytes) (v : VirtualApp)
      → Mem id ids
      → Mem (publication payload event id v) (publish_to payload event ids v)
  unfolding publish_to
  mem-publish_to id [] v m = absurd (not-mem-nil m)
  mem-publish_to id (j ∷ ids) v m =
      Or.elim Mem-prop (mem-cons.0 m)
        (λ e.
          subst
            (λ x.
              Mem (publication payload event id v)
                (publication payload event x v ∷ publish_to payload event ids v))
            e mem-cons_self)
        (λ later. mem-cons_of_mem _ (mem-publish_to id ids v later))

  pub mem-publish_all :
      (id : Bytes) (ids : List Bytes) (v : VirtualApp) (vs : List VirtualApp)
      → Mem id ids
      → Mem v vs
      → Mem (publication payload event id v) (publish_all payload event ids vs)
  unfolding publish_all
  mem-publish_all id ids v [] m mv = absurd (not-mem-nil mv)
  mem-publish_all id ids v (w ∷ vs) m mv = mem-append.1 (
      Or.elim (hlevel) (mem-cons.0 mv)
        (λ e.
          ∣ inl (
            subst (λ x. Mem (publication payload event id v) (publish_to payload event ids x)) e
              (mem-publish_to id ids v m)) ∣₁)
        (λ later. ∣ inr (mem-publish_all id ids v vs m later) ∣₁))

-- What a text is not in, it differs from.
pub mem_or_differ :
    (t : Bytes) (ids : List Bytes) → (Mem t ids) ⊎ ((x : Bytes) → Mem x ids → bytes_eq x t ≡ false)
mem_or_differ t [] = inr (λ x m. absurd (not-mem-nil m))
mem_or_differ t (y ∷ ids) = elim (Bool-cases (bytes_eq y t)) [
  | inl same ↦ inl (subst (λ x. Mem x (y ∷ ids)) ((bytes_eq_iff y t).0 same) mem-cons_self)
  | inr differ ↦ elim (mem_or_differ t ids) [
    | inl m ↦ inl (mem-cons_of_mem y m)
    | inr rest ↦
        inr λ x m. Or.elim (hlevel) (mem-cons.0 m) (λ e. rw e differ) (λ later. rest x later)
  ]
]

module _ (env : Environment) (draw : Draw) where
  mint_token_extracted :
      (o : Option (SignedEnvelope MintTokenPayload)) (value : Bytes) (address : Option ScalegraphId)
      (resp : Response)
      → ((e : SignedEnvelope MintTokenPayload) × (o ≡ some e))
      → (i : Option EventInfo) × (mint_token_info o value address resp ≡ ok i)
  mint_token_extracted o value address resp (e, is) = rw is (_, refl)

  -- Only a request for a new token is read through its envelope, which it has if it was accepted.
  extracted :
      (r : Request) (app : App) (resp : Response)
      → (verify env draw r app).0 ≡ ok tt
      → (i : Option EventInfo) × (extract_event_info r resp ≡ ok i)
  unfolding extract_event_info verify
  extracted (Request.mint_token r) app resp h =
      let k =
        verify_mint_token-SignedMintToken env.crypto (signature_verifier env draw) env.ca_key
          env.json r app h in
      mint_token_extracted r.signed_envelope r.token_value r.clawback_address resp
        (k.envelope, k.present)
  extracted (Request.authorize_token_transfer r) app resp h = (_, refl)
  extracted (Request.unauthorize_token_transfer r) app resp h = (_, refl)
  extracted (Request.transfer_token r) app resp h = (_, refl)
  extracted (Request.clawback_token r) app resp h = (_, refl)
  extracted (Request.freeze_token r) app resp h = (_, refl)
  extracted (Request.unfreeze_token r) app resp h = (_, refl)
  extracted (Request.transfer r) app resp h = (_, refl)
  extracted (Request.mint r) app resp h = (_, refl)
  extracted (Request.admin_mint r) app resp h = (_, refl)
  extracted (Request.burn_token r) app resp h = (_, refl)
  extracted (Request.create_account r) app resp h = (_, refl)
  extracted (Request.admin_create_account b) app resp h = (_, refl)
  extracted Request.account_count app resp h = (_, refl)
  extracted (Request.get_account r) app resp h = (_, refl)
  extracted Request.get_accounts app resp h = (_, refl)
  extracted (Request.lookup_token r) app resp h = (_, refl)
  extracted Request.other app resp h = (_, refl)

  -- A request that was answered had been verified.
  pub answered_verified :
      (r : Request) (app : App) (resp : Response) (app' : App)
      → handle_request env draw r app ≡ (ok resp, app')
      → (verify env draw r app).0 ≡ ok tt
  unfolding handle_request
  answered_verified r app resp app' e =
      let (u, app1, e1, h1) = after_ok (verify env draw r app) _ resp (ap (λ p. p.0) e) in
      ap (λ p. p.0) e1

module _ (marshal : Marshal) (now : ℤ) (registry : Registry) where
  answered_ok :
      (x : Response) (app : App) (q : Result Error (List Publication)) (resp : Response)
      (app' : App) (ps : List Publication)
      → answer marshal now registry x app q ≡ ((ok resp, app'), ps)
      → (◌≡◌ {A = Result Error Response × App} (ok x, app) (ok resp, app'))
        × (x ≡ resp)
        × (q ≡ ok ps)
  answered_ok x app (ok qs) resp app' ps e = (ap (λ p. p.0) e, cc, ap (λ p. ok p.1) e)
  answered_ok x app (err b) resp app' ps e = cc
  answered_ok x app panic resp app' ps e = cc

  pub publish_after_ok :
      (r : Request) (s : Result Error Response × App) (resp : Response) (app' : App)
      (ps : List Publication)
      → publish_after marshal now registry r s ≡ ((ok resp, app'), ps)
      → (s ≡ (ok resp, app')) × (publish_event marshal now registry r resp ≡ ok ps)
  publish_after_ok r (ok x, app) resp app' ps e =
      let (same, is, q) =
        answered_ok x app (publish_event marshal now registry r x) resp app' ps e in
      (same, rw (sym is) q)
  publish_after_ok r (err x, app) resp app' ps e = cc
  publish_after_ok r (panic, app) resp app' ps e = cc

  -- What is published for an event that can be written.
  pub publish_event-some :
      (r : Request) (resp : Response) (info : EventInfo) (payload : Bytes) (ps : List Publication)
      → extract_event_info r resp ≡ ok (some info)
      → marshal (build_event now info) ≡ some payload
      → publish_event marshal now registry r resp ≡ ok ps
      → publish_all payload
          (build_event now info)
          (event_involved_accounts info)
          (list_apps registry)
        ≡ ps
  unfolding publish_event build_event
  publish_event-some r resp info payload ps e m h = ground (arith, e, m, h)

  -- The result without the publications.
  abbrev pub unpublished :
      (Result Error Response × App) × List Publication → Result Error Response × App
  unpublished (s, ps) = s

  unpublished-answer :
      (x : Response) (app : App) (q : Result Error (List Publication)) (ps : List Publication)
      → q ≡ ok ps
      → unpublished (answer marshal now registry x app q) ≡ (ok x, app)
  unpublished-answer x app q ps e = rw e refl

  -- Where the event can be read off, to publish it changes no result.
  unpublished-publish_after :
      (r : Request) (s : Result Error Response × App)
      → ((resp : Response) (app' : App)
          → s ≡ (ok resp, app')
          → (o : Option EventInfo) × (extract_event_info r resp ≡ ok o))
      → unpublished (publish_after marshal now registry r s) ≡ s
  unfolding publish_event
  unpublished-publish_after r (ok x, app) h =
      let (o, e) = h x app refl in
      unpublished-answer x app _ (publish_info marshal now registry o) (rw (publish_event, e) refl)
  unpublished-publish_after r (err x, app) h = refl
  unpublished-publish_after r (panic, app) h = refl

  module _ (env : Environment) (draw : Draw) where
    -- To publish the event of a request, whatever the request, the virtual apps and the writing of
    -- events, changes neither the answer nor the accounts, and adds no crash.
    pub unpublished-handle_and_publish :
        (r : Request) (app : App)
        → unpublished (handle_and_publish marshal now registry env draw r app)
          ≡ handle_request env draw r app
    unfolding handle_and_publish
    unpublished-handle_and_publish r app =
        unpublished-publish_after r (handle_request env draw r app) λ resp app' e.
          extracted env draw r app resp (answered_verified env draw r app resp app' e)
