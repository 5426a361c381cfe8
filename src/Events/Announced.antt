-- ===== src/Events/Announced.antt =====
-- Nothing changes unannounced: the topics to which publishEvent (internal/server/server.go) sends,
-- against the accounts that the handler of the request changes.
use mathlib.Core.List.{Mem, mem-cons_self, mem-cons_of_mem}
use mathlib.Core.Option.{some-injective}
use sg_emulator.Base.{
  ⊤, ◌≡◌, ◌≢◌, refl, sym, ◌∙◌, ap, subst, false, Option, none, some, List, [], ◌∷◌, Bool-cases, inl,
  inr, arith,
}
use sg_emulator.Base.Int.{ℤ}
use sg_emulator.Base.Bytes.{Bytes, AreBytes, bytes_eq, bytes_eq_iff, bytes_eq_refl}
use sg_emulator.Base.Dict.{lookup}
use sg_emulator.Base.Action.{Result, ok, err, panic}
use sg_emulator.Errors.{Error}
use sg_emulator.Id.{ScalegraphId, to_string, from_string, hex_encode}
use sg_emulator.Id.RoundTrip.{hex_decode-hex_encode}
use sg_emulator.App.{App}
use sg_emulator.Requests.{SignedEnvelope, MintTokenPayload}
use sg_emulator.Server.{
  Request, Response, Environment, Draw, handle_request, verify, signature_verifier,
}
use sg_emulator.ServerLaws.Frame.{Untouched, ledger_of, lookup-handle_request}
use sg_emulator.VerifyLaws.Payload.{verify_mint_token-SignedMintToken}
use sg_emulator.VerifyLaws.Envelope.{verify_envelope_data-Authentic}
use sg_emulator.Registry.{Registry, VirtualApp, list_apps}
use sg_emulator.Events.{
  EventInfo, Publication, Marshal, build_event, event_involved_accounts, extract_event_info,
  topic_of, publish_event, handle_and_publish, mint_token_info, with_clawback, address_text,
}
use sg_emulator.Events.Laws.{
  publication, mem-publish_all, mem_or_differ, publish_after_ok, publish_event-some,
  answered_verified,
}

-- No event tells of a new account, nor of money that the administrator mints.
abbrev pub IsAnnounced : Request → Type 0
IsAnnounced (Request.create_account r) = ⊥
IsAnnounced (Request.admin_create_account b) = ⊥
IsAnnounced (Request.admin_mint r) = ⊥
IsAnnounced _ = ⊤

bytes_neq-to_string :
    (id k : ScalegraphId) → bytes_eq (to_string id) (to_string k) ≡ false → bytes_eq id k ≡ false
bytes_neq-to_string id k h = elim (Bool-cases (bytes_eq id k)) [
  | inl same ↦ ground (arith, h, same, (bytes_eq_iff id k).0 same, bytes_eq_refl (to_string id))
  | inr differ ↦ differ
]

-- A text that an identifier was printed as is the text of what it is parsed as.
to_string-from_string :
    (d : Bytes) (s : Bytes) (id : ScalegraphId)
    → AreBytes d
    → s ≡ hex_encode d
    → from_string s ≡ ok id
    → to_string id ≡ s
unfolding from_string to_string
to_string-from_string d s id h e p =
    let d_is : d ≡ id = ground (arith, hex_decode-hex_encode d h, p, e) in
    ap hex_encode (sym d_is) ∙ sym e

mem-with_clawback : (a c : Bytes) → Mem a (with_clawback a c)
mem-with_clawback a [] = mem-cons_self
mem-with_clawback a (x ∷ xs) = mem-cons_self

-- The event that tells of a request, if there is one, can be marshalled.
abbrev pub IsWritten : Marshal → ℤ → Result Error (Option EventInfo) → Type 0
IsWritten marshal now (ok (some info)) =
    (payload : Bytes) × (marshal (build_event now info) ≡ some payload)
IsWritten marshal now (ok none) = ⊤
IsWritten marshal now (err e) = ⊤
IsWritten marshal now panic = ⊤

module _ (k : ScalegraphId) where
  -- The account's text is none of these.
  abbrev IsApart : List Bytes → Type 0
  IsApart ids = (x : Bytes) → Mem x ids → bytes_eq x (to_string k) ≡ false

  -- No topic of the event is the account's.
  abbrev IsMissed : Result Error (Option EventInfo) → Type 0
  IsMissed (ok (some info)) = IsApart (event_involved_accounts info)
  IsMissed (ok none) = ⊤
  IsMissed (err e) = ⊤
  IsMissed panic = ⊤

  one_other :
      (id : ScalegraphId) (rest : List Bytes)
      → IsApart (to_string id ∷ rest)
      → bytes_eq id k ≡ false
  one_other id rest h = bytes_neq-to_string id k (h (to_string id) mem-cons_self)

  both_other :
      (a b : ScalegraphId)
      → IsApart (to_string a ∷ to_string b ∷ [])
      → (bytes_eq a k ≡ false) × (bytes_eq b k ≡ false)
  both_other a b h = (one_other a _ h, one_other b [] λ x m. h x (mem-cons_of_mem (to_string a) m))

  signer_other :
      (o : Option (SignedEnvelope MintTokenPayload)) (e : SignedEnvelope MintTokenPayload)
      (value : Bytes) (address : Option ScalegraphId) (resp : Response)
      → o ≡ some e
      → IsMissed (mint_token_info o value address resp)
      → bytes_eq e.signature.signer_id (to_string k) ≡ false
  unfolding event_involved_accounts
  signer_other o e value address resp is h =
      let apart = subst (λ x. IsMissed (mint_token_info x value address resp)) is h in
      apart e.signature.signer_id (mem-with_clawback e.signature.signer_id (address_text address))

  module _ (env : Environment) (draw : Draw)
      (derives : (key : Bytes) → AreBytes (env.crypto.derive_account_id key)) where
    missed-Untouched :
        (r : Request) (app : App) (resp : Response)
        → IsAnnounced r
        → (verify env draw r app).0 ≡ ok tt
        → IsMissed (extract_event_info r resp)
        → Untouched env draw k r
    unfolding extract_event_info event_involved_accounts verify
    missed-Untouched (Request.authorize_token_transfer r) app resp n v h =
        both_other r.account_id r.token_owner_id h
    missed-Untouched (Request.unauthorize_token_transfer r) app resp n v h =
        both_other r.account_id r.token_owner_id h
    missed-Untouched (Request.transfer_token r) app resp n v h = both_other r.from r.to h
    missed-Untouched (Request.clawback_token r) app resp n v h = both_other r.from r.to h
    missed-Untouched (Request.freeze_token r) app resp n v h =
        both_other r.freeze_authority r.token_holder h
    missed-Untouched (Request.unfreeze_token r) app resp n v h =
        both_other r.freeze_authority r.token_holder h
    missed-Untouched (Request.transfer r) app resp n v h = both_other r.from r.to h
    missed-Untouched (Request.mint r) app resp n v h = one_other r.to [] h
    missed-Untouched (Request.burn_token r) app resp n v h = one_other r.account_id [] h
    missed-Untouched (Request.mint_token r) app resp n v h = λ e id is p.
        let k' =
          verify_mint_token-SignedMintToken env.crypto (signature_verifier env draw) env.ca_key
            env.json r app v in
        let a =
          verify_envelope_data-Authentic env.crypto env.verifier draw.cert_time draw.now _ _ _ app
            k'.verified in
        let same = some-injective _ _ (sym is ∙ k'.present) in
        let derived = ap (λ x. x.signature.signer_id) same ∙ a.derived in
        bytes_neq-to_string id k (
          rw
            (to_string-from_string (env.crypto.derive_account_id a.key) e.signature.signer_id id
              (derives a.key) derived p)
            (signer_other r.signed_envelope e r.token_value r.clawback_address resp is h))
    missed-Untouched (Request.create_account r) app resp n v h = absurd n
    missed-Untouched (Request.admin_create_account b) app resp n v h = absurd n
    missed-Untouched (Request.admin_mint r) app resp n v h = absurd n
    missed-Untouched Request.account_count app resp n v h = tt
    missed-Untouched (Request.get_account r) app resp n v h = tt
    missed-Untouched Request.get_accounts app resp n v h = tt
    missed-Untouched (Request.lookup_token r) app resp n v h = tt
    missed-Untouched Request.other app resp n v h = tt

    module _ (marshal : Marshal) (now : ℤ) (registry : Registry) where
      -- Where an account has changed, what was published names it.
      named_by :
          (q : Result Error (Option EventInfo)) (r : Request) (app : App) (resp : Response)
          (app' : App) (ps : List Publication) (v : VirtualApp)
          → extract_event_info r resp ≡ q
          → IsWritten marshal now q
          → (IsMissed q → ledger_of (lookup k app'.accounts) ≡ ledger_of (lookup k app.accounts))
          → ledger_of (lookup k app'.accounts) ≢ ledger_of (lookup k app.accounts)
          → publish_event marshal now registry r resp ≡ ok ps
          → Mem v (list_apps registry)
          → (p : Publication) × Mem p ps × (p.app_id ≡ v.id) × (p.topic ≡ topic_of (to_string k))
      named_by (ok (some info)) r app resp app' ps v e w same changed published m =
          elim (mem_or_differ (to_string k) (event_involved_accounts info)) [
            | inl named ↦
                let (payload, written) = w in
                (
                  publication payload (build_event now info) (to_string k) v,
                  subst (Mem _)
                      (publish_event-some marshal now registry r resp info payload ps e written
                        published)
                      (mem-publish_all payload (build_event now info) (to_string k)
                        (event_involved_accounts info) v (list_apps registry) named m),
                  refl,
                  refl,
                )
            | inr apart ↦ absurd (changed (same apart))
          ]
      named_by (ok none) r app resp app' ps v e w same changed published m =
          absurd (changed (same tt))
      named_by (err x) r app resp app' ps v e w same changed published m =
          absurd (changed (same tt))
      named_by panic r app resp app' ps v e w same changed published m = absurd (changed (same tt))

      -- Nothing changes unannounced. If a request that is answered has changed an account (its
      -- ledger: not the tokens inside recorded transactions), then on every registered virtual app
      -- an event was published to this account's topic, provided that the event of this request can
      -- be marshalled; except for a new account and for money that the administrator mints, of which
      -- no event tells. Account identifiers are derived as bytes.
      pub changed_published :
          (r : Request) (app : App) (resp : Response) (app' : App) (ps : List Publication)
          (v : VirtualApp)
          → IsAnnounced r
          → handle_and_publish marshal now registry env draw r app ≡ ((ok resp, app'), ps)
          → IsWritten marshal now (extract_event_info r resp)
          → ledger_of (lookup k app'.accounts) ≢ ledger_of (lookup k app.accounts)
          → Mem v (list_apps registry)
          → (p : Publication) × Mem p ps × (p.app_id ≡ v.id) × (p.topic ≡ topic_of (to_string k))
      unfolding handle_and_publish
      changed_published r app resp app' ps v announced e w changed m =
          let (handled, published) =
            publish_after_ok marshal now registry r (handle_request env draw r app) resp app' ps
              e in
          let verified = answered_verified env draw r app resp app' handled in
          named_by (extract_event_info r resp) r app resp app' ps v refl w
            (λ missed.
              ap (λ s. ledger_of (lookup k s.1.accounts)) (sym handled)
              ∙ lookup-handle_request env draw k r app
                  (missed-Untouched r app resp announced verified missed))
            changed published m
