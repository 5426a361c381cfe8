-- ===== src/Events.antt =====
-- Publishing the events of the server (publishEvent of internal/server/server.go); Events/Build has
-- the events. How an event is written as bytes is a parameter, and what becomes of a message that was
-- handed to a virtual app's channel is left out.
pub mod Build
pub mod Laws
pub mod Announced
use sg_emulator.Base.{⊤, ℕ, Option, none, some, List, [], ◌∷◌, ◌++◌, map}
use sg_emulator.Base.Bytes.{Bytes}
use sg_emulator.Base.Int.{ℤ}
use sg_emulator.Base.Action.{Result, ok, err, panic}
use sg_emulator.Errors.{Error}
use sg_emulator.Id.{ScalegraphId, to_string}
use sg_emulator.Requests.{SignedEnvelope, MintTokenPayload}
use sg_emulator.App.{App, Operation}
use sg_emulator.Server.{Request, Response, Environment, Draw, handle_request}
use sg_emulator.Registry.{Registry, VirtualApp, list_apps}
pub use sg_emulator.Events.Build.{
  AmountInfo, MintInfo, MintTokenInfo, TokenInfo, SlotInfo, BurnInfo, FreezeInfo, EventInfo,
  EventType, Event, with_clawback, address_text, answered_token_id, mint_token_info,
}
unfoldable pub use sg_emulator.Events.Build.{
  build_event, event_involved_accounts, extract_event_info,
}

-- One call of `Publish`: on the channel of a virtual app, to a topic, the event as bytes and its type.
pub record Publication : Type 0 where
  pub app_id : ScalegraphId
  pub topic : Bytes
  pub payload : Bytes
  pub event_type : EventType

-- "events." and an account's identifier.
unfoldable pub topic_of : Bytes → Bytes
topic_of account_id = b'e' ∷ b'v' ∷ b'e' ∷ b'n' ∷ b't' ∷ b's' ∷ b'.' ∷ account_id

unfoldable pub publish_to : Bytes → Event → List Bytes → VirtualApp → List Publication
publish_to payload event [] vapp = []
publish_to payload event (id ∷ rest) vapp =
    record {
      app_id = vapp.id;
      topic = topic_of id;
      payload = payload;
      event_type = event.event_type;
    }
    ∷ publish_to payload event rest vapp

-- The loop over the virtual apps.
unfoldable pub publish_all : Bytes → Event → List Bytes → List VirtualApp → List Publication
publish_all payload event ids [] = []
publish_all payload event ids (v ∷ vs) =
    publish_to payload event ids v ++ publish_all payload event ids vs

-- `proto.Marshal`; `none` is its error.
abbrev pub Marshal : Type 0
Marshal = Event → Option Bytes

module _ (marshal : Marshal) (now : ℤ) (registry : Registry) where
  abbrev pub publish_marshalled : Event → Option Bytes → List Publication
  publish_marshalled event none = []
  publish_marshalled event (some payload) =
      publish_all payload event (event_involved_accounts event.content) (list_apps registry)

  abbrev pub publish_info : Option EventInfo → List Publication
  publish_info none = []
  publish_info (some info) =
      publish_marshalled (build_event now info) (marshal (build_event now info))

  -- `publishEvent`: the calls of `Publish` that it makes, in their order.
  unfoldable pub publish_event : Request → Response → Result Error (List Publication)
  publish_event r resp = elim (extract_event_info r resp) [
    | ok o ↦ ok (publish_info o)
    | err e ↦ err e
    | panic ↦ panic
  ]

  abbrev pub answer :
      Response
      → App
      → Result Error (List Publication)
      → (Result Error Response × App) × List Publication
  answer resp app (ok ps) = ((ok resp, app), ps)
  answer resp app (err e) = ((err e, app), [])
  answer resp app panic = ((panic, app), [])

  abbrev pub publish_after :
      Request → Result Error Response × App → (Result Error Response × App) × List Publication
  publish_after r (ok resp, app) = answer resp app (publish_event r resp)
  publish_after r (err e, app) = ((err e, app), [])
  publish_after r (panic, app) = ((panic, app), [])

  -- `handleRequest` with its event: the request is handled, and if that succeeds it is published.
  unfoldable pub handle_and_publish :
      Environment → Draw → Request → App → (Result Error Response × App) × List Publication
  handle_and_publish env draw r app = publish_after r (handle_request env draw r app)
