-- ===== src/Events/Build.antt =====
-- The events and the accounts that they involve (internal/server/event_builder.go). The fields of an
-- event are those that BuildEvent fills.
use sg_emulator.Base.{Option, none, some, List, [], ◌∷◌}
use sg_emulator.Base.Bytes.{Bytes}
use sg_emulator.Base.Int.{ℤ}
use sg_emulator.Base.Action.{Result, ok, panic}
use sg_emulator.Errors.{Error}
use sg_emulator.Id.{ScalegraphId, to_string}
use sg_emulator.Requests.{SignedEnvelope, MintTokenPayload}
use sg_emulator.Server.{Request, Response}

-- The `…EventInfo` structs. The two of authorizing, of transferring and clawing back, and of
-- freezing have the same fields.
pub record AmountInfo : Type 0 where
  pub from : Bytes
  pub to : Bytes
  pub amount : ℤ

pub record MintInfo : Type 0 where
  pub to : Bytes
  pub amount : ℤ

pub record MintTokenInfo : Type 0 where
  pub account_id : Bytes
  pub token_id : Bytes
  pub token_value : Bytes
  pub clawback_address : Bytes

pub record TokenInfo : Type 0 where
  pub from : Bytes
  pub to : Bytes
  pub token_id : Bytes

pub record SlotInfo : Type 0 where
  pub account_id : Bytes
  pub token_id : Bytes
  pub token_owner_id : Bytes

pub record BurnInfo : Type 0 where
  pub account_id : Bytes
  pub token_id : Bytes

pub record FreezeInfo : Type 0 where
  pub freeze_authority : Bytes
  pub token_holder : Bytes
  pub token_id : Bytes

-- A pointer to one of the structs, and the `Data` of an event, which BuildEvent copies from it.
pub data EventInfo : Type 0 where
  transfer : AmountInfo → EventInfo
  mint : MintInfo → EventInfo
  mint_token : MintTokenInfo → EventInfo
  transfer_token clawback_token : TokenInfo → EventInfo
  authorize_token_transfer unauthorize_token_transfer : SlotInfo → EventInfo
  burn_token : BurnInfo → EventInfo
  freeze_token unfreeze_token : FreezeInfo → EventInfo

-- The constants `EventType_EVENT_TYPE_…`.
pub data EventType : Type 0 where
  transfer mint mint_token transfer_token clawback_token : EventType
  authorize_token_transfer unauthorize_token_transfer : EventType
  burn_token freeze_token unfreeze_token : EventType

pub record Event : Type 0 where
  pub event_type : EventType
  pub timestamp : ℤ
  pub content : EventInfo

abbrev pub event_type_of : EventInfo → EventType
event_type_of (EventInfo.transfer i) = EventType.transfer
event_type_of (EventInfo.mint i) = EventType.mint
event_type_of (EventInfo.mint_token i) = EventType.mint_token
event_type_of (EventInfo.transfer_token i) = EventType.transfer_token
event_type_of (EventInfo.clawback_token i) = EventType.clawback_token
event_type_of (EventInfo.authorize_token_transfer i) = EventType.authorize_token_transfer
event_type_of (EventInfo.unauthorize_token_transfer i) = EventType.unauthorize_token_transfer
event_type_of (EventInfo.burn_token i) = EventType.burn_token
event_type_of (EventInfo.freeze_token i) = EventType.freeze_token
event_type_of (EventInfo.unfreeze_token i) = EventType.unfreeze_token

-- `BuildEvent`; every info that is extracted is one that it knows.
unfoldable pub build_event : ℤ → EventInfo → Event
build_event now info = record { event_type = event_type_of info; timestamp = now; content = info }

-- The account, and the clawback address if it is not the empty text.
abbrev pub with_clawback : Bytes → Bytes → List Bytes
with_clawback account_id [] = account_id ∷ []
with_clawback account_id (c ∷ cs) = account_id ∷ (c ∷ cs) ∷ []

-- `eventInvolvedAccounts`
unfoldable pub event_involved_accounts : EventInfo → List Bytes
event_involved_accounts (EventInfo.transfer i) = i.from ∷ i.to ∷ []
event_involved_accounts (EventInfo.mint i) = i.to ∷ []
event_involved_accounts (EventInfo.mint_token i) = with_clawback i.account_id i.clawback_address
event_involved_accounts (EventInfo.transfer_token i) = i.from ∷ i.to ∷ []
event_involved_accounts (EventInfo.clawback_token i) = i.from ∷ i.to ∷ []
event_involved_accounts (EventInfo.authorize_token_transfer i) =
    i.account_id ∷ i.token_owner_id ∷ []
event_involved_accounts (EventInfo.unauthorize_token_transfer i) =
    i.account_id ∷ i.token_owner_id ∷ []
event_involved_accounts (EventInfo.burn_token i) = i.account_id ∷ []
event_involved_accounts (EventInfo.freeze_token i) = i.freeze_authority ∷ i.token_holder ∷ []
event_involved_accounts (EventInfo.unfreeze_token i) = i.freeze_authority ∷ i.token_holder ∷ []

-- `if req.ClawbackAddress != nil { … }`: the field is the empty text otherwise.
abbrev pub address_text : Option ScalegraphId → Bytes
address_text none = []
address_text (some a) = to_string a

-- `if resp, ok := responsePayload.(*MintTokenResponse); ok { … }`
abbrev pub answered_token_id : Response → Bytes
answered_token_id (Response.token_id id) = id
answered_token_id _ = []

-- The envelope is dereferenced for the account of a new token: `panic` if there is none.
abbrev pub mint_token_info :
    Option (SignedEnvelope MintTokenPayload)
    → Bytes
    → Option ScalegraphId
    → Response
    → Result Error (Option EventInfo)
mint_token_info none value address resp = panic
mint_token_info (some envelope) value address resp = ok (
    some (
      EventInfo.mint_token (record {
        account_id = envelope.signature.signer_id;
        token_id = answered_token_id resp;
        token_value = value;
        clawback_address = address_text address;
      })))

-- `extractEventInfo`
unfoldable pub extract_event_info : Request → Response → Result Error (Option EventInfo)
extract_event_info (Request.transfer r) resp = ok (
    some (
      EventInfo.transfer
        (record { from = to_string r.from; to = to_string r.to; amount = r.amount })))
extract_event_info (Request.mint r) resp =
    ok (some (EventInfo.mint (record { to = to_string r.to; amount = r.amount })))
extract_event_info (Request.mint_token r) resp =
    mint_token_info r.signed_envelope r.token_value r.clawback_address resp
extract_event_info (Request.transfer_token r) resp = ok (
    some (
      EventInfo.transfer_token
        (record { from = to_string r.from; to = to_string r.to; token_id = r.token_id })))
extract_event_info (Request.authorize_token_transfer r) resp = ok (
    some (
      EventInfo.authorize_token_transfer (record {
        account_id = to_string r.account_id;
        token_id = r.token_id;
        token_owner_id = to_string r.token_owner_id;
      })))
extract_event_info (Request.unauthorize_token_transfer r) resp = ok (
    some (
      EventInfo.unauthorize_token_transfer (record {
        account_id = to_string r.account_id;
        token_id = r.token_id;
        token_owner_id = to_string r.token_owner_id;
      })))
extract_event_info (Request.burn_token r) resp = ok (
    some (
      EventInfo.burn_token (record { account_id = to_string r.account_id; token_id = r.token_id })))
extract_event_info (Request.clawback_token r) resp = ok (
    some (
      EventInfo.clawback_token
        (record { from = to_string r.from; to = to_string r.to; token_id = r.token_id })))
extract_event_info (Request.freeze_token r) resp = ok (
    some (
      EventInfo.freeze_token (record {
        freeze_authority = to_string r.freeze_authority;
        token_holder = to_string r.token_holder;
        token_id = r.token_id;
      })))
extract_event_info (Request.unfreeze_token r) resp = ok (
    some (
      EventInfo.unfreeze_token (record {
        freeze_authority = to_string r.freeze_authority;
        token_holder = to_string r.token_holder;
        token_id = r.token_id;
      })))
extract_event_info Request.account_count resp = ok none
extract_event_info (Request.create_account r) resp = ok none
extract_event_info (Request.get_account r) resp = ok none
extract_event_info Request.get_accounts resp = ok none
extract_event_info (Request.admin_create_account b) resp = ok none
extract_event_info (Request.admin_mint r) resp = ok none
extract_event_info (Request.lookup_token r) resp = ok none
extract_event_info Request.other resp = ok none
