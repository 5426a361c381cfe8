-- ===== src/Requests.antt =====
-- The requests (internal/scalegraph/requests.go) and the payloads that are signed for them
-- (internal/crypto/signer.go). Two structs with the same fields share one record here: those of
-- authorizing and unauthorizing, of transferring and clawing back, of freezing and unfreezing.
use sg_emulator.Base.{ℕ, Option, List}
use sg_emulator.Base.Bytes.{Bytes}
use sg_emulator.Base.Int.{ℤ}
use sg_emulator.Id.{ScalegraphId}
use sg_emulator.Token.{Signature}

-- `SignedEnvelope[T]`
pub record SignedEnvelope (T : Type 0) : Type 0 where
  pub payload : T
  pub signature : Signature

pub record TransferPayload : Type 0 where
  pub from : Bytes
  pub to : Bytes
  pub amount : ℤ
  pub nonce : ℕ
  pub timestamp : ℤ

pub record CreateAccountPayload : Type 0 where
  pub initial_balance : ℤ

pub record GetAccountPayload : Type 0 where
  pub account_id : Bytes

pub record MintTokenPayload : Type 0 where
  pub token_value : Bytes
  pub clawback_address : Option Bytes
  pub freeze_address : Option Bytes
  pub nonce : ℤ

pub record BurnTokenPayload : Type 0 where
  pub account_id : Bytes
  pub token_id : Bytes
  pub nonce : ℕ

-- TransferTokenPayload, ClawbackTokenPayload
pub record TokenPayload : Type 0 where
  pub from : Bytes
  pub to : Bytes
  pub token_id : Bytes
  pub nonce : ℕ

-- AuthorizeTokenTransferPayload, UnauthorizeTokenTransferPayload
pub record AuthorizePayload : Type 0 where
  pub account_id : Bytes
  pub token_id : Bytes
  pub token_owner_id : Bytes
  pub nonce : ℕ

-- FreezeTokenPayload, UnfreezeTokenPayload
pub record FreezePayload : Type 0 where
  pub freeze_authority : Bytes
  pub token_holder : Bytes
  pub token_id : Bytes
  pub nonce : ℕ

pub record LookupTokenPayload : Type 0 where
  pub token_id : Bytes
  pub account_id : Bytes

pub record SubscribePayload : Type 0 where
  pub account_id : Bytes
  pub event_types : List Bytes

pub record CreateAccountRequest : Type 0 where
  pub initial_balance : ℤ
  pub signed_envelope : Option (SignedEnvelope CreateAccountPayload)

pub record GetAccountRequest : Type 0 where
  pub account_id : ScalegraphId
  pub signed_envelope : Option (SignedEnvelope GetAccountPayload)

pub record TransferRequest : Type 0 where
  pub from : ScalegraphId
  pub to : ScalegraphId
  pub amount : ℤ
  pub nonce : ℕ
  pub signed_envelope : Option (SignedEnvelope TransferPayload)

pub record MintRequest : Type 0 where
  pub to : ScalegraphId
  pub amount : ℤ

pub record MintTokenRequest : Type 0 where
  pub token_value : Bytes
  pub clawback_address : Option ScalegraphId
  pub freeze_address : Option ScalegraphId
  pub nonce : ℤ
  pub signed_envelope : Option (SignedEnvelope MintTokenPayload)

-- TransferTokenRequest, ClawbackTokenRequest
pub record TokenRequest : Type 0 where
  pub from : ScalegraphId
  pub to : ScalegraphId
  pub token_id : Bytes
  pub nonce : ℕ
  pub signed_envelope : Option (SignedEnvelope TokenPayload)

-- AuthorizeTokenTransferRequest, UnauthorizeTokenTransferRequest
pub record AuthorizeRequest : Type 0 where
  pub account_id : ScalegraphId
  pub token_owner_id : ScalegraphId
  pub token_id : Bytes
  pub nonce : ℕ
  pub signed_envelope : Option (SignedEnvelope AuthorizePayload)

pub record BurnTokenRequest : Type 0 where
  pub account_id : ScalegraphId
  pub token_id : Bytes
  pub nonce : ℕ
  pub signed_envelope : Option (SignedEnvelope BurnTokenPayload)

-- FreezeTokenRequest, UnfreezeTokenRequest
pub record FreezeRequest : Type 0 where
  pub freeze_authority : ScalegraphId
  pub token_holder : ScalegraphId
  pub token_id : Bytes
  pub nonce : ℕ
  pub signed_envelope : Option (SignedEnvelope FreezePayload)

pub record LookupTokenRequest : Type 0 where
  pub token_id : Bytes
  pub account_id : ScalegraphId
  pub signed_envelope : Option (SignedEnvelope LookupTokenPayload)

pub record SubscribeEventsRequest : Type 0 where
  pub account_id : ScalegraphId
  pub event_types : List Bytes
  pub signed_envelope : Option (SignedEnvelope SubscribePayload)
