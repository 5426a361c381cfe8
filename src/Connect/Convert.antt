-- ===== src/Connect/Convert.antt =====
-- From messages to envelopes (internal/transport/connect/converters.go). Messages are generated code,
-- which is not in the repository: a record here has what the getters that the code calls yield,
-- after the files under proto/, with an empty value where a part of the message is missing. The
-- decoding of base64 is a parameter.
use sg_emulator.Base.{ℕ, ◌-◌, ◌%◌, Option, none, some, [], ◌∷◌}
use sg_emulator.Base.Bytes.{Bytes}
use sg_emulator.Base.Int.{ℤ, pos, negsuc}
use sg_emulator.Base.Word.{u64_mod}
use sg_emulator.Token.{Signature}
use sg_emulator.Requests.{
  SignedEnvelope, TransferPayload, MintTokenPayload, AuthorizePayload, TokenPayload,
  BurnTokenPayload, FreezePayload,
}

-- `base64.StdEncoding.DecodeString` and `base64.URLEncoding.DecodeString`; `none` is an error.
pub record Base64 : Type 0 where
  pub std_decode : Bytes → Option Bytes
  pub url_decode : Bytes → Option Bytes

pub record SignatureMessage : Type 0 where
  pub algorithm : Bytes
  pub value : Bytes
  pub signer_id : Bytes
  pub timestamp : ℤ

pub record EnvelopeMessage (P : Type 0) : Type 0 where
  pub payload : P
  pub signature : SignatureMessage

pub record TransferMessage : Type 0 where
  pub from : Bytes
  pub to : Bytes
  pub amount : ℤ
  pub nonce : ℤ
  pub timestamp : ℤ

-- An address is the empty text if there is none.
pub record MintTokenMessage : Type 0 where
  pub token_value : Bytes
  pub clawback_address : Bytes
  pub freeze_address : Bytes
  pub nonce : ℤ

pub record TokenMessage : Type 0 where
  pub from : Bytes
  pub to : Bytes
  pub token_id : Bytes
  pub nonce : ℤ

pub record SlotMessage : Type 0 where
  pub account_id : Bytes
  pub token_id : Bytes
  pub token_owner_id : Bytes
  pub nonce : ℤ

pub record BurnTokenMessage : Type 0 where
  pub account_id : Bytes
  pub token_id : Bytes
  pub nonce : ℤ

pub record FreezeMessage : Type 0 where
  pub freeze_authority : Bytes
  pub token_holder : Bytes
  pub token_id : Bytes
  pub nonce : ℤ

-- `uint64(n)` of an int64.
unfoldable pub to_uint64 : ℤ → ℕ
to_uint64 (pos n) = n % u64_mod
to_uint64 (negsuc n) = u64_mod - 1 - n % u64_mod

abbrev address_of : Bytes → Option Bytes
address_of [] = none
address_of (b ∷ bs) = some (b ∷ bs)

unfoldable pub convert_transfer_payload : TransferMessage → TransferPayload
convert_transfer_payload p = record {
  from = p.from;
  to = p.to;
  amount = p.amount;
  nonce = to_uint64 p.nonce;
  timestamp = p.timestamp;
}

unfoldable pub convert_mint_token_payload : MintTokenMessage → MintTokenPayload
convert_mint_token_payload p = record {
  token_value = p.token_value;
  clawback_address = address_of p.clawback_address;
  freeze_address = address_of p.freeze_address;
  nonce = p.nonce;
}

-- Transferring and clawing back.
unfoldable pub convert_token_payload : TokenMessage → TokenPayload
convert_token_payload p = record {
  from = p.from;
  to = p.to;
  token_id = p.token_id;
  nonce = to_uint64 p.nonce;
}

-- Authorizing and unauthorizing.
unfoldable pub convert_slot_payload : SlotMessage → AuthorizePayload
convert_slot_payload p = record {
  account_id = p.account_id;
  token_id = p.token_id;
  token_owner_id = p.token_owner_id;
  nonce = to_uint64 p.nonce;
}

unfoldable pub convert_burn_token_payload : BurnTokenMessage → BurnTokenPayload
convert_burn_token_payload p = record {
  account_id = p.account_id;
  token_id = p.token_id;
  nonce = to_uint64 p.nonce;
}

-- Freezing and unfreezing.
unfoldable pub convert_freeze_payload : FreezeMessage → FreezePayload
convert_freeze_payload p = record {
  freeze_authority = p.freeze_authority;
  token_holder = p.token_holder;
  token_id = p.token_id;
  nonce = to_uint64 p.nonce;
}

module _ (base64 : Base64) where
  abbrev or_else : Option Bytes → Option Bytes → Option Bytes
  or_else none o = o
  or_else (some b) o = some b

  abbrev with_value : SignatureMessage → Option Bytes → Option Signature
  with_value s none = none
  with_value s (some value) = some (record {
    algorithm = s.algorithm;
    value = value;
    signer_id = s.signer_id;
    timestamp = s.timestamp;
  })

  unfoldable pub convert_signature : SignatureMessage → Option Signature
  convert_signature s =
      with_value s (or_else (base64.std_decode s.value) (base64.url_decode s.value))

  abbrev sealed : {T : Type 0} → T → Option Signature → Option (SignedEnvelope T)
  sealed p none = none
  sealed p (some s) = some (record { payload = p; signature = s })

  -- The functions `convert…Envelope`, one for each conversion of a payload.
  unfoldable pub convert_envelope :
      {P T : Type 0} → (P → T) → EnvelopeMessage P → Option (SignedEnvelope T)
  convert_envelope convert m = sealed (convert m.payload) (convert_signature m.signature)
