-- ===== src/Connect.antt =====
-- The ConnectRPC transport (internal/transport/connect/connect.go): what the handlers answer to a
-- message, which Connect/Convert turns into an envelope. The validation that runs before a handler,
-- looking up a token, the administrator's new account, and the start and
-- stop of the transport are left out.
pub mod Convert
pub mod EndToEnd
pub mod Subscribe
use sg_emulator.Base.{⊤, ℕ, ◌-◌, ◌%◌, Bool, true, false, Option, none, some, [], ◌∷◌}
use sg_emulator.Base.Bytes.{Bytes}
use sg_emulator.Base.Int.{ℤ, pos, negsuc}
use sg_emulator.Base.Word.{u64_mod}
use sg_emulator.Base.Action.{Result, ok, err, panic}
use sg_emulator.Errors.{Error}
use sg_emulator.Id.{ScalegraphId, from_string}
use sg_emulator.Token.{Signature}
use sg_emulator.Account.{Account, get_nonce}
use sg_emulator.Requests.{
  SignedEnvelope, GetAccountPayload, TransferPayload, MintTokenPayload, AuthorizePayload,
  TokenPayload, BurnTokenPayload, FreezePayload, LookupTokenPayload,
}
use sg_emulator.Server.{Request}
use sg_emulator.Client
use sg_emulator.Client.{
  Delivery, transfer_signed, mint_token_signed, authorize_token_transfer_signed,
  unauthorize_token_transfer_signed, transfer_token_signed, burn_token_signed,
  clawback_token_signed, freeze_token_signed, unfreeze_token_signed, admin_mint,
}
pub use sg_emulator.Connect.Convert.{
  Base64, SignatureMessage, EnvelopeMessage, TransferMessage, MintTokenMessage, TokenMessage,
  SlotMessage, BurnTokenMessage, FreezeMessage,
}
unfoldable pub use sg_emulator.Connect.Convert.{
  to_uint64, convert_transfer_payload, convert_mint_token_payload, convert_token_payload,
  convert_slot_payload, convert_burn_token_payload, convert_freeze_payload, convert_signature,
  convert_envelope,
}

-- What a handler answers: the error `CodeInvalidArgument`, or a response with `Success` false or true.
pub data Answer (A : Type 0) : Type 0 where
  invalid_argument : Answer A
  unsuccessful : Error → Answer A
  successful : A → Answer A

abbrev pub answer_of : {A : Type 0} → Result Error A → Answer A
answer_of (ok a) = Answer.successful a
answer_of (err e) = Answer.unsuccessful e
answer_of panic = Answer.invalid_argument

-- The fields of the response to GetAccount.
pub record AccountView : Type 0 where
  pub balance : ℤ
  pub mbr : ℤ
  pub outgoing_tx_count : ℕ

abbrev account_view : Result Error Account → Answer AccountView
account_view (ok acc) =
    Answer.successful
      (record { balance = acc.balance; mbr = acc.mbr; outgoing_tx_count = get_nonce acc })
account_view (err e) = Answer.unsuccessful e
account_view panic = Answer.invalid_argument

module _ (base64 : Base64) where
  module _ (deliver : Request → Delivery) where
    -- The steps that the handlers of signed requests have in common.
    abbrev submit_envelope :
        {T A : Type 0} → (SignedEnvelope T → Result Error A) → Option (SignedEnvelope T) → Answer A
    submit_envelope call none = Answer.invalid_argument
    submit_envelope call (some e) = answer_of (call e)

    unfoldable pub connect_transfer : EnvelopeMessage TransferMessage → Answer ⊤
    connect_transfer m =
        submit_envelope (transfer_signed deliver)
          (convert_envelope base64 convert_transfer_payload m)

    unfoldable pub connect_mint_token : EnvelopeMessage MintTokenMessage → Answer Bytes
    connect_mint_token m =
        submit_envelope (mint_token_signed deliver)
          (convert_envelope base64 convert_mint_token_payload m)

    unfoldable pub connect_transfer_token : EnvelopeMessage TokenMessage → Answer ⊤
    connect_transfer_token m =
        submit_envelope (transfer_token_signed deliver)
          (convert_envelope base64 convert_token_payload m)

    unfoldable pub connect_authorize_token_transfer : EnvelopeMessage SlotMessage → Answer ⊤
    connect_authorize_token_transfer m =
        submit_envelope (authorize_token_transfer_signed deliver)
          (convert_envelope base64 convert_slot_payload m)

    unfoldable pub connect_unauthorize_token_transfer : EnvelopeMessage SlotMessage → Answer ⊤
    connect_unauthorize_token_transfer m =
        submit_envelope (unauthorize_token_transfer_signed deliver)
          (convert_envelope base64 convert_slot_payload m)

    unfoldable pub connect_burn_token : EnvelopeMessage BurnTokenMessage → Answer ⊤
    connect_burn_token m =
        submit_envelope (burn_token_signed deliver)
          (convert_envelope base64 convert_burn_token_payload m)

    unfoldable pub connect_clawback_token : EnvelopeMessage TokenMessage → Answer ⊤
    connect_clawback_token m =
        submit_envelope (clawback_token_signed deliver)
          (convert_envelope base64 convert_token_payload m)

    unfoldable pub connect_freeze_token : EnvelopeMessage FreezeMessage → Answer ⊤
    connect_freeze_token m =
        submit_envelope (freeze_token_signed deliver)
          (convert_envelope base64 convert_freeze_payload m)

    unfoldable pub connect_unfreeze_token : EnvelopeMessage FreezeMessage → Answer ⊤
    connect_unfreeze_token m =
        submit_envelope (unfreeze_token_signed deliver)
          (convert_envelope base64 convert_freeze_payload m)

    abbrev read_account :
        SignedEnvelope GetAccountPayload → Result Error ScalegraphId → Answer AccountView
    read_account e (ok id) = account_view (Client.get_account deliver id (some e))
    read_account e (err x) = Answer.invalid_argument
    read_account e panic = Answer.invalid_argument

    abbrev read_converted : Option (SignedEnvelope GetAccountPayload) → Answer AccountView
    read_converted none = Answer.invalid_argument
    read_converted (some e) = read_account e (from_string e.payload.account_id)

    unfoldable pub connect_get_account : EnvelopeMessage GetAccountPayload → Answer AccountView
    connect_get_account m = read_converted (convert_envelope base64 (λ p. p) m)

    abbrev mint_to : ℤ → Result Error ScalegraphId → Answer ⊤
    mint_to amount (ok id) = answer_of (admin_mint deliver id amount)
    mint_to amount (err x) = Answer.invalid_argument
    mint_to amount panic = Answer.invalid_argument

    unfoldable pub connect_admin_mint : Bytes → ℤ → Answer ⊤
    connect_admin_mint account_id amount = mint_to amount (from_string account_id)
