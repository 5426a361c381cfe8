-- ===== src/Rest.antt =====
-- The REST transport (internal/transport/rest/rest.go): what a handler replies to the body of a
-- request. A body is `none` if it is not the JSON that is expected, and its envelope is `none` if
-- the field is missing; that an envelope is there without its payload, which makes the handler panic
-- and the router answer, is left out, as are routing, logging and the documentation pages.
pub mod OwnAccount
use sg_emulator.Base.{⊤, ℕ, Option, none, some, List, [], ◌∷◌, ◌++◌, if◌then◌else◌}
use sg_emulator.Base.Bytes.{Bytes, bytes_eq}
use sg_emulator.Base.Int.{ℤ, pos}
use sg_emulator.Base.Action.{Result, ok, err, panic}
use sg_emulator.Errors.{Error}
use sg_emulator.Id.{ScalegraphId, from_string, to_string}
use sg_emulator.Transaction
use sg_emulator.Transaction.{Transaction, TransactionType, transaction_type}
use sg_emulator.Chain.{Block, block_transaction, get_blocks}
use sg_emulator.Account.{Account}
use sg_emulator.Requests.{
  SignedEnvelope, GetAccountPayload, TransferPayload, MintTokenPayload, AuthorizePayload,
  TokenPayload, BurnTokenPayload,
}
use sg_emulator.Server.{Request}
use sg_emulator.Client
use sg_emulator.Client.{
  Delivery, transfer_signed, mint_token_signed, authorize_token_transfer_signed,
  unauthorize_token_transfer_signed, transfer_token_signed, burn_token_signed,
  clawback_token_signed,
}

-- One of the maps in the list of transactions; "genesis" stands for a sender that is nil.
pub record Entry : Type 0 where
  pub type : TransactionType
  pub from : Bytes
  pub to : Bytes
  pub amount : ℤ

pub record AccountResponse : Type 0 where
  pub id : Bytes
  pub balance : ℤ
  pub transactions : List Entry

-- The bodies of replies. The first cases are the texts of `ErrorResponse`, where `failed` is the text
-- of an error; `success` is the body of `TransferResponse`.
pub data Body : Type 0 where
  invalid_request_body signed_envelope_required invalid_account_id : Body
  not_your_account account_not_found : Body
  failed : Error → Body
  account : AccountResponse → Body
  success healthy : Body

pub record Reply : Type 0 where
  pub status : ℕ
  pub body : Body

-- `respondJSON` and `respondError`.
unfoldable pub respond : ℕ → Body → Reply
respond status body = record { status = status; body = body }

unfoldable pub handle_health : Reply
handle_health = respond 200 Body.healthy

abbrev sender_text : Option ScalegraphId → Bytes
sender_text none = b'g' ∷ b'e' ∷ b'n' ∷ b'e' ∷ b's' ∷ b'i' ∷ b's' ∷ []
sender_text (some id) = to_string id

abbrev receiver_text : Option ScalegraphId → Bytes
receiver_text none = b'u' ∷ b'n' ∷ b'k' ∷ b'n' ∷ b'o' ∷ b'w' ∷ b'n' ∷ []
receiver_text (some id) = to_string id

-- The `switch` on the type of a transaction.
abbrev amount_of : Transaction → ℤ
amount_of (Transaction.mint t) = t.amount
amount_of (Transaction.transfer t) = t.amount
amount_of (Transaction.burn t) = t.amount
amount_of _ = pos 0

abbrev entries_of : Option Transaction → List Entry
entries_of none = []
entries_of (some t) =
    record {
      type = transaction_type t;
      from = sender_text (Transaction.sender t);
      to = receiver_text (Transaction.receiver t);
      amount = amount_of t;
    }
    ∷ []

-- The loop over the blocks.
unfoldable pub transactions_of : List Block → List Entry
transactions_of [] = []
transactions_of (b ∷ bs) = entries_of (block_transaction b) ++ transactions_of bs

unfoldable pub account_response : Account → AccountResponse
account_response acc = record {
  id = to_string acc.id;
  balance = acc.balance;
  transactions = transactions_of (get_blocks acc.blockchain);
}

module _ (deliver : Request → Delivery) where
  abbrev pub account_reply : Result Error Account → Reply
  account_reply (ok acc) = respond 200 (Body.account (account_response acc))
  account_reply (err e) = respond 404 Body.account_not_found
  account_reply panic = respond 500 Body.account_not_found

  abbrev pub get_my_account : SignedEnvelope GetAccountPayload → Result Error ScalegraphId → Reply
  get_my_account e (ok id) =
      if bytes_eq e.signature.signer_id e.payload.account_id
      then account_reply (Client.get_account deliver id (some e))
      else respond 403 Body.not_your_account
  get_my_account e (err x) = respond 400 Body.invalid_account_id
  get_my_account e panic = respond 500 Body.invalid_account_id

  unfoldable pub handle_get_my_account : Option (Option (SignedEnvelope GetAccountPayload)) → Reply
  handle_get_my_account none = respond 400 Body.invalid_request_body
  handle_get_my_account (some none) = respond 400 Body.signed_envelope_required
  handle_get_my_account (some (some e)) = get_my_account e (from_string e.payload.account_id)

  abbrev outcome : {A : Type 0} → Result Error A → Reply
  outcome (ok a) = respond 200 Body.success
  outcome (err e) = respond 400 (Body.failed e)
  outcome panic = respond 500 Body.success

  -- The steps that the handlers of transfers and token operations have in common.
  abbrev submit_body :
      {T A : Type 0}
      → Option (Option (SignedEnvelope T))
      → (SignedEnvelope T → Result Error A)
      → Reply
  submit_body none call = respond 400 Body.invalid_request_body
  submit_body (some none) call = respond 400 Body.signed_envelope_required
  submit_body (some (some e)) call = outcome (call e)

  unfoldable pub rest_transfer : Option (Option (SignedEnvelope TransferPayload)) → Reply
  rest_transfer b = submit_body b (transfer_signed deliver)

  unfoldable pub rest_mint_token : Option (Option (SignedEnvelope MintTokenPayload)) → Reply
  rest_mint_token b = submit_body b (mint_token_signed deliver)

  unfoldable pub rest_authorize_token_transfer :
      Option (Option (SignedEnvelope AuthorizePayload)) → Reply
  rest_authorize_token_transfer b = submit_body b (authorize_token_transfer_signed deliver)

  unfoldable pub rest_unauthorize_token_transfer :
      Option (Option (SignedEnvelope AuthorizePayload)) → Reply
  rest_unauthorize_token_transfer b = submit_body b (unauthorize_token_transfer_signed deliver)

  unfoldable pub rest_transfer_token : Option (Option (SignedEnvelope TokenPayload)) → Reply
  rest_transfer_token b = submit_body b (transfer_token_signed deliver)

  unfoldable pub rest_burn_token : Option (Option (SignedEnvelope BurnTokenPayload)) → Reply
  rest_burn_token b = submit_body b (burn_token_signed deliver)

  unfoldable pub rest_clawback_token : Option (Option (SignedEnvelope TokenPayload)) → Reply
  rest_clawback_token b = submit_body b (clawback_token_signed deliver)
