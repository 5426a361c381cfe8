-- ===== src/Client.antt =====
-- The client of the server (internal/server/client.go): it parses the identifiers that a signed
-- payload names, sends the request through the server's channel, and waits for the answer. What
-- becomes of a request that is sent is an argument of the model; logging is left out, and an
-- envelope is never the nil pointer.
pub mod Sealed
use sg_emulator.Base.{⊤, ℕ, Option, none, some, List}
use sg_emulator.Base.Bytes.{Bytes}
use sg_emulator.Base.Int.{ℤ}
use sg_emulator.Base.Action.{Result, ok, err, panic}
use sg_emulator.Errors.{
  Error, request_send_timeout, response_timeout, context_done, unexpected_response_type,
}
use sg_emulator.Id.{ScalegraphId, from_string}
use sg_emulator.Token.{Token}
use sg_emulator.Account.{Account}
use sg_emulator.Requests.{
  SignedEnvelope, CreateAccountPayload, GetAccountPayload, TransferPayload, MintTokenPayload,
  AuthorizePayload, TokenPayload, BurnTokenPayload, FreezePayload, LookupTokenPayload,
  AuthorizeRequest, TokenRequest, FreezeRequest,
}
use sg_emulator.Server.{Request, Response}

-- The first `select` of `sendRequest`, and the second, of a request that was put into the channel.
-- A response carries a payload or an error.
pub data Delivery : Type 0 where
  not_sent_cancelled not_sent_timeout cancelled timed_out : Delivery
  answered : Response → Delivery
  refused : Error → Delivery

-- `sendRequest`, and the test of the response's error in `Send`.
unfoldable pub send_request : Delivery → Result Error Response
send_request Delivery.not_sent_cancelled = err context_done
send_request Delivery.not_sent_timeout = err request_send_timeout
send_request Delivery.cancelled = err context_done
send_request Delivery.timed_out = err response_timeout
send_request (Delivery.answered resp) = ok resp
send_request (Delivery.refused e) = err e

abbrev asserted : {A : Type 0} → Option A → Result Error A
asserted none = err unexpected_response_type
asserted (some a) = ok a

abbrev pub and_then : {A B : Type 0} → Result Error A → (A → Result Error B) → Result Error B
and_then (ok a) f = f a
and_then (err e) f = err e
and_then panic f = panic

-- `Send`; the first argument is the type assertion on the response's payload.
unfoldable pub send : {A : Type 0} → (Response → Option A) → Delivery → Result Error A
send assertion d = and_then (send_request d) (λ resp. asserted (assertion resp))

-- The type assertions. Responses without a field are one case of the model.
abbrev pub as_done : Response → Option ⊤
as_done Response.done = some tt
as_done _ = none

abbrev as_count : Response → Option ℕ
as_count (Response.count n) = some n
as_count _ = none

abbrev pub as_account : Response → Option Account
as_account (Response.account a) = some a
as_account _ = none

abbrev as_accounts : Response → Option (List Account)
as_accounts (Response.accounts l) = some l
as_accounts _ = none

abbrev as_token_id : Response → Option Bytes
as_token_id (Response.token_id id) = some id
as_token_id _ = none

abbrev as_token : Response → Option (Option Token)
as_token (Response.token t) = some t
as_token _ = none

-- An optional address of a new token's payload.
unfoldable pub parse_address : Option Bytes → Result Error (Option ScalegraphId)
parse_address none = ok none
parse_address (some s) = and_then (from_string s) λ id. ok (some id)

-- The requests that the `…Signed` methods build from an envelope.
unfoldable pub transfer_request : SignedEnvelope TransferPayload → Result Error Request
transfer_request e = and_then (from_string e.payload.from) λ from.
    and_then (from_string e.payload.to) λ to. ok (
      Request.transfer (record {
        from = from;
        to = to;
        amount = e.payload.amount;
        nonce = e.payload.nonce;
        signed_envelope = some e;
      }))

unfoldable pub mint_token_request : SignedEnvelope MintTokenPayload → Result Error Request
mint_token_request e = and_then (parse_address e.payload.clawback_address) λ clawback.
    and_then (parse_address e.payload.freeze_address) λ freeze. ok (
      Request.mint_token (record {
        token_value = e.payload.token_value;
        clawback_address = clawback;
        freeze_address = freeze;
        nonce = e.payload.nonce;
        signed_envelope = some e;
      }))

-- Authorizing and unauthorizing build requests with the same fields.
unfoldable pub slot_request :
    (AuthorizeRequest → Request) → SignedEnvelope AuthorizePayload → Result Error Request
slot_request make e = and_then (from_string e.payload.account_id) λ account_id.
    and_then (from_string e.payload.token_owner_id) λ token_owner_id. ok (
      make (record {
        account_id = account_id;
        token_owner_id = token_owner_id;
        token_id = e.payload.token_id;
        nonce = e.payload.nonce;
        signed_envelope = some e;
      }))

-- Transferring and clawing back a token, too.
unfoldable pub token_request :
    (TokenRequest → Request) → SignedEnvelope TokenPayload → Result Error Request
token_request make e = and_then (from_string e.payload.from) λ from.
    and_then (from_string e.payload.to) λ to. ok (
      make (record {
        from = from;
        to = to;
        token_id = e.payload.token_id;
        nonce = e.payload.nonce;
        signed_envelope = some e;
      }))

unfoldable pub burn_token_request : SignedEnvelope BurnTokenPayload → Result Error Request
burn_token_request e = and_then (from_string e.payload.account_id) λ account_id. ok (
    Request.burn_token (record {
      account_id = account_id;
      token_id = e.payload.token_id;
      nonce = e.payload.nonce;
      signed_envelope = some e;
    }))

-- Freezing and unfreezing, too.
unfoldable pub freeze_request :
    (FreezeRequest → Request) → SignedEnvelope FreezePayload → Result Error Request
freeze_request make e = and_then (from_string e.payload.freeze_authority) λ freeze_authority.
    and_then (from_string e.payload.token_holder) λ token_holder. ok (
      make (record {
        freeze_authority = freeze_authority;
        token_holder = token_holder;
        token_id = e.payload.token_id;
        nonce = e.payload.nonce;
        signed_envelope = some e;
      }))

unfoldable pub lookup_token_request : SignedEnvelope LookupTokenPayload → Result Error Request
lookup_token_request e = and_then (from_string e.payload.account_id) λ account_id. ok (
    Request.lookup_token
      (record { token_id = e.payload.token_id; account_id = account_id; signed_envelope = some e }))

-- The methods of `Client`, over what becomes of a request that is sent.
module _ (deliver : Request → Delivery) where
  abbrev call : {A : Type 0} → (Response → Option A) → Result Error Request → Result Error A
  call assertion request = and_then request λ r. send assertion (deliver r)

  -- The account's certificate and keys, which the response also has, are not modelled.
  unfoldable pub create_account_with_credentials :
      ℤ → Option (SignedEnvelope CreateAccountPayload) → Result Error ⊤
  create_account_with_credentials initial_balance e = send as_done (
      deliver (
        Request.create_account (record { initial_balance = initial_balance; signed_envelope = e })))

  -- The code answers with a pointer to the account, which the caller reads later: this is what it
  -- reads if no request comes in between.
  unfoldable pub get_account :
      ScalegraphId → Option (SignedEnvelope GetAccountPayload) → Result Error Account
  get_account id e =
      send as_account
        (deliver (Request.get_account (record { account_id = id; signed_envelope = e })))

  unfoldable pub get_accounts : Result Error (List Account)
  get_accounts = send as_accounts (deliver Request.get_accounts)

  unfoldable pub account_count : Result Error ℕ
  account_count = send as_count (deliver Request.account_count)

  unfoldable pub mint : ScalegraphId → ℤ → Result Error ⊤
  mint to amount = send as_done (deliver (Request.mint (record { to = to; amount = amount })))

  unfoldable pub admin_create_account : ℤ → Result Error ⊤
  admin_create_account initial_balance =
      send as_done (deliver (Request.admin_create_account initial_balance))

  unfoldable pub admin_mint : ScalegraphId → ℤ → Result Error ⊤
  admin_mint to amount =
      send as_done (deliver (Request.admin_mint (record { to = to; amount = amount })))

  unfoldable pub transfer_signed : SignedEnvelope TransferPayload → Result Error ⊤
  transfer_signed e = call as_done (transfer_request e)

  unfoldable pub mint_token_signed : SignedEnvelope MintTokenPayload → Result Error Bytes
  mint_token_signed e = call as_token_id (mint_token_request e)

  unfoldable pub authorize_token_transfer_signed : SignedEnvelope AuthorizePayload → Result Error ⊤
  authorize_token_transfer_signed e = call as_done (slot_request Request.authorize_token_transfer e)

  unfoldable pub unauthorize_token_transfer_signed :
      SignedEnvelope AuthorizePayload → Result Error ⊤
  unauthorize_token_transfer_signed e =
      call as_done (slot_request Request.unauthorize_token_transfer e)

  unfoldable pub transfer_token_signed : SignedEnvelope TokenPayload → Result Error ⊤
  transfer_token_signed e = call as_done (token_request Request.transfer_token e)

  unfoldable pub clawback_token_signed : SignedEnvelope TokenPayload → Result Error ⊤
  clawback_token_signed e = call as_done (token_request Request.clawback_token e)

  unfoldable pub burn_token_signed : SignedEnvelope BurnTokenPayload → Result Error ⊤
  burn_token_signed e = call as_done (burn_token_request e)

  unfoldable pub freeze_token_signed : SignedEnvelope FreezePayload → Result Error ⊤
  freeze_token_signed e = call as_done (freeze_request Request.freeze_token e)

  unfoldable pub unfreeze_token_signed : SignedEnvelope FreezePayload → Result Error ⊤
  unfreeze_token_signed e = call as_done (freeze_request Request.unfreeze_token e)

  unfoldable pub lookup_token_signed :
      SignedEnvelope LookupTokenPayload → Result Error (Option Token)
  lookup_token_signed e = call as_token (lookup_token_request e)
