-- ===== src/Tui/Answers.antt =====
-- Panics, in a call of the client (internal/server/client.go) and in what the terminal interface does
-- before it.
use sg_emulator.Base.{⊤, Option, none, some, if◌then◌else◌, Bool, true, false, arith}
use sg_emulator.Base.Bytes.{Bytes}
use sg_emulator.Base.Int.{ℤ}
use sg_emulator.Base.Action.{Result, ok, err, panic}
use sg_emulator.Errors.{Error}
use sg_emulator.Id.{from_string, ScalegraphId}
use sg_emulator.Requests.{
  SignedEnvelope, TransferPayload, MintTokenPayload, AuthorizePayload, TokenPayload,
  BurnTokenPayload, FreezePayload, LookupTokenPayload,
}
use sg_emulator.Server.{Request, Response}
use sg_emulator.Signer.{sign, create_signed_envelope}
use sg_emulator.Client
use sg_emulator.Client.{Delivery}
use sg_emulator.Tui.State.{Model, World, Status, AccountCredentials}
use sg_emulator.Tui.Effects.{
  and_then, map_error, or_error, refresh_accounts, send_signed, create_account_with_ca,
}

unfoldable pub IsAnswer : {E A : Type 0} → Result E A → Type 0
IsAnswer (ok a) = ⊤
IsAnswer (err e) = ⊤
IsAnswer panic = ⊥

pub and_then-IsAnswer :
    {E A B : Type 0} (r : Result E A) (f : A → Result E B)
    → IsAnswer r
    → ((a : A) → IsAnswer (f a))
    → IsAnswer (and_then r f)
unfolding IsAnswer
and_then-IsAnswer (ok a) f h k = k a
and_then-IsAnswer (err e) f h k = tt
and_then-IsAnswer panic f h k = h

pub map_error-IsAnswer :
    {E D A : Type 0} (w : E → D) (r : Result E A) → IsAnswer r → IsAnswer (map_error w r)
unfolding IsAnswer
map_error-IsAnswer w (ok a) h = tt
map_error-IsAnswer w (err e) h = tt
map_error-IsAnswer w panic h = h

pub or_error-IsAnswer : {E A : Type 0} (o : Option A) (e : E) → IsAnswer (or_error o e)
unfolding IsAnswer
or_error-IsAnswer none e = tt
or_error-IsAnswer (some a) e = tt

if-IsAnswer :
    {E A : Type 0} (b : Bool) (x y : Result E A)
    → IsAnswer x
    → IsAnswer y
    → IsAnswer (if b then x else y)
if-IsAnswer true x y hx hy = hx
if-IsAnswer false x y hx hy = hy

-- The client's own chain of errors.
client-IsAnswer :
    {A B : Type 0} (r : Result Error A) (f : A → Result Error B)
    → IsAnswer r
    → ((a : A) → IsAnswer (f a))
    → IsAnswer (Client.and_then r f)
unfolding IsAnswer
client-IsAnswer (ok a) f h k = k a
client-IsAnswer (err e) f h k = tt
client-IsAnswer panic f h k = h

from_string-IsAnswer : (s : Bytes) → IsAnswer (from_string s)
unfolding from_string IsAnswer
from_string-IsAnswer s = ground arith

parse_address-IsAnswer : (o : Option Bytes) → IsAnswer (Client.parse_address o)
unfolding Client.parse_address IsAnswer
parse_address-IsAnswer none = tt
parse_address-IsAnswer (some s) =
    client-IsAnswer (from_string s) (λ id. ok (some id)) (from_string-IsAnswer s) (λ id. tt)

send-IsAnswer :
    {A : Type 0} (assertion : Response → Option A) (d : Delivery)
    → IsAnswer (Client.send assertion d)
unfolding Client.send Client.send_request IsAnswer
send-IsAnswer assertion Delivery.not_sent_cancelled = tt
send-IsAnswer assertion Delivery.not_sent_timeout = tt
send-IsAnswer assertion Delivery.cancelled = tt
send-IsAnswer assertion Delivery.timed_out = tt
send-IsAnswer assertion (Delivery.refused e) = tt
send-IsAnswer assertion (Delivery.answered resp) = ground arith

-- A request that is built is sent.
call-IsAnswer :
    {A : Type 0} (deliver : Request → Delivery) (assertion : Response → Option A)
    → (r : Result Error Request) → IsAnswer r
    → IsAnswer (Client.and_then r (λ q. Client.send assertion (deliver q)))
call-IsAnswer deliver assertion r h =
    client-IsAnswer r (λ q. Client.send assertion (deliver q)) h
      (λ q. send-IsAnswer assertion (deliver q))

-- Two identifiers are parsed, and a request is built from them.
two-IsAnswer :
    {B : Type 0} (s t : Bytes) (f : ScalegraphId → ScalegraphId → B)
    → IsAnswer
        (Client.and_then (from_string s) λ a. Client.and_then (from_string t) λ b. ok (f a b))
unfolding IsAnswer
two-IsAnswer s t f =
    client-IsAnswer (from_string s) _ (from_string-IsAnswer s)
      λ a. client-IsAnswer (from_string t) _ (from_string-IsAnswer t) λ b. tt

one-IsAnswer :
    {B : Type 0} (s : Bytes) (f : ScalegraphId → B)
    → IsAnswer (Client.and_then (from_string s) λ a. ok (f a))
unfolding IsAnswer
one-IsAnswer s f = client-IsAnswer (from_string s) _ (from_string-IsAnswer s) λ a. tt

module _ (deliver : Request → Delivery) where
  pub transfer_signed-IsAnswer :
      (e : SignedEnvelope TransferPayload) → IsAnswer (Client.transfer_signed deliver e)
  unfolding Client.transfer_signed Client.transfer_request
  transfer_signed-IsAnswer e =
      call-IsAnswer deliver _ _ (two-IsAnswer e.payload.from e.payload.to _)

  pub authorize-IsAnswer :
      (e : SignedEnvelope AuthorizePayload)
      → IsAnswer (Client.authorize_token_transfer_signed deliver e)
  unfolding Client.authorize_token_transfer_signed Client.slot_request
  authorize-IsAnswer e =
      call-IsAnswer deliver _ _ (two-IsAnswer e.payload.account_id e.payload.token_owner_id _)

  pub unauthorize-IsAnswer :
      (e : SignedEnvelope AuthorizePayload)
      → IsAnswer (Client.unauthorize_token_transfer_signed deliver e)
  unfolding Client.unauthorize_token_transfer_signed Client.slot_request
  unauthorize-IsAnswer e =
      call-IsAnswer deliver _ _ (two-IsAnswer e.payload.account_id e.payload.token_owner_id _)

  pub transfer_token_signed-IsAnswer :
      (e : SignedEnvelope TokenPayload) → IsAnswer (Client.transfer_token_signed deliver e)
  unfolding Client.transfer_token_signed Client.token_request
  transfer_token_signed-IsAnswer e =
      call-IsAnswer deliver _ _ (two-IsAnswer e.payload.from e.payload.to _)

  pub clawback_token_signed-IsAnswer :
      (e : SignedEnvelope TokenPayload) → IsAnswer (Client.clawback_token_signed deliver e)
  unfolding Client.clawback_token_signed Client.token_request
  clawback_token_signed-IsAnswer e =
      call-IsAnswer deliver _ _ (two-IsAnswer e.payload.from e.payload.to _)

  pub freeze_token_signed-IsAnswer :
      (e : SignedEnvelope FreezePayload) → IsAnswer (Client.freeze_token_signed deliver e)
  unfolding Client.freeze_token_signed Client.freeze_request
  freeze_token_signed-IsAnswer e =
      call-IsAnswer deliver _ _ (two-IsAnswer e.payload.freeze_authority e.payload.token_holder _)

  pub unfreeze_token_signed-IsAnswer :
      (e : SignedEnvelope FreezePayload) → IsAnswer (Client.unfreeze_token_signed deliver e)
  unfolding Client.unfreeze_token_signed Client.freeze_request
  unfreeze_token_signed-IsAnswer e =
      call-IsAnswer deliver _ _ (two-IsAnswer e.payload.freeze_authority e.payload.token_holder _)

  pub burn_token_signed-IsAnswer :
      (e : SignedEnvelope BurnTokenPayload) → IsAnswer (Client.burn_token_signed deliver e)
  unfolding Client.burn_token_signed Client.burn_token_request
  burn_token_signed-IsAnswer e = call-IsAnswer deliver _ _ (one-IsAnswer e.payload.account_id _)

  pub lookup_token_signed-IsAnswer :
      (e : SignedEnvelope LookupTokenPayload) → IsAnswer (Client.lookup_token_signed deliver e)
  unfolding Client.lookup_token_signed Client.lookup_token_request
  lookup_token_signed-IsAnswer e = call-IsAnswer deliver _ _ (one-IsAnswer e.payload.account_id _)

  pub mint_token_signed-IsAnswer :
      (e : SignedEnvelope MintTokenPayload) → IsAnswer (Client.mint_token_signed deliver e)
  unfolding Client.mint_token_signed Client.mint_token_request IsAnswer
  mint_token_signed-IsAnswer e = call-IsAnswer deliver _ _ (
      client-IsAnswer _ _ (parse_address-IsAnswer e.payload.clawback_address)
        λ c. client-IsAnswer _ _ (parse_address-IsAnswer e.payload.freeze_address) λ f. tt)

module _ (w : World) where
  create_signed_envelope-IsAnswer :
      {T : Type 0} (bytes_of : T → Bytes) (payload : T) (priv_key signer_id : Bytes) (now : ℤ)
      → IsAnswer (create_signed_envelope w.ed25519_sign bytes_of payload priv_key signer_id now)
  unfolding create_signed_envelope sign IsAnswer
  create_signed_envelope-IsAnswer bytes_of payload priv_key signer_id now = ground arith

  pub refresh_accounts-IsAnswer : (m : Model) → IsAnswer (refresh_accounts w m)
  unfolding refresh_accounts Client.get_accounts IsAnswer
  refresh_accounts-IsAnswer m =
      and_then-IsAnswer _ _ (send-IsAnswer _ (w.deliver Request.get_accounts)) λ l. tt

  pub send_signed-IsAnswer :
      {T A : Type 0} (bytes_of : T → Bytes) (payload : T) (call : SignedEnvelope T → Result Error A)
      → (id : ScalegraphId) (creds : AccountCredentials)
      → ((e : SignedEnvelope T) → IsAnswer (call e))
      → IsAnswer (send_signed w bytes_of (some payload) call id creds)
  unfolding send_signed
  send_signed-IsAnswer bytes_of payload call id creds h =
      and_then-IsAnswer _ _ (map_error-IsAnswer Status.private_key_failed _ (or_error-IsAnswer _ _))
        λ priv_key.
          and_then-IsAnswer _ _
            (map_error-IsAnswer Status.sign_failed _
              (create_signed_envelope-IsAnswer bytes_of payload priv_key _ w.now))
            λ e. map_error-IsAnswer Status.failed (call e) (h e)

  pub create_account_with_ca-IsAnswer : (b : ℤ) → IsAnswer (create_account_with_ca w b)
  unfolding create_account_with_ca Client.create_account_with_credentials
  create_account_with_ca-IsAnswer b = and_then-IsAnswer _ _ (or_error-IsAnswer w.ca _) λ ca.
      and_then-IsAnswer _ _
        (map_error-IsAnswer _ _
          (create_signed_envelope-IsAnswer w.json.create_account _ ca.private_key _ w.now))
        λ e. send-IsAnswer _ _
