-- ===== src/Tui/Effects.antt =====
-- What the terminal interface does outside of its model: it refreshes its caches, loads credentials,
-- and signs and sends a request (refreshAccounts, refreshTokensForIndex, getCredentials and the
-- handlers' common tail in internal/tui/update.go, createAccountWithCA in internal/tui/commands.go).
use sg_emulator.Base.{ℕ, Bool, Option, none, some, List, [], map, ⊤}
use sg_emulator.Base.Bytes.{Bytes}
use sg_emulator.Base.Dict.{lookup, insert}
use sg_emulator.Base.Int.{ℤ}
use sg_emulator.Base.Action.{Result, ok, err, panic}
use sg_emulator.Errors.{
  Error, ca_not_available, credentials_not_found, invalid_private_key_pem, failed_to_create_request,
}
use sg_emulator.Id.{ScalegraphId, to_string}
use sg_emulator.Token.{Token, token_id}
use sg_emulator.Account.{Account, get_tokens}
use sg_emulator.Requests.{SignedEnvelope}
use sg_emulator.Signer.{create_signed_envelope}
use sg_emulator.Client.{get_accounts, create_account_with_credentials}
use sg_emulator.Tui.State.{Model, World, Authority, AccountCredentials, Status, Outcome}
use sg_emulator.Tui.Moves.{at, sort_slice, text_less}

-- `if err != nil { return … }`
abbrev pub and_then : {E A B : Type 0} → Result E A → (A → Result E B) → Result E B
and_then (ok a) f = f a
and_then (err e) f = err e
and_then panic f = panic

abbrev pub map_error : {E D A : Type 0} → (E → D) → Result E A → Result D A
map_error w (ok a) = ok a
map_error w (err e) = err (w e)
map_error w panic = panic

abbrev pub or_error : {E A : Type 0} → Option A → E → Result E A
or_error none e = err e
or_error (some a) e = ok a

-- A value that indexing gives, or its panic.
abbrev pub present : {E A : Type 0} → Option A → Result E A
present none = panic
present (some a) = ok a

-- An error becomes the status, and a panic is passed on.
abbrev pub or_status : {A : Type 0} → Result Status A → Model → (A → Outcome) → Outcome
or_status (ok a) m f = f a
or_status (err s) m f = Outcome.next (record m { status_msg = s })
or_status panic m f = Outcome.crash

-- `_ = m.refreshAccounts()`
abbrev pub anyway : Result Error Model → Model → (Model → Outcome) → Outcome
anyway (ok m') m f = f m'
anyway (err e) m f = f m
anyway panic m f = Outcome.crash

abbrev pub by_id : Account → Account → Bool
by_id a b = text_less (to_string a.id) (to_string b.id)

abbrev by_token_id : Token → Token → Bool
by_token_id t u = text_less (token_id t) (token_id u)

-- The credentials in the cache, which get an entry here.
abbrev cached : Authority → ScalegraphId → Model → Result Error (AccountCredentials × Model)
cached ca id m =
    and_then (or_error (ca.account_private_key_pem (to_string id)) credentials_not_found) λ key.
      and_then (or_error (ca.account_certificate_pem (to_string id)) credentials_not_found) λ cert.
        let creds : AccountCredentials = record { private_key_pem = key; certificate_pem = cert } in
        ok (creds, record m { credential_cache = insert id creds m.credential_cache })

abbrev pub load :
    World
    → ScalegraphId
    → Model
    → Option AccountCredentials
    → Result Error (AccountCredentials × Model)
load w id m (some creds) = ok (creds, m)
load w id m none = and_then (or_error w.ca ca_not_available) λ ca. cached ca id m

abbrev pub store : Model → List Account → Result Error Model
store m accs =
    ok (record m { cached_accounts = map (λ a. a.id) (sort_slice by_id accs); cached_tokens = [] })

module _ (w : World) where
  unfoldable pub refresh_accounts : Model → Result Error Model
  refresh_accounts m = and_then (get_accounts w.deliver) (store m)

  abbrev pub refresh_anyway : Model → (Model → Outcome) → Outcome
  refresh_anyway m f = anyway (refresh_accounts m) m f

  abbrev tokens_of : Option ScalegraphId → List Token
  tokens_of none = []
  tokens_of (some id) = sort_slice by_token_id (get_tokens (w.account id))

  -- It never fails.
  unfoldable pub refresh_tokens_for_index : ℕ → Model → Model
  refresh_tokens_for_index i m = record m { cached_tokens = tokens_of (at m.cached_accounts i) }

  unfoldable pub refresh_tokens : Model → Model
  refresh_tokens m = refresh_tokens_for_index m.token_account_index m

  unfoldable pub get_credentials : ScalegraphId → Model → Result Error (AccountCredentials × Model)
  get_credentials id m = load w id m (lookup id m.credential_cache)

  -- The tail of each handler that sends a signed request for an account: credentials, private key,
  -- envelope, call. What is cached stays cached after a later error. There is no
  -- payload where building it indexes a list out of range.
  module _ {T A : Type 0} (bytes_of : T → Bytes) (payload : Option T)
      (call : SignedEnvelope T → Result Error A) where
    unfoldable pub send_signed : ScalegraphId → AccountCredentials → Result Status A
    send_signed id creds =
        and_then
          (map_error Status.private_key_failed
            (or_error (w.decode_private_key_pem creds.private_key_pem) invalid_private_key_pem))
          λ priv_key. and_then (present payload) λ p.
            and_then
              (map_error Status.sign_failed
                (create_signed_envelope w.ed25519_sign bytes_of p priv_key (to_string id) w.now))
              λ envelope. map_error Status.failed (call envelope)

    unfoldable pub perform : ScalegraphId → Model → (A → Model → Outcome) → Outcome
    perform id m done =
        or_status (map_error Status.credentials_failed (get_credentials id m)) m
          λ found. or_status (send_signed id found.0) found.1 λ answer. done answer found.1

  -- `createAccountWithCA`
  unfoldable pub create_account_with_ca : ℤ → Result Error ⊤
  create_account_with_ca balance = and_then (or_error w.ca ca_not_available) λ ca.
      let id = to_string (w.derive_account_id ca.public_key) in
      and_then
        (map_error failed_to_create_request (
          create_signed_envelope w.ed25519_sign w.json.create_account
            (record { initial_balance = balance }) ca.private_key id w.now))
        λ envelope. create_account_with_credentials w.deliver balance (some envelope)
