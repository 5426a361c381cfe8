-- ===== src/Tui/Rules.antt =====
-- How the invariant of the terminal interface passes through what its handlers have in common
-- (internal/tui/update.go): fetching accounts, indexing a list, and sending a signed request.
use sg_emulator.Base.{
  ℕ, ⊤, ◌≤◌, ◌<◌, ◌≡◌, refl, sym, subst, Option, none, some, List, [], length, map,
}
use sg_emulator.Base.Bytes.{Bytes}
use sg_emulator.Base.Dict.{Dict, lookup, insert}
use sg_emulator.Base.Action.{Result, ok, err, panic}
use sg_emulator.Errors.{Error}
use sg_emulator.Id.{ScalegraphId, to_string}
use sg_emulator.Account.{Account}
use sg_emulator.Requests.{SignedEnvelope}
use sg_emulator.Client.{get_accounts}
use sg_emulator.Tui.State.{View, Model, World, Status, Outcome, AccountCredentials}
use sg_emulator.Tui.Moves.{at, or_panic, sort_slice}
use sg_emulator.Tui.Effects.{
  and_then, or_error, load, store, by_id, map_error, or_status, refresh_accounts, refresh_anyway,
  anyway, get_credentials, send_signed, perform,
}
use sg_emulator.Tui.Accounts.{refresh_into}
use sg_emulator.Tui.Answers.{
  IsAnswer, map_error-IsAnswer, refresh_accounts-IsAnswer, send_signed-IsAnswer,
}
use sg_emulator.Tui.Ranges.{at-some, length-map, length-sort_slice}
use sg_emulator.Tui.Invariant.{InView, IsInRange, IsSafe, IsPopulated}

ok_unique : {E A : Type 0} (a b : A) (r : Result E A) → r ≡ ok a → r ≡ ok b → a ≡ b
ok_unique a b r e k = cc

-- What was fetched is stored, and there are at least two accounts.
Stored : Model → Model → Type 0
Stored m m' =
    (l : List ScalegraphId) × (2 ≤ length l)
    × (m' ≡ record m { cached_accounts = l; cached_tokens = [] })

fetched-Stored :
    (w : World) (m m' : Model) (r : Result Error (List Account))
    → IsPopulated w
    → get_accounts w.deliver ≡ r
    → and_then r (store m) ≡ ok m'
    → Stored m m'
unfolding IsPopulated Stored
fetched-Stored w m m' (ok accs) h e k = (
  map (λ a. a.id) (sort_slice by_id accs),
  rw (length-map (λ a. a.id) (sort_slice by_id accs), length-sort_slice by_id accs) (h accs e),
  ok_unique m' _ (store m accs) k refl,
)
fetched-Stored w m m' (err e') h e k = cc
fetched-Stored w m m' panic h e k = cc

refresh_accounts-Stored :
    (w : World) (m m' : Model) → IsPopulated w → refresh_accounts w m ≡ ok m' → Stored m m'
unfolding refresh_accounts
refresh_accounts-Stored w m m' h e = fetched-Stored w m m' (get_accounts w.deliver) h refl e

map_error_ok :
    {E D A : Type 0} (f : E → D) (r : Result E A) (a : A) → map_error f r ≡ ok a → r ≡ ok a
map_error_ok f (ok b) a e = cc
map_error_ok f (err x) a e = cc
map_error_ok f panic a e = cc

-- Loading credentials changes nothing but their cache, and does not panic.
OnlyCache : Model → Result Error (AccountCredentials × Model) → Type 0
OnlyCache m (ok found) =
    (c : Dict AccountCredentials) × (found.1 ≡ record m { credential_cache = c })
OnlyCache m (err e) = ⊤
OnlyCache m panic = ⊥

or_error-OnlyCache :
    {A : Type 0} (m : Model) (o : Option A) (e : Error)
    → (f : A → Result Error (AccountCredentials × Model)) → ((a : A) → OnlyCache m (f a))
    → OnlyCache m (and_then (or_error o e) f)
unfolding OnlyCache
or_error-OnlyCache m none e f k = tt
or_error-OnlyCache m (some a) e f k = k a

load-OnlyCache :
    (w : World) (id : ScalegraphId) (m : Model) (o : Option AccountCredentials)
    → OnlyCache m (load w id m o)
unfolding OnlyCache
load-OnlyCache w id m (some creds) = (m.credential_cache, refl)
load-OnlyCache w id m none = or_error-OnlyCache m w.ca _ _ λ ca.
    or_error-OnlyCache m (ca.account_private_key_pem (to_string id)) _ _ λ key.
      or_error-OnlyCache m (ca.account_certificate_pem (to_string id)) _ _ λ cert. (
        insert id (record { private_key_pem = key; certificate_pem = cert }) m.credential_cache,
        refl,
      )

get_credentials-OnlyCache :
    (w : World) (id : ScalegraphId) (m : Model) → OnlyCache m (get_credentials w id m)
unfolding get_credentials
get_credentials-OnlyCache w id m = load-OnlyCache w id m (lookup id m.credential_cache)

OnlyCache-IsAnswer :
    (m : Model) (r : Result Error (AccountCredentials × Model)) → OnlyCache m r → IsAnswer r
unfolding OnlyCache IsAnswer
OnlyCache-IsAnswer m (ok found) h = tt
OnlyCache-IsAnswer m (err e) h = tt
OnlyCache-IsAnswer m panic h = h

cache_of_ok :
    (m : Model) (r : Result Error (AccountCredentials × Model)) (found : AccountCredentials × Model)
    → OnlyCache m r
    → r ≡ ok found
    → (c : Dict AccountCredentials) × (found.1 ≡ record m { credential_cache = c })
unfolding OnlyCache
cache_of_ok m r found h e = subst (OnlyCache m) e h

module _ (Hidden : Type 0) where
  -- Neither the status nor the credentials matter.
  status-InView :
      (v : View) (m : Model) (c : Dict AccountCredentials) (s : Status)
      → InView Hidden v m
      → InView Hidden v (record m { credential_cache = c; status_msg = s })
  unfolding InView
  status-InView View.menu m c s h = h
  status-InView View.create_account m c s h = h
  status-InView View.account_detail m c s h = h
  status-InView View.account_detail_single m c s h = h
  status-InView View.transaction_detail m c s h = h
  status-InView View.send_money m c s h = h
  status-InView View.virtual_nodes m c s h = h
  status-InView View.token_menu m c s h = h
  status-InView View.mint_token m c s h = h
  status-InView View.authorize_token_transfer m c s h = h
  status-InView View.unauthorize_token_transfer m c s h = h
  status-InView View.transfer_token m c s h = h
  status-InView View.token_list m c s h = h
  status-InView View.burn_token m c s h = h
  status-InView View.clawback_token m c s h = h
  status-InView View.freeze_token m c s h = h
  status-InView View.unfreeze_token m c s h = h
  status-InView View.lookup_token m c s h = h

  status-IsInRange :
      (m : Model) (c : Dict AccountCredentials) (s : Status)
      → IsInRange Hidden m
      → IsInRange Hidden (record m { credential_cache = c; status_msg = s })
  unfolding IsInRange
  status-IsInRange m c s h = (h.0, status-InView m.view m c s h.1)

  pub or_status-IsSafe :
      {A : Type 0} (r : Result Status A) (m : Model) (f : A → Outcome)
      → IsAnswer r
      → IsInRange Hidden m
      → ((a : A) → r ≡ ok a → IsSafe Hidden (f a))
      → IsSafe Hidden (or_status r m f)
  unfolding IsAnswer IsSafe
  or_status-IsSafe (ok a) m f h i k = k a refl
  or_status-IsSafe (err s) m f h i k = status-IsInRange m m.credential_cache s i
  or_status-IsSafe panic m f h i k = h

  pub or_panic-IsSafe :
      {A : Type 0} (l : List A) (i : ℕ) (f : A → Outcome)
      → i < length l
      → ((a : A) → IsSafe Hidden (f a))
      → IsSafe Hidden (or_panic (at l i) f)
  or_panic-IsSafe l i f h k = let (a, e) = at-some l i h in rw e (k a)

  anyway-IsSafe :
      (r : Result Error Model) (m : Model) (f : Model → Outcome)
      → IsAnswer r
      → ((m' : Model) → r ≡ ok m' → IsSafe Hidden (f m'))
      → IsSafe Hidden (f m)
      → IsSafe Hidden (anyway r m f)
  unfolding IsAnswer
  anyway-IsSafe (ok m') m f h k i = k m' refl
  anyway-IsSafe (err e) m f h k i = i
  anyway-IsSafe panic m f h k i = absurd h

  fetched-IsSafe :
      (m m' : Model) (f : Model → Outcome)
      → Stored m m'
      → ((l : List ScalegraphId)
          → 2 ≤ length l
          → IsSafe Hidden (f (record m { cached_accounts = l; cached_tokens = [] })))
      → IsSafe Hidden (f m')
  unfolding Stored
  fetched-IsSafe m m' f (l, two, e) k = subst (λ x. IsSafe Hidden (f x)) (sym e) (k l two)

  module _ (w : World) (populated : IsPopulated w) where
    pub refresh_anyway-IsSafe :
        (m : Model) (f : Model → Outcome)
        → ((l : List ScalegraphId)
            → 2 ≤ length l
            → IsSafe Hidden (f (record m { cached_accounts = l; cached_tokens = [] })))
        → IsSafe Hidden (f m)
        → IsSafe Hidden (refresh_anyway w m f)
    refresh_anyway-IsSafe m f k i =
        anyway-IsSafe (refresh_accounts w m) m f (refresh_accounts-IsAnswer w m)
          (λ m' e. fetched-IsSafe m m' f (refresh_accounts-Stored w m m' populated e) k) i

    pub refresh_into-IsSafe :
        (m : Model) (f : Model → Model)
        → IsInRange Hidden m
        → ((l : List ScalegraphId)
            → 2 ≤ length l
            → IsInRange Hidden (f (record m { cached_accounts = l; cached_tokens = [] })))
        → IsSafe Hidden (refresh_into w m f)
    unfolding IsSafe
    refresh_into-IsSafe m f i k =
        or_status-IsSafe (map_error Status.failed (refresh_accounts w m)) m _
          (map_error-IsAnswer Status.failed _ (refresh_accounts-IsAnswer w m)) i
          λ m' e.
            fetched-IsSafe m m' (λ x. Outcome.next (f x))
              (refresh_accounts-Stored w m m' populated (map_error_ok Status.failed _ m' e)) k

  -- A signed request is sent for an account.
  pub perform-IsSafe :
      (w : World) {T A : Type 0} (bytes_of : T → Bytes) (payload : T)
      → (call : SignedEnvelope T → Result Error A) (id : ScalegraphId) (m : Model)
      → (done : A → Model → Outcome) → ((e : SignedEnvelope T) → IsAnswer (call e))
      → IsInRange Hidden m
      → ((a : A) (c : Dict AccountCredentials)
          → IsSafe Hidden (done a (record m { credential_cache = c })))
      → IsSafe Hidden (perform w bytes_of (some payload) call id m done)
  unfolding perform
  perform-IsSafe w bytes_of payload call id m done h i k =
      or_status-IsSafe (map_error Status.credentials_failed (get_credentials w id m)) m _
        (map_error-IsAnswer Status.credentials_failed _
          (OnlyCache-IsAnswer m _ (get_credentials-OnlyCache w id m)))
        i
        λ found e.
          let (c, same) =
            cache_of_ok m _ found (get_credentials-OnlyCache w id m)
              (map_error_ok Status.credentials_failed _ found e) in
          subst
            (λ m'. IsSafe Hidden (
              or_status (send_signed w bytes_of (some payload) call id found.0) m'
                λ answer. done answer m'))
            (sym same)
            (or_status-IsSafe (send_signed w bytes_of (some payload) call id found.0) _ _
              (send_signed-IsAnswer w bytes_of payload call id found.0 h)
              (status-IsInRange m c m.status_msg i) λ answer e'. k answer c)
