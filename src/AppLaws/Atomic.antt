-- ===== src/AppLaws/Atomic.antt =====
-- The token operations on two accounts (TransferToken, ClawbackToken, FreezeToken and UnfreezeToken
-- of internal/scalegraph/app.go) when they return an error.
use sg_emulator.Base.{⊤, ◌≡◌, refl, sym, subst, Bool, true, false, Option, none, some, arith}
use sg_emulator.Base.Bytes.{bytes_eq_refl}
use sg_emulator.Base.Dict.{lookup}
use sg_emulator.Base.Action.{Result, ok, err, panic, after, ◌>>=◌, ◌>>◌, or_fail, or_crash, fail_if}
use sg_emulator.Errors.{
  Error, nonce_mismatch, not_freeze_authority, token_not_found, freeze_authority_not_found,
  token_holder_not_found, source_not_found, destination_not_found, clawback_address_mismatch,
}
use sg_emulator.Id.{ScalegraphId}
use sg_emulator.Transaction.{Transaction}
use sg_emulator.Account.{Account, get_token, is_self, mbr_freeze_cost, mbr_unfreeze_cost}
use sg_emulator.AccountLaws.Reversal.{IsRevertible, AddsExactly, TakesExactly}
use sg_emulator.Requests.{TokenRequest, FreezeRequest}
use sg_emulator.App.{
  App, Ids, Operation, find_account, append_both, transfer_token, clawback_token, freeze_token,
  unfreeze_token,
}
use sg_emulator.AppLaws.Keyed.{AllKeyed, get_token_keyed}
use sg_emulator.AppLaws.Sound.{AllSound}
use sg_emulator.AppLaws.TwoSided.{SameApp, SameApp-refl, append_both-SameApp}

-- An operation whose errors leave the accounts as they were.
pub record IsAtomic (app : App) (m : Operation ⊤) : Type 0 where
  pub unchanged : (e : Error) → (m app).0 ≡ err e → SameApp app (m app).1

module _ (app : App) where
  after_read :
      {A : Type 0} (r : Result Error A × App) (f : A → Operation ⊤)
      → r.1 ≡ app
      → ((x : A) → r.0 ≡ ok x → IsAtomic app (f x))
      → (e : Error) → (after r f).0 ≡ err e
      → SameApp app (after r f).1
  after_read (ok x, app') f same h e q =
      subst (λ a. (f x a).0 ≡ err e → SameApp app (f x a).1) (sym same) ((h x refl).unchanged e) q
  after_read (err e', app') f same h e q = rw same (SameApp-refl app)
  after_read (panic, app') f same h e q = rw same (SameApp-refl app)

  read_then :
      {A : Type 0} (m : Operation A) (f : A → Operation ⊤)
      → (m app).1 ≡ app
      → ((x : A) → (m app).0 ≡ ok x → IsAtomic app (f x))
      → IsAtomic app (m >>= f)
  read_then m f same h = record { unchanged = after_read (m app) f same h }

  require :
      {B : Type 0} (o : Option B) (x : Error) (f : B → Operation ⊤)
      → ((b : B) → o ≡ some b → IsAtomic app (f b))
      → IsAtomic app (or_fail o x >>= f)
  require none x f h = read_then (or_fail none x) f refl λ b q. cc
  require (some b) x f h = read_then (or_fail (some b) x) f refl λ c q. h c (ground arith)

  pointer :
      {B : Type 0} (o : Option B) (f : B → Operation ⊤)
      → ((b : B) → o ≡ some b → IsAtomic app (f b))
      → IsAtomic app (or_crash o >>= f)
  pointer none f h = read_then (or_crash none) f refl λ b q. cc
  pointer (some b) f h = read_then (or_crash (some b)) f refl λ c q. h c (ground arith)

  account :
      (id : ScalegraphId) (x : Error) (f : Account → Operation ⊤)
      → ((a : Account) → lookup id app.accounts ≡ some a → IsAtomic app (f a))
      → IsAtomic app (find_account id x >>= f)
  account id x f h = record { unchanged = (require (lookup id app.accounts) x f h).unchanged }

  check :
      (c : Bool) (x : Error) (k : Operation ⊤) → IsAtomic app k → IsAtomic app (fail_if c x >> k)
  check true x k h = read_then (fail_if true x) _ refl λ u q. h
  check false x k h = read_then (fail_if false x) _ refl λ u q. h

module _ (ids : Ids) (app : App) (sound : AllSound app) where
  tail :
      (first second : ScalegraphId) (trx : Transaction) (f : Account)
      → lookup first app.accounts ≡ some f
      → IsRevertible trx f
      → IsAtomic app (append_both ids first second trx)
  tail first second trx f found rev = record {
    unchanged = append_both-SameApp ids first second trx app f sound found rev;
  }

  -- On a sound application, if a freeze returns an error, no account has changed: the authority's
  -- balance requirement and count are as they were, also when the holder refuses after the
  -- authority has accepted; provided that rounding leaves the authority's requirement as it was
  -- when the cost of a freeze is added to it and subtracted again.
  pub freeze_token-IsAtomic :
      (req : FreezeRequest)
      → ((a : Account)
          → lookup req.freeze_authority app.accounts ≡ some a
          → AddsExactly a.mbr mbr_freeze_cost)
      → IsAtomic app (freeze_token ids req)
  unfolding freeze_token
  freeze_token-IsAtomic req exact =
      account app req.freeze_authority freeze_authority_not_found _ λ authority found.
        account app req.token_holder token_holder_not_found _ λ holder found2.
          require app (get_token req.token_id holder) token_not_found _ λ token has.
            require app token.freeze_address not_freeze_authority _ λ address is.
              check app _ not_freeze_authority _ (
                check app _ nonce_mismatch _
                  (tail _ _ _ authority found (λ me. exact authority found)))

  -- On a sound application, if an unfreeze returns an error, no account has changed, though its
  -- authority may have accepted before the holder refused; provided that rounding leaves the
  -- authority's requirement as it was when the cost is subtracted from it and added again.
  pub unfreeze_token-IsAtomic :
      (req : FreezeRequest)
      → ((a : Account)
          → lookup req.freeze_authority app.accounts ≡ some a
          → TakesExactly a.mbr mbr_unfreeze_cost)
      → IsAtomic app (unfreeze_token ids req)
  unfolding unfreeze_token
  unfreeze_token-IsAtomic req exact =
      account app req.freeze_authority freeze_authority_not_found _ λ authority found.
        account app req.token_holder token_holder_not_found _ λ holder found2.
          require app (get_token req.token_id holder) token_not_found _ λ token has.
            require app token.freeze_address not_freeze_authority _ λ address is.
              check app _ not_freeze_authority _ (
                check app _ nonce_mismatch _
                  (tail _ _ _ authority found (λ me. exact authority found)))

  module _ (all_keyed : AllKeyed app) where
    own : (f : Account) → is_self (some f.id) f ≡ true
    own f = bytes_eq_refl f.id

    -- On a sound application, if a transfer of a token returns an error, no account has changed,
    -- where every token is kept under its own identifier, also when the sender has accepted before
    -- the receiver refused.
    pub transfer_token-IsAtomic : (req : TokenRequest) → IsAtomic app (transfer_token ids req)
    unfolding transfer_token
    transfer_token-IsAtomic req = account app req.from source_not_found _ λ from_acc found.
        account app req.to destination_not_found _ λ to_acc found2.
          require app (get_token req.token_id from_acc) token_not_found _ λ token has.
            check app _ nonce_mismatch _ (
              tail _ _ _ from_acc found (
                own from_acc,
                get_token_keyed req.token_id from_acc token (all_keyed req.from from_acc found) has,
              ))

    -- On a sound application, if a clawback returns an error, no account has changed, where every
    -- token is kept under its own identifier, also when the holder has given the token away before
    -- the authority refused it.
    pub clawback_token-IsAtomic : (req : TokenRequest) → IsAtomic app (clawback_token ids req)
    unfolding clawback_token
    clawback_token-IsAtomic req = account app req.from source_not_found _ λ from_acc found.
        account app req.to destination_not_found _ λ to_acc found2.
          require app (get_token req.token_id from_acc) token_not_found _ λ token has.
            pointer app token.clawback_address _ λ address is.
              check app _ clawback_address_mismatch _ (
                check app _ nonce_mismatch _ (
                  tail _ _ _ from_acc found (
                    rw (own from_acc) (
                      get_token_keyed req.token_id from_acc token
                        (all_keyed req.from from_acc found) has))))
