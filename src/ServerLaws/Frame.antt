-- ===== src/ServerLaws/Frame.antt =====
-- A request (internal/server/server.go) leaves the accounts that it does not name as they are. The
-- tokens in recorded transactions are apart from this: in the code they are pointers, which a
-- freeze writes through (see Lib.antt).
use sg_emulator.Base.{⊤, ℕ, ◌≡◌, refl, ap, false, Option, none, some, List, map}
use sg_emulator.Base.Int.{ℤ}
use sg_emulator.Base.Bytes.{Bytes, bytes_eq}
use sg_emulator.Base.Dict.{Dict, lookup}
use sg_emulator.Base.Action.{ok}
use sg_emulator.Errors.{certificate_nil}
use sg_emulator.Id.{ScalegraphId, from_string}
use sg_emulator.Token.{Token}
use sg_emulator.Transaction.{Transaction, transaction_id}
use sg_emulator.Chain.{block_id, block_transaction, get_blocks}
use sg_emulator.Account.{Account}
use sg_emulator.Requests.{SignedEnvelope, MintTokenPayload}
use sg_emulator.App.{App}
use sg_emulator.Server.{
  Request, Environment, Draw, handler, handle_create_account, handle_request, verify,
}
use sg_emulator.AppLaws.Preserves.{Preserves, rules, bind-Preserves, or_fail_then-Preserves}
use sg_emulator.AppLaws.Frame
use sg_emulator.AppLaws.Frame.{HasEntry}
use sg_emulator.VerifyLaws.ReadOnly.{
  get_account-Preserves, get_accounts-Preserves, account_count-Preserves, lookup_token-Preserves,
}
use sg_emulator.ServerLaws.ReadOnly.{verify-Preserves}

abbrev pub recorded_id : Option Transaction → Option ScalegraphId
recorded_id none = none
recorded_id (some t) = some (transaction_id t)

-- What an account has of its own: all its fields, of its chain the length and the identifiers of the
-- blocks and of the transactions in them.
pub record Ledger : Type 0 where
  pub id : ScalegraphId
  pub balance : ℤ
  pub mbr : ℤ
  pub valuestore : Dict Bytes
  pub public_key : Bytes
  pub certificate : Option Bytes
  pub token_store : Dict Token
  pub outgoing_tx_count : ℕ
  pub chain_length : ℕ
  pub recorded : List (ScalegraphId × Option ScalegraphId)

abbrev pub ledger : Account → Ledger
ledger a = record {
  id = a.id;
  balance = a.balance;
  mbr = a.mbr;
  valuestore = a.valuestore;
  public_key = a.public_key;
  certificate = a.certificate;
  token_store = a.token_store;
  outgoing_tx_count = a.outgoing_tx_count;
  chain_length = a.blockchain.length;
  recorded = map (λ b. (block_id b, recorded_id (block_transaction b))) (get_blocks a.blockchain);
}

-- The account under an identifier, if there is one.
abbrev pub ledger_of : Option Account → Option Ledger
ledger_of none = none
ledger_of (some a) = some (ledger a)

module _ (env : Environment) (draw : Draw) (k : ScalegraphId) where
  abbrev IsOther : ScalegraphId → Type 0
  IsOther id = bytes_eq id k ≡ false

  -- The account that a request would create is another one.
  abbrev CreatesOther : Type 0
  CreatesOther =
      (c : Bytes × Bytes) → draw.credentials ≡ some c → IsOther (env.crypto.derive_account_id c.0)

  -- None of the accounts that a request names is `k`.
  abbrev pub Untouched : Request → Type 0
  Untouched (Request.authorize_token_transfer r) = IsOther r.account_id × IsOther r.token_owner_id
  Untouched (Request.unauthorize_token_transfer r) = IsOther r.account_id × IsOther r.token_owner_id
  Untouched (Request.transfer_token r) = IsOther r.from × IsOther r.to
  Untouched (Request.clawback_token r) = IsOther r.from × IsOther r.to
  Untouched (Request.freeze_token r) = IsOther r.freeze_authority × IsOther r.token_holder
  Untouched (Request.unfreeze_token r) = IsOther r.freeze_authority × IsOther r.token_holder
  Untouched (Request.transfer r) = IsOther r.from × IsOther r.to
  Untouched (Request.mint r) = IsOther r.to
  Untouched (Request.admin_mint r) = IsOther r.to
  Untouched (Request.burn_token r) = IsOther r.account_id
  Untouched (Request.mint_token r) =
      (e : SignedEnvelope MintTokenPayload) (id : ScalegraphId)
      → r.signed_envelope ≡ some e
      → from_string e.signature.signer_id ≡ ok id
      → IsOther id
  Untouched (Request.create_account r) = CreatesOther
  Untouched (Request.admin_create_account b) = CreatesOther
  Untouched Request.account_count = ⊤
  Untouched (Request.get_account r) = ⊤
  Untouched Request.get_accounts = ⊤
  Untouched (Request.lookup_token r) = ⊤
  Untouched Request.other = ⊤

  module _ (o : Option Account) where
    create_account-HasEntry :
        (b : ℤ) → CreatesOther → Preserves (HasEntry k o) (handle_create_account env draw b)
    unfolding handle_create_account
    create_account-HasEntry b other =
        or_fail_then-Preserves (HasEntry k o) draw.credentials certificate_nil _
          λ c is. search (rules, Frame.create_account_with_keys-HasEntry, other c is)

    handler-HasEntry : (r : Request) → Untouched r → Preserves (HasEntry k o) (handler env draw r)
    unfolding handler
    handler-HasEntry (Request.authorize_token_transfer r) (n1, n2) =
        search (rules, Frame.authorize_token_transfer-HasEntry)
    handler-HasEntry (Request.unauthorize_token_transfer r) (n1, n2) =
        search (rules, Frame.unauthorize_token_transfer-HasEntry)
    handler-HasEntry (Request.transfer_token r) (n1, n2) =
        search (rules, Frame.transfer_token-HasEntry)
    handler-HasEntry (Request.clawback_token r) (n1, n2) =
        search (rules, Frame.clawback_token-HasEntry)
    handler-HasEntry (Request.freeze_token r) (n1, n2) = search (rules, Frame.freeze_token-HasEntry)
    handler-HasEntry (Request.unfreeze_token r) (n1, n2) =
        search (rules, Frame.unfreeze_token-HasEntry)
    handler-HasEntry (Request.transfer r) (n1, n2) = search (rules, Frame.transfer-HasEntry)
    handler-HasEntry (Request.mint r) n = search (rules, Frame.mint-HasEntry)
    handler-HasEntry (Request.admin_mint r) n = search (rules, Frame.mint-HasEntry)
    handler-HasEntry (Request.burn_token r) n = search (rules, Frame.burn_token-HasEntry)
    handler-HasEntry (Request.mint_token r) n =
        search (rules, Frame.mint_token-HasEntry k o draw.ids r n)
    handler-HasEntry (Request.create_account r) n = create_account-HasEntry r.initial_balance n
    handler-HasEntry (Request.admin_create_account b) n = create_account-HasEntry b n
    handler-HasEntry Request.account_count n = search (rules, account_count-Preserves)
    handler-HasEntry (Request.get_account r) n = search (rules, get_account-Preserves)
    handler-HasEntry Request.get_accounts n = search (rules, get_accounts-Preserves)
    handler-HasEntry (Request.lookup_token r) n = search (rules, lookup_token-Preserves)
    handler-HasEntry Request.other n = search rules

    handle_request-HasEntry :
        (r : Request) → Untouched r → Preserves (HasEntry k o) (handle_request env draw r)
    unfolding handle_request
    handle_request-HasEntry r n =
        bind-Preserves (HasEntry k o) (verify env draw r) (λ u. handler env draw r)
          (verify-Preserves env draw (HasEntry k o) r) (λ u. handler-HasEntry r n)

  -- A request, whatever becomes of it, leaves every account that it does not name as it was: its
  -- identity, balance, requirement, tokens, count and values, and the identifiers of its blocks and
  -- transactions. A request names the two parties of a transfer or a token operation, the receiver
  -- of money, the signer of a new token, or the account that is created. Nothing is said of the
  -- tokens inside recorded transactions.
  pub lookup-handle_request :
      (r : Request) (app : App)
      → Untouched r
      → ledger_of (lookup k (handle_request env draw r app).1.accounts)
        ≡ ledger_of (lookup k app.accounts)
  lookup-handle_request r app n =
      ap ledger_of ((handle_request-HasEntry (lookup k app.accounts) r n).apply app refl)
