-- ===== src/Transaction.antt =====
-- Transactions (internal/scalegraph/transaction.go). A transaction points at accounts and only
-- their identifiers are ever read through it, so it holds the identifiers; nil is `none`. A
-- token in a transaction is the token as it was recorded: the code holds a pointer, which is shared
-- with the store of the token's holder, and a freeze writes the flag `frozen` through it. No code
-- that is modelled reads this flag in a transaction of a chain. An amount is a float64 (see
-- Base/Amount.antt), a nonce is a uint64.
use sg_emulator.Base.{ℕ, Option, none, some}
use sg_emulator.Base.Bytes.{Bytes}
use sg_emulator.Base.Int.{ℤ}
use sg_emulator.Id.{ScalegraphId}
use sg_emulator.Token.{Token}

pub data TransactionType : Type 0 where
  transfer mint burn mint_token burn_token transfer_token : TransactionType
  authorize_token_transfer unauthorize_token_transfer clawback_token_transfer : TransactionType
  freeze_token unfreeze_token : TransactionType

-- MintTransaction, TransferTransaction and BurnTransaction have the same fields.
pub record CurrencyTransaction : Type 0 where
  pub id : ScalegraphId
  pub sender : Option ScalegraphId
  pub receiver : Option ScalegraphId
  pub amount : ℤ

pub record MintTokenTransaction : Type 0 where
  pub id : ScalegraphId
  pub sender : Option ScalegraphId
  pub receiver : Option ScalegraphId
  pub token : Token

-- AuthorizeTokenTransferTransaction and UnauthorizeTokenTransferTransaction: the sender is the
-- authorizer (the future receiver of the token), the receiver is the token's owner. The fields of
-- FreezeTokenTransaction and UnfreezeTokenTransaction are these too: the sender is the freeze
-- authority, the receiver is the holder.
pub record SlotTransaction : Type 0 where
  pub id : ScalegraphId
  pub sender : Option ScalegraphId
  pub receiver : Option ScalegraphId
  pub token_id : Bytes
  pub nonce : ℕ

-- TransferTokenTransaction, and ClawbackTokenTransaction (`from` is the sender, `to` the receiver).
pub record TokenTransaction : Type 0 where
  pub id : ScalegraphId
  pub sender : Option ScalegraphId
  pub receiver : Option ScalegraphId
  pub token : Token
  pub nonce : ℕ

pub record BurnTokenTransaction : Type 0 where
  pub id : ScalegraphId
  pub account_id : Option ScalegraphId
  pub token_id : Bytes
  pub nonce : ℕ

-- The implementations of `ITransaction`.
pub data Transaction : Type 0 where
  mint transfer burn : CurrencyTransaction → Transaction
  mint_token : MintTokenTransaction → Transaction
  transfer_token clawback_token : TokenTransaction → Transaction
  authorize_token_transfer unauthorize_token_transfer : SlotTransaction → Transaction
  burn_token : BurnTokenTransaction → Transaction
  freeze_token unfreeze_token : SlotTransaction → Transaction

unfoldable pub transaction_id : Transaction → ScalegraphId
transaction_id (Transaction.mint t) = t.id
transaction_id (Transaction.transfer t) = t.id
transaction_id (Transaction.burn t) = t.id
transaction_id (Transaction.mint_token t) = t.id
transaction_id (Transaction.transfer_token t) = t.id
transaction_id (Transaction.clawback_token t) = t.id
transaction_id (Transaction.authorize_token_transfer t) = t.id
transaction_id (Transaction.unauthorize_token_transfer t) = t.id
transaction_id (Transaction.burn_token t) = t.id
transaction_id (Transaction.freeze_token t) = t.id
transaction_id (Transaction.unfreeze_token t) = t.id

-- `Type()`
unfoldable pub transaction_type : Transaction → TransactionType
transaction_type (Transaction.mint t) = TransactionType.mint
transaction_type (Transaction.transfer t) = TransactionType.transfer
transaction_type (Transaction.burn t) = TransactionType.burn
transaction_type (Transaction.mint_token t) = TransactionType.mint_token
transaction_type (Transaction.transfer_token t) = TransactionType.transfer_token
transaction_type (Transaction.clawback_token t) = TransactionType.clawback_token_transfer
transaction_type (Transaction.authorize_token_transfer t) = TransactionType.authorize_token_transfer
transaction_type (Transaction.unauthorize_token_transfer t) =
    TransactionType.unauthorize_token_transfer
transaction_type (Transaction.burn_token t) = TransactionType.burn_token
transaction_type (Transaction.freeze_token t) = TransactionType.freeze_token
transaction_type (Transaction.unfreeze_token t) = TransactionType.unfreeze_token

unfoldable pub sender : Transaction → Option ScalegraphId
sender (Transaction.mint t) = t.sender
sender (Transaction.transfer t) = t.sender
sender (Transaction.burn t) = t.sender
sender (Transaction.mint_token t) = t.sender
sender (Transaction.transfer_token t) = t.sender
sender (Transaction.clawback_token t) = t.sender
sender (Transaction.authorize_token_transfer t) = t.sender
sender (Transaction.unauthorize_token_transfer t) = t.sender
sender (Transaction.burn_token t) = t.account_id
sender (Transaction.freeze_token t) = t.sender
sender (Transaction.unfreeze_token t) = t.sender

unfoldable pub receiver : Transaction → Option ScalegraphId
receiver (Transaction.mint t) = t.receiver
receiver (Transaction.transfer t) = t.receiver
receiver (Transaction.burn t) = t.receiver
receiver (Transaction.mint_token t) = t.receiver
receiver (Transaction.transfer_token t) = t.receiver
receiver (Transaction.clawback_token t) = t.receiver
receiver (Transaction.authorize_token_transfer t) = t.receiver
receiver (Transaction.unauthorize_token_transfer t) = t.receiver
receiver (Transaction.burn_token t) = none
receiver (Transaction.freeze_token t) = t.receiver
receiver (Transaction.unfreeze_token t) = t.receiver

-- `newMintTransaction` and `newBurnTransaction`: no sender.
abbrev pub new_mint_transaction : ScalegraphId → ScalegraphId → ℤ → Transaction
new_mint_transaction id to amount =
    Transaction.mint (record { id = id; sender = none; receiver = some to; amount = amount })

abbrev pub new_burn_transaction : ScalegraphId → ScalegraphId → ℤ → Transaction
new_burn_transaction id from amount =
    Transaction.burn (record { id = id; sender = none; receiver = some from; amount = amount })

abbrev pub new_transfer_transaction : ScalegraphId → ScalegraphId → ScalegraphId → ℤ → Transaction
new_transfer_transaction id from to amount =
    Transaction.transfer
      (record { id = id; sender = some from; receiver = some to; amount = amount })

abbrev pub new_mint_token_transaction : ScalegraphId → ScalegraphId → Token → Transaction
new_mint_token_transaction id to token =
    Transaction.mint_token (record { id = id; sender = none; receiver = some to; token = token })

abbrev pub new_token_transaction :
    ScalegraphId → ScalegraphId → ScalegraphId → Token → ℕ → TokenTransaction
new_token_transaction id from to token nonce = record {
  id = id;
  sender = some from;
  receiver = some to;
  token = token;
  nonce = nonce;
}

abbrev pub new_slot_transaction :
    ScalegraphId → ScalegraphId → ScalegraphId → Bytes → ℕ → SlotTransaction
new_slot_transaction id from to token_id nonce = record {
  id = id;
  sender = some from;
  receiver = some to;
  token_id = token_id;
  nonce = nonce;
}

abbrev pub new_burn_token_transaction : ScalegraphId → ScalegraphId → Bytes → ℕ → Transaction
new_burn_token_transaction id account token_id nonce =
    Transaction.burn_token
      (record { id = id; account_id = some account; token_id = token_id; nonce = nonce })
