-- ===== src/Chain.antt =====
-- An account's blockchain (internal/scalegraph/block.go and blockchain.go). A block is immutable
-- and owns the chain below it. The identifier of a new block is drawn at random, so it is an
-- argument.
pub mod Laws
use sg_emulator.Base.{
  ℕ, suc, ◌+◌, ◌-◌, Option, none, some, List, [], ◌∷◌, reverse, leb, if◌then◌else◌,
}
use sg_emulator.Id.{ScalegraphId}
use sg_emulator.Transaction.{Transaction}

-- `genesis id` is a block with no previous block and no transaction.
pub data Block : Type 0 where
  genesis : ScalegraphId → Block
  block : ScalegraphId → Block → Transaction → Block

abbrev pub new_block : Block → ScalegraphId → Transaction → Block
new_block prev id trx = block id prev trx

unfoldable pub block_id : Block → ScalegraphId
block_id (genesis id) = id
block_id (block id prev trx) = id

unfoldable pub prev_block : Block → Option Block
prev_block (genesis id) = none
prev_block (block id prev trx) = some prev

unfoldable pub block_transaction : Block → Option Transaction
block_transaction (genesis id) = none
block_transaction (block id prev trx) = some trx

pub record Blockchain : Type 0 where
  pub head : Block
  pub tail : Block
  pub length : ℕ

unfoldable pub new_blockchain : ScalegraphId → Blockchain
new_blockchain id = record { head = genesis id; tail = genesis id; length = 1 }

unfoldable pub append : ScalegraphId → Transaction → Blockchain → Blockchain
append id trx bc = record bc { tail = new_block bc.tail id trx; length = bc.length + 1 }

-- The assignment `bc.tail = bc.tail.PrevBlock()`: a nil tail would be met only below the genesis
-- block, which the test on the length keeps; the model leaves the tail as it is there.
abbrev pub previous_or : Block → Option Block → Block
previous_or b none = b
previous_or b (some prev) = prev

unfoldable pub remove_latest_block : Blockchain → Blockchain
unfolding prev_block
remove_latest_block bc =
    if leb bc.length 1
    then bc
    else record bc { tail = previous_or bc.tail (prev_block bc.tail); length = bc.length - 1 }

-- The blocks from this one back to the genesis block.
unfoldable pub walk : Block → List Block
walk (genesis id) = genesis id ∷ []
walk (block id prev trx) = block id prev trx ∷ walk prev

unfoldable pub get_blocks : Blockchain → List Block
get_blocks bc = reverse (walk bc.tail)
