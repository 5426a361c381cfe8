-- ===== src/Chain/Laws.antt =====
-- The blockchain (internal/scalegraph/blockchain.go): the cached length and the head agree with the
-- linked list, and removing the latest block undoes appending one.
use mathlib.Core.List.{reverse-cons}
use sg_emulator.Base.{
  ℕ, ◌<◌, ◌≡◌, refl, ap, List, [], ◌∷◌, ◌++◌, reverse, length, length-append, arith,
}
use sg_emulator.Id.{ScalegraphId}
use sg_emulator.Transaction.{Transaction}
use sg_emulator.Chain.{
  Block, genesis, block, Blockchain, new_blockchain, append, remove_latest_block, walk, get_blocks,
}

pub root : Block → Block
root (genesis id) = genesis id
root (block id prev trx) = root prev

-- The head is the genesis block that the tail leads back to, and the length counts the blocks.
pub record IsChain (bc : Blockchain) : Type 0 where
  pub headed : root bc.tail ≡ bc.head
  pub counted : length (walk bc.tail) ≡ bc.length

length-reverse {ℓ} : {A : Type ℓ} (xs : List A) → length (reverse xs) ≡ length xs
length-reverse [] = refl
length-reverse (x ∷ xs) =
    omega
      (arith, ap length (reverse-cons x xs), length-append (reverse xs) (x ∷ []), length-reverse xs)

walk_pos : (b : Block) → 0 < length (walk b)
unfolding walk
walk_pos (genesis id) = omega arith
walk_pos (block id prev trx) = omega arith

-- A new chain holds one block, the genesis block, and is well formed.
pub new_blockchain-IsChain : (id : ScalegraphId) → IsChain (new_blockchain id)
unfolding new_blockchain root walk
new_blockchain-IsChain id = record { headed = refl; counted = refl }

-- Appending a transaction keeps a chain well formed.
pub append-IsChain :
    (id : ScalegraphId) (trx : Transaction) (bc : Blockchain)
    → IsChain bc
    → IsChain (append id trx bc)
unfolding append root walk
append-IsChain id trx bc v = ground arith

remove-IsChain :
    (head tail : Block) (length : ℕ)
    → IsChain (record { head = head; tail = tail; length = length })
    → IsChain (remove_latest_block (record { head = head; tail = tail; length = length }))
unfolding remove_latest_block root walk
remove-IsChain head (genesis id) length v = ground arith
remove-IsChain head (block id prev trx) length v = ground arith

-- Removing the latest block keeps a chain well formed, also when only the genesis block is left.
pub remove_latest_block-IsChain : (bc : Blockchain) → IsChain bc → IsChain (remove_latest_block bc)
remove_latest_block-IsChain bc v = remove-IsChain bc.head bc.tail bc.length v

-- Of a well-formed chain, `GetBlocks` lists as many blocks as `Len` says.
length-get_blocks : (bc : Blockchain) → IsChain bc → length (get_blocks bc) ≡ bc.length
unfolding get_blocks
length-get_blocks bc v = omega (arith, length-reverse (walk bc.tail), v.counted)

-- Appending adds the new block, which points to the old tail, at the end of what `GetBlocks` lists.
pub get_blocks-append :
    (id : ScalegraphId) (trx : Transaction) (bc : Blockchain)
    → get_blocks (append id trx bc) ≡ get_blocks bc ++ block id bc.tail trx ∷ []
unfolding get_blocks append walk
get_blocks-append id trx bc = reverse-cons (block id bc.tail trx) (walk bc.tail)

-- Removing the latest block of a well-formed chain right after an append restores the chain.
pub remove_latest_block-append :
    (id : ScalegraphId) (trx : Transaction) (bc : Blockchain)
    → IsChain bc
    → remove_latest_block (append id trx bc) ≡ bc
unfolding append remove_latest_block
remove_latest_block-append id trx bc v = ground (arith, walk_pos bc.tail)
