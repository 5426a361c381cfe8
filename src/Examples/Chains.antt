-- ===== src/Examples/Chains.antt =====
-- A blockchain (internal/scalegraph/blockchain.go) of a genesis block and one transfer.
use sg_emulator.Base.{◌≡◌, [], ◌∷◌}
use sg_emulator.Base.Int.{pos}
use sg_emulator.Transaction.{Transaction, new_transfer_transaction}
use sg_emulator.Chain.{Blockchain, new_blockchain, append, remove_latest_block}
use sg_emulator.Chain.Laws.{new_blockchain-IsChain, remove_latest_block-append}
use sg_emulator.Examples.Data.{alice_id, bob_id}

abbrev start : Blockchain
start = new_blockchain (1 ∷ [])

abbrev payment : Transaction
payment = new_transfer_transaction (9 ∷ []) alice_id bob_id (pos 5)

remove_latest_block-append_example : remove_latest_block (append (2 ∷ []) payment start) ≡ start
remove_latest_block-append_example =
    remove_latest_block-append (2 ∷ []) payment start (new_blockchain-IsChain (1 ∷ []))
