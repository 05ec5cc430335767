-- ===== src/Lib.antt =====
-- go-pandora-pay: the blocks and transactions as bytes, and the storage of the accounts.
--
-- The program keeps its state in maps over a key-value store. An element is written by its Serialize
-- to a buffer and read by its Deserialize; a map keeps uncommitted changes over committed elements over
-- a transaction of the store, and writes them out by CommitChanges.
--
-- - Prelude: the shared tests, lists over the native numbers, bits, results, maps keyed by byte strings,
--   and decimal numbers. `Result` is an outcome with an error or a panic of Go.
-- - SafeMath: helpers/safe_uint64.go and config/config_coins/coins.go. A uint64 is a number with
--   its wrap-around written out.
-- - Buffers: helpers/advanced_buffers. A reader holds its slice, the bytes of the array behind the slice
--   up to its capacity, and its position. Framing and Written say what bytes a read takes and a write
--   appends, and RoundTrip puts the two together. The loop of PutUvarint has ten rounds, enough for a
--   uint64; the loop of ReadUvarint recurs on the bytes.
-- - Liquidity: blockchain/data_storage/plain_accounts/plain_account/asset_fee_liquidity. Update has the
--   list as a finite map, Encoding its bytes.
-- - PlainAccount: plain_account.go beside it.
-- - HashMap: store/hash_map. Store has the transaction of store/store_db/store_db_interface as what each
--   key holds, Types and Element the element's interface as a record, Ops the operations and Commit the
--   commit and the creation of a map. View has what Get answers, Rollback the steps of a map and their
--   undoing, Keys to Durable the rounds and loops of a commit, Persist and WellFormed the whole commit,
--   Recreated a map made again, Success when a commit goes through, and Reachable what every sequence
--   of operations keeps.
-- - MemoryStore: store/store_db/store_db_memory, a transaction as what it keeps beside the store. Views
--   has it as the transaction that HashMap uses, and Updates the whole of Update.
-- - PendingStakes: blockchain/data_storage/pending_stakes_list, with the map of the stakes as a kind of
--   HashMap. Registration, Asset and ConditionalPayment: registration.go, asset.go and
--   conditional_payment.go of blockchain/data_storage. Their Encoding modules have the bytes, and
--   Asset/Supply the supply.
-- - LinkedList: helpers/linked_list. The sort runs on fuel, of which the length of the list is enough.
-- - ContainerList: helpers/container_list, under its lock.
-- - PlainAccounts: blockchain/data_storage/plain_accounts/plain_accounts.go, the map of the accounts as
--   a kind of HashMap.
-- - Kernel: ComputeKernelHash of cryptography/crypto.go and blockchain/blocks/block/difficulty.
-- - Block: blockchain/blocks/block. Encoding has the bytes, Blooming what a bloom says of its block, and
--   Signing what the two hashes bind.
-- - MerkleTree: cryptography/merkle_tree. Rounding has the power of two, Levels the loop, Root the root
--   by pairs, and Binding what a root tells of the list. The logarithm takes as many rounds as its
--   number, which is enough.
-- - TransactionSimple: blockchain/transactions/transaction/transaction_simple. Write and Read have the two
--   directions, Encoding, Layout and RoundTrip put them together, and Valid says what Validate passes.
-- - Transaction: transaction.go and transaction_bloom.go of blockchain/transactions/transaction, over
--   TransactionBaseInterface, which Base has as a record. Its zether implementation is a parameter.
-- - BlockComplete: blockchain/blocks/block_complete. Read has Deserialize, Encoding the bytes, Merkle what
--   BloomNow finds, Binding what a Merkle hash tells of the transactions, and Fees their sum.
-- - Address: addresses/address.go. Flags has the bits of IntegrationBytes, Encoding the bytes of an
--   address before its code, and RoundTrip the two directions of the text.
-- - TxsValidator: the worker of txs_validator.
--
-- A block and a transaction are read from a buffer, which leaves them a bloom with their bytes and
-- hash; BloomAll makes what is missing of it, and Verify asks for it. The worker of the validator
-- blooms a transaction and verifies its signatures.
--
-- Go's maps are association lists whose order is arbitrary. Elements are values: code that changes an
-- element behind the pointer that Get gave, with no Update, is not modelled. Events of a map are
-- functions on the transaction. Not modelled are the size bookkeeping of store/hash_map (changesSize),
-- GetRandom, store_hash_map_transitions.go, the backends of the store, floats, the big numbers of buffers
-- and curve points, zether transactions, the chain of the blocks, mempool, wallet and network. SHA3 and the
-- signatures, which libraries compute, are parameters: where a theorem speaks of two texts with one
-- hash, the hash function is any.
pub mod Prelude
pub mod SafeMath
pub mod Transaction
pub mod TransactionSimple
pub mod TxsValidator
pub mod Buffers
pub mod Liquidity
pub mod PlainAccount
pub mod PlainAccounts
pub mod HashMap
pub mod MemoryStore
pub mod MerkleTree
pub mod PendingStakes
pub mod Registration
pub mod Address
pub mod Asset
pub mod Block
pub mod BlockComplete
pub mod Kernel
pub mod ConditionalPayment
pub mod ContainerList
pub mod LinkedList
