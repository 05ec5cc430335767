-- ===== src/BlockComplete.antt =====
-- blockchain/blocks/block_complete: a block with its transactions, their Merkle root, their fees, their
-- bytes and the bloom of the whole.
pub mod Read
pub mod Encoding
pub mod Merkle
pub mod Binding
pub mod Fees
mod Tests
use go_pandora_pay.Prelude.{
  ℕ, zero, suc, ◌*◌, Bool, true, false, not, ◌||◌, Option, none, some, List, [], ◌∷◌, length, ltb,
  ◌==◌, bytes_equal, if◌then◌else◌,
}
use go_pandora_pay.Prelude.Result.{Result, ok, err, panic, fail_if, ◌>>=◌, ◌>>◌, wrap}
use go_pandora_pay.SafeMath.{MathError, safe_uint64_add}
use go_pandora_pay.Buffers.{BufferWriter, write, write_uvarint, bytes, new_buffer_writer}
use go_pandora_pay.Block.{Block, BlockError, create_empty_block}
use go_pandora_pay.Block
use go_pandora_pay.MerkleTree.{Node, NoError, merkle_root}
use go_pandora_pay.TransactionSimple.{TxError}
use go_pandora_pay.Transaction.{Transaction, AnyBase, simple, zether}
use go_pandora_pay.Transaction
use go_pandora_pay.Transaction.Base.{TransactionBaseInterface, simple_base}

pub data CompleteError : Type 0 where
  merkle_failed not_bloomed serialized_not_read size_not_bloomed : CompleteError
  tx_error : TxError → CompleteError
  block_error : BlockError → CompleteError
  math_error : MathError → CompleteError

-- config.BLOCK_MAX_SIZE
abbrev pub block_max_size : ℕ
block_max_size = 1024 * 1024

pub record BlockCompleteBloom : Type 0 where
  -- `none` is nil
  pub serialized : Option (List ℕ)
  pub size : ℕ
  pub merkle_tree_verified : Bool
  pub bloomed_size : Bool
  pub bloomed_merkle_tree_verified : Bool

pub record BlockComplete (Z : Type 0) : Type 0 where
  pub block : Block
  pub txs : List (Transaction Z)
  -- `none` is nil
  pub bloom : Option BlockCompleteBloom

-- `new(BlockCompleteBloom)`
unfoldable pub new_bloom : BlockCompleteBloom
new_bloom = record {
  serialized = none;
  size = 0;
  merkle_tree_verified = false;
  bloomed_size = false;
  bloomed_merkle_tree_verified = false;
}

abbrev pub no_error : NoError → CompleteError
no_error e = elim e [ ]

-- A nil hash is the empty slice.
abbrev pub node_bytes : Node → List ℕ
node_bytes none = []
node_bytes (some hash) = hash

abbrev pub is_nil : Option (List ℕ) → Bool
is_nil none = true
is_nil (some bytes) = false

module _ {Z : Type 0} (interface : TransactionBaseInterface Z) (sha3 : List ℕ → List ℕ) where
  unfoldable pub create_empty_block_complete : BlockComplete Z
  create_empty_block_complete = record { block = create_empty_block; txs = []; bloom = none }

  -- `hashes[i] = tx.Bloom.Hash`, a nil pointer without a bloom
  unfoldable pub tx_hashes : List (Transaction Z) → Result CompleteError (List (List ℕ))
  tx_hashes [] = ok []
  tx_hashes (tx ∷ txs) =
      let rest = tx_hashes txs in
      elim tx.bloom [ none ↦ panic | some bloom ↦ rest >>= λ hashes. ok (bloom.hash ∷ hashes) ]

  unfoldable pub root_bytes : List (List ℕ) → Result CompleteError (List ℕ)
  unfolding merkle_root
  root_bytes hashes = wrap no_error (merkle_root sha3 hashes) >>= λ node. ok (node_bytes node)

  unfoldable pub merkle_hash : BlockComplete Z → Result CompleteError (List ℕ)
  unfolding tx_hashes root_bytes
  merkle_hash blk =
      if ltb 0 (length blk.txs)
      then (tx_hashes blk.txs >>= λ hashes. root_bytes hashes)
      else ok (sha3 [])

  -- ComputeFee of the value behind the interface
  abbrev pub compute_fee : AnyBase Z → Result TxError ℕ
  compute_fee (simple tx) = simple_base.compute_fee tx
  compute_fee (zether tx) = interface.compute_fee tx

  -- The loop of ComputeFees over the fees so far
  unfoldable pub add_fees : ℕ → List (Transaction Z) → Result CompleteError ℕ
  add_fees final_fees [] = ok final_fees
  add_fees final_fees (tx ∷ txs) = wrap tx_error (compute_fee tx.base) >>= λ fee.
      wrap math_error (safe_uint64_add final_fees fee) >>= λ sum. add_fees sum txs

  unfoldable pub compute_fees : BlockComplete Z → Result CompleteError ℕ
  unfolding add_fees
  compute_fees blk = add_fees 0 blk.txs

  -- `for _, tx := range blkComplete.Txs { w.Write(tx.Bloom.Serialized) }`
  unfoldable pub write_txs : List (Transaction Z) → BufferWriter → Result CompleteError BufferWriter
  write_txs [] w = ok w
  write_txs (tx ∷ txs) w = elim tx.bloom [
    | none ↦ panic
    | some bloom ↦ write_txs txs (write bloom.serialized w)
  ]

  unfoldable pub advanced_serialization :
      BlockComplete Z → BufferWriter → Result CompleteError BufferWriter
  unfolding write_txs
  advanced_serialization blk w = elim blk.block.bloom [
    | none ↦ panic
    | some bloom ↦ write_txs blk.txs (write_uvarint (length blk.txs) (write bloom.serialized w))
  ]

  unfoldable pub serialize_manual_to_bytes : BlockComplete Z → Result CompleteError (List ℕ)
  unfolding advanced_serialization
  serialize_manual_to_bytes blk = advanced_serialization blk new_buffer_writer >>= λ w. ok (bytes w)

  -- `SerializeToBytes`, a nil pointer without a bloom
  unfoldable pub serialize_to_bytes : BlockComplete Z → Result CompleteError (Option (List ℕ))
  serialize_to_bytes blk = elim blk.bloom [ none ↦ panic | some bloom ↦ ok bloom.serialized ]

  -- BloomCompleteBySerialized, whose validate gives no error
  unfoldable pub bloom_complete_by_serialized : List ℕ → BlockComplete Z → BlockComplete Z
  bloom_complete_by_serialized serialized blk = record blk {
    bloom = some (record {
      serialized = some serialized;
      size = length serialized;
      merkle_tree_verified = false;
      bloomed_size = true;
      bloomed_merkle_tree_verified = false;
    });
  }

  -- `if !blkComplete.BloomBlkComplete.bloomedSize { … }`
  unfoldable pub bloom_size :
      BlockComplete Z → BlockCompleteBloom → Result CompleteError BlockCompleteBloom
  unfolding serialize_manual_to_bytes
  bloom_size blk bloom =
      if bloom.bloomed_size
      then ok bloom
      else (serialize_manual_to_bytes blk >>= λ serialized. ok (record bloom {
        serialized = some serialized;
        size = length serialized;
        bloomed_size = true;
      }))

  -- `if !blkComplete.BloomBlkComplete.bloomedMerkleTreeVerified { … }`
  unfoldable pub bloom_merkle :
      BlockComplete Z → BlockCompleteBloom → Result CompleteError (Unit {0}) × BlockCompleteBloom
  unfolding merkle_hash
  bloom_merkle blk bloom =
      if bloom.bloomed_merkle_tree_verified then (ok tt, bloom) else elim (merkle_hash blk) [
        | ok hash ↦
            if bytes_equal hash blk.block.merkle_hash
            then (
              ok tt,
              record bloom { merkle_tree_verified = true; bloomed_merkle_tree_verified = true },
            )
            else (err merkle_failed, record bloom { merkle_tree_verified = false })
        | err e ↦ (err e, bloom)
        | panic ↦ (panic, bloom)
      ]

  -- BloomNow: the outcome and the complete block
  unfoldable pub bloom_now : BlockComplete Z → Result CompleteError (Unit {0}) × BlockComplete Z
  unfolding new_bloom bloom_size bloom_merkle
  bloom_now blk =
      let bloom : BlockCompleteBloom = elim blk.bloom [ none ↦ new_bloom | some bloom ↦ bloom ] in
      elim (bloom_size blk bloom) [
        | ok sized ↦
            let (done, bloom') = bloom_merkle blk sized in
            (done, record blk { bloom = some bloom' })
        | err e ↦ (err e, record blk { bloom = some bloom })
        | panic ↦ (panic, record blk { bloom = some bloom })
      ]

  -- The loop of BloomAll, which leaves the transactions behind an error as they were.
  unfoldable pub bloom_txs :
      List (Transaction Z) → Result CompleteError (Unit {0}) × List (Transaction Z)
  bloom_txs [] = (ok tt, [])
  bloom_txs (tx ∷ txs) =
      let (done, tx') = Transaction.bloom_all interface sha3 tx in
      let (rest, txs') = bloom_txs txs in
      elim done [
        | ok _ ↦ (rest, tx' ∷ txs')
        | err e ↦ (err (tx_error e), tx' ∷ txs)
        | panic ↦ (panic, tx' ∷ txs)
      ]

  unfoldable pub bloom_all : BlockComplete Z → Result CompleteError (Unit {0}) × BlockComplete Z
  unfolding bloom_txs bloom_now
  bloom_all blk =
      let (txs_done, txs) = bloom_txs blk.txs in
      let with_txs : BlockComplete Z = record blk { txs = txs } in
      let (block_done, block) = Block.bloom_now sha3 blk.block in
      let with_block : BlockComplete Z = record with_txs { block = block } in
      elim txs_done [
        | ok _ ↦ elim block_done [
          | ok _ ↦ bloom_now with_block
          | err e ↦ (err (block_error e), with_block)
          | panic ↦ (panic, with_block)
        ]
        | err e ↦ (err e, with_txs)
        | panic ↦ (panic, with_txs)
      ]

  unfoldable pub verify_if_bloomed : BlockCompleteBloom → Result CompleteError (Unit {0})
  verify_if_bloomed bloom = do
    fail_if (not bloom.bloomed_size || not bloom.bloomed_merkle_tree_verified) not_bloomed
    fail_if (is_nil bloom.serialized) serialized_not_read
    fail_if (bloom.size == 0) size_not_bloomed
    fail_if (not bloom.merkle_tree_verified) merkle_failed

  unfoldable pub verify_txs : List (Transaction Z) → Result CompleteError (Unit {0})
  verify_txs [] = ok tt
  verify_txs (tx ∷ txs) =
      let rest = verify_txs txs in wrap tx_error (Transaction.verify interface sha3 tx) >> rest

  -- A nil bloom is read through a nil pointer.
  unfoldable pub verify : BlockComplete Z → Result CompleteError (Unit {0})
  unfolding verify_if_bloomed verify_txs
  verify blk =
      (elim blk.bloom [ none ↦ panic | some bloom ↦ verify_if_bloomed bloom ])
      >> wrap block_error (Block.verify blk.block)
      >> verify_txs blk.txs
