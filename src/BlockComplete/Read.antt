-- ===== src/BlockComplete/Read.antt =====
-- Deserialize of block_complete.go.
use go_pandora_pay.Prelude.{ℕ, zero, suc, List, [], ◌∷◌, length, ltb, if◌then◌else◌}
use go_pandora_pay.Prelude.Result.{panic}
use go_pandora_pay.Buffers.{Read, pure, fail, ◌>>=◌, block_exceeds_max_size, read_uvarint}
use go_pandora_pay.Buffers.Since.{with_bytes}
use go_pandora_pay.Block
use go_pandora_pay.Transaction.{Transaction}
use go_pandora_pay.Transaction
use go_pandora_pay.Transaction.Base.{TransactionBaseInterface}
use go_pandora_pay.BlockComplete.{BlockComplete, block_max_size, bloom_complete_by_serialized}
use go_pandora_pay.PendingStakes.{most_pointers}

module _ {Z : Type 0} (interface : TransactionBaseInterface Z) (sha3 : List ℕ → List ℕ) where
  -- The loop of Deserialize
  unfoldable pub read_txs : ℕ → Read (List (Transaction Z))
  read_txs zero = pure []
  read_txs (suc n) = do
    tx ← Transaction.deserialize interface sha3
    txs ← read_txs n
    pure (tx ∷ txs)

  -- `make([]*transaction.Transaction, txsCount)` panics where Go does not allocate as much.
  unfoldable pub make_txs : ℕ → Read (List (Transaction Z))
  unfolding read_txs
  make_txs count r = if ltb most_pointers count then (panic, r) else read_txs count r

  unfoldable pub deserialize_fields : BlockComplete Z → Read (BlockComplete Z)
  unfolding make_txs
  deserialize_fields blk = do
    block ← Block.deserialize sha3 blk.block
    txs_count ← read_uvarint
    txs ← make_txs txs_count
    pure (record blk { block = block; txs = txs })

  unfoldable pub deserialize_any : BlockComplete Z → Read (BlockComplete Z)
  unfolding deserialize_fields with_bytes bloom_complete_by_serialized
  deserialize_any blk = do
    (read, serialized) ← with_bytes (deserialize_fields blk)
    pure (bloom_complete_by_serialized interface sha3 serialized read)

  unfoldable pub deserialize : BlockComplete Z → Read (BlockComplete Z)
  unfolding deserialize_any
  deserialize blk r =
      if ltb block_max_size (length r.buf)
      then fail block_exceeds_max_size r
      else deserialize_any blk r
