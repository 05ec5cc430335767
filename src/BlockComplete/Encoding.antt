-- ===== src/BlockComplete/Encoding.antt =====
-- AdvancedSerialization and Deserialize of block_complete.go.
use go_pandora_pay.Prelude.{
  ℕ, ◌≤◌, ◌≡◌, refl, sym, false, some, List, [], ◌∷◌, ◌++◌, length, All, ltb, arith, true,
}
use go_pandora_pay.Prelude.Result.{ok}
use go_pandora_pay.Buffers.{write, write_uvarint, read_uvarint, put_uvarint}
use go_pandora_pay.Buffers.Framing.{
  Frames, Frames-bind, Frames-last, Frames-pure, read_uvarint-Frames,
}
use go_pandora_pay.Buffers.Written.{written, write-Appends, write_uvarint-Appends}
use go_pandora_pay.Buffers.Checked.{AppendsOk, Appends-AppendsOk, AppendsOk-ok, bytes-AppendsOk}
use go_pandora_pay.Buffers.Since.{with_bytes, Frames-with_bytes}
use go_pandora_pay.HashMap.Element.{new_buffer_reader}
use go_pandora_pay.Block.{Block, bloom_serialized_now}
use go_pandora_pay.Block
use go_pandora_pay.Block.Encoding as BlockEncoding
use go_pandora_pay.Transaction.{Transaction, bloom_of}
use go_pandora_pay.Transaction
use go_pandora_pay.Transaction.Encoding.{Codec}
use go_pandora_pay.Transaction.Encoding as TransactionEncoding
use go_pandora_pay.Transaction.Base.{TransactionBaseInterface}
use go_pandora_pay.BlockComplete.{
  BlockComplete, block_max_size, write_txs, advanced_serialization, serialize_manual_to_bytes,
  bloom_complete_by_serialized,
}
use go_pandora_pay.BlockComplete.Read.{
  read_txs, make_txs, deserialize_fields, deserialize_any, deserialize,
}
use go_pandora_pay.PendingStakes.{most_pointers}
use mathlib.Core.List.{append-nil}

module _ {Z : Type 0} (interface : TransactionBaseInterface Z) (codec : Codec interface)
    (sha3 : List ℕ → List ℕ) where
  -- A transaction with the bloom that it has from its own bytes.
  pub record Made (tx : Transaction Z) : Type 0 where
    pub bare : Transaction Z
    pub text : List ℕ
    pub fits : TransactionEncoding.Fits interface codec sha3 bare
    pub wrote : Transaction.serialize_manual_to_bytes interface sha3 bare ≡ ok text
    pub same : tx ≡ record bare { bloom = some (bloom_of interface sha3 text) }

  -- The bytes of the transactions, one behind the other.
  unfoldable pub texts : (txs : List (Transaction Z)) → All Made txs → List ℕ
  texts [] h = []
  texts (tx ∷ txs) (h, hs) = h.text ++ texts txs hs

  write_txs-AppendsOk :
      (txs : List (Transaction Z)) (h : All Made txs)
      → AppendsOk (write_txs interface sha3 txs) (texts txs h)
  unfolding write_txs texts bloom_of
  write_txs-AppendsOk [] h = AppendsOk-ok (λ w. w) [] (λ w v. (v, sym (append-nil (written w))))
  write_txs-AppendsOk (tx ∷ txs) (h, hs) = rw h.same (
      Appends-AppendsOk (write h.text) (write_txs interface sha3 txs) _ _ (write-Appends h.text)
        (write_txs-AppendsOk txs hs))

  read_txs-Frames :
      (txs : List (Transaction Z)) (h : All Made txs)
      → Frames (read_txs interface sha3 (length txs)) (texts txs h) txs
  unfolding read_txs texts
  read_txs-Frames [] h = Frames-pure []
  read_txs-Frames (tx ∷ txs) (h, hs) =
      Frames-bind (Transaction.deserialize interface sha3) _
        (rw (← h.same) at (
          TransactionEncoding.transaction-Frames interface codec sha3 h.bare h.text h.fits h.wrote))
        (Frames-last (read_txs interface sha3 (length txs)) _ (read_txs-Frames txs hs)
          (Frames-pure (tx ∷ txs)))

  make_txs-Frames :
      (txs : List (Transaction Z)) (h : All Made txs)
      → length txs ≤ most_pointers
      → Frames (make_txs interface sha3 (length txs)) (texts txs h) txs
  unfolding make_txs
  make_txs-Frames txs h few =
      let room : ltb most_pointers (length txs) ≡ false = ground arith in
      record {
        takes = λ front rest spare. rw room ((read_txs-Frames txs h).takes front rest spare);
      }

  -- A block with the bloom that it has from its own bytes, and its transactions.
  pub record Fits (blk : BlockComplete Z) : Type 0 where
    pub bare : Block
    pub block : BlockEncoding.Fits bare
    pub same : blk.block ≡ bloom_serialized_now sha3 (Block.serialize_manual_to_bytes bare) bare
    pub txs : All Made blk.txs
    pub few : length blk.txs ≤ most_pointers

  unfoldable pub complete_bytes : (blk : BlockComplete Z) → Fits blk → List ℕ
  complete_bytes blk f =
      Block.serialize_manual_to_bytes f.bare
      ++ (put_uvarint 9 (length blk.txs) ++ texts blk.txs f.txs)

  advanced_serialization-AppendsOk :
      (blk : BlockComplete Z) (f : Fits blk)
      → AppendsOk (advanced_serialization interface sha3 blk) (complete_bytes blk f)
  unfolding advanced_serialization complete_bytes bloom_serialized_now
  advanced_serialization-AppendsOk blk f =
      let front : List ℕ = Block.serialize_manual_to_bytes f.bare in
      rw f.same (
        Appends-AppendsOk (write front) _ _ _ (write-Appends front) (
          Appends-AppendsOk (write_uvarint (length blk.txs)) (write_txs interface sha3 blk.txs) _ _
            (write_uvarint-Appends (length blk.txs)) (write_txs-AppendsOk blk.txs f.txs)))

  deserialize_fields-Frames :
      (before blk : BlockComplete Z) (f : Fits blk)
      → Frames
          (deserialize_fields interface sha3 before)
          (complete_bytes blk f)
          (record blk { bloom = before.bloom })
  unfolding deserialize_fields complete_bytes
  deserialize_fields-Frames before blk f =
      Frames-bind (Block.deserialize sha3 before.block) _
        (rw (← BlockEncoding.serialize_manual_to_bytes-block_bytes f.bare, ← f.same) at
          (BlockEncoding.deserialize-Frames sha3 before.block f.bare f.block))
        (Frames-bind read_uvarint _ (read_uvarint-Frames (length blk.txs) (omega (arith, f.few))) (
          Frames-last (make_txs interface sha3 (length blk.txs)) _
            (make_txs-Frames blk.txs f.txs f.few)
            (Frames-pure (record blk { bloom = before.bloom }))))

  deserialize_any-Frames :
      (before blk : BlockComplete Z) (f : Fits blk)
      → Frames
          (deserialize_any interface sha3 before)
          (complete_bytes blk f)
          (bloom_complete_by_serialized interface sha3 (complete_bytes blk f) blk)
  unfolding deserialize_any bloom_complete_by_serialized
  deserialize_any-Frames before blk f =
      Frames-last (with_bytes (deserialize_fields interface sha3 before)) _
        (Frames-with_bytes (deserialize_fields interface sha3 before)
          (deserialize_fields-Frames before blk f))
        (Frames-pure (bloom_complete_by_serialized interface sha3 (complete_bytes blk f) blk))

  -- SerializeManualToBytes of a complete block goes through, and Deserialize into any complete block
  -- reads it back from those bytes, keeps them in a new bloom and is left behind them: for a block
  -- with the bloom of its own bytes and transactions with the blooms of theirs, whose fields have the
  -- sizes that Deserialize reads, no more than 2 ^ 45 of them, in at most BLOCK_MAX_SIZE bytes.
  pub deserialize-serialize_complete :
      (before blk : BlockComplete Z) (f : Fits blk)
      → length (complete_bytes blk f) ≤ block_max_size
      → let text = complete_bytes blk f in
        (serialize_manual_to_bytes interface sha3 blk ≡ ok text)
        × (deserialize interface sha3 before (new_buffer_reader text) ≡ (
          ok (record blk {
            bloom = some (record {
              serialized = some text;
              size = length text;
              merkle_tree_verified = false;
              bloomed_size = true;
              bloomed_merkle_tree_verified = false;
            });
          }),
          record (new_buffer_reader text) { position = length text },
        ))
  unfolding serialize_manual_to_bytes deserialize bloom_complete_by_serialized
  deserialize-serialize_complete before blk f small =
      let text : List ℕ = complete_bytes blk f in
      let (w', goes, holds) =
        bytes-AppendsOk (advanced_serialization interface sha3 blk) text
          (advanced_serialization-AppendsOk blk f) in
      let fits : ltb block_max_size (length text) ≡ false = ground arith in
      (
        rw (goes, holds) refl,
        rw fits (rw (append-nil text) at ((deserialize_any-Frames before blk f).takes [] [] [])),
      )
