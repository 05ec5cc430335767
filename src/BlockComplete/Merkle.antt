-- ===== src/BlockComplete/Merkle.antt =====
-- MerkleHash and BloomNow of block_complete: what a verified Merkle hash tells of the transactions.
use go_pandora_pay.Prelude.{
  ℕ, suc, ◌<◌, ◌≡◌, ◌⊎◌, inl, inr, refl, sym, ap, ◌∙◌, true, false, Option, none, some, List, [],
  ◌∷◌, length, All, ltb, ◌==◌, bytes_equal, Bool-cases, if◌then◌else◌, arith,
}
use go_pandora_pay.Prelude.Result.{Result, ok, err, panic, wrap, ◌>>◌, ◌>>=◌}
use go_pandora_pay.Prelude.Collision.{Collision}
use go_pandora_pay.Block
use go_pandora_pay.MerkleTree.Root.{root, merkle_root-root}
use go_pandora_pay.MerkleTree.Binding.{IsHash, root-injective}
use go_pandora_pay.Transaction.{Transaction, TransactionBloom}
use go_pandora_pay.Transaction.Base.{TransactionBaseInterface}
use go_pandora_pay.BlockComplete.{
  BlockComplete, BlockCompleteBloom, CompleteError, merkle_failed, not_bloomed, block_error,
  tx_hashes, root_bytes, merkle_hash, bloom_complete_by_serialized, bloom_now, bloom_size,
  bloom_merkle, verify, verify_txs, verify_if_bloomed,
}

module _ (sha3 : List ℕ → List ℕ) where
  -- The Merkle hash of a list of hashes.
  unfoldable pub expected_root : List (List ℕ) → List ℕ
  expected_root [] = sha3 []
  expected_root (hash ∷ hashes) = root sha3 (length (hash ∷ hashes)) (hash ∷ hashes)

  pub expected_root-injective :
      (width : (text : List ℕ) → IsHash (sha3 text)) (l m : List (List ℕ))
      → length l ≡ length m
      → All IsHash l
      → All IsHash m
      → expected_root l ≡ expected_root m
      → (l ≡ m) ⊎ Collision sha3
  unfolding expected_root
  expected_root-injective width [] [] e hl hm h = inl refl
  expected_root-injective width [] (b ∷ m) e hl hm h = absurd (omega arith)
  expected_root-injective width (a ∷ l) [] e hl hm h = absurd (omega arith)
  expected_root-injective width (a ∷ l) (b ∷ m) e hl hm h =
      root-injective sha3 width (length (a ∷ l)) (a ∷ l) (b ∷ m) e (omega arith) hl hm
        (h ∙ ap (λ n. root sha3 n (b ∷ m)) (sym e))

module _ {Z : Type 0} (interface : TransactionBaseInterface Z) (sha3 : List ℕ → List ℕ) where
  length-tx_hashes :
      (txs : List (Transaction Z)) (hashes : List (List ℕ))
      → tx_hashes interface sha3 txs ≡ ok hashes
      → length hashes ≡ length txs
  unfolding tx_hashes
  length-tx_hashes [] hashes e = cc e
  length-tx_hashes (tx ∷ txs) hashes e =
      go (length-tx_hashes txs) tx.bloom (tx_hashes interface sha3 txs) refl e
    where
      go :
          ((others : List (List ℕ))
            → tx_hashes interface sha3 txs ≡ ok others
            → length others ≡ length txs)
          → (bloom : Option TransactionBloom) (rest : Result CompleteError (List (List ℕ)))
          → tx_hashes interface sha3 txs ≡ rest
          → (elim bloom [ none ↦ panic | some bloom ↦ rest >>= λ hashes. ok (bloom.hash ∷ hashes) ])
            ≡ ok hashes
          → length hashes ≡ suc (length txs)
      go shorter none rest er h = absurd (cc h)
      go shorter (some bloom) (err e) er h = absurd (cc h)
      go shorter (some bloom) panic er h = absurd (cc h)
      go shorter (some bloom) (ok others) er h =
          let whole : bloom.hash ∷ others ≡ hashes = cc h in
          ap length (sym whole) ∙ ap suc (shorter others er)

  merkle_hash-expected_root :
      (blk : BlockComplete Z) (hashes : List (List ℕ))
      → tx_hashes interface sha3 blk.txs ≡ ok hashes
      → merkle_hash interface sha3 blk ≡ ok (expected_root sha3 hashes)
  unfolding merkle_hash root_bytes expected_root
  merkle_hash-expected_root blk [] e =
      let size = length-tx_hashes blk.txs [] e in
      let empty : ltb 0 (length blk.txs) ≡ false = ground arith in rw empty
  merkle_hash-expected_root blk (hash ∷ hashes) e =
      let size = length-tx_hashes blk.txs (hash ∷ hashes) e in
      let some_txs : ltb 0 (length blk.txs) ≡ true = ground arith in
      rw (some_txs, e, merkle_root-root sha3 (hash ∷ hashes) (omega arith))

  -- The bloom of a complete block that was read.
  unfoldable pub read_bloom : List ℕ → BlockCompleteBloom
  read_bloom text = record {
    serialized = some text;
    size = length text;
    merkle_tree_verified = false;
    bloomed_size = true;
    bloomed_merkle_tree_verified = false;
  }

  tx_hashes-read :
      (blk : BlockComplete Z) (text : List ℕ) (hashes : List (List ℕ))
      → tx_hashes interface sha3 blk.txs ≡ ok hashes
      → tx_hashes interface sha3 (bloom_complete_by_serialized interface sha3 text blk).txs
        ≡ ok hashes
  unfolding bloom_complete_by_serialized
  tx_hashes-read blk text hashes e = e

  header-read :
      (blk : BlockComplete Z) (text : List ℕ)
      → (bloom_complete_by_serialized interface sha3 text blk).block.merkle_hash
        ≡ blk.block.merkle_hash
  unfolding bloom_complete_by_serialized
  header-read blk text = refl

  bloom_merkle_lem :
      (blk : BlockComplete Z) (text hash : List ℕ)
      → merkle_hash interface sha3 blk ≡ ok hash
      → let bloom = read_bloom text in
        bloom_merkle interface sha3 blk bloom ≡ (
          if bytes_equal hash blk.block.merkle_hash
          then (
            ok tt,
            record bloom { merkle_tree_verified = true; bloomed_merkle_tree_verified = true },
          )
          else (err merkle_failed, bloom))
  unfolding bloom_merkle read_bloom
  bloom_merkle_lem blk text hash e = rw e

  bloom_now_merkle :
      (blk : BlockComplete Z) (text : List ℕ)
      → let read = bloom_complete_by_serialized interface sha3 text blk in
        let bloom = read_bloom text in
        bloom_now interface sha3 read ≡ (
          let (done, bloom') = bloom_merkle interface sha3 read bloom in
          (done, record blk { bloom = some bloom' }))
  unfolding bloom_now bloom_complete_by_serialized bloom_size read_bloom
  bloom_now_merkle blk text = refl

  -- BloomNow of a complete block that was read, whose transactions have the hashes `hashes` in their
  -- blooms: it goes through exactly if the Merkle hash of the block is that of the list, and Verify
  -- then asks the block and the transactions; else BloomNow gives the error that it failed, and
  -- Verify that the complete block was not bloomed.
  pub bloom_now_read :
      (blk : BlockComplete Z) (text : List ℕ) (hashes : List (List ℕ))
      → 0 < length text
      → tx_hashes interface sha3 blk.txs ≡ ok hashes
      → let read = bloom_complete_by_serialized interface sha3 text blk in
        let verified = bytes_equal (expected_root sha3 hashes) blk.block.merkle_hash in
        ((bloom_now interface sha3 read).0 ≡ (if verified then ok tt else err merkle_failed))
        × (verify interface sha3 (bloom_now interface sha3 read).1 ≡ (
            if verified
            then (wrap block_error (Block.verify blk.block) >> verify_txs interface sha3 blk.txs)
            else err not_bloomed))
  unfolding verify verify_if_bloomed read_bloom
  bloom_now_read blk text hashes pos e =
      let read : BlockComplete Z = bloom_complete_by_serialized interface sha3 text blk in
      let root_ok = merkle_hash-expected_root read hashes (tx_hashes-read blk text hashes e) in
      let sized : (length text == 0) ≡ false = ground arith in
      rw
        (
          bloom_now_merkle blk text,
          bloom_merkle_lem read text (expected_root sha3 hashes) root_ok,
          header-read blk text,
        )
        (elim (Bool-cases (bytes_equal (expected_root sha3 hashes) blk.block.merkle_hash)) [
          | inl same ↦ rw (same, sized) (refl, refl)
          | inr other ↦ rw other (refl, refl)
        ])
