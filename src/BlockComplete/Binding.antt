-- ===== src/BlockComplete/Binding.antt =====
-- BloomNow of block_complete_bloom.go: complete blocks with one Merkle hash.
use go_pandora_pay.Prelude.{
  ℕ, ◌<◌, ◌≡◌, ◌⊎◌, inl, inr, refl, sym, ◌∙◌, List, [], ◌∷◌, length, All, bytes_equal,
  bytes_equal_iff, Bool-cases, arith,
}
use go_pandora_pay.Prelude.Result.{ok}
use go_pandora_pay.Prelude.Collision.{Collision, eq_or_Collision}
use go_pandora_pay.Buffers.Framing.{Frames, Frames-injective}
use go_pandora_pay.MerkleTree.Binding.{IsHash}
use go_pandora_pay.Transaction.{Transaction, bloom_of, deserialize}
use go_pandora_pay.Transaction.Encoding.{Codec, transaction-Frames}
use go_pandora_pay.Transaction.Base.{TransactionBaseInterface}
use go_pandora_pay.BlockComplete.{BlockComplete, tx_hashes, bloom_complete_by_serialized, bloom_now}
use go_pandora_pay.BlockComplete.Encoding.{Made}
use go_pandora_pay.BlockComplete.Merkle.{expected_root, expected_root-injective, bloom_now_read}

module _ {Z : Type 0} (interface : TransactionBaseInterface Z) (codec : Codec interface)
    (sha3 : List ℕ → List ℕ) where
  abbrev IsMade : Transaction Z → Type 0
  IsMade tx = Made interface codec sha3 tx

  hashes_of : (txs : List (Transaction Z)) → All IsMade txs → List (List ℕ)
  hashes_of [] h = []
  hashes_of (tx ∷ txs) (h, hs) = sha3 h.text ∷ hashes_of txs hs

  tx_hashes-hashes_of :
      (txs : List (Transaction Z)) (h : All IsMade txs)
      → tx_hashes interface sha3 txs ≡ ok (hashes_of txs h)
  unfolding tx_hashes hashes_of bloom_of
  tx_hashes-hashes_of [] h = refl
  tx_hashes-hashes_of (tx ∷ txs) (h, hs) = rw (h.same, tx_hashes-hashes_of txs hs)

  length-hashes_of :
      (txs : List (Transaction Z)) (h : All IsMade txs) → length (hashes_of txs h) ≡ length txs
  unfolding hashes_of
  length-hashes_of [] h = refl
  length-hashes_of (tx ∷ txs) (h, hs) = omega (arith, length-hashes_of txs hs)

  tx-Frames : (tx : Transaction Z) (h : IsMade tx) → Frames (deserialize interface sha3) h.text tx
  tx-Frames tx h =
      rw (← h.same) at (transaction-Frames interface codec sha3 h.bare h.text h.fits h.wrote)

  -- Transactions that have the blooms of their own bytes, with the same hashes.
  txs-injective :
      (l m : List (Transaction Z)) (hl : All IsMade l) (hm : All IsMade m)
      → hashes_of l hl ≡ hashes_of m hm
      → (l ≡ m) ⊎ Collision sha3
  unfolding hashes_of
  txs-injective [] [] hl hm e = inl refl
  txs-injective [] (b ∷ m) hl hm e = absurd (cc e)
  txs-injective (a ∷ l) [] hl hm e = absurd (cc e)
  txs-injective (a ∷ l) (b ∷ m) (ha, hl) (hb, hm) e =
      elim (eq_or_Collision sha3 ha.text hb.text (cc e)) [
        | inl same ↦
            let tx : a ≡ b = Frames-injective (rw same at (tx-Frames a ha)) (tx-Frames b hb) in
            elim (txs-injective l m hl hm (cc e)) [
              | inl rest ↦ inl (cc (tx, rest))
              | inr collision ↦ inr collision
            ]
        | inr collision ↦ inr collision
      ]

  module _ (width : (text : List ℕ) → IsHash (sha3 text)) where
    hashes_of-All : (txs : List (Transaction Z)) (h : All IsMade txs) → All IsHash (hashes_of txs h)
    unfolding hashes_of
    hashes_of-All [] h = tt
    hashes_of-All (tx ∷ txs) (h, hs) = (width h.text, hashes_of-All txs hs)

    -- A complete block that was read and bloomed has the Merkle hash of its transactions.
    bloomed_root :
        (blk : BlockComplete Z) (text : List ℕ) (h : All IsMade blk.txs)
        → 0 < length text
        → (bloom_now interface sha3 (bloom_complete_by_serialized interface sha3 text blk)).0
          ≡ ok tt
        → expected_root sha3 (hashes_of blk.txs h) ≡ blk.block.merkle_hash
    bloomed_root blk text h pos e =
        let hashes : List (List ℕ) = hashes_of blk.txs h in
        let outcome =
          bloom_now_read interface sha3 blk text hashes pos (tx_hashes-hashes_of blk.txs h) in
        elim (Bool-cases (bytes_equal (expected_root sha3 hashes) blk.block.merkle_hash)) [
          | inl same ↦ (bytes_equal_iff (expected_root sha3 hashes) blk.block.merkle_hash).0 same
          | inr other ↦ absurd (ground (arith, outcome.0))
        ]

    -- For a hash function whose hashes have 32 bytes: two complete blocks that were read, with as many
    -- transactions and one Merkle hash in their blocks, whose transactions have the blooms of their
    -- own bytes, and for which BloomNow goes through, have the same transactions, or there are two
    -- texts with one hash.
    pub bloom_now-injective :
        (a b : BlockComplete Z) (text other : List ℕ) (ha : All IsMade a.txs)
        (hb : All IsMade b.txs)
        → 0 < length text
        → 0 < length other
        → length a.txs ≡ length b.txs
        → a.block.merkle_hash ≡ b.block.merkle_hash
        → (bloom_now interface sha3 (bloom_complete_by_serialized interface sha3 text a)).0 ≡ ok tt
        → (bloom_now interface sha3 (bloom_complete_by_serialized interface sha3 other b)).0 ≡ ok tt
        → (a.txs ≡ b.txs) ⊎ Collision sha3
    bloom_now-injective a b text other ha hb pa pb size header ea eb =
        let roots = bloomed_root a text ha pa ea ∙ header ∙ sym (bloomed_root b other hb pb eb) in
        let sizes : length (hashes_of a.txs ha) ≡ length (hashes_of b.txs hb) =
          length-hashes_of a.txs ha ∙ size ∙ sym (length-hashes_of b.txs hb) in
        elim (expected_root-injective sha3 width (hashes_of a.txs ha) (hashes_of b.txs hb) sizes
          (hashes_of-All a.txs ha) (hashes_of-All b.txs hb) roots) [
            | inl same ↦ txs-injective a.txs b.txs ha hb same
            | inr collision ↦ inr collision
          ]
