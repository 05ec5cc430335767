-- ===== src/Block/Signing.antt =====
-- SerializeForSigning and ComputeKernelHash of block.go: what the two hashes bind.
use go_pandora_pay.Prelude.{ℕ, ◌≡◌, false, true, List, ◌⊎◌, inl, inr}
use go_pandora_pay.Prelude.Collision.{Collision, eq_or_Collision}
use go_pandora_pay.Buffers.{Read, pure, ◌>>=◌, read_bytes, read_hash, read_uvarint}
use go_pandora_pay.Buffers.Framing.{
  Frames, Frames-bind, Frames-last, Frames-pure, Frames-injective, read_bytes-Frames,
  read_hash-Frames, read_uvarint-Frames,
}
use go_pandora_pay.Buffers.Written.{bytes-Appends}
use go_pandora_pay.Block.{
  Block, BlockHeader, create_empty_block, advanced_serialization, deserialize_header,
  kernel_hash_of, serialize_for_signing,
}
use go_pandora_pay.Block.Encoding.{
  Fits, over, block_bytes, kernel_bytes, advanced_serialization-Appends,
  advanced_serialization-Appends_kernel, deserialize_header-Frames, deserialize_fields-Frames,
}

-- What the bytes for the kernel tell, as a read of them.
abbrev pub KernelFields : Type 0
KernelFields = BlockHeader × List ℕ × ℕ × List ℕ

abbrev pub kernel_fields : Block → KernelFields
kernel_fields blk = (blk.header, blk.prev_kernel_hash, blk.timestamp, blk.staking_nonce)

read_kernel : Read KernelFields
read_kernel = do
  header ← deserialize_header
  prev_kernel_hash ← read_hash
  timestamp ← read_uvarint
  staking_nonce ← read_bytes 32
  pure (header, prev_kernel_hash, timestamp, staking_nonce)

read_kernel-Frames :
    (blk : Block) → Fits blk → Frames read_kernel (kernel_bytes blk) (kernel_fields blk)
unfolding read_kernel
read_kernel-Frames blk f =
    Frames-bind deserialize_header _ (deserialize_header-Frames blk.header f.version f.height) (
      Frames-bind read_hash _ (read_hash-Frames blk.prev_kernel_hash f.prev_kernel_hash) (
        Frames-bind read_uvarint _ (read_uvarint-Frames blk.timestamp f.timestamp) (
          Frames-last (read_bytes 32) _
            (rw f.staking_nonce at (read_bytes-Frames blk.staking_nonce))
            (Frames-pure (kernel_fields blk)))))

module _ (sha3 : List ℕ → List ℕ) (a b : Block) (fa : Fits a) (fb : Fits b) where
  -- Of two blocks whose fields have the sizes that Deserialize reads, with one hash for signing: they
  -- have the same fields, their blooms aside, or there are two texts with one hash.
  pub serialize_for_signing-injective_block :
      serialize_for_signing sha3 a ≡ serialize_for_signing sha3 b
      → (over create_empty_block a ≡ over create_empty_block b) ⊎ Collision sha3
  unfolding serialize_for_signing
  serialize_for_signing-injective_block e =
      let text = λ (blk : Block).
        bytes-Appends (advanced_serialization blk false false) (block_bytes blk)
          (advanced_serialization-Appends blk false) in
      elim (eq_or_Collision sha3 (block_bytes a) (block_bytes b) (rw (text a, text b) at e)) [
        | inl same ↦ inl (
            Frames-injective (rw same at (deserialize_fields-Frames create_empty_block a fa))
              (deserialize_fields-Frames create_empty_block b fb))
        | inr collision ↦ inr collision
      ]

  -- Of two such blocks with one kernel hash: they have the same header, previous kernel hash,
  -- timestamp and nonce, or there are two texts with one hash; and blocks that have these the same
  -- have one kernel hash, whatever their transactions and stakes.
  pub kernel_hash_of-injective :
      (kernel_hash_of sha3 a ≡ kernel_hash_of sha3 b
        → (kernel_fields a ≡ kernel_fields b) ⊎ Collision sha3)
      × (kernel_fields a ≡ kernel_fields b → kernel_hash_of sha3 a ≡ kernel_hash_of sha3 b)
  unfolding kernel_hash_of
  kernel_hash_of-injective =
      let text = λ (blk : Block).
        bytes-Appends (advanced_serialization blk true false) (kernel_bytes blk)
          (advanced_serialization-Appends_kernel blk) in
      (
        λ e.
            elim (eq_or_Collision sha3 (kernel_bytes a) (kernel_bytes b)
              (rw (text a, text b) at e)) [
                | inl same ↦ inl (
                    Frames-injective (rw same at (read_kernel-Frames a fa))
                      (read_kernel-Frames b fb))
                | inr collision ↦ inr collision
              ],
        λ same. rw (text a, text b) (cc),
      )
