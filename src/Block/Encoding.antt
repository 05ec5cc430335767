-- ===== src/Block/Encoding.antt =====
-- AdvancedSerialization and Deserialize of block.go: the round trip, and what the hashes for signing
-- and for the kernel tell of a block.
use go_pandora_pay.Prelude.{ℕ, ◌≡◌, Bool, true, false, List, ◌++◌, length, some, []}
use go_pandora_pay.Prelude.Result.{ok}
use go_pandora_pay.SafeMath.{IsU64}
use go_pandora_pay.Buffers.{
  BufferWriter, read_bytes, read_hash, read_uvarint, write, write_uvarint, hash_size, put_uvarint,
}
use go_pandora_pay.Buffers.Framing.{
  Frames, Frames-bind, Frames-last, Frames-pure, read_bytes-Frames, read_hash-Frames,
  read_uvarint-Frames,
}
use go_pandora_pay.Buffers.Written.{
  Appends, Appends-then, IsWriter, bytes-Appends, write-Appends, write_uvarint-Appends,
}
use go_pandora_pay.Buffers.RoundTrip.{reader_after, read_written}
use go_pandora_pay.Buffers.Since.{with_bytes, Frames-with_bytes}
use go_pandora_pay.Block.{
  Block, BlockHeader, serialize_header, deserialize_header, advanced_serialization,
  serialize_manual_to_bytes, deserialize_fields, bloom_serialized_now, deserialize,
}

-- The sizes that the types and Deserialize give the fields.
pub record Fits (blk : Block) : Type 0 where
  pub version : IsU64 blk.header.version
  pub height : IsU64 blk.header.height
  pub merkle_hash : length blk.merkle_hash ≡ hash_size
  pub prev_hash : length blk.prev_hash ≡ hash_size
  pub prev_kernel_hash : length blk.prev_kernel_hash ≡ hash_size
  pub timestamp : IsU64 blk.timestamp
  pub staking_amount : IsU64 blk.staking_amount
  pub staking_nonce : length blk.staking_nonce ≡ 32

abbrev pub header_bytes : BlockHeader → List ℕ
header_bytes header = put_uvarint 9 header.version ++ put_uvarint 9 header.height

serialize_header-Appends :
    (header : BlockHeader) → Appends (serialize_header header) (header_bytes header)
unfolding serialize_header
serialize_header-Appends header =
    Appends-then (write_uvarint header.version) (write_uvarint header.height) _ _
      (write_uvarint-Appends header.version) (write_uvarint-Appends header.height)

abbrev pub block_bytes : Block → List ℕ
block_bytes blk =
    header_bytes blk.header
    ++ (blk.merkle_hash
        ++ (blk.prev_hash
            ++ (blk.prev_kernel_hash
                ++ (put_uvarint 9 blk.staking_amount
                    ++ (put_uvarint 9 blk.timestamp ++ blk.staking_nonce)))))

-- The signature's flag changes nothing.
pub advanced_serialization-Appends :
    (blk : Block) (incl_signature : Bool)
    → Appends (advanced_serialization blk false incl_signature) (block_bytes blk)
unfolding advanced_serialization
advanced_serialization-Appends blk incl_signature =
    Appends-then (serialize_header blk.header) _ _ _ (serialize_header-Appends blk.header) (
      Appends-then (write blk.merkle_hash) _ _ _ (write-Appends blk.merkle_hash) (
        Appends-then (write blk.prev_hash) _ _ _ (write-Appends blk.prev_hash) (
          Appends-then (write blk.prev_kernel_hash) _ _ _ (write-Appends blk.prev_kernel_hash) (
            Appends-then (write_uvarint blk.staking_amount) _ _ _
              (write_uvarint-Appends blk.staking_amount)
              (Appends-then (write_uvarint blk.timestamp) (write blk.staking_nonce) _ _
                (write_uvarint-Appends blk.timestamp) (write-Appends blk.staking_nonce))))))

abbrev pub kernel_bytes : Block → List ℕ
kernel_bytes blk =
    header_bytes blk.header
    ++ (blk.prev_kernel_hash ++ (put_uvarint 9 blk.timestamp ++ blk.staking_nonce))

pub advanced_serialization-Appends_kernel :
    (blk : Block) → Appends (advanced_serialization blk true false) (kernel_bytes blk)
unfolding advanced_serialization
advanced_serialization-Appends_kernel blk =
    Appends-then (serialize_header blk.header) _ _ _ (serialize_header-Appends blk.header) (
      Appends-then (write blk.prev_kernel_hash) _ _ _ (write-Appends blk.prev_kernel_hash) (
        Appends-then (write_uvarint blk.timestamp) (write blk.staking_nonce) _ _
          (write_uvarint-Appends blk.timestamp) (write-Appends blk.staking_nonce)))

pub deserialize_header-Frames :
    (header : BlockHeader)
    → IsU64 header.version
    → IsU64 header.height
    → Frames deserialize_header (header_bytes header) header
unfolding deserialize_header
deserialize_header-Frames header v h =
    Frames-bind read_uvarint _ (read_uvarint-Frames header.version v)
      (Frames-last read_uvarint _ (read_uvarint-Frames header.height h) (Frames-pure header))

-- The fields of a block over the bloom of another.
abbrev pub over : Block → Block → Block
over before blk = record blk { bloom = before.bloom }

pub deserialize_fields-Frames :
    (before blk : Block)
    → Fits blk
    → Frames (deserialize_fields before) (block_bytes blk) (over before blk)
unfolding deserialize_fields
deserialize_fields-Frames before blk f =
    Frames-bind deserialize_header _ (deserialize_header-Frames blk.header f.version f.height) (
      Frames-bind read_hash _ (read_hash-Frames blk.merkle_hash f.merkle_hash) (
        Frames-bind read_hash _ (read_hash-Frames blk.prev_hash f.prev_hash) (
          Frames-bind read_hash _ (read_hash-Frames blk.prev_kernel_hash f.prev_kernel_hash) (
            Frames-bind read_uvarint _ (read_uvarint-Frames blk.staking_amount f.staking_amount) (
              Frames-bind read_uvarint _ (read_uvarint-Frames blk.timestamp f.timestamp) (
                Frames-last (read_bytes 32) _
                  (rw f.staking_nonce at (read_bytes-Frames blk.staking_nonce))
                  (Frames-pure (over before blk))))))))

pub serialize_manual_to_bytes-block_bytes :
    (blk : Block) → serialize_manual_to_bytes blk ≡ block_bytes blk
unfolding serialize_manual_to_bytes
serialize_manual_to_bytes-block_bytes blk =
    bytes-Appends (advanced_serialization blk false true) (block_bytes blk)
      (advanced_serialization-Appends blk true)

module _ (sha3 : List ℕ → List ℕ) where
  pub deserialize-Frames :
      (before blk : Block)
      → Fits blk
      → Frames
          (deserialize sha3 before)
          (block_bytes blk)
          (bloom_serialized_now sha3 (serialize_manual_to_bytes blk) blk)
  unfolding deserialize bloom_serialized_now
  deserialize-Frames before blk f = rw (serialize_manual_to_bytes-block_bytes blk) (
      Frames-last (with_bytes (deserialize_fields before)) _
        (Frames-with_bytes (deserialize_fields before) (deserialize_fields-Frames before blk f))
        (Frames-pure (bloom_serialized_now sha3 (block_bytes blk) blk)))

  -- Deserialize into any block reads the fields that AdvancedSerialization wrote, with the signature
  -- and not for the kernel, behind any writer, keeps the bytes of SerializeManualToBytes and their
  -- hash in a new bloom, and is left behind those bytes, for a block whose fields have the sizes
  -- that Deserialize reads.
  pub deserialize-advanced_serialization :
      (before blk : Block) (w : BufferWriter) (rest spare : List ℕ)
      → IsWriter w
      → Fits blk
      → let w' = advanced_serialization blk false true w in
        deserialize sha3 before (reader_after w w' rest spare) ≡ (
          ok (record blk {
            bloom = some (record {
              serialized = serialize_manual_to_bytes blk;
              hash = sha3 (serialize_manual_to_bytes blk);
              kernel_hash = [];
              kernel_hash_staked = [];
              bloomed_hash = true;
              bloomed_kernel_hash = false;
            });
          }),
          reader_after w' w' rest spare,
        )
  unfolding bloom_serialized_now
  deserialize-advanced_serialization before blk w rest spare writer f =
      read_written (advanced_serialization blk false true) (deserialize sha3 before)
        (block_bytes blk) (bloom_serialized_now sha3 (serialize_manual_to_bytes blk) blk)
        (advanced_serialization-Appends blk true) (deserialize-Frames before blk f) w rest spare
        writer
