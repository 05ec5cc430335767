-- ===== src/Block.antt =====
-- blockchain/blocks/block: the header, the block with its encodings, and what it keeps of its hashes,
-- the bloom. SHA3 calls a library and is the parameter `sha3`.
pub mod Encoding
pub mod Blooming
pub mod Signing
pub mod Samples
mod Tests
use go_pandora_pay.Prelude.{
  ℕ, Bool, true, false, not, Option, none, some, List, [], ◌==◌, if◌then◌else◌,
}
use go_pandora_pay.Prelude.Result.{Result, ok, err, panic, fail_if}
use go_pandora_pay.Buffers.{
  BufferWriter, BufferReader, Read, Outcome, pure, read_bytes, read_hash, read_uvarint, write,
  write_uvarint, bytes, new_buffer_writer, ◌>>=◌,
}
use go_pandora_pay.Buffers.Since.{with_bytes}
use go_pandora_pay.Kernel.{KernelError, compute_kernel_hash}

pub data BlockError : Type 0 where
  invalid_block bloom_not_validated kernel_hash_not_validated : BlockError
  kernel_error : KernelError → BlockError

pub record BlockHeader : Type 0 where
  pub version : ℕ
  pub height : ℕ

pub record BlockBloom : Type 0 where
  pub serialized : List ℕ
  pub hash : List ℕ
  pub kernel_hash : List ℕ
  pub kernel_hash_staked : List ℕ
  pub bloomed_hash : Bool
  pub bloomed_kernel_hash : Bool

pub record Block : Type 0 where
  pub header : BlockHeader
  pub merkle_hash : List ℕ
  pub prev_hash : List ℕ
  pub prev_kernel_hash : List ℕ
  pub timestamp : ℕ
  pub staking_amount : ℕ
  pub staking_nonce : List ℕ
  -- `none` is nil
  pub bloom : Option BlockBloom

unfoldable pub create_empty_block : Block
create_empty_block = record {
  header = record { version = 0; height = 0 };
  merkle_hash = [];
  prev_hash = [];
  prev_kernel_hash = [];
  timestamp = 0;
  staking_amount = 0;
  staking_nonce = [];
  bloom = none;
}

-- `new(BlockBloom)`
abbrev pub new_bloom : BlockBloom
new_bloom = record {
  serialized = [];
  hash = [];
  kernel_hash = [];
  kernel_hash_staked = [];
  bloomed_hash = false;
  bloomed_kernel_hash = false;
}

unfoldable pub validate_header : BlockHeader → Result BlockError (Unit {0})
validate_header header = fail_if (not (header.version == 0)) invalid_block

unfoldable pub serialize_header : BlockHeader → BufferWriter → BufferWriter
serialize_header header w = write_uvarint header.height (write_uvarint header.version w)

unfoldable pub deserialize_header : Read BlockHeader
deserialize_header = do
  version ← read_uvarint
  height ← read_uvarint
  pure (record { version = version; height = height })

unfoldable pub validate : Block → Result BlockError (Unit {0})
unfolding validate_header
validate blk = validate_header blk.header

-- The flag for the signature is not read.
unfoldable pub advanced_serialization : Block → Bool → Bool → BufferWriter → BufferWriter
unfolding serialize_header
advanced_serialization blk kernel_hash incl_signature w =
    let w' = serialize_header blk.header w in
    let w' = if kernel_hash then w' else write blk.prev_hash (write blk.merkle_hash w') in
    let w' = write blk.prev_kernel_hash w' in
    let w' = if kernel_hash then w' else write_uvarint blk.staking_amount w' in
    write blk.staking_nonce (write_uvarint blk.timestamp w')

unfoldable pub serialize_for_forging : Block → BufferWriter → BufferWriter
unfolding advanced_serialization
serialize_for_forging blk w = advanced_serialization blk true false w

-- `w.Write(blk.Bloom.Serialized)`, a nil pointer without a bloom
unfoldable pub serialize : Block → BufferWriter → Result BlockError BufferWriter
serialize blk w = elim blk.bloom [ none ↦ panic | some bloom ↦ ok (write bloom.serialized w) ]

unfoldable pub serialize_manual_to_bytes : Block → List ℕ
unfolding advanced_serialization
serialize_manual_to_bytes blk = bytes (advanced_serialization blk false true new_buffer_writer)

-- What Deserialize reads before it keeps the bytes.
unfoldable pub deserialize_fields : Block → Read Block
unfolding deserialize_header
deserialize_fields blk = do
  header ← deserialize_header
  merkle_hash ← read_hash
  prev_hash ← read_hash
  prev_kernel_hash ← read_hash
  staking_amount ← read_uvarint
  timestamp ← read_uvarint
  staking_nonce ← read_bytes 32
  pure (record blk {
    header = header;
    merkle_hash = merkle_hash;
    prev_hash = prev_hash;
    prev_kernel_hash = prev_kernel_hash;
    staking_amount = staking_amount;
    timestamp = timestamp;
    staking_nonce = staking_nonce;
  })

module _ (sha3 : List ℕ → List ℕ) where
  -- SerializeToBytes of helpers is over a new writer.
  unfoldable pub compute_hash : Block → Result BlockError (List ℕ)
  unfolding serialize
  compute_hash blk = elim (serialize blk new_buffer_writer) [
    | ok w ↦ ok (sha3 (bytes w))
    | err e ↦ err e
    | panic ↦ panic
  ]

  unfoldable pub kernel_hash_of : Block → List ℕ
  unfolding advanced_serialization
  kernel_hash_of blk = sha3 (bytes (advanced_serialization blk true false new_buffer_writer))

  unfoldable pub serialize_for_signing : Block → List ℕ
  unfolding advanced_serialization
  serialize_for_signing blk =
      sha3 (bytes (advanced_serialization blk false false new_buffer_writer))

  unfoldable pub bloom_serialized_now : List ℕ → Block → Block
  bloom_serialized_now serialized blk = record blk {
    bloom =
        some (record new_bloom {
          serialized = serialized;
          hash = sha3 serialized;
          bloomed_hash = true;
        });
  }

  unfoldable pub deserialize : Block → Read Block
  unfolding deserialize_fields with_bytes bloom_serialized_now
  deserialize blk = do
    (read, serialized) ← with_bytes (deserialize_fields blk)
    pure (bloom_serialized_now serialized read)

  -- `if !blk.Bloom.bloomedHash { … }`
  unfoldable pub bloom_hash : Block → BlockBloom → BlockBloom
  unfolding serialize_manual_to_bytes
  bloom_hash blk bloom =
      let serialized = serialize_manual_to_bytes blk in
      if bloom.bloomed_hash
      then bloom
      else record bloom { serialized = serialized; hash = sha3 serialized; bloomed_hash = true }

  -- `if !blk.Bloom.bloomedKernelHash { … }`: an error leaves the kernel hash written, and the other nil.
  unfoldable pub bloom_kernel : Block → BlockBloom → Result BlockError (Unit {0}) × BlockBloom
  unfolding kernel_hash_of compute_kernel_hash
  bloom_kernel blk bloom =
      let kernel_hash = kernel_hash_of blk in
      if bloom.bloomed_kernel_hash
      then (ok tt, bloom)
      else elim (compute_kernel_hash kernel_hash blk.staking_amount) [
        | ok staked ↦ (
          ok tt,
          record bloom {
            kernel_hash = kernel_hash;
            kernel_hash_staked = staked;
            bloomed_kernel_hash = true;
          },
        )
        | err e ↦ (
          err (kernel_error e),
          record bloom { kernel_hash = kernel_hash; kernel_hash_staked = [] },
        )
        | panic ↦ (panic, record bloom { kernel_hash = kernel_hash })
      ]

  unfoldable pub bloom_now : Block → Result BlockError (Unit {0}) × Block
  unfolding validate bloom_hash bloom_kernel
  bloom_now blk =
      let bloom : BlockBloom = elim blk.bloom [ none ↦ new_bloom | some bloom ↦ bloom ] in
      let (done, bloom') = bloom_kernel blk (bloom_hash blk bloom) in
      elim (validate blk) [
        | ok _ ↦ (done, record blk { bloom = some bloom' })
        | err e ↦ (err e, blk)
        | panic ↦ (panic, blk)
      ]

unfoldable pub verify_if_bloomed : BlockBloom → Result BlockError (Unit {0})
verify_if_bloomed bloom =
    if not bloom.bloomed_hash
    then err bloom_not_validated
    else fail_if (not bloom.bloomed_kernel_hash) kernel_hash_not_validated

-- A nil bloom is read through a nil pointer.
unfoldable pub verify : Block → Result BlockError (Unit {0})
unfolding verify_if_bloomed
verify blk = elim blk.bloom [ none ↦ panic | some bloom ↦ verify_if_bloomed bloom ]
