-- ===== src/Block/Tests.antt =====
-- A block with its hashes, for a hash function that keeps the first 32 bytes of its text.
use go_pandora_pay.Prelude.{
  ℕ, ◌≡◌, ◌⊎◌, ◌≤◌, not, ◌==◌, refl, true, false, List, [], ◌∷◌, length, replicate, take, All,
  arith, if◌then◌else◌, some,
}
use go_pandora_pay.Prelude.Result.{ok, err}
use go_pandora_pay.Prelude.Collision.{Collision}
use go_pandora_pay.Buffers.{new_buffer_writer}
use go_pandora_pay.Buffers.Written.{new_buffer_writer-IsWriter}
use go_pandora_pay.Buffers.RoundTrip.{reader_after}
use go_pandora_pay.Kernel.{staking_amount_zero}
use go_pandora_pay.Kernel.Bounds.{Byte}
use go_pandora_pay.Block.{
  Block, create_empty_block, advanced_serialization, serialize_manual_to_bytes,
  bloom_serialized_now, deserialize, bloom_now, verify, kernel_hash_of, invalid_block, kernel_error,
}
use go_pandora_pay.Block.Samples.{third, third-Fits}
use go_pandora_pay.Block.Encoding.{Fits, over, deserialize-advanced_serialization}
use go_pandora_pay.Block.Blooming.{
  IsConsistent, bloom_now_outcome, bloom_now-IsConsistent, bloom_serialized_now-IsConsistent,
}
use go_pandora_pay.Block.Signing.{
  kernel_fields, serialize_for_signing-injective_block, kernel_hash_of-injective,
}

abbrev front : List ℕ → List ℕ
front text = take 32 text

abbrev zeros : List ℕ → List ℕ
zeros text = replicate 32 0

abbrev other : Block
other = record third { merkle_hash = replicate 32 9; staking_amount = 8 }

other-Fits : Fits other
unfolding create_empty_block
other-Fits = record {
  version = omega arith;
  height = omega arith;
  merkle_hash = refl;
  prev_hash = refl;
  prev_kernel_hash = refl;
  timestamp = omega arith;
  staking_amount = omega arith;
  staking_nonce = refl;
}

deserialize-advanced_serialization_example :
    deserialize front create_empty_block (
      reader_after new_buffer_writer
        (advanced_serialization third false true new_buffer_writer)
        (5 ∷ [])
        [])
    ≡ (
      ok (record third {
        bloom = some (record {
          serialized = serialize_manual_to_bytes third;
          hash = front (serialize_manual_to_bytes third);
          kernel_hash = [];
          kernel_hash_staked = [];
          bloomed_hash = true;
          bloomed_kernel_hash = false;
        });
      }),
      reader_after
          (advanced_serialization third false true new_buffer_writer)
          (advanced_serialization third false true new_buffer_writer)
          (5 ∷ [])
          [],
    )
deserialize-advanced_serialization_example =
    deserialize-advanced_serialization front create_empty_block third new_buffer_writer (5 ∷ []) []
      new_buffer_writer-IsWriter third-Fits

zeros_hash : (bs : List ℕ) → All Byte (zeros bs) × (length (zeros bs) ≤ 32)
zeros_hash bs = (omega arith, omega arith)

bloom_now_outcome_example :
    ((bloom_now zeros third).0 ≡ (
      if not (third.header.version == 0)
      then err invalid_block
      else if third.staking_amount == 0
      then err (kernel_error staking_amount_zero)
      else ok tt))
    × IsConsistent zeros (bloom_now zeros third).1
    × ((bloom_now zeros third).0 ≡ ok tt → verify (bloom_now zeros third).1 ≡ ok tt)
unfolding create_empty_block
bloom_now_outcome_example = bloom_now_outcome zeros third zeros_hash refl

bloom_now-IsConsistent_example :
    IsConsistent zeros
      (bloom_now zeros (bloom_serialized_now zeros (serialize_manual_to_bytes third) third)).1
    × ((bloom_now zeros (bloom_serialized_now zeros (serialize_manual_to_bytes third) third)).0
          ≡ ok tt
        → verify
            (bloom_now zeros (bloom_serialized_now zeros (serialize_manual_to_bytes third) third)).1
          ≡ ok tt)
bloom_now-IsConsistent_example =
    bloom_now-IsConsistent zeros
      (bloom_serialized_now zeros (serialize_manual_to_bytes third) third)
      (bloom_serialized_now-IsConsistent zeros third)

serialize_for_signing-injective_block_example :
    (over create_empty_block third ≡ over create_empty_block third) ⊎ Collision front
serialize_for_signing-injective_block_example =
    serialize_for_signing-injective_block front third third third-Fits third-Fits refl

kernel_hash_of-injective_example :
    (kernel_hash_of front third ≡ kernel_hash_of front other
      → (kernel_fields third ≡ kernel_fields other) ⊎ Collision front)
    × (kernel_fields third ≡ kernel_fields other
        → kernel_hash_of front third ≡ kernel_hash_of front other)
kernel_hash_of-injective_example = kernel_hash_of-injective front third other third-Fits other-Fits

-- The transactions and the stake are no part of the kernel hash.
kernel_hash_other : kernel_hash_of front third ≡ kernel_hash_of front other
unfolding kernel_hash_of create_empty_block
kernel_hash_other = refl
