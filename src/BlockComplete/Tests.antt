-- ===== src/BlockComplete/Tests.antt =====
-- A complete block with one transaction, for a hash function that adds up its text.
use go_pandora_pay.Prelude.{
  ℕ, ◌+◌, ◌%◌, ◌^◌, ◌≡◌, ◌⊎◌, refl, some, List, [], ◌∷◌, ◌++◌, length, replicate, ltb, bytes_equal,
  if◌then◌else◌, arith, true, false,
}
use go_pandora_pay.Prelude.Collision.{Collision}
use go_pandora_pay.Prelude.Result.{ok, err, wrap, ◌>>◌}
use go_pandora_pay.Buffers.{bytes, write, write_bool, write_byte, write_uvarint, new_buffer_writer}
use go_pandora_pay.Liquidity.{serialize_list}
use go_pandora_pay.HashMap.Element.{new_buffer_reader}
use go_pandora_pay.Block.{Block, create_empty_block, bloom_serialized_now}
use go_pandora_pay.Block
use go_pandora_pay.Block.Samples.{third}
use go_pandora_pay.Block.Encoding as BlockEncoding
use go_pandora_pay.Transaction.{Transaction, bloom_of}
use go_pandora_pay.Transaction
use go_pandora_pay.Transaction.Samples.{no_zether, no_zether_codec, tx, tx-Fits}
use go_pandora_pay.TransactionSimple.Layout.{assemble}
use go_pandora_pay.TransactionSimple.Write
use go_pandora_pay.TransactionSimple
use go_pandora_pay.BlockComplete.{
  BlockComplete, merkle_failed, not_bloomed, block_error, math_error, tx_hashes,
  create_empty_block_complete, serialize_manual_to_bytes, bloom_complete_by_serialized, bloom_now,
  verify, verify_txs, compute_fees,
}
use go_pandora_pay.BlockComplete.Read.{deserialize}
use go_pandora_pay.BlockComplete.Encoding.{
  Made, Fits, texts, complete_bytes, deserialize-serialize_complete,
}
use go_pandora_pay.BlockComplete.Merkle.{expected_root, bloom_now_read}
use go_pandora_pay.BlockComplete.Binding.{bloom_now-injective}
use go_pandora_pay.BlockComplete.Fees.{HasFee, total, compute_fees_exact}
use go_pandora_pay.SafeMath.{would_exceed}

abbrev weight : List ℕ → ℕ
weight [] = 0
weight (byte ∷ text) = byte + weight text

abbrev summed : List ℕ → List ℕ
summed text = weight text % 256 ∷ replicate 31 0

abbrev tx_bytes : List ℕ
tx_bytes = 0 ∷ 70 ∷ 0 ∷ 0 ∷ 4 ∷ 232 ∷ 7 ∷ replicate 33 1 ++ (replicate 64 2 ++ 0 ∷ 0 ∷ [])

abbrev bloomed : Transaction (Unit {0})
bloomed = record tx { bloom = some (bloom_of no_zether summed tx_bytes) }

abbrev bloomed_made : Made no_zether no_zether_codec summed bloomed
unfolding Transaction.serialize_manual_to_bytes TransactionSimple.Write.serialize_advanced assemble
    serialize_list bytes write_byte write write_bool write_uvarint new_buffer_writer
bloomed_made = record {
  bare = tx;
  text = tx_bytes;
  fits = tx-Fits summed;
  wrote = refl;
  same = refl;
}

abbrev header : Block
header = record third { merkle_hash = summed tx_bytes }

header-Fits : BlockEncoding.Fits header
unfolding create_empty_block
header-Fits = record {
  version = omega arith;
  height = omega arith;
  merkle_hash = refl;
  prev_hash = refl;
  prev_kernel_hash = refl;
  timestamp = omega arith;
  staking_amount = omega arith;
  staking_nonce = refl;
}

abbrev complete : BlockComplete (Unit {0})
complete = record (create_empty_block_complete no_zether summed) {
  block = bloom_serialized_now summed (Block.serialize_manual_to_bytes header) header;
  txs = bloomed ∷ [];
}

abbrev complete_fits : Fits no_zether no_zether_codec summed complete
complete_fits = record {
  bare = header;
  block = header-Fits;
  same = refl;
  txs = (bloomed_made, tt);
  few = omega arith;
}

deserialize-serialize_complete_example :
    (serialize_manual_to_bytes no_zether summed complete
      ≡ ok (complete_bytes no_zether no_zether_codec summed complete complete_fits))
    × (deserialize no_zether summed (create_empty_block_complete no_zether summed) (
          new_buffer_reader
            (complete_bytes no_zether no_zether_codec summed complete complete_fits))
        ≡ (
          ok (record complete {
            bloom = some (record {
              serialized =
                  some (complete_bytes no_zether no_zether_codec summed complete complete_fits);
              size =
                  length (complete_bytes no_zether no_zether_codec summed complete complete_fits);
              merkle_tree_verified = false;
              bloomed_size = true;
              bloomed_merkle_tree_verified = false;
            });
          }),
          record (new_buffer_reader
              (complete_bytes no_zether no_zether_codec summed complete complete_fits)) {
                position =
                    length (complete_bytes no_zether no_zether_codec summed complete complete_fits);
              },
        ))
unfolding complete_bytes texts Block.serialize_manual_to_bytes create_empty_block bytes
    create_empty_block_complete write write_uvarint new_buffer_writer bloomed_made
deserialize-serialize_complete_example =
    deserialize-serialize_complete no_zether no_zether_codec summed
      (create_empty_block_complete no_zether summed) complete complete_fits (omega arith)

bloom_now_read_example :
    ((bloom_now no_zether summed
        (bloom_complete_by_serialized no_zether summed (1 ∷ []) complete)).0
      ≡ (if bytes_equal (expected_root summed (summed tx_bytes ∷ [])) complete.block.merkle_hash
          then ok tt
          else err merkle_failed))
    × (verify no_zether summed
          (bloom_now no_zether summed
            (bloom_complete_by_serialized no_zether summed (1 ∷ []) complete)).1
        ≡ (if bytes_equal (expected_root summed (summed tx_bytes ∷ [])) complete.block.merkle_hash
            then (wrap block_error (Block.verify complete.block)
                >> verify_txs no_zether summed complete.txs)
            else err not_bloomed))
unfolding tx_hashes bloom_of create_empty_block_complete
bloom_now_read_example =
    bloom_now_read no_zether summed complete (1 ∷ []) (summed tx_bytes ∷ []) (omega arith) refl

-- A block that is otherwise another one.
abbrev later : BlockComplete (Unit {0})
later = record complete { block = record complete.block { timestamp = 2000 } }

complete_bloomed :
    (bloom_now no_zether summed (bloom_complete_by_serialized no_zether summed (1 ∷ []) complete)).0
    ≡ ok tt
unfolding bloom_now bloom_of create_empty_block_complete bloom_complete_by_serialized bytes_equal
    bloom_serialized_now
complete_bloomed = refl

later_bloomed :
    (bloom_now no_zether summed (bloom_complete_by_serialized no_zether summed (1 ∷ []) later)).0
    ≡ ok tt
unfolding bloom_now bloom_of create_empty_block_complete bloom_complete_by_serialized bytes_equal
    bloom_serialized_now
later_bloomed = refl

bloom_now-injective_example : (complete.txs ≡ later.txs) ⊎ Collision summed
unfolding create_empty_block_complete
bloom_now-injective_example =
    bloom_now-injective no_zether no_zether_codec summed (λ text. refl) complete later (1 ∷ [])
      (1 ∷ []) (bloomed_made, tt) (bloomed_made, tt) (omega arith) (omega arith) refl refl
      complete_bloomed later_bloomed

bloomed-HasFee : HasFee no_zether summed bloomed
unfolding TransactionSimple.compute_fee assemble
bloomed-HasFee = record { fee = 1000; computed = refl; small = omega arith }

compute_fees_exact_example : compute_fees no_zether summed complete ≡ (
    if ltb (total no_zether summed complete.txs (bloomed-HasFee, tt)) (2 ^ 64)
    then ok (total no_zether summed complete.txs (bloomed-HasFee, tt))
    else err (math_error would_exceed))
unfolding create_empty_block_complete
compute_fees_exact_example = compute_fees_exact no_zether summed complete (bloomed-HasFee, tt)
