-- ===== src/Transaction/Tests.antt =====
-- Transactions on given values, for a hash that keeps the first 32 bytes.
use go_pandora_pay.Prelude.{ℕ, ◌≡◌, ◌⊎◌, refl, inl, true, some, List, [], ◌∷◌, take, arith, length}
use go_pandora_pay.Prelude.Collision.{Collision}
use go_pandora_pay.Prelude.Result.{ok}
use go_pandora_pay.Buffers.{BufferWriter, new_buffer_writer}
use go_pandora_pay.Buffers.Written.{new_buffer_writer-IsWriter}
use go_pandora_pay.Buffers.RoundTrip.{reader_after}
use go_pandora_pay.Transaction.{
  serialize_manual_to_bytes, serialize_advanced, serialize_for_signing, deserialize,
}
use go_pandora_pay.Transaction.Encoding.{deserialize-serialize_transaction}
use go_pandora_pay.Transaction.Signing.{
  FitsTransaction, transaction_of, content, serialize_for_signing-injective,
}
use go_pandora_pay.Transaction.Samples.{
  no_zether, no_zether_codec, parts-FitsUpdate, given, tx, tx-Fits,
}

abbrev front : List ℕ → List ℕ
front text = take 32 text

given-FitsTransaction : FitsTransaction given
given-FitsTransaction = record {
  space_extra = omega arith;
  tx_data = inl (refl, refl);
  parts = (omega arith, omega arith, (refl, refl), parts-FitsUpdate);
}

deserialize-serialize_transaction_example :
    (text : List ℕ) × (w' : BufferWriter) × (serialize_manual_to_bytes no_zether front tx ≡ ok text)
    × (serialize_advanced no_zether front tx true new_buffer_writer ≡ ok w')
    × (deserialize no_zether front (reader_after new_buffer_writer w' (3 ∷ []) []) ≡ (
      ok (record tx {
        bloom = some (record {
          serialized = text;
          size = length text;
          hash = front text;
          hash_str = front text;
          bloomed = true;
        });
      }),
      reader_after w' w' (3 ∷ []) [],
    ))
deserialize-serialize_transaction_example =
    deserialize-serialize_transaction no_zether no_zether_codec front tx new_buffer_writer (3 ∷ [])
      [] new_buffer_writer-IsWriter (tx-Fits front)

serialize_for_signing-injective_example :
    (a : List ℕ) × (b : List ℕ) × (serialize_for_signing no_zether front (transaction_of given)
      ≡ ok a)
    × (serialize_for_signing no_zether front (transaction_of given) ≡ ok b)
    × (a ≡ b → (content given ≡ content given) ⊎ Collision front)
serialize_for_signing-injective_example =
    serialize_for_signing-injective no_zether front given given given-FitsTransaction
      given-FitsTransaction
