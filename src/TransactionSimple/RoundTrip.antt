-- ===== src/TransactionSimple/RoundTrip.antt =====
-- SerializeAdvanced and Deserialize of transaction_simple.go put together.
use go_pandora_pay.Prelude.{ℕ, ap, ◌∙◌, ◌≡◌, refl, ◌++◌, inl, inr, true, List, [], some, arith}
use go_pandora_pay.Prelude.Result.{ok}
use go_pandora_pay.SafeMath.{IsU64}
use go_pandora_pay.Buffers.{BufferWriter, Read, read_byte, read_uvarint, put_uvarint}
use go_pandora_pay.Buffers.Framing.{
  Frames, Frames-bind, Frames-last, Frames-pure, read_byte-Frames, read_uvarint-Frames,
  read_variable_bytes-Frames,
}
use go_pandora_pay.Buffers.Written.{IsWriter}
use go_pandora_pay.Buffers.Checked.{read_back}
use go_pandora_pay.Buffers.RoundTrip.{reader_after}
use go_pandora_pay.TransactionSimple.{
  TransactionSimple, TransactionSimpleInput, update_extra, resolution_extra, empty_transaction,
}
use go_pandora_pay.TransactionSimple.Write.{serialize_advanced}
use go_pandora_pay.TransactionSimple.Read.{
  transactions_max_data_length, deserialize_input, deserialize_update, deserialize_resolution,
  deserialize_extra, known_script, read_data, read_vin, deserialize_with, deserialize,
}
use mathlib.Core.List.{append_assoc}
use go_pandora_pay.TransactionSimple.Encoding.{
  FitsInput, input_bytes, update_bytes, deserialize_input-Frames, deserialize_update-Frames,
  deserialize_resolution-Frames,
}
use go_pandora_pay.TransactionSimple.Layout.{
  Parts, update_parts, resolution_parts, assemble, FitsParts, FitsData, transaction_bytes,
  serialize_advanced-AppendsOk, LengthsAgree, data_bytes,
}

read_data-Frames :
    (data_version : ℕ) (tx_data : List ℕ)
    → FitsData data_version tx_data
    → Frames (read_data data_version []) (data_bytes data_version tx_data) tx_data
unfolding read_data
read_data-Frames data_version tx_data (inl (none_there, empty)) =
    rw (none_there, empty) (Frames-pure [])
read_data-Frames data_version tx_data (inr (inl plain, few)) =
    rw plain (read_variable_bytes-Frames transactions_max_data_length tx_data few (omega arith))
read_data-Frames data_version tx_data (inr (inr encrypted, few)) =
    rw encrypted (read_variable_bytes-Frames transactions_max_data_length tx_data few (omega arith))

-- The parts with another input.
pub with_input : (TransactionSimpleInput → TransactionSimpleInput) → Parts → Parts
with_input see (update_parts nonce fee vin this) = update_parts nonce fee (see vin) this
with_input see (resolution_parts this) = resolution_parts this

module _ (read_input : Read TransactionSimpleInput) (signed : TransactionSimpleInput → List ℕ)
    (see : TransactionSimpleInput → TransactionSimpleInput)
    (reads : (vin : TransactionSimpleInput)
      → FitsInput vin
      → Frames read_input (signed vin) (see vin)) where
  -- What Deserialize has when it comes to the input.
  abbrev headed : ℕ → ℕ → List ℕ → TransactionSimple
  headed tx_script data_version tx_data = record empty_transaction {
    tx_script = tx_script;
    data_version = data_version;
    tx_data = tx_data;
  }

  read_vin-Frames :
      (data_version : ℕ) (tx_data : List ℕ) (nonce fee : ℕ) (vin : TransactionSimpleInput)
      → IsU64 nonce
      → IsU64 fee
      → FitsInput vin
      → Frames
          (read_vin read_input (headed 0 data_version tx_data))
          (put_uvarint 9 nonce ++ (put_uvarint 9 fee ++ signed vin))
          (record (headed 0 data_version tx_data) {
            nonce = nonce;
            fee = fee;
            vin = some (see vin);
          })
  unfolding read_vin
  read_vin-Frames data_version tx_data nonce fee vin n f i =
      Frames-bind read_uvarint _ (read_uvarint-Frames nonce n) (
        Frames-bind read_uvarint _ (read_uvarint-Frames fee f)
          (Frames-last read_input _ (reads vin i) (Frames-pure _)))

  vin_first : (n f s u : List ℕ) → (n ++ (f ++ s)) ++ u ≡ n ++ (f ++ (s ++ u))
  vin_first n f s u = append_assoc n (f ++ s) u ∙ ap (λ t. n ++ t) (append_assoc f s u)

  pub deserialize_with-Frames :
      (data_version : ℕ) (tx_data : List ℕ) (parts : Parts)
      → FitsData data_version tx_data
      → FitsParts parts
      → Frames
          (deserialize_with read_input empty_transaction)
          (transaction_bytes signed data_version tx_data parts)
          (assemble data_version tx_data (with_input see parts))
  unfolding deserialize_with assemble with_input empty_transaction
  deserialize_with-Frames data_version tx_data (update_parts nonce fee vin this) fd (n, f, i, u) =
      Frames-bind read_uvarint _ (read_uvarint-Frames 0 (omega arith)) (
        Frames-bind (known_script 0) _ {bs = []} (Frames-pure tt) (
          Frames-bind read_byte _ (read_byte-Frames data_version) (
            Frames-bind (read_data data_version []) _ (read_data-Frames data_version tx_data fd) (
              rw
                (← vin_first (put_uvarint 9 nonce) (put_uvarint 9 fee) (signed vin)
                  (update_bytes this))
                (Frames-bind (read_vin read_input (headed 0 data_version tx_data)) _
                  (read_vin-Frames data_version tx_data nonce fee vin n f i)
                  (Frames-last (deserialize_extra 0) _
                    (Frames-last deserialize_update _ (deserialize_update-Frames this u)
                      (Frames-pure (update_extra this)))
                    (Frames-pure
                      (assemble data_version tx_data (update_parts nonce fee (see vin) this)))))))))
  deserialize_with-Frames data_version tx_data (resolution_parts this) fd f =
      Frames-bind read_uvarint _ (read_uvarint-Frames 1 (omega arith)) (
        Frames-bind (known_script 1) _ {bs = []} (Frames-pure tt) (
          Frames-bind read_byte _ (read_byte-Frames data_version) (
            Frames-bind (read_data data_version []) _ (read_data-Frames data_version tx_data fd) (
              Frames-bind (read_vin read_input (headed 1 data_version tx_data)) _ {bs = []}
                (Frames-pure (headed 1 data_version tx_data))
                (Frames-last (deserialize_extra 1) _
                  (Frames-last deserialize_resolution _ (deserialize_resolution-Frames this f)
                    (Frames-pure (resolution_extra this)))
                  (Frames-pure (assemble data_version tx_data (resolution_parts this))))))))

pub FitsParts-lengths : (parts : Parts) → FitsParts parts → LengthsAgree parts
FitsParts-lengths (update_parts nonce fee vin this) f = tt
FitsParts-lengths (resolution_parts this) f = f.count

with_input_self : (parts : Parts) → with_input (λ vin. vin) parts ≡ parts
unfolding with_input
with_input_self (update_parts nonce fee vin this) = refl
with_input_self (resolution_parts this) = refl

pub deserialize-Frames :
    (data_version : ℕ) (tx_data : List ℕ) (parts : Parts)
    → FitsData data_version tx_data
    → FitsParts parts
    → Frames
        (deserialize empty_transaction)
        (transaction_bytes input_bytes data_version tx_data parts)
        (assemble data_version tx_data parts)
unfolding deserialize
deserialize-Frames data_version tx_data parts fd fp = rw (with_input_self parts) at (
    deserialize_with-Frames deserialize_input input_bytes (λ vin. vin) deserialize_input-Frames
      data_version tx_data parts fd fp)

-- SerializeAdvanced with signatures goes through behind any writer, and Deserialize into a new
-- transaction reads back what it wrote and is left behind those bytes: for an update with a nonce, a
-- fee and an input, and for a resolution, with no data or up to 512 bytes of it, whose fields have
-- the sizes that Deserialize reads and an update a collector exactly if it names a new one.
pub deserialize-serialize_advanced :
    (data_version : ℕ) (tx_data : List ℕ) (parts : Parts) (w : BufferWriter) (rest spare : List ℕ)
    → IsWriter w
    → FitsData data_version tx_data
    → FitsParts parts
    → let tx = assemble data_version tx_data parts in
      (w' : BufferWriter) × (serialize_advanced tx true w ≡ ok w')
      × (deserialize empty_transaction (reader_after w w' rest spare)
          ≡ (ok tx, reader_after w' w' rest spare))
deserialize-serialize_advanced data_version tx_data parts w rest spare writer fd fp =
    read_back (serialize_advanced (assemble data_version tx_data parts) true)
      (deserialize empty_transaction) (transaction_bytes input_bytes data_version tx_data parts)
      (assemble data_version tx_data parts)
      (serialize_advanced-AppendsOk true data_version tx_data parts (FitsParts-lengths parts fp))
      (deserialize-Frames data_version tx_data parts fd fp) w rest spare writer
