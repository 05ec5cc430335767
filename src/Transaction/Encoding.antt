-- ===== src/Transaction/Encoding.antt =====
-- SerializeAdvanced and Deserialize of transaction.go, over an interface whose own two agree.
use go_pandora_pay.Prelude.{
  ℕ, ◌<◌, ◌≡◌, sym, ◌++◌, true, false, List, [], none, some, leb, arith, length,
}
use go_pandora_pay.Prelude.Result.{ok}
use go_pandora_pay.SafeMath.{IsU64}
use go_pandora_pay.Buffers.{BufferWriter, write_uvarint, read_uvarint, put_uvarint}
use go_pandora_pay.Buffers.Framing.{
  Frames, Frames-bind, Frames-last, Frames-pure, read_uvarint-Frames,
}
use go_pandora_pay.Buffers.Written.{IsWriter, write_uvarint-Appends}
use go_pandora_pay.Buffers.Checked.{AppendsOk, Appends-AppendsOk, read_back, bytes-AppendsOk}
use go_pandora_pay.Buffers.RoundTrip.{reader_after}
use go_pandora_pay.Buffers.Since.{with_bytes, Frames-with_bytes}
use go_pandora_pay.TransactionSimple.{TransactionSimple}
use go_pandora_pay.TransactionSimple.Layout.{
  Parts, assemble, FitsParts, FitsData, transaction_bytes, serialize_advanced-AppendsOk,
}
use go_pandora_pay.TransactionSimple.RoundTrip.{FitsParts-lengths, deserialize-Frames}
use go_pandora_pay.TransactionSimple.Encoding.{input_bytes}
use go_pandora_pay.Transaction.{
  Transaction, AnyBase, simple, zether, tx_simple, tx_zether, serialize_base, serialize_advanced,
  serialize_manual_to_bytes, bloom_of, read_base, known_version, deserialize_fields, deserialize,
}
use go_pandora_pay.Transaction.Base.{TransactionBaseInterface, simple_base}
use mathlib.Core.Path.{subst}

-- The values that `Fits` write bytes that read back as themselves.
pub record Codec {T : Type 0} (interface : TransactionBaseInterface T) : Type 1 where
  pub Fits : T → Type 0
  pub encodes :
      (t : T)
      → Fits t
      → (bs : List ℕ) × AppendsOk (interface.serialize_advanced t true) bs
        × Frames interface.deserialize bs t

-- The simple transactions of TransactionSimple/Layout.
abbrev pub FitsSimple : TransactionSimple → Type 0
FitsSimple tx =
    (data_version : ℕ) × (tx_data : List ℕ) × (parts : Parts) × (tx
      ≡ assemble data_version tx_data parts)
    × FitsData data_version tx_data
    × FitsParts parts

simple_encodes :
    (tx : TransactionSimple)
    → FitsSimple tx
    → (bs : List ℕ) × AppendsOk (simple_base.serialize_advanced tx true) bs
      × Frames simple_base.deserialize bs tx
simple_encodes tx (data_version, tx_data, parts, e, fd, fp) =
    subst
      (λ tx.
        (bs : List ℕ) × AppendsOk (simple_base.serialize_advanced tx true) bs
        × Frames simple_base.deserialize bs tx)
      (sym e)
      (
        transaction_bytes input_bytes data_version tx_data parts,
        serialize_advanced-AppendsOk true data_version tx_data parts (FitsParts-lengths parts fp),
        deserialize-Frames data_version tx_data parts fd fp,
      )

module _ {Z : Type 0} (interface : TransactionBaseInterface Z) (codec : Codec interface)
    (sha3 : List ℕ → List ℕ) where
  -- The version is that of the type of the base, and the base has its encoding.
  abbrev pub FitsBase : ℕ → AnyBase Z → Type 0
  FitsBase version (simple tx) = (version ≡ tx_simple) × FitsSimple tx
  FitsBase version (zether tx) = (version ≡ tx_zether) × codec.Fits tx

  base_encodes :
      (version : ℕ) (base : AnyBase Z)
      → FitsBase version base
      → (bs : List ℕ) × AppendsOk (serialize_base interface sha3 base true) bs
        × Frames (read_base interface sha3 version) bs base
        × (version < 2)
  unfolding read_base
  base_encodes version (simple tx) (e, f) =
      let (bs, writes, reads) = simple_encodes tx f in
      (
        bs,
        writes,
        rw e (Frames-last simple_base.deserialize _ reads (Frames-pure (simple tx))),
        omega arith,
      )
  base_encodes version (zether tx) (e, f) =
      let (bs, writes, reads) = codec.encodes tx f in
      (
        bs,
        writes,
        rw e (Frames-last interface.deserialize _ reads (Frames-pure (zether tx))),
        omega arith,
      )

  -- A transaction with no bloom whose numbers and base have their encodings.
  pub record Fits (tx : Transaction Z) : Type 0 where
    pub base : FitsBase tx.version tx.base
    pub space_extra : IsU64 tx.space_extra
    pub bare : tx.bloom ≡ none

  known_version-Frames : (n : ℕ) → n < 2 → Frames (known_version interface sha3 n) [] tt
  unfolding known_version
  known_version-Frames n h = let few : leb 2 n ≡ false = ground arith in rw few (Frames-pure tt)

  -- The bytes of such a transaction.
  pub transaction_encodes :
      (tx : Transaction Z)
      → Fits tx
      → (bs : List ℕ) × AppendsOk (serialize_advanced interface sha3 tx true) bs
        × Frames (deserialize_fields interface sha3) bs tx
  unfolding serialize_advanced deserialize_fields
  transaction_encodes tx f =
      let (bs, writes, reads, few) = base_encodes tx.version tx.base f.base in
      (
        put_uvarint 9 tx.version ++ (put_uvarint 9 tx.space_extra ++ bs),
        Appends-AppendsOk (write_uvarint tx.version) _ _ _ (write_uvarint-Appends tx.version) (
            Appends-AppendsOk (write_uvarint tx.space_extra)
              (serialize_base interface sha3 tx.base true) _ _
              (write_uvarint-Appends tx.space_extra) writes),
        Frames-bind read_uvarint _ (read_uvarint-Frames tx.version (omega arith)) (
            Frames-bind (known_version interface sha3 tx.version) _ {bs = []}
              (known_version-Frames tx.version few)
              (Frames-bind read_uvarint _ (read_uvarint-Frames tx.space_extra f.space_extra) (
                Frames-last (read_base interface sha3 tx.version) _ reads
                  (rw (← f.bare) (Frames-pure tx))))),
      )

  bytes_of_write :
      (tx : Transaction Z) (bs : List ℕ)
      → AppendsOk (serialize_advanced interface sha3 tx true) bs
      → serialize_manual_to_bytes interface sha3 tx ≡ ok bs
  unfolding serialize_manual_to_bytes
  bytes_of_write tx bs writes =
      let (w', goes, e) = bytes-AppendsOk (serialize_advanced interface sha3 tx true) bs writes in
      ground arith

  -- Deserialize takes the bytes of SerializeManualToBytes.
  pub transaction-Frames :
      (tx : Transaction Z) (text : List ℕ)
      → Fits tx
      → serialize_manual_to_bytes interface sha3 tx ≡ ok text
      → Frames
          (deserialize interface sha3)
          text
          (record tx { bloom = some (bloom_of interface sha3 text) })
  unfolding deserialize
  transaction-Frames tx text f e =
      let (bs, writes, reads) = transaction_encodes tx f in
      let same : bs ≡ text = cc (bytes_of_write tx bs writes, e) in
      Frames-last (with_bytes (deserialize_fields interface sha3)) _
        (Frames-with_bytes (deserialize_fields interface sha3) (rw same at reads))
        (Frames-pure (record tx { bloom = some (bloom_of interface sha3 text) }))

  -- SerializeManualToBytes of a transaction goes through, and so does SerializeAdvanced behind any
  -- writer; Deserialize reads the transaction back from what that wrote, with a bloom that has the
  -- bytes of SerializeManualToBytes, their size and their hash, and is left behind those bytes: for a
  -- transaction with no bloom whose version is that of its base, whose space is a uint64, and whose
  -- base is a simple transaction that reads back or one that the interface writes and reads back.
  pub deserialize-serialize_transaction :
      (tx : Transaction Z) (w : BufferWriter) (rest spare : List ℕ)
      → IsWriter w
      → Fits tx
      → (text : List ℕ) × (w' : BufferWriter) × (serialize_manual_to_bytes interface sha3 tx
          ≡ ok text)
        × (serialize_advanced interface sha3 tx true w ≡ ok w')
        × (deserialize interface sha3 (reader_after w w' rest spare) ≡ (
          ok (record tx {
            bloom = some (record {
              serialized = text;
              size = length text;
              hash = sha3 text;
              hash_str = sha3 text;
              bloomed = true;
            });
          }),
          reader_after w' w' rest spare,
        ))
  unfolding bloom_of
  deserialize-serialize_transaction tx w rest spare writer f =
      let (bs, writes, reads) = transaction_encodes tx f in
      let (w', goes, back) =
        read_back (serialize_advanced interface sha3 tx true) (deserialize interface sha3) bs
          (record tx { bloom = some (bloom_of interface sha3 bs) }) writes
          (transaction-Frames tx bs f (bytes_of_write tx bs writes)) w rest spare writer in
      (bs, w', bytes_of_write tx bs writes, goes, back)
