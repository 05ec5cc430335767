-- ===== src/Transaction.antt =====
-- blockchain/transactions/transaction/transaction.go and transaction_bloom.go: a transaction over one of
-- the two types behind TransactionBaseInterface. The simple one is TransactionSimple's; what is
-- called of the zether one is the parameter `zether`.
pub mod Base
pub mod Encoding
pub mod Blooming
pub mod Signing
pub mod Samples
mod Tests
use go_pandora_pay.Prelude.{
  ℕ, Bool, true, false, not, Option, none, some, List, length, leb, ◌==◌, if◌then◌else◌,
}
use go_pandora_pay.Prelude.Result.{Result, ok, err, panic, fail_if}
use go_pandora_pay.Buffers.{
  BufferWriter, Read, pure, fail, ◌>>=◌, invalid_tx_type, read_uvarint, write, write_uvarint, bytes,
  new_buffer_writer,
}
use go_pandora_pay.Buffers.Since.{with_bytes}
use go_pandora_pay.TransactionSimple.{TxError, version_invalid, not_bloomed, TransactionSimple}
use go_pandora_pay.TransactionSimple.Write.{Writing}
use go_pandora_pay.Transaction.Base.{TransactionBaseInterface, simple_base}

pub record TransactionBloom : Type 0 where
  pub serialized : List ℕ
  pub size : ℕ
  pub hash : List ℕ
  pub hash_str : List ℕ
  pub bloomed : Bool

-- TransactionVersion is a uint64.
abbrev pub tx_simple : ℕ
tx_simple = 0

abbrev pub tx_zether : ℕ
tx_zether = 1

abbrev pub tx_end : ℕ
tx_end = 2

-- The value behind TransactionBaseInterface, by its type.
pub data AnyBase (Z : Type 0) : Type 0 where
  simple : TransactionSimple → AnyBase Z
  zether : Z → AnyBase Z

pub record Transaction (Z : Type 0) : Type 0 where
  pub base : AnyBase Z
  pub version : ℕ
  pub space_extra : ℕ
  -- `none` is nil
  pub bloom : Option TransactionBloom

module _ {Z : Type 0} (interface : TransactionBaseInterface Z) (sha3 : List ℕ → List ℕ) where
  abbrev pub serialize_base : AnyBase Z → Bool → BufferWriter → Writing
  serialize_base (simple tx) incl_signature w = simple_base.serialize_advanced tx incl_signature w
  serialize_base (zether tx) incl_signature w = interface.serialize_advanced tx incl_signature w

  abbrev pub validate_base : AnyBase Z → Result TxError (Unit {0})
  validate_base (simple tx) = simple_base.validate tx
  validate_base (zether tx) = interface.validate tx

  abbrev pub bloom_base : AnyBase Z → Result TxError (AnyBase Z)
  bloom_base (simple tx) = elim (simple_base.bloom_now tx) [
    | ok tx' ↦ ok (simple tx')
    | err e ↦ err e
    | panic ↦ panic
  ]
  bloom_base (zether tx) = elim (interface.bloom_now tx) [
    | ok tx' ↦ ok (zether tx')
    | err e ↦ err e
    | panic ↦ panic
  ]

  abbrev pub verify_base : AnyBase Z → Result TxError (Unit {0})
  verify_base (simple tx) = simple_base.verify_bloom_all tx
  verify_base (zether tx) = interface.verify_bloom_all tx

  unfoldable pub serialize_advanced : Transaction Z → Bool → BufferWriter → Writing
  serialize_advanced tx incl_signature w =
      serialize_base tx.base incl_signature
        (write_uvarint tx.space_extra (write_uvarint tx.version w))

  -- `writer.Bytes()` behind SerializeAdvanced over a new writer
  unfoldable pub serialized_bytes : Transaction Z → Bool → Result TxError (List ℕ)
  unfolding serialize_advanced
  serialized_bytes tx incl_signature =
      elim (serialize_advanced tx incl_signature new_buffer_writer) [
        | ok w ↦ ok (bytes w)
        | err e ↦ err e
        | panic ↦ panic
      ]

  unfoldable pub serialize_manual_to_bytes : Transaction Z → Result TxError (List ℕ)
  unfolding serialized_bytes
  serialize_manual_to_bytes tx = serialized_bytes tx true

  unfoldable pub serialize_for_signing : Transaction Z → Result TxError (List ℕ)
  unfolding serialized_bytes
  serialize_for_signing tx = elim (serialized_bytes tx false) [
    | ok text ↦ ok (sha3 text)
    | err e ↦ err e
    | panic ↦ panic
  ]

  -- `w.Write(tx.Bloom.Serialized)`, a nil pointer without a bloom
  unfoldable pub serialize : Transaction Z → BufferWriter → Writing
  serialize tx w = elim tx.bloom [ none ↦ panic | some bloom ↦ ok (write bloom.serialized w) ]

  unfoldable pub validate : Transaction Z → Result TxError (Unit {0})
  validate tx = if leb tx_end tx.version then err version_invalid else validate_base tx.base

  unfoldable pub bloom_of : List ℕ → TransactionBloom
  bloom_of serialized =
      let hash = sha3 serialized in
      record {
        serialized = serialized;
        size = length serialized;
        hash = hash;
        hash_str = hash;
        bloomed = true;
      }

  -- The base by the version, read behind the space that it names.
  unfoldable pub read_base : ℕ → Read (AnyBase Z)
  read_base version =
      if version == tx_simple
      then (simple_base.deserialize >>= λ tx. pure (simple tx))
      else (interface.deserialize >>= λ tx. pure (zether tx))

  unfoldable pub known_version : ℕ → Read (Unit {0})
  known_version n = if leb tx_end n then fail invalid_tx_type else pure tt

  unfoldable pub deserialize_fields : Read (Transaction Z)
  unfolding read_base known_version
  deserialize_fields = do
    n ← read_uvarint
    _ ← known_version n
    space_extra ← read_uvarint
    base ← read_base n
    pure (record { base = base; version = n; space_extra = space_extra; bloom = none })

  unfoldable pub deserialize : Read (Transaction Z)
  unfolding deserialize_fields with_bytes bloom_of
  deserialize = do
    (tx, serialized) ← with_bytes deserialize_fields
    pure (record tx { bloom = some (bloom_of serialized) })

  -- `return tx.bloomExtraNow()`: the outcome and the transaction
  unfoldable pub bloom_extra_now : Transaction Z → Result TxError (Unit {0}) × Transaction Z
  bloom_extra_now tx = elim (bloom_base tx.base) [
    | ok base ↦ (ok tt, record tx { base = base })
    | err e ↦ (err e, tx)
    | panic ↦ (panic, tx)
  ]

  -- The bloom of a valid transaction that has none.
  unfoldable pub bloom_new : Transaction Z → Result TxError (Unit {0}) × Transaction Z
  unfolding serialize_manual_to_bytes bloom_of bloom_extra_now
  bloom_new tx = elim (serialize_manual_to_bytes tx) [
    | ok serialized ↦ bloom_extra_now (record tx { bloom = some (bloom_of serialized) })
    | err e ↦ (err e, tx)
    | panic ↦ (panic, tx)
  ]

  unfoldable pub bloom_all : Transaction Z → Result TxError (Unit {0}) × Transaction Z
  unfolding validate bloom_new bloom_extra_now
  bloom_all tx = elim tx.bloom [
    | some bloom ↦ bloom_extra_now tx
    | none ↦ elim (validate tx) [ ok _ ↦ bloom_new tx | err e ↦ (err e, tx) | panic ↦ (panic, tx) ]
  ]

  unfoldable pub verify_bloom_all : Transaction Z → Result TxError (Unit {0})
  verify_bloom_all tx = elim tx.bloom [
    | none ↦ err not_bloomed
    | some bloom ↦ if not bloom.bloomed then err not_bloomed else verify_base tx.base
  ]

  unfoldable pub verify : Transaction Z → Result TxError (Unit {0})
  unfolding verify_bloom_all
  verify tx = verify_bloom_all tx
