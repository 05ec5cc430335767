-- ===== src/Transaction/Base.antt =====
-- transaction_base_interface.go: what a transaction calls of the value behind the interface, and the
-- simple transaction as one.
use go_pandora_pay.Prelude.{ℕ, Bool}
use go_pandora_pay.Prelude.Result.{Result, ok}
use go_pandora_pay.Buffers.{BufferWriter, Read}
use go_pandora_pay.TransactionSimple.{
  TxError, TransactionSimple, empty_transaction, validate, bloom_now, verify_bloom_all, compute_fee,
}
use go_pandora_pay.TransactionSimple.Write.{Writing, serialize_advanced}
use go_pandora_pay.TransactionSimple.Read.{deserialize}

-- Deserialize is that of a new value; BloomNow gives the value with its bloom.
pub record TransactionBaseInterface (T : Type 0) : Type 0 where
  pub compute_fee : T → Result TxError ℕ
  pub serialize_advanced : T → Bool → BufferWriter → Writing
  pub deserialize : Read T
  pub validate : T → Result TxError (Unit {0})
  pub bloom_now : T → Result TxError T
  pub verify_bloom_all : T → Result TxError (Unit {0})

abbrev pub simple_base : TransactionBaseInterface TransactionSimple
simple_base = record {
  compute_fee = compute_fee;
  serialize_advanced = serialize_advanced;
  deserialize = deserialize empty_transaction;
  validate = validate;
  bloom_now = λ tx. ok (bloom_now tx);
  verify_bloom_all = verify_bloom_all;
}
