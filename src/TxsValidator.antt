-- ===== src/TxsValidator.antt =====
-- txs_validator/txs_validator_worker.go: what a worker does with a transaction, without its channels and
-- the map of finished work. The signatures of transaction.go are here too. What verifies a zether
-- transaction, with proofs over a curve, are parameters: `zether_signature` is its
-- VerifySignatureManually, and `zether_proofs` the loops over its payloads in verifyTx.
pub mod Outcome
mod Tests
use go_pandora_pay.Prelude.{ℕ, Bool, true, false, not, List, ◌==◌, if◌then◌else◌}
use go_pandora_pay.Prelude.Result.{Result, ok, err, panic, ◌>>=◌, ◌>>◌}
use go_pandora_pay.TransactionSimple.{TxError, signature_failed, invalid_tx_version}
use go_pandora_pay.TransactionSimple.Write.{verify_signature_manually}
use go_pandora_pay.Transaction.{
  Transaction, AnyBase, simple, zether, tx_simple, tx_zether, serialize_for_signing, bloom_all,
  verify_bloom_all,
}
use go_pandora_pay.Transaction.Base.{TransactionBaseInterface}

module _ {Z : Type 0} (interface : TransactionBaseInterface Z) (sha3 : List ℕ → List ℕ)
    (verify_signature : List ℕ → List ℕ → List ℕ → Bool)
    (zether_signature : List ℕ → Z → Result TxError Bool)
    (zether_proofs : List ℕ → Z → Result TxError (Unit {0})) where
  -- VerifySignatureManually of the value behind the interface
  unfoldable pub verify_base_signature : List ℕ → AnyBase Z → Result TxError Bool
  verify_base_signature hash (simple tx) = verify_signature_manually sha3 verify_signature hash tx
  verify_base_signature hash (zether tx) = zether_signature hash tx

  -- VerifySignatureManually of a transaction
  unfoldable pub verify_signature_of : Transaction Z → Result TxError Bool
  unfolding verify_base_signature
  verify_signature_of tx =
      serialize_for_signing interface sha3 tx >>= λ hash. verify_base_signature hash tx.base

  unfoldable pub signed_or_failed : Result TxError Bool → Result TxError (Unit {0})
  signed_or_failed r = r >>= λ signed. if signed then ok tt else err signature_failed

  -- `base := foundWork.tx.TransactionBaseInterface.(*TransactionZether)`, which panics on another
  -- type, and the loops over its payloads
  unfoldable pub verify_payloads : List ℕ → AnyBase Z → Result TxError (Unit {0})
  verify_payloads hash (simple tx) = panic
  verify_payloads hash (zether tx) = zether_proofs hash tx

  unfoldable pub verify_tx : Transaction Z → Result TxError (Unit {0})
  unfolding verify_signature_of signed_or_failed verify_payloads
  verify_tx tx =
      verify_bloom_all interface sha3 tx
      >> (if tx.version == tx_simple
          then signed_or_failed (verify_signature_of tx)
          else if tx.version == tx_zether
          then (serialize_for_signing interface sha3 tx >>= λ hash. verify_payloads hash tx.base)
          else err invalid_tx_version)

  -- The body of the loop of `run`: the result of the work.
  unfoldable pub run_work : Transaction Z → Result TxError (Unit {0})
  unfolding verify_tx
  run_work tx = let (bloomed, tx') = bloom_all interface sha3 tx in bloomed >> verify_tx tx'
