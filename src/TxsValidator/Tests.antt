-- ===== src/TxsValidator/Tests.antt =====
-- The work on a resolution that names one key twice, for a hash that keeps the first 32 bytes and
-- signatures that are all verified.
use go_pandora_pay.Prelude.{
  ℕ, ◌≡◌, ◌⊎◌, refl, inl, Bool, true, false, some, List, [], ◌∷◌, replicate, take, bytes_equal,
  arith,
}
use go_pandora_pay.Prelude.Result.{Result, ok, err}
use go_pandora_pay.TransactionSimple.{
  TxError, ResolutionConditionalPayment, duplicate_keys, signature_failed,
}
use go_pandora_pay.TransactionSimple.Write.{verify_signature_manually, serialize_advanced}
use go_pandora_pay.TransactionSimple.Layout.{resolution_parts, assemble}
use go_pandora_pay.TransactionSimple
use go_pandora_pay.Transaction.{bloom_of, serialize_for_signing}
use go_pandora_pay.Transaction
use go_pandora_pay.Transaction.Signing.{Simple, FitsTransaction, transaction_of}
use go_pandora_pay.Transaction.Samples.{no_zether}
use go_pandora_pay.TxsValidator.{run_work}
use go_pandora_pay.TxsValidator.Outcome.{Signed, run_work_read}

abbrev front : List ℕ → List ℕ
front text = take 32 text

abbrev verified : List ℕ → List ℕ → List ℕ → Bool
verified message signature public_key = true

abbrev verified_zether : List ℕ → Unit {0} → Result TxError Bool
verified_zether hash tx = ok true

abbrev proved_zether : List ℕ → Unit {0} → Result TxError (Unit {0})
proved_zether hash tx = ok tt

abbrev twice : ResolutionConditionalPayment
twice = record {
  tx_id = replicate 32 6;
  payload_index = 1;
  resolution = true;
  multisig_public_keys = replicate 33 1 ∷ replicate 33 1 ∷ [];
  signatures = replicate 64 2 ∷ replicate 64 2 ∷ [];
}

abbrev given : Simple
given = record { space_extra = 70; data_version = 0; tx_data = []; parts = resolution_parts twice }

given-FitsTransaction : FitsTransaction given
given-FitsTransaction = record {
  space_extra = omega arith;
  tx_data = inl (refl, refl);
  parts = record {
    tx_id = refl;
    keys = (refl, (refl, tt));
    signatures = (refl, (refl, tt));
    count = refl;
    few = omega arith;
  };
}

run_work_read_example :
    let worked =
      run_work no_zether front verified verified_zether proved_zether
        (record (transaction_of given) { bloom = some (bloom_of no_zether front (9 ∷ [])) }) in
    (Signed no_zether front verified verified_zether proved_zether given × (worked ≡ ok tt))
    ⊎ ((¬ Signed no_zether front verified verified_zether proved_zether given)
        × (worked ≡ err signature_failed))
run_work_read_example =
    run_work_read no_zether front verified verified_zether proved_zether given (9 ∷ [])
      given-FitsTransaction

-- Validate refuses it, and a worker does not.
validate_given : Transaction.validate no_zether front (transaction_of given) ≡ err duplicate_keys
unfolding Transaction.validate TransactionSimple.validate assemble bytes_equal
validate_given = refl

run_given :
    run_work no_zether front verified verified_zether proved_zether
      (record (transaction_of given) { bloom = some (bloom_of no_zether front (9 ∷ [])) })
    ≡ ok tt
unfolding run_work TransactionSimple.bloom_now TransactionSimple.verify_bloom_all assemble
    bytes_equal Transaction.bloom_all Transaction.verify_bloom_all serialize_for_signing
    serialize_advanced verify_signature_manually
run_given = refl

-- With no signature that is verified, the worker gives the error.
abbrev refused : List ℕ → List ℕ → List ℕ → Bool
refused message signature public_key = false

run_refused :
    run_work no_zether front refused verified_zether proved_zether
      (record (transaction_of given) { bloom = some (bloom_of no_zether front (9 ∷ [])) })
    ≡ err signature_failed
unfolding run_work TransactionSimple.bloom_now TransactionSimple.verify_bloom_all assemble
    bytes_equal Transaction.bloom_all Transaction.verify_bloom_all serialize_for_signing
    serialize_advanced verify_signature_manually
run_refused = refl
