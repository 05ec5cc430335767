-- ===== src/ConditionalPayment/Tests.antt =====
-- Conditional payments encoded and decoded, one that waits and one that is processed.
use go_pandora_pay.Prelude.{◌≡◌, refl, true, [], ◌∷◌, replicate, bytes_equal, arith}
use go_pandora_pay.Prelude.Result.{ok, err}
use go_pandora_pay.Buffers.{new_buffer_writer}
use go_pandora_pay.Buffers.Written.{new_buffer_writer-IsWriter}
use go_pandora_pay.Buffers.RoundTrip.{reader_after}
use go_pandora_pay.ConditionalPayment.{
  ConditionalPayment, new_conditional_payment, serialize, deserialize, validate, duplicate_multisig,
}
use go_pandora_pay.ConditionalPayment.Encoding.{FitsPending, stored, deserialize-serialize_payment}

abbrev payment : ConditionalPayment
payment = record (new_conditional_payment (5 ∷ []) 3 8) {
  tx_id = replicate 32 7;
  payload_index = 1;
  asset = replicate 20 0;
  default_resolution = true;
  receiver_public_keys = replicate 33 1 ∷ [];
  receiver_amounts = replicate 66 2 ∷ [];
  sender_public_keys = replicate 33 3 ∷ [];
  sender_amounts = replicate 66 4 ∷ [];
  multisig_threshold = 1;
  multisig_public_keys = replicate 33 6 ∷ [];
}

payment-FitsPending : FitsPending payment
payment-FitsPending = record {
  asset = refl;
  few = omega arith;
  receiver_public_keys = (refl, tt);
  receiver_amounts = (refl, tt);
  receiver_count = refl;
  sender_public_keys = (refl, tt);
  sender_count = refl;
  sender_amounts = (refl, tt);
  sender_amount_count = refl;
  multisig_public_keys = (refl, tt);
  multisig_count = omega arith;
}

deserialize-serialize_payment_example :
    deserialize
      (new_conditional_payment (5 ∷ []) 3 8)
      (reader_after new_buffer_writer (serialize payment new_buffer_writer) (4 ∷ []) [])
    ≡ (
      ok (stored payment),
      reader_after
          (serialize payment new_buffer_writer)
          (serialize payment new_buffer_writer)
          (4 ∷ [])
          [],
    )
unfolding new_conditional_payment
deserialize-serialize_payment_example =
    deserialize-serialize_payment payment new_buffer_writer (4 ∷ []) [] new_buffer_writer-IsWriter
      (omega arith) refl payment-FitsPending

stored_waiting : stored payment ≡ payment
unfolding stored new_conditional_payment
stored_waiting = refl

validate_payment : validate payment ≡ ok tt
unfolding validate new_conditional_payment
validate_payment = refl

validate_duplicate :
    validate (record payment { multisig_public_keys = replicate 33 6 ∷ replicate 33 6 ∷ [] })
    ≡ err duplicate_multisig
unfolding validate new_conditional_payment bytes_equal
validate_duplicate = refl
