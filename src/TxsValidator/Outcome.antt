-- ===== src/TxsValidator/Outcome.antt =====
-- The result of a worker on a simple transaction that was read from bytes.
use go_pandora_pay.Prelude.{
  ℕ, arith, ◌≡◌, ◌⊎◌, inl, inr, refl, ap, Bool, true, false, Bool-cases, List, [], ◌∷◌, length,
  none, some, if◌then◌else◌,
}
use go_pandora_pay.Prelude.Result.{Result, ok, err}
use go_pandora_pay.Buffers.Written.{bytes-Appends}
use go_pandora_pay.TransactionSimple.{
  TxError, TransactionSimple, ResolutionConditionalPayment, signature_failed,
}
use go_pandora_pay.TransactionSimple.Write.{
  verify_all, message_for_signing, write_resolution, verify_signature_manually, serialize_advanced,
}
use go_pandora_pay.TransactionSimple.Encoding.{resolution_head, write_resolution-Appends}
use go_pandora_pay.TransactionSimple.Layout.{
  assemble, Parts, update_parts, resolution_parts, LengthsAgree,
}
use go_pandora_pay.TransactionSimple.RoundTrip.{FitsParts-lengths}
use go_pandora_pay.Transaction.{bloom_of, serialize_for_signing, verify}
use go_pandora_pay.Transaction.Base.{TransactionBaseInterface}
use go_pandora_pay.Transaction.Blooming.{bloomed, bloom_all_read}
use go_pandora_pay.Transaction.Signing.{
  Simple, transaction_of, FitsTransaction, signed_text, signing_bytes,
}
use go_pandora_pay.TxsValidator.{run_work}

module _ {Z : Type 0} (interface : TransactionBaseInterface Z) (sha3 : List ℕ → List ℕ)
    (verify_signature : List ℕ → List ℕ → List ℕ → Bool)
    (zether_signature : List ℕ → Z → Result TxError Bool)
    (zether_proofs : List ℕ → Z → Result TxError (Unit {0})) where
  abbrev base_of : Simple → TransactionSimple
  base_of s = assemble s.data_version s.tx_data s.parts

  -- The blooms are no part of what is signed and of what is verified.
  signed_bloomed :
      (s : Simple) (text : List ℕ)
      → serialize_for_signing interface sha3
          (bloomed interface sha3 (base_of s) text (transaction_of s))
        ≡ serialize_for_signing interface sha3 (transaction_of s)
  unfolding serialize_for_signing serialize_advanced
  signed_bloomed s text = refl

  verified_bloomed :
      (hash : List ℕ) (base : TransactionSimple)
      → verify_signature_manually sha3 verify_signature hash (record base { bloom = some true })
        ≡ verify_signature_manually sha3 verify_signature hash base
  unfolding verify_signature_manually
  verified_bloomed hash base = refl

  assemble-bare : (s : Simple) → (base_of s).bloom ≡ none
  unfolding assemble
  assemble-bare s = go s.parts
    where
      go : (p : Parts) → (assemble s.data_version s.tx_data p).bloom ≡ none
      go (update_parts nonce fee vin this) = refl
      go (resolution_parts this) = refl

  -- Each key stands beside a signature of the message that is verified with it.
  abbrev pub AllSigned : List ℕ → List (List ℕ) → List (List ℕ) → Type 0
  AllSigned message [] [] = Unit {0}
  AllSigned message [] (signature ∷ signatures) = ⊥
  AllSigned message (key ∷ keys) [] = ⊥
  AllSigned message (key ∷ keys) (signature ∷ signatures) =
      (verify_signature message signature key ≡ true) × AllSigned message keys signatures

  -- An update is signed by its input over the hash for signing, and a resolution by each of its keys
  -- over the hash of its id, its index and its decision.
  abbrev pub SignedBy : List ℕ → Parts → Type 0
  SignedBy hash (update_parts nonce fee vin this) =
      verify_signature hash vin.signature vin.public_key ≡ true
  SignedBy hash (resolution_parts this) =
      AllSigned (sha3 (resolution_head this)) this.multisig_public_keys this.signatures

  abbrev pub Signed : Simple → Type 0
  Signed s = SignedBy (sha3 (signing_bytes s)) s.parts

  verify_all_cases :
      (message : List ℕ) (keys signatures : List (List ℕ))
      → length keys ≡ length signatures
      → (AllSigned message keys signatures
          × (verify_all sha3 verify_signature message keys signatures ≡ ok true))
        ⊎ ((¬ AllSigned message keys signatures)
            × (verify_all sha3 verify_signature message keys signatures ≡ ok false))
  unfolding verify_all
  verify_all_cases message [] [] e = inl (tt, refl)
  verify_all_cases message [] (signature ∷ signatures) e = absurd (omega arith)
  verify_all_cases message (key ∷ keys) [] e = absurd (omega arith)
  verify_all_cases message (key ∷ keys) (signature ∷ signatures) e =
      elim (Bool-cases (verify_signature message signature key)) [
        | inl good ↦ elim (verify_all_cases message keys signatures (omega arith)) [
          | inl (all, goes) ↦ inl ((good, all), rw (good, goes))
          | inr (not_all, fails) ↦ inr ((λ signed. not_all signed.1), rw (good, fails))
        ]
        | inr bad ↦ inr ((λ signed. absurd (cc (bad, signed.0))), rw bad)
      ]

  message-resolution_head :
      (this : ResolutionConditionalPayment)
      → message_for_signing sha3 this ≡ sha3 (resolution_head this)
  unfolding message_for_signing
  message-resolution_head this =
      ap sha3 (
        bytes-Appends (write_resolution this) (resolution_head this)
          (write_resolution-Appends this))

  -- What VerifySignatureManually of the simple transaction finds.
  verified_cases :
      (hash : List ℕ) (data_version : ℕ) (tx_data : List ℕ) (parts : Parts)
      → LengthsAgree parts
      → let verified =
          verify_signature_manually sha3 verify_signature hash
            (assemble data_version tx_data parts) in
        (SignedBy hash parts × (verified ≡ ok true))
        ⊎ ((¬ SignedBy hash parts) × (verified ≡ ok false))
  unfolding verify_signature_manually assemble
  verified_cases hash data_version tx_data (update_parts nonce fee vin this) h =
      elim (Bool-cases (verify_signature hash vin.signature vin.public_key)) [
        | inl good ↦ inl (good, rw good)
        | inr bad ↦ inr ((λ signed. absurd (cc (bad, signed))), rw bad)
      ]
  verified_cases hash data_version tx_data (resolution_parts this) h =
      rw (message-resolution_head this)
        (verify_all_cases (sha3 (resolution_head this)) this.multisig_public_keys this.signatures h)

  worked :
      (s : Simple) (text : List ℕ) (verified : Bool)
      → FitsTransaction s
      → verify_signature_manually sha3 verify_signature (sha3 (signing_bytes s)) (base_of s)
        ≡ ok verified
      → run_work interface sha3 verify_signature zether_signature zether_proofs
          (record (transaction_of s) { bloom = some (bloom_of interface sha3 text) })
        ≡ (if verified then ok tt else err signature_failed)
  unfolding run_work verify
  worked s text verified f e =
      let (goes, passes) =
        bloom_all_read interface sha3 (base_of s) text (transaction_of s) refl (assemble-bare s) in
      let signed = signed_text interface sha3 s f in
      ground (arith, signed_bloomed s text, verified_bloomed (sha3 (signing_bytes s)) (base_of s))

  -- A worker on a simple transaction that was read, which has its bloom from Deserialize, and whose
  -- fields have the sizes that Deserialize reads: it gives no error exactly if the transaction is
  -- signed, an update by its input over the hash for signing, a resolution by each of its keys over
  -- the hash of its id, index and decision; else it gives the error that the signature failed.
  -- Validate has no part in it.
  pub run_work_read :
      (s : Simple) (text : List ℕ)
      → FitsTransaction s
      → let worked =
          run_work interface sha3 verify_signature zether_signature zether_proofs
            (record (transaction_of s) { bloom = some (bloom_of interface sha3 text) }) in
        (Signed s × (worked ≡ ok tt)) ⊎ ((¬ Signed s) × (worked ≡ err signature_failed))
  run_work_read s text f =
      elim (verified_cases (sha3 (signing_bytes s)) s.data_version s.tx_data s.parts
        (FitsParts-lengths s.parts f.parts)) [
          | inl (signed, goes) ↦ inl (signed, worked s text true f goes)
          | inr (unsigned, fails) ↦ inr (unsigned, worked s text false f fails)
        ]
