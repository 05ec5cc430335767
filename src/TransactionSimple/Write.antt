-- ===== src/TransactionSimple/Write.antt =====
-- SerializeAdvanced of transaction_simple.go and the Serialize methods of its parts. An input that is
-- nil, and a signature that is missing, panic.
use go_pandora_pay.Prelude.{
  ℕ, not, ◌%◌, Bool, true, false, ◌||◌, Option, none, some, List, [], ◌∷◌, length, ◌==◌,
  if◌then◌else◌,
}
use go_pandora_pay.Prelude.Result.{Result, ok, panic, ◌>>=◌}
use go_pandora_pay.Buffers.{
  BufferWriter, bytes, new_buffer_writer, write, write_bool, write_byte, write_uvarint,
  write_variable_bytes,
}
use go_pandora_pay.Liquidity.{serialize_list}
use go_pandora_pay.TransactionSimple.{
  TxError, TransactionSimple, TransactionSimpleInput, UpdateAssetFeeLiquidity,
  ResolutionConditionalPayment, Extra, update_extra, resolution_extra, has_vin, tx_data_plain_text,
  tx_data_encrypted, script_resolution_conditional_payment,
}

abbrev pub Writing : Type 0
Writing = Result TxError BufferWriter

unfoldable pub serialize_input : TransactionSimpleInput → Bool → BufferWriter → BufferWriter
serialize_input vin incl_signature w =
    let w' = write vin.public_key w in if incl_signature then write vin.signature w' else w'

unfoldable pub serialize_update : UpdateAssetFeeLiquidity → BufferWriter → BufferWriter
serialize_update this w = serialize_list this.liquidities (
    write_byte (length this.liquidities % 256)
      (write this.collector (write_bool this.new_collector w)))

-- `for i := range this.MultisigPublicKeys { w.Write(…[i]); w.Write(this.Signatures[i]) }`
unfoldable pub write_signed : List (List ℕ) → List (List ℕ) → BufferWriter → Writing
write_signed [] signatures w = ok w
write_signed (key ∷ keys) [] w = panic
write_signed (key ∷ keys) (signature ∷ signatures) w =
    write_signed keys signatures (write signature (write key w))

-- The head of a resolution, which is also what is signed.
unfoldable pub write_resolution : ResolutionConditionalPayment → BufferWriter → BufferWriter
write_resolution this w =
    write_bool this.resolution (write_byte this.payload_index (write this.tx_id w))

unfoldable pub serialize_resolution : ResolutionConditionalPayment → BufferWriter → Writing
unfolding write_signed write_resolution
serialize_resolution this w =
    write_signed this.multisig_public_keys this.signatures
      (write_byte (length this.signatures % 256) (write_resolution this w))

unfoldable pub serialize_extra : Extra → BufferWriter → Writing
unfolding serialize_update serialize_resolution
serialize_extra (update_extra this) w = ok (serialize_update this w)
serialize_extra (resolution_extra this) w = serialize_resolution this w

-- `if tx.Extra != nil { tx.Extra.Serialize(w, inclSignature) }`
unfoldable pub serialize_some_extra : Option Extra → BufferWriter → Writing
unfolding serialize_extra
serialize_some_extra none w = ok w
serialize_some_extra (some extra) w = serialize_extra extra w

unfoldable pub serialize_data : TransactionSimple → BufferWriter → BufferWriter
serialize_data tx w =
    let w' = write_byte tx.data_version (write_uvarint tx.tx_script w) in
    if tx.data_version == tx_data_plain_text || tx.data_version == tx_data_encrypted
    then write_variable_bytes tx.tx_data w'
    else w'

unfoldable pub serialize_some_vin : Option TransactionSimpleInput → Bool → BufferWriter → Writing
unfolding serialize_input
serialize_some_vin none incl_signature w = panic
serialize_some_vin (some vin) incl_signature w = ok (serialize_input vin incl_signature w)

-- `if tx.HasVin() { … }`
unfoldable pub serialize_vin : TransactionSimple → Bool → BufferWriter → Writing
unfolding has_vin serialize_some_vin
serialize_vin tx incl_signature w =
    if has_vin tx.tx_script
    then serialize_some_vin tx.vin incl_signature (write_uvarint tx.fee (write_uvarint tx.nonce w))
    else ok w

unfoldable pub serialize_advanced : TransactionSimple → Bool → BufferWriter → Writing
unfolding serialize_data serialize_vin serialize_some_extra
serialize_advanced tx incl_signature w =
    serialize_vin tx incl_signature (serialize_data tx w) >>= λ w'. serialize_some_extra tx.extra w'

unfoldable pub serialize : TransactionSimple → BufferWriter → Writing
unfolding serialize_advanced
serialize tx w = serialize_advanced tx true w

module _ (sha3 : List ℕ → List ℕ) where
  unfoldable pub message_for_signing : ResolutionConditionalPayment → List ℕ
  unfolding write_resolution
  message_for_signing this = sha3 (bytes (write_resolution this new_buffer_writer))

  module _ (verify_signature : List ℕ → List ℕ → List ℕ → Bool) where
    -- The loop of VerifySignature of a resolution
    unfoldable pub verify_all : List ℕ → List (List ℕ) → List (List ℕ) → Result TxError Bool
    verify_all msg [] signatures = ok true
    verify_all msg (key ∷ keys) [] = panic
    verify_all msg (key ∷ keys) (signature ∷ signatures) =
        let rest = verify_all msg keys signatures in
        if verify_signature msg signature key then rest else ok false

    unfoldable pub verify_resolution : ResolutionConditionalPayment → Result TxError Bool
    unfolding message_for_signing verify_all
    verify_resolution this =
        verify_all (message_for_signing this) this.multisig_public_keys this.signatures

    -- `extra := tx.Extra.(*…ResolutionConditionalPayment)`, which panics on another type
    unfoldable pub verify_extra : Option Extra → Result TxError Bool
    unfolding verify_resolution
    verify_extra none = panic
    verify_extra (some (update_extra this)) = panic
    verify_extra (some (resolution_extra this)) = verify_resolution this

    unfoldable pub verify_vin : List ℕ → Option TransactionSimpleInput → Result TxError Bool
    verify_vin hash none = panic
    verify_vin hash (some vin) = ok (verify_signature hash vin.signature vin.public_key)

    unfoldable pub verify_signature_manually : List ℕ → TransactionSimple → Result TxError Bool
    unfolding has_vin verify_vin verify_extra
    verify_signature_manually hash tx =
        (if has_vin tx.tx_script then verify_vin hash tx.vin else ok true) >>= λ signed.
        if not signed
        then ok false
        else if tx.tx_script == script_resolution_conditional_payment
        then verify_extra tx.extra
        else ok true
