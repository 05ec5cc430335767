-- ===== src/Transaction/Signing.antt =====
-- SerializeForSigning of transaction.go on simple transactions: what a signature binds.
use go_pandora_pay.Prelude.{ℕ, ◌≡◌, ◌++◌, ◌⊎◌, inl, inr, false, List, [], none, arith}
use go_pandora_pay.Prelude.Collision.{Collision, eq_or_Collision}
use go_pandora_pay.Prelude.Result.{ok}
use go_pandora_pay.SafeMath.{IsU64}
use go_pandora_pay.Buffers.{
  Read, pure, ◌>>=◌, read_bytes, read_uvarint, write_uvarint, put_uvarint, public_key_size,
}
use go_pandora_pay.Buffers.Framing.{
  Frames, Frames-bind, Frames-last, Frames-pure, Frames-injective, read_bytes-Frames,
  read_uvarint-Frames,
}
use go_pandora_pay.Buffers.Written.{write_uvarint-Appends}
use go_pandora_pay.Buffers.Checked.{AppendsOk, Appends-AppendsOk, bytes-AppendsOk}
use go_pandora_pay.TransactionSimple.{TransactionSimple, TransactionSimpleInput, empty_transaction}
use go_pandora_pay.TransactionSimple.Encoding.{FitsInput}
use go_pandora_pay.TransactionSimple.Read.{deserialize_with}
use go_pandora_pay.TransactionSimple.Layout.{
  Parts, assemble, FitsParts, FitsData, transaction_bytes, signed_by, serialize_advanced-AppendsOk,
}
use go_pandora_pay.TransactionSimple.RoundTrip.{
  with_input, FitsParts-lengths, deserialize_with-Frames,
}
use go_pandora_pay.Transaction.{
  Transaction, simple, tx_simple, serialize_advanced, serialize_for_signing,
}
use go_pandora_pay.Transaction.Base.{TransactionBaseInterface}

-- An input with its signature left out.
abbrev pub unsigned : TransactionSimpleInput → TransactionSimpleInput
unsigned vin = record vin { signature = [] }

-- A read of the input as it stands in what is signed.
read_unsigned : Read TransactionSimpleInput
read_unsigned = read_bytes public_key_size >>= λ public_key.
    pure (record { public_key = public_key; signature = [] })

read_unsigned-Frames :
    (vin : TransactionSimpleInput)
    → FitsInput vin
    → Frames read_unsigned (signed_by false vin) (unsigned vin)
unfolding read_unsigned
read_unsigned-Frames vin (k, s) =
    Frames-last (read_bytes public_key_size) _ (rw k at (read_bytes-Frames vin.public_key))
      (Frames-pure (unsigned vin))

-- A simple transaction of its parts, with the space that it names.
pub record Simple : Type 0 where
  pub space_extra : ℕ
  pub data_version : ℕ
  pub tx_data : List ℕ
  pub parts : Parts

abbrev pub transaction_of : {Z : Type 0} → Simple → Transaction Z
transaction_of s = record {
  base = simple (assemble s.data_version s.tx_data s.parts);
  version = tx_simple;
  space_extra = s.space_extra;
  bloom = none;
}

pub record FitsTransaction (s : Simple) : Type 0 where
  pub space_extra : IsU64 s.space_extra
  pub tx_data : FitsData s.data_version s.tx_data
  pub parts : FitsParts s.parts

-- What the signed bytes tell.
abbrev pub content : Simple → ℕ × TransactionSimple
content s = (s.space_extra, assemble s.data_version s.tx_data (with_input unsigned s.parts))

pub signing_bytes : Simple → List ℕ
signing_bytes s =
    put_uvarint 9 0
    ++ (put_uvarint 9 s.space_extra
        ++ transaction_bytes (signed_by false) s.data_version s.tx_data s.parts)

read_content : Read (ℕ × TransactionSimple)
read_content = do
  _ ← read_uvarint
  space_extra ← read_uvarint
  tx ← deserialize_with read_unsigned empty_transaction
  pure (space_extra, tx)

read_content-Frames :
    (s : Simple) → FitsTransaction s → Frames read_content (signing_bytes s) (content s)
unfolding read_content signing_bytes
read_content-Frames s f = Frames-bind read_uvarint _ (read_uvarint-Frames 0 (omega arith)) (
    Frames-bind read_uvarint _ (read_uvarint-Frames s.space_extra f.space_extra) (
      Frames-last (deserialize_with read_unsigned empty_transaction) _
        (deserialize_with-Frames read_unsigned (signed_by false) unsigned read_unsigned-Frames
          s.data_version s.tx_data s.parts f.tx_data f.parts)
        (Frames-pure (content s))))

module _ {Z : Type 0} (interface : TransactionBaseInterface Z) (sha3 : List ℕ → List ℕ) where
  signing_writes :
      (s : Simple)
      → FitsTransaction s
      → AppendsOk (serialize_advanced interface sha3 (transaction_of s) false) (signing_bytes s)
  unfolding serialize_advanced signing_bytes
  signing_writes s f = Appends-AppendsOk (write_uvarint 0) _ _ _ (write_uvarint-Appends 0) (
      Appends-AppendsOk (write_uvarint s.space_extra) _ _ _ (write_uvarint-Appends s.space_extra) (
        serialize_advanced-AppendsOk false s.data_version s.tx_data s.parts
          (FitsParts-lengths s.parts f.parts)))

  pub signed_text :
      (s : Simple)
      → FitsTransaction s
      → serialize_for_signing interface sha3 (transaction_of s) ≡ ok (sha3 (signing_bytes s))
  unfolding serialize_for_signing
  signed_text s f =
      let (w', goes, e) =
        bytes-AppendsOk (serialize_advanced interface sha3 (transaction_of s) false)
          (signing_bytes s) (signing_writes s f) in
      ground arith

  -- SerializeForSigning of two simple transactions whose fields have the sizes that Deserialize reads
  -- goes through, and where it gives them one hash they have the same content, the signature of the
  -- input aside: the space, the script, the data, the nonce, the fee, the public key and the whole
  -- extra; or there are two texts with one hash.
  pub serialize_for_signing-injective :
      (s t : Simple)
      → FitsTransaction s
      → FitsTransaction t
      → (a : List ℕ) × (b : List ℕ) × (serialize_for_signing interface sha3 (transaction_of s)
          ≡ ok a)
        × (serialize_for_signing interface sha3 (transaction_of t) ≡ ok b)
        × (a ≡ b → (content s ≡ content t) ⊎ Collision sha3)
  serialize_for_signing-injective s t fs ft = (
    sha3 (signing_bytes s),
    sha3 (signing_bytes t),
    signed_text s fs,
    signed_text t ft,
    λ e. elim (eq_or_Collision sha3 (signing_bytes s) (signing_bytes t) e) [
      | inl same ↦
          inl (Frames-injective (rw same at (read_content-Frames s fs)) (read_content-Frames t ft))
      | inr collision ↦ inr collision
    ],
  )
