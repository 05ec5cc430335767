-- ===== src/TransactionSimple/Encoding.antt =====
-- The bytes of the extras and of the input of a simple transaction.
use go_pandora_pay.Prelude.{
  ℕ, ◌%◌, ◌≤◌, ◌≡◌, sym, ◌++◌, Bool, true, false, List, [], ◌∷◌, length, All, if◌then◌else◌, arith,
  ◌⊎◌, inl, inr,
}
use go_pandora_pay.Buffers.{
  write, write_bool, write_byte, read_bool, read_byte, read_bytes, public_key_size, hash_size,
}
use go_pandora_pay.Buffers.Framing.{
  Frames, Frames-bind, Frames-last, Frames-pure, read_bool-Frames, read_byte-Frames,
  read_bytes-Frames,
}
use go_pandora_pay.Buffers.Written.{
  Appends, Appends-then, write-Appends, write_bool-Appends, write_byte-Appends,
}
use go_pandora_pay.Buffers.Checked.{AppendsOk, AppendsOk-ok, Appends-AppendsOk}
use go_pandora_pay.Liquidity.{serialize_list, deserialize_list}
use go_pandora_pay.Liquidity.Encoding.{list_bytes, serialize_list-Appends, deserialize_list-Frames}
use go_pandora_pay.Liquidity.Encoding
use go_pandora_pay.TransactionSimple.{
  TransactionSimpleInput, UpdateAssetFeeLiquidity, ResolutionConditionalPayment, signature_size,
}
use go_pandora_pay.TransactionSimple.Write.{
  serialize_input, serialize_update, write_signed, write_resolution, serialize_resolution,
}
use go_pandora_pay.TransactionSimple.Read.{
  deserialize_input, read_collector, deserialize_update, read_signed, deserialize_resolution,
}
use mathlib.Core.List.{append-nil}

abbrev flag : Bool → List ℕ
flag value = (if value then 1 else 0) ∷ []

abbrev pub FitsInput : TransactionSimpleInput → Type 0
FitsInput vin = (length vin.public_key ≡ public_key_size) × (length vin.signature ≡ signature_size)

abbrev pub input_bytes : TransactionSimpleInput → List ℕ
input_bytes vin = vin.public_key ++ vin.signature

pub serialize_input-Appends :
    (vin : TransactionSimpleInput)
    → Appends (serialize_input vin true) (input_bytes vin)
      × Appends (serialize_input vin false) vin.public_key
unfolding serialize_input
serialize_input-Appends vin = (
  Appends-then (write vin.public_key) (write vin.signature) _ _ (write-Appends vin.public_key)
      (write-Appends vin.signature),
  write-Appends vin.public_key,
)

pub deserialize_input-Frames :
    (vin : TransactionSimpleInput) → FitsInput vin → Frames deserialize_input (input_bytes vin) vin
unfolding deserialize_input
deserialize_input-Frames vin (k, s) =
    Frames-bind (read_bytes public_key_size) _ (rw k at (read_bytes-Frames vin.public_key)) (
      Frames-last (read_bytes signature_size) _ (rw s at (read_bytes-Frames vin.signature))
        (Frames-pure vin))

-- An update names a collector of the size of a key with its flag, and none without.
pub record FitsUpdate (this : UpdateAssetFeeLiquidity) : Type 0 where
  pub entries : All Encoding.Fits this.liquidities
  pub few : length this.liquidities ≤ 255
  pub collector :
      ((this.new_collector ≡ true) × (length this.collector ≡ public_key_size))
      ⊎ ((this.new_collector ≡ false) × (this.collector ≡ []))

abbrev pub update_bytes : UpdateAssetFeeLiquidity → List ℕ
update_bytes this =
    flag this.new_collector
    ++ (this.collector ++ ((length this.liquidities % 256 ∷ []) ++ list_bytes this.liquidities))

pub serialize_update-Appends :
    (this : UpdateAssetFeeLiquidity) → Appends (serialize_update this) (update_bytes this)
unfolding serialize_update
serialize_update-Appends this =
    Appends-then (write_bool this.new_collector) _ _ _ (write_bool-Appends this.new_collector) (
      Appends-then (write this.collector) _ _ _ (write-Appends this.collector) (
        Appends-then (write_byte (length this.liquidities % 256)) (serialize_list this.liquidities)
          _ _ (write_byte-Appends (length this.liquidities % 256))
          (serialize_list-Appends this.liquidities)))

read_collector-Frames :
    (new_collector : Bool) (collector : List ℕ)
    → ((new_collector ≡ true) × (length collector ≡ public_key_size))
      ⊎ ((new_collector ≡ false) × (collector ≡ []))
    → Frames (read_collector new_collector) collector collector
unfolding read_collector
read_collector-Frames new_collector collector (inl (there, size)) =
    rw there (rw size at (read_bytes-Frames collector))
read_collector-Frames new_collector collector (inr (not_there, empty)) =
    rw (not_there, empty) (Frames-pure [])

pub deserialize_update-Frames :
    (this : UpdateAssetFeeLiquidity)
    → FitsUpdate this
    → Frames deserialize_update (update_bytes this) this
unfolding deserialize_update
deserialize_update-Frames this f =
    let count : length this.liquidities % 256 ≡ length this.liquidities = omega (arith, f.few) in
    Frames-bind read_bool _ (read_bool-Frames this.new_collector) (
      Frames-bind (read_collector this.new_collector) _
        (read_collector-Frames this.new_collector this.collector f.collector)
        (Frames-bind read_byte _ (read_byte-Frames (length this.liquidities % 256)) (
          Frames-last (deserialize_list (length this.liquidities % 256)) _
            (rw count (deserialize_list-Frames this.liquidities f.entries)) (Frames-pure this))))

-- The slices of a list all have one size.
abbrev pub Sized : ℕ → List (List ℕ) → Type 0
Sized size l = All (λ p. length p ≡ size) l

pub record FitsResolution (this : ResolutionConditionalPayment) : Type 0 where
  pub tx_id : length this.tx_id ≡ hash_size
  pub keys : Sized public_key_size this.multisig_public_keys
  pub signatures : Sized signature_size this.signatures
  pub count : length this.multisig_public_keys ≡ length this.signatures
  pub few : length this.signatures ≤ 255

pub signed_bytes : List (List ℕ) → List (List ℕ) → List ℕ
signed_bytes [] signatures = []
signed_bytes (key ∷ keys) [] = []
signed_bytes (key ∷ keys) (signature ∷ signatures) =
    key ++ (signature ++ signed_bytes keys signatures)

write_signed-AppendsOk :
    (keys signatures : List (List ℕ))
    → length keys ≡ length signatures
    → AppendsOk (write_signed keys signatures) (signed_bytes keys signatures)
unfolding write_signed signed_bytes
write_signed-AppendsOk [] signatures h = AppendsOk-ok (λ w. w) [] (λ w v. (v, sym (append-nil _)))
write_signed-AppendsOk (key ∷ keys) [] h = absurd (omega arith)
write_signed-AppendsOk (key ∷ keys) (signature ∷ signatures) h =
    Appends-AppendsOk (write key) _ key _ (write-Appends key) (
      Appends-AppendsOk (write signature) (write_signed keys signatures) signature _
        (write-Appends signature) (write_signed-AppendsOk keys signatures (omega arith)))

read_signed-Frames :
    (keys signatures : List (List ℕ))
    → length keys ≡ length signatures
    → Sized public_key_size keys
    → Sized signature_size signatures
    → Frames (read_signed (length signatures)) (signed_bytes keys signatures) (keys, signatures)
unfolding read_signed signed_bytes
read_signed-Frames [] [] h k s = Frames-pure ([], [])
read_signed-Frames [] (signature ∷ signatures) h k s = absurd (omega arith)
read_signed-Frames (key ∷ keys) [] h k s = absurd (omega arith)
read_signed-Frames (key ∷ keys) (signature ∷ signatures) h (k, ks) (s, ss) =
    Frames-bind (read_bytes public_key_size) _ (rw k at (read_bytes-Frames key)) (
      Frames-bind (read_bytes signature_size) _ (rw s at (read_bytes-Frames signature)) (
        Frames-last (read_signed (length signatures)) _
          (read_signed-Frames keys signatures (omega arith) ks ss)
          (Frames-pure (key ∷ keys, signature ∷ signatures))))

abbrev pub resolution_head : ResolutionConditionalPayment → List ℕ
resolution_head this = this.tx_id ++ ((this.payload_index ∷ []) ++ flag this.resolution)

pub write_resolution-Appends :
    (this : ResolutionConditionalPayment) → Appends (write_resolution this) (resolution_head this)
unfolding write_resolution
write_resolution-Appends this = Appends-then (write this.tx_id) _ _ _ (write-Appends this.tx_id) (
    Appends-then (write_byte this.payload_index) (write_bool this.resolution) _ _
      (write_byte-Appends this.payload_index) (write_bool-Appends this.resolution))

abbrev pub resolution_bytes : ResolutionConditionalPayment → List ℕ
resolution_bytes this =
    this.tx_id
    ++ ((this.payload_index ∷ [])
        ++ (flag this.resolution
            ++ ((length this.signatures % 256 ∷ [])
                ++ signed_bytes this.multisig_public_keys this.signatures)))

pub serialize_resolution-AppendsOk :
    (this : ResolutionConditionalPayment)
    → length this.multisig_public_keys ≡ length this.signatures
    → AppendsOk (serialize_resolution this) (resolution_bytes this)
unfolding serialize_resolution write_resolution
serialize_resolution-AppendsOk this h =
    Appends-AppendsOk (write this.tx_id) _ _ _ (write-Appends this.tx_id) (
      Appends-AppendsOk (write_byte this.payload_index) _ _ _
        (write_byte-Appends this.payload_index)
        (Appends-AppendsOk (write_bool this.resolution) _ _ _ (write_bool-Appends this.resolution) (
          Appends-AppendsOk (write_byte (length this.signatures % 256))
            (write_signed this.multisig_public_keys this.signatures) _ _
            (write_byte-Appends (length this.signatures % 256))
            (write_signed-AppendsOk this.multisig_public_keys this.signatures h))))

pub deserialize_resolution-Frames :
    (this : ResolutionConditionalPayment)
    → FitsResolution this
    → Frames deserialize_resolution (resolution_bytes this) this
unfolding deserialize_resolution
deserialize_resolution-Frames this f =
    let n : length this.signatures % 256 ≡ length this.signatures = omega (arith, f.few) in
    Frames-bind (read_bytes hash_size) _ (rw f.tx_id at (read_bytes-Frames this.tx_id)) (
      Frames-bind read_byte _ (read_byte-Frames this.payload_index) (
        Frames-bind read_bool _ (read_bool-Frames this.resolution) (
          Frames-bind read_byte _ (read_byte-Frames (length this.signatures % 256)) (
            Frames-last (read_signed (length this.signatures % 256)) _
              (rw n (
                read_signed-Frames this.multisig_public_keys this.signatures f.count f.keys
                  f.signatures))
              (Frames-pure this)))))
