-- ===== src/Address/Encoding.antt =====
-- The text of an address of address.go before its code: what serialize writes and readFields reads.
use go_pandora_pay.Prelude.{
  ℕ, ◌≡◌, ◌⊎◌, inl, inr, refl, sym, Bool, true, List, [], ◌∷◌, ◌++◌, length, All, All-append, ◌<◌,
  ltb, if◌then◌else◌, arith,
}
use go_pandora_pay.Prelude.Result.{ok}
use go_pandora_pay.SafeMath.{IsU64}
use go_pandora_pay.Buffers.{
  pure, read_bytes, read_uvarint, write, write_uvarint, put_uvarint, public_key_size, asset_length,
}
use go_pandora_pay.Buffers.Varint.{put_uvarint-bytes}
use go_pandora_pay.Kernel.Bounds.{Byte}
use go_pandora_pay.Buffers.Framing.{
  Frames, Frames-bind, Frames-last, Frames-pure, read_bytes-Frames, read_uvarint-Frames,
}
use go_pandora_pay.Buffers.Written.{
  Appends, Appends-then, write-Appends, write_uvarint-Appends, written,
}
use go_pandora_pay.TransactionSimple.{signature_size}
use go_pandora_pay.Address.{
  Address, simple_public_key, main_net, test_net, dev_net, prefix_length, integration_bytes,
  has_flag, write_if, write_amount_if, serialize, prefix_of, network_of, read_if, read_key,
  read_fields, new_addr,
}
use go_pandora_pay.Address.Flags.{flags, flags-HasFlags}
use mathlib.Core.List.{append-nil}
use mathlib.Core.Path.{subst}

abbrev NoneOr : ℕ → List ℕ → Type 0
NoneOr n field = (length field ≡ 0) ⊎ (length field ≡ n)

abbrev pub AreBytes : List ℕ → Type 0
AreBytes = All Byte

-- The fields of an address are slices of bytes.
pub record OfBytes (a : Address) : Type 0 where
  pub public_key : AreBytes a.public_key
  pub spend_public_key : AreBytes a.spend_public_key
  pub registration : AreBytes a.registration
  pub payment_id : AreBytes a.payment_id
  pub payment_asset : AreBytes a.payment_asset

-- What newAddr asks of the fields, and a payment amount that is a uint64.
pub record Sized (a : Address) : Type 0 where
  pub version : a.version ≡ simple_public_key
  pub public_key : length a.public_key ≡ public_key_size
  pub spend_public_key : NoneOr public_key_size a.spend_public_key
  pub registration : NoneOr signature_size a.registration
  pub payment_id : NoneOr 8 a.payment_id
  pub payment_amount : IsU64 a.payment_amount
  pub payment_asset : NoneOr asset_length a.payment_asset

abbrev pub IsNetwork : ℕ → Type 0
IsNetwork network = (network ≡ main_net) ⊎ (network ≡ test_net) ⊎ (network ≡ dev_net)

read_if-Frames :
    (n : ℕ) (field : List ℕ) (flag : Bool)
    → flag ≡ ltb 0 (length field)
    → NoneOr n field
    → Frames (read_if flag (read_bytes n) []) field field
unfolding read_if
read_if-Frames n [] flag e h = rw e (Frames-pure [])
read_if-Frames n (byte ∷ field) flag e (inl h) = absurd (omega arith)
read_if-Frames n (byte ∷ field) flag e (inr h) =
    let set : flag ≡ true = ground arith in rw (set, ← h) (read_bytes-Frames (byte ∷ field))

write_if-Appends : (field : List ℕ) → Appends (write_if (ltb 0 (length field)) field) field
unfolding write_if
write_if-Appends [] w v = (v, sym (append-nil (written w)))
write_if-Appends (byte ∷ field) w v =
    let set : ltb 0 (length (byte ∷ field)) ≡ true = ground arith in
    rw set (write-Appends (byte ∷ field) w v)

abbrev amount_bytes : ℕ → List ℕ
amount_bytes amount = if ltb 0 amount then put_uvarint 9 amount else []

read_amount-Frames :
    (amount : ℕ) (flag : Bool)
    → flag ≡ ltb 0 amount
    → IsU64 amount
    → Frames (read_if flag read_uvarint 0) (amount_bytes amount) amount
unfolding read_if
read_amount-Frames ℕ.zero flag e h = rw e (Frames-pure 0)
read_amount-Frames (ℕ.suc amount) flag e h =
    let set : ltb 0 (ℕ.suc amount) ≡ true = ground arith in
    rw (e, set) (read_uvarint-Frames (ℕ.suc amount) h)

write_amount-Appends :
    (amount : ℕ) → Appends (write_amount_if (ltb 0 amount) amount) (amount_bytes amount)
unfolding write_amount_if
write_amount-Appends ℕ.zero w v = (v, sym (append-nil (written w)))
write_amount-Appends (ℕ.suc amount) w v =
    let set : ltb 0 (ℕ.suc amount) ≡ true = ground arith in
    rw set (write_uvarint-Appends (ℕ.suc amount) w v)

abbrev pub address_bytes : Address → List ℕ
address_bytes a =
    put_uvarint 9 a.version
    ++ (a.public_key
        ++ (put_uvarint 9 (integration_bytes a)
            ++ (a.spend_public_key
                ++ (a.registration
                    ++ (a.payment_id ++ (amount_bytes a.payment_amount ++ a.payment_asset))))))

pub serialize-Appends : (a : Address) → Appends (serialize a) (address_bytes a)
unfolding serialize
serialize-Appends a =
    Appends-then (write_uvarint a.version) _ _ _ (write_uvarint-Appends a.version) (
      Appends-then (write a.public_key) _ _ _ (write-Appends a.public_key) (
        Appends-then (write_uvarint (integration_bytes a)) _ _ _
          (write_uvarint-Appends (integration_bytes a))
          (Appends-then (write_if (ltb 0 (length a.spend_public_key)) a.spend_public_key) _ _ _
            (write_if-Appends a.spend_public_key)
            (Appends-then (write_if (ltb 0 (length a.registration)) a.registration) _ _ _
              (write_if-Appends a.registration)
              (Appends-then (write_if (ltb 0 (length a.payment_id)) a.payment_id) _ _ _
                (write_if-Appends a.payment_id)
                (Appends-then (write_amount_if (ltb 0 a.payment_amount) a.payment_amount)
                  (write_if (ltb 0 (length a.payment_asset)) a.payment_asset) _ _
                  (write_amount-Appends a.payment_amount) (write_if-Appends a.payment_asset)))))))

uvarint-AreBytes : (v : ℕ) → IsU64 v → AreBytes (put_uvarint 9 v)
uvarint-AreBytes v h = put_uvarint-bytes 9 v (omega arith)

amount-AreBytes : (amount : ℕ) → IsU64 amount → AreBytes (amount_bytes amount)
amount-AreBytes ℕ.zero h = tt
amount-AreBytes (ℕ.suc amount) h =
    let set : ltb 0 (ℕ.suc amount) ≡ true = ground arith in
    rw set (uvarint-AreBytes (ℕ.suc amount) h)

integration_bytes-small : (a : Address) → integration_bytes a < 64
unfolding integration_bytes flags
integration_bytes-small a =
    (flags-HasFlags a.staked (ltb 0 (length a.spend_public_key)) (ltb 0 (length a.registration))
      (ltb 0 (length a.payment_id)) (ltb 0 a.payment_amount) (ltb 0 (length a.payment_asset))).small

-- The text of an address before its code is bytes, and not empty.
pub address_bytes-AreBytes : (a : Address) → Sized a → OfBytes a → AreBytes (address_bytes a)
address_bytes-AreBytes a s o =
    All-append Byte _ _ (uvarint-AreBytes a.version (omega (arith, s.version))) (
      All-append Byte _ _ o.public_key (
        All-append Byte _ _
          (uvarint-AreBytes (integration_bytes a) (omega (arith, integration_bytes-small a)))
          (All-append Byte _ _ o.spend_public_key (
            All-append Byte _ _ o.registration (
              All-append Byte _ _ o.payment_id (
                All-append Byte _ _ (amount-AreBytes a.payment_amount s.payment_amount)
                  o.payment_asset))))))

read_key-Frames : (a : Address) → Sized a → Frames (read_key a.version) a.public_key a.public_key
unfolding read_key
read_key-Frames a s = rw (s.version, ← s.public_key) (read_bytes-Frames a.public_key)

pub read_fields-Frames :
    (a : Address) → Sized a → Frames (read_fields a.network) (address_bytes a) a
unfolding read_fields integration_bytes flags
read_fields-Frames a s =
    let f =
      flags-HasFlags a.staked (ltb 0 (length a.spend_public_key)) (ltb 0 (length a.registration))
        (ltb 0 (length a.payment_id)) (ltb 0 a.payment_amount) (ltb 0 (length a.payment_asset)) in
    let n : ℕ = integration_bytes a in
    Frames-bind read_uvarint _ (read_uvarint-Frames a.version (omega (arith, s.version))) (
      Frames-bind (read_key a.version) _ (read_key-Frames a s) (
        Frames-bind read_uvarint _ (read_uvarint-Frames n (omega (arith, f.small))) (
          Frames-bind (read_if (has_flag n 2) (read_bytes public_key_size) []) _
            (read_if-Frames public_key_size a.spend_public_key _ f.spend_public_key
              s.spend_public_key)
            (Frames-bind (read_if (has_flag n 4) (read_bytes signature_size) []) _
              (read_if-Frames signature_size a.registration _ f.registration s.registration)
              (Frames-bind (read_if (has_flag n 8) (read_bytes 8) []) _
                (read_if-Frames 8 a.payment_id _ f.payment_id s.payment_id)
                (Frames-bind (read_if (has_flag n 16) read_uvarint 0) _
                  (read_amount-Frames a.payment_amount _ f.payment_amount s.payment_amount)
                  (Frames-last (read_if (has_flag n 32) (read_bytes asset_length) []) _
                    (read_if-Frames asset_length a.payment_asset _ f.payment_asset s.payment_asset)
                    (subst (λ staked. Frames (pure (record a { staked = staked })) [] a)
                      (sym f.staked) (Frames-pure a)))))))))

pub network_prefix :
    (network : ℕ)
    → IsNetwork network
    → (prefix : List ℕ) × (prefix_of network ≡ ok prefix)
      × (length prefix ≡ prefix_length)
      × (network_of prefix ≡ ok network)
unfolding prefix_of network_of
network_prefix network (inl e) = rw e (_, refl, refl, refl)
network_prefix network (inr (inl e)) = rw e (_, refl, refl, refl)
network_prefix network (inr (inr e)) = rw e (_, refl, refl, refl)

-- The fields that newAddr lets through are those of the address.
pub create_addr-Sized :
    (network version : ℕ) (public_key : List ℕ) (staked : Bool)
    (spend_public_key registration payment_id : List ℕ) (payment_amount : ℕ)
    (payment_asset : List ℕ) (a : Address)
    → new_addr network version public_key staked spend_public_key registration payment_id
        payment_amount payment_asset
      ≡ ok a
    → IsU64 payment_amount
    → (a.network ≡ network) × Sized a
unfolding new_addr
create_addr-Sized network version public_key staked spend_public_key registration payment_id
      payment_amount payment_asset a e h =
    (
      ground arith,
      record {
        version = ground arith;
        public_key = ground arith;
        spend_public_key = ground arith;
        registration = ground arith;
        payment_id = ground arith;
        payment_amount = ground arith;
        payment_asset = ground arith;
      },
    )
