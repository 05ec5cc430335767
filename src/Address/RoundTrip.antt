-- ===== src/Address/RoundTrip.antt =====
-- EncodeAddr and DecodeAddr of address.go.
use go_pandora_pay.Prelude.{
  ℕ, ◌-◌, ◌≡◌, ap, Bool, true, false, Option, some, List, [], ◌++◌, length, All-append, ◌<◌, take,
  drop, ltb, ◌==◌, bytes_equal_refl, length-append, take_append, drop_append, arith,
}
use go_pandora_pay.Prelude.Result.{ok}
use go_pandora_pay.SafeMath.{IsU64}
use go_pandora_pay.Buffers.{Outcome, bytes, new_buffer_writer}
use go_pandora_pay.Kernel.Bounds.{Byte}
use go_pandora_pay.Buffers.Written.{bytes-Appends}
use go_pandora_pay.Address.{
  Address, simple_public_key, checksum_size, prefix_length, serialize, prefix_of, network_of,
  read_outcome, create_addr, encode_addr, decode_buffer, decode_addr,
}
use go_pandora_pay.Address.Encoding.{
  AreBytes, OfBytes, Sized, IsNetwork, address_bytes, serialize-Appends, address_bytes-AreBytes,
  read_fields-Frames, network_prefix, create_addr-Sized,
}
use mathlib.Core.List.{append-nil}

module _ (base58_encode : List ℕ → List ℕ) (base58_decode : List ℕ → Option (List ℕ))
    (get_checksum : List ℕ → List ℕ) (network_selected : ℕ)
    (decodes : (buf : List ℕ)
      → 0 < length buf
      → AreBytes buf
      → base58_decode (base58_encode buf) ≡ some buf)
    (four : (buf : List ℕ) → length (get_checksum buf) ≡ checksum_size)
    (sum_bytes : (buf : List ℕ) → AreBytes (get_checksum buf)) where
  decode_buffer-serialize :
      (a : Address)
      → Sized a
      → let buffer = bytes (serialize a new_buffer_writer) in
        decode_buffer base58_encode base58_decode get_checksum network_selected a.network
          (buffer ++ get_checksum buffer)
        ≡ ok a
  unfolding decode_buffer read_outcome
  decode_buffer-serialize a s =
      let text : List ℕ = address_bytes a in
      let sum : List ℕ = get_checksum text in
      let written_text : bytes (serialize a new_buffer_writer) ≡ text =
        bytes-Appends (serialize a) text (serialize-Appends a) in
      let size : length (text ++ sum) - checksum_size ≡ length text =
        omega (arith, length-append text sum, four text) in
      let long : ltb (length (text ++ sum)) checksum_size ≡ false =
        ground (arith, length-append text sum, four text) in
      rw (
        written_text,
        long,
        size,
        take_append text sum,
        drop_append text sum,
        bytes_equal_refl sum,
        ap (λ (o : Outcome Address). read_outcome o)
            (rw (append-nil text) at ((read_fields-Frames a s).takes [] [] sum)),
      )

  encode_with :
      (a : Address) (prefix : List ℕ)
      → prefix_of a.network ≡ ok prefix
      → let buffer = bytes (serialize a new_buffer_writer) in
        encode_addr base58_encode base58_decode get_checksum network_selected a
        ≡ ok (prefix ++ base58_encode (buffer ++ get_checksum buffer))
  unfolding encode_addr
  encode_with a prefix goes = rw (encode_addr, goes)

  -- base58 decodes the code of the address.
  code_decodes :
      (a : Address)
      → Sized a
      → OfBytes a
      → let buffer = bytes (serialize a new_buffer_writer) in
        base58_decode (base58_encode (buffer ++ get_checksum buffer))
        ≡ some (buffer ++ get_checksum buffer)
  code_decodes a s o =
      let text : List ℕ = address_bytes a in
      let written_text : bytes (serialize a new_buffer_writer) ≡ text =
        bytes-Appends (serialize a) text (serialize-Appends a) in
      rw written_text (
        decodes (text ++ get_checksum text)
          (omega (arith, length-append text (get_checksum text), four text))
          (All-append Byte text (get_checksum text) (address_bytes-AreBytes a s o)
            (sum_bytes text)))

  decode_with :
      (a : Address) (prefix : List ℕ)
      → Sized a
      → OfBytes a
      → a.network ≡ network_selected
      → length prefix ≡ prefix_length
      → network_of prefix ≡ ok a.network
      → let buffer = bytes (serialize a new_buffer_writer) in
        decode_addr base58_encode base58_decode get_checksum network_selected
          (prefix ++ base58_encode (buffer ++ get_checksum buffer))
        ≡ ok a
  unfolding decode_addr
  decode_with a prefix s o selected seven back =
      let buffer : List ℕ = bytes (serialize a new_buffer_writer) in
      let code : List ℕ = base58_encode (buffer ++ get_checksum buffer) in
      let long : ltb (length (prefix ++ code)) prefix_length ≡ false =
        ground (arith, length-append prefix code) in
      let front : take prefix_length (prefix ++ code) ≡ prefix =
        rw seven at (take_append prefix code) in
      let rest : drop prefix_length (prefix ++ code) ≡ code =
        rw seven at (drop_append prefix code) in
      let same : (a.network == network_selected) ≡ true = ground arith in
      rw (long, front, back, same, rest, code_decodes a s o) (decode_buffer-serialize a s)

  encoded :
      (a : Address)
      → Sized a
      → OfBytes a
      → IsNetwork a.network
      → a.network ≡ network_selected
      → (text : List ℕ) × (encode_addr base58_encode base58_decode get_checksum network_selected a
          ≡ ok text)
        × (decode_addr base58_encode base58_decode get_checksum network_selected text ≡ ok a)
  encoded a s o known selected =
      let (prefix, goes, seven, back) = network_prefix a.network known in
      (_, encode_with a prefix goes, decode_with a prefix s o selected seven back)

  -- An address that CreateAddr gives, of bytes, on one of the three networks and with a uint64 amount,
  -- has a text by EncodeAddr, and DecodeAddr reads the same address from it, where base58 decodes
  -- what it encodes of bytes that are not empty, and a checksum is four bytes.
  pub decode_addr-encode_addr :
      (public_key : List ℕ) (staked : Bool) (spend_public_key registration payment_id : List ℕ)
      (payment_amount : ℕ) (payment_asset : List ℕ) (a : Address)
      → create_addr base58_encode base58_decode get_checksum network_selected public_key staked
          spend_public_key registration payment_id payment_amount payment_asset
        ≡ ok a
      → OfBytes a
      → IsNetwork network_selected
      → IsU64 payment_amount
      → (text : List ℕ) × (encode_addr base58_encode base58_decode get_checksum network_selected a
          ≡ ok text)
        × (decode_addr base58_encode base58_decode get_checksum network_selected text ≡ ok a)
  unfolding create_addr
  decode_addr-encode_addr public_key staked spend_public_key registration payment_id payment_amount
        payment_asset a e o known h =
      let (selected, sized) =
        create_addr-Sized network_selected simple_public_key public_key staked spend_public_key
          registration payment_id payment_amount payment_asset a e h in
      encoded a sized o (rw selected known) selected
