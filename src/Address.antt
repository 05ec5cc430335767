-- ===== src/Address.antt =====
-- addresses/address.go: an address, its text and the reading of the text. A Go string is its bytes.
-- Parameters are base58's Encode and Decode, cryptography.GetChecksum, of a library's hash, and
-- `network_selected`, which is config.NETWORK_SELECTED.
pub mod Encoding
pub mod Flags
pub mod RoundTrip
mod Tests
use Prim.Native.Nat.{bit_and, bit_or}
use go_pandora_pay.Prelude.{
  ℕ, ◌-◌, Bool, true, false, not, ◌&&◌, Option, none, some, List, [], ◌∷◌, ◌++◌, length, take, drop,
  ltb, ◌==◌, bytes_equal, if◌then◌else◌,
}
use go_pandora_pay.Prelude.Result.{Result, ok, err, panic, fail_if}
use go_pandora_pay.Prelude.Result
use go_pandora_pay.Buffers.{
  ReadError, BufferReader, BufferWriter, Read, Outcome, pure, fail, ◌>>=◌, invalid_version,
  read_bytes, read_uvarint, write, write_uvarint, bytes, new_buffer_writer, public_key_size,
  asset_length,
}
use go_pandora_pay.TransactionSimple.{signature_size}

pub data AddressError : Type 0 where
  public_key_invalid version_invalid spend_key_invalid registration_invalid : AddressError
  payment_id_invalid payment_asset_invalid : AddressError
  length_invalid prefix_invalid network_invalid base58_invalid checksum_invalid : AddressError
  read_error : ReadError → AddressError

pub record Address : Type 0 where
  pub network : ℕ
  pub version : ℕ
  pub public_key : List ℕ
  pub staked : Bool
  pub spend_public_key : List ℕ
  pub registration : List ℕ
  pub payment_id : List ℕ
  pub payment_amount : ℕ
  pub payment_asset : List ℕ

abbrev pub simple_public_key : ℕ
simple_public_key = 0

-- cryptography.ChecksumSize
abbrev pub checksum_size : ℕ
checksum_size = 4

-- The networks of config.go, and their prefixes "PANDORA", "PANTEST" and "PANDDEV"
abbrev pub main_net : ℕ
main_net = 0

abbrev pub test_net : ℕ
test_net = 1033

abbrev pub dev_net : ℕ
dev_net = 4255

abbrev pub main_net_prefix : List ℕ
main_net_prefix = 80 ∷ 65 ∷ 78 ∷ 68 ∷ 79 ∷ 82 ∷ 65 ∷ []

abbrev pub test_net_prefix : List ℕ
test_net_prefix = 80 ∷ 65 ∷ 78 ∷ 84 ∷ 69 ∷ 83 ∷ 84 ∷ []

abbrev pub dev_net_prefix : List ℕ
dev_net_prefix = 80 ∷ 65 ∷ 78 ∷ 68 ∷ 68 ∷ 69 ∷ 86 ∷ []

abbrev pub prefix_length : ℕ
prefix_length = 7

unfoldable pub new_addr :
    ℕ → ℕ → List ℕ → Bool → List ℕ → List ℕ → List ℕ → ℕ → List ℕ → Result AddressError Address
new_addr network version public_key staked spend_public_key registration payment_id payment_amount
      payment_asset =
    if not (version == simple_public_key)
    then err version_invalid
    else if not (length public_key == public_key_size)
    then err public_key_invalid
    else if not (length spend_public_key == 0) && not (length spend_public_key == public_key_size)
    then err spend_key_invalid
    else if not (length registration == 0) && not (length registration == signature_size)
    then err registration_invalid
    else if not (length payment_id == 8) && not (length payment_id == 0)
    then err payment_id_invalid
    else if not (length payment_asset == 0) && not (length payment_asset == asset_length)
    then err payment_asset_invalid
    else ok (record {
      network = network;
      version = version;
      public_key = public_key;
      staked = staked;
      spend_public_key = spend_public_key;
      registration = registration;
      payment_id = payment_id;
      payment_amount = payment_amount;
      payment_asset = payment_asset;
    })

unfoldable pub is_integrated_spend_public_key : Address → Bool
is_integrated_spend_public_key a = ltb 0 (length a.spend_public_key)

unfoldable pub is_integrated_registration : Address → Bool
is_integrated_registration a = ltb 0 (length a.registration)

unfoldable pub is_integrated_payment_id : Address → Bool
is_integrated_payment_id a = ltb 0 (length a.payment_id)

unfoldable pub is_integrated_amount : Address → Bool
is_integrated_amount a = ltb 0 a.payment_amount

unfoldable pub is_integrated_payment_asset : Address → Bool
is_integrated_payment_asset a = ltb 0 (length a.payment_asset)

-- `if … { out |= bit }`
unfoldable pub add_flag : Bool → ℕ → ℕ → ℕ
add_flag flag bit out = if flag then bit_or out bit else out

unfoldable pub integration_bytes : Address → ℕ
unfolding add_flag
integration_bytes a = add_flag (ltb 0 (length a.payment_asset)) 32 (
    add_flag (ltb 0 a.payment_amount) 16 (
      add_flag (ltb 0 (length a.payment_id)) 8 (
        add_flag (ltb 0 (length a.registration)) 4
          (add_flag (ltb 0 (length a.spend_public_key)) 2 (add_flag a.staked 1 0)))))

-- `integrationBytes&bit != 0`
unfoldable pub has_flag : ℕ → ℕ → Bool
has_flag integration bit = not (bit_and integration bit == 0)

-- `if a.IsIntegrated…() { writer.Write(…) }`
unfoldable pub write_if : Bool → List ℕ → BufferWriter → BufferWriter
write_if flag field w = if flag then write field w else w

unfoldable pub write_amount_if : Bool → ℕ → BufferWriter → BufferWriter
write_amount_if flag amount w = if flag then write_uvarint amount w else w

unfoldable pub serialize : Address → BufferWriter → BufferWriter
unfolding is_integrated_spend_public_key is_integrated_registration is_integrated_payment_id
    is_integrated_amount is_integrated_payment_asset integration_bytes write_if write_amount_if
serialize a w = write_if (is_integrated_payment_asset a) a.payment_asset (
    write_amount_if (is_integrated_amount a) a.payment_amount (
      write_if (is_integrated_payment_id a) a.payment_id (
        write_if (is_integrated_registration a) a.registration (
          write_if (is_integrated_spend_public_key a) a.spend_public_key (
            write_uvarint (integration_bytes a)
              (write a.public_key (write_uvarint a.version w)))))))

-- `panic("Invalid network")`
unfoldable pub prefix_of : ℕ → Result AddressError (List ℕ)
prefix_of network =
    if network == main_net
    then ok main_net_prefix
    else if network == test_net
    then ok test_net_prefix
    else if network == dev_net
    then ok dev_net_prefix
    else panic

unfoldable pub network_of : List ℕ → Result AddressError ℕ
unfolding bytes_equal
network_of prefix =
    if bytes_equal prefix main_net_prefix
    then ok main_net
    else if bytes_equal prefix test_net_prefix
    then ok test_net
    else if bytes_equal prefix dev_net_prefix
    then ok dev_net
    else err prefix_invalid

-- `if integrationBytes&bit != 0 { … }`
unfoldable pub read_if : {A : Type 0} → Bool → Read A → A → Read A
read_if flag read a = if flag then read else pure a

unfoldable pub read_key : ℕ → Read (List ℕ)
read_key version =
    if version == simple_public_key then read_bytes public_key_size else fail invalid_version

-- DecodeAddr from the version on
unfoldable pub read_fields : ℕ → Read Address
unfolding has_flag read_if read_key
read_fields network = do
  version ← read_uvarint
  public_key ← read_key version
  n ← read_uvarint
  spend_public_key ← read_if (has_flag n 2) (read_bytes public_key_size) []
  registration ← read_if (has_flag n 4) (read_bytes signature_size) []
  payment_id ← read_if (has_flag n 8) (read_bytes 8) []
  payment_amount ← read_if (has_flag n 16) read_uvarint 0
  payment_asset ← read_if (has_flag n 32) (read_bytes asset_length) []
  pure (record {
    network = network;
    version = version;
    public_key = public_key;
    staked = has_flag n 1;
    spend_public_key = spend_public_key;
    registration = registration;
    payment_id = payment_id;
    payment_amount = payment_amount;
    payment_asset = payment_asset;
  })

unfoldable pub read_outcome : Outcome Address → Result AddressError Address
read_outcome (ok a, r) = ok a
read_outcome (err e, r) = err (read_error e)
read_outcome (panic, r) = panic

module _ (base58_encode : List ℕ → List ℕ) (base58_decode : List ℕ → Option (List ℕ))
    (get_checksum : List ℕ → List ℕ) (network_selected : ℕ) where
  unfoldable pub create_addr :
      List ℕ → Bool → List ℕ → List ℕ → List ℕ → ℕ → List ℕ → Result AddressError Address
  unfolding new_addr
  create_addr public_key staked spend_public_key registration payment_id payment_amount
        payment_asset =
      new_addr network_selected simple_public_key public_key staked spend_public_key registration
        payment_id payment_amount payment_asset

  unfoldable pub encode_addr : Address → Result AddressError (List ℕ)
  unfolding prefix_of serialize
  encode_addr a =
      let buffer = bytes (serialize a new_buffer_writer) in
      elim (prefix_of a.network) [
        | ok prefix ↦ ok (prefix ++ base58_encode (buffer ++ get_checksum buffer))
        | err e ↦ err e
        | panic ↦ panic
      ]

  -- `buf[:len(buf)-cryptography.ChecksumSize]` panics on a shorter slice; the checksum stays in the
  -- array behind the slice that is read.
  unfoldable pub decode_buffer : ℕ → List ℕ → Result AddressError Address
  unfolding read_fields read_outcome bytes_equal
  decode_buffer network buf =
      let size = length buf - checksum_size in
      let content = take size buf in
      if ltb (length buf) checksum_size
      then panic
      else if not (bytes_equal (get_checksum content) (drop size buf))
      then err checksum_invalid
      else read_outcome
          (read_fields network (record { buf = content; spare = drop size buf; position = 0 }))

  unfoldable pub decode_addr : List ℕ → Result AddressError Address
  unfolding network_of decode_buffer
  decode_addr input =
      if ltb (length input) prefix_length
      then err length_invalid
      else elim (network_of (take prefix_length input)) [
        | ok network ↦
            if not (network == network_selected)
            then err network_invalid
            else elim (base58_decode (drop prefix_length input)) [
              | none ↦ err base58_invalid
              | some buf ↦ decode_buffer network buf
            ]
        | err e ↦ err e
        | panic ↦ panic
      ]
