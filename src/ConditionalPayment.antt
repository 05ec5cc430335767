-- ===== src/ConditionalPayment.antt =====
-- blockchain/data_storage/conditional_payments_list/conditional_payment/conditional_payment.go. A nil
-- slice is the empty one.
pub mod Encoding
mod Tests
use go_pandora_pay.Prelude.{
  ℕ, zero, suc, ◌%◌, ◌+◌, Bool, true, false, not, ◌||◌, List, [], ◌∷◌, length, ltb, ◌==◌,
  bytes_equal, if◌then◌else◌,
}
use go_pandora_pay.Prelude.Result.{Result, ok, err, panic}
use go_pandora_pay.Buffers.{
  ◌>>◌, BufferWriter, Read, pure, ◌>>=◌, read_asset, read_bool, read_byte, read_bytes, read_uvarint,
  write, write_asset, write_bool, write_byte, write_uvarint, public_key_size, hash_size,
}

pub data PaymentError : Type 0 where
  invalid_version public_key_size_invalid invalid_threshold duplicate_multisig : PaymentError

pub record ConditionalPayment : Type 0 where
  pub key : List ℕ
  pub block_height : ℕ
  pub index : ℕ
  pub version : ℕ
  pub tx_id : List ℕ
  pub payload_index : ℕ
  pub processed : Bool
  pub asset : List ℕ
  pub default_resolution : Bool
  pub receiver_public_keys : List (List ℕ)
  pub receiver_amounts : List (List ℕ)
  pub sender_public_keys : List (List ℕ)
  pub sender_amounts : List (List ℕ)
  pub multisig_threshold : ℕ
  pub multisig_public_keys : List (List ℕ)

unfoldable pub new_conditional_payment : List ℕ → ℕ → ℕ → ConditionalPayment
new_conditional_payment key index block_height = record {
  key = key;
  block_height = block_height;
  index = index;
  version = 0;
  tx_id = [];
  payload_index = 0;
  processed = false;
  asset = [];
  default_resolution = false;
  receiver_public_keys = [];
  receiver_amounts = [];
  sender_public_keys = [];
  sender_amounts = [];
  multisig_threshold = 0;
  multisig_public_keys = [];
}

unfoldable pub set_key : List ℕ → ConditionalPayment → ConditionalPayment
set_key key this = record this { key = key }

unfoldable pub set_index : ℕ → ConditionalPayment → ConditionalPayment
set_index value this = record this { index = value }

-- `for _, p := range … { if len(p) != cryptography.PublicKeySize { return … } }`
unfoldable pub all_keys : List (List ℕ) → Bool
all_keys [] = true
all_keys (p ∷ l) = let rest = all_keys l in if length p == public_key_size then rest else false

unfoldable pub listed : List ℕ → List (List ℕ) → Bool
listed k [] = false
listed k (p ∷ l) = bytes_equal p k || listed k l

-- `len(unique)`, of the map that has each of the keys
unfoldable pub unique_count : List (List ℕ) → ℕ
unfolding listed
unique_count [] = 0
unique_count (p ∷ l) = if listed p l then unique_count l else unique_count l + 1

unfoldable pub validate : ConditionalPayment → Result PaymentError (Unit {0})
unfolding all_keys unique_count
validate this =
    if not (this.version == 0)
    then err invalid_version
    else if not (all_keys this.receiver_public_keys) || not (all_keys this.sender_public_keys)
    then err public_key_size_invalid
    else if (this.multisig_threshold == 0)
        || ltb (length this.multisig_public_keys) this.multisig_threshold
    then err invalid_threshold
    else if not (unique_count this.multisig_public_keys == length this.multisig_public_keys)
    then err duplicate_multisig
    else ok tt

-- `for _, p := range … { w.Write(p) }`
unfoldable pub write_all : List (List ℕ) → BufferWriter → BufferWriter
write_all [] w = w
write_all (p ∷ l) w = write_all l (write p w)

-- What Serialize writes of a payment that is not processed.
unfoldable pub serialize_pending : ConditionalPayment → BufferWriter → BufferWriter
unfolding write_all
serialize_pending this w =
    let w' =
      write_uvarint (length this.receiver_public_keys)
        (write_bool this.default_resolution (write_asset this.asset w)) in
    let w'' = write_all this.sender_amounts (
      write_all this.sender_public_keys
        (write_all this.receiver_amounts (write_all this.receiver_public_keys w'))) in
    write_all this.multisig_public_keys
      (write_byte (length this.multisig_public_keys % 256) (write_byte this.multisig_threshold w''))

unfoldable pub serialize : ConditionalPayment → BufferWriter → BufferWriter
unfolding serialize_pending
serialize this w =
    let w' =
      write_bool this.processed
        (write_byte this.payload_index (write this.tx_id (write_uvarint this.version w))) in
    if this.processed then w' else serialize_pending this w'

-- `for i := …; i < n; i++ { if …[i], err = r.ReadBytes(size); err != nil { return } }`
unfoldable pub read_all : ℕ → ℕ → Read (List (List ℕ))
read_all size zero = pure []
read_all size (suc n) = do p ← read_bytes size; l ← read_all size n; pure (p ∷ l)

-- `make([][]byte, n)` panics where the slices, of 24 bytes each, are more than the 2 ^ 48 bytes that Go
-- allocates.
abbrev pub most_slices : ℕ
most_slices = 11_728_124_029_610

unfoldable pub made : ℕ → Read (Unit {0})
made n r = if ltb most_slices n then (panic, r) else (ok tt, r)

unfoldable pub deserialize_pending : ConditionalPayment → Read ConditionalPayment
unfolding read_all made
deserialize_pending this = do
  asset ← read_asset
  default_resolution ← read_bool
  n ← read_uvarint
  made n
  receiver_public_keys ← read_all public_key_size n
  receiver_amounts ← read_all 66 n
  sender_public_keys ← read_all public_key_size n
  sender_amounts ← read_all 66 n
  multisig_threshold ← read_byte
  m ← read_byte
  multisig_public_keys ← read_all public_key_size m
  pure (record this {
    asset = asset;
    default_resolution = default_resolution;
    receiver_public_keys = receiver_public_keys;
    receiver_amounts = receiver_amounts;
    sender_public_keys = sender_public_keys;
    sender_amounts = sender_amounts;
    multisig_threshold = multisig_threshold;
    multisig_public_keys = multisig_public_keys;
  })

unfoldable pub after_head : Bool → ConditionalPayment → Read ConditionalPayment
unfolding deserialize_pending
after_head processed this = if processed then pure this else deserialize_pending this

unfoldable pub deserialize : ConditionalPayment → Read ConditionalPayment
unfolding after_head
deserialize this = do
  version ← read_uvarint
  tx_id ← read_bytes hash_size
  payload_index ← read_byte
  processed ← read_bool
  after_head processed (record this {
    version = version;
    tx_id = tx_id;
    payload_index = payload_index;
    processed = processed;
  })
