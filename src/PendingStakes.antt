-- ===== src/PendingStakes.antt =====
-- blockchain/data_storage/pending_stakes_list: the stakes that become due at a height, and the map of
-- them by the height, a store/hash_map with no indices, no events and keys of any length.
pub mod Encoding
pub mod Reopen
mod Tests
use go_pandora_pay.Prelude.{
  ℕ, zero, suc, ◌^◌, ◌<◌, Bool, true, false, not, Option, none, some, List, [], ◌∷◌, length, ltb,
  ◌==◌, if◌then◌else◌,
}
use go_pandora_pay.Prelude.Result.{Result, ok, err, panic}
use go_pandora_pay.Prelude.Decimal.{format_uint}
use go_pandora_pay.Buffers.{
  BufferWriter, Read, pure, ◌>>=◌, read_bytes, read_uvarint, write, write_uvarint, public_key_size,
}
use go_pandora_pay.HashMap.Types.{Kind, MapError, HashMap, element_error}
use go_pandora_pay.HashMap.Element.{serialize_to_bytes, deserialize_from}
use go_pandora_pay.HashMap.Ops

pub record PendingStake : Type 0 where
  pub public_key : List ℕ
  pub pending_amount : List ℕ

pub record PendingStakes : Type 0 where
  pub key : List ℕ
  pub height : ℕ
  pub pending : List PendingStake

-- An error is that of a public key of another size.
unfoldable pub validate_stake : PendingStake → Result MapError (Unit {0})
validate_stake d = if not (length d.public_key == public_key_size) then err element_error else ok tt

unfoldable pub serialize_stake : PendingStake → BufferWriter → BufferWriter
serialize_stake d w = write d.pending_amount (write d.public_key w)

unfoldable pub deserialize_stake : Read PendingStake
deserialize_stake = do
  public_key ← read_bytes public_key_size
  pending_amount ← read_bytes 66
  pure (record { public_key = public_key; pending_amount = pending_amount })

-- `for _, pending := range d.Pending { if err := pending.Validate(); err != nil { return err } }`
unfoldable pub validate_all : List PendingStake → Result MapError (Unit {0})
unfolding validate_stake
validate_all [] = ok tt
validate_all (pending ∷ l) =
    let rest = validate_all l in
    elim (validate_stake pending) [ ok _ ↦ rest | err e ↦ err e | panic ↦ panic ]

unfoldable pub validate : PendingStakes → Result MapError (Unit {0})
unfolding validate_all
validate d = validate_all d.pending

unfoldable pub serialize_all : List PendingStake → BufferWriter → BufferWriter
unfolding serialize_stake
serialize_all [] w = w
serialize_all (pending ∷ l) w = serialize_all l (serialize_stake pending w)

unfoldable pub serialize : PendingStakes → BufferWriter → BufferWriter
unfolding serialize_all
serialize d w =
    serialize_all d.pending (write_uvarint (length d.pending) (write_uvarint d.height w))

unfoldable pub deserialize_all : ℕ → Read (List PendingStake)
unfolding deserialize_stake
deserialize_all zero = pure []
deserialize_all (suc n) = do pending ← deserialize_stake; l ← deserialize_all n; pure (pending ∷ l)

-- `make([]*PendingStake, n)` panics where the pointers are more than the 2 ^ 48 bytes that Go allocates.
abbrev pub most_pointers : ℕ
most_pointers = 2 ^ 45

unfoldable pub make_pending : ℕ → Read (List PendingStake)
unfolding deserialize_all
make_pending n r = if ltb most_pointers n then (panic, r) else deserialize_all n r

unfoldable pub deserialize : PendingStakes → Read PendingStakes
unfolding make_pending
deserialize d = do
  height ← read_uvarint
  n ← read_uvarint
  pending ← make_pending n
  pure (record d { height = height; pending = pending })

unfoldable pub new_pending_stakes : List ℕ → ℕ → PendingStakes
new_pending_stakes key index = record { key = key; height = 0; pending = [] }

unfoldable pub set_key : List ℕ → PendingStakes → PendingStakes
set_key key d = record d { key = key }

-- The map of NewPendingStakesList, whose CreateObject is NewPendingStakes.
abbrev pub pending_stakes_list : Kind
pending_stakes_list = record {
  Elem = PendingStakes;
  validate = validate;
  is_deletable = λ d. false;
  set_key = set_key;
  set_index = λ value d. d;
  get_index = λ d. 0;
  serialize = λ d. serialize_to_bytes serialize d;
  deserialize = λ key index buf. deserialize_from (deserialize (new_pending_stakes key index)) buf;
  name =
      b'p' ∷ b'e' ∷ b'n' ∷ b'd' ∷ b'i' ∷ b'n' ∷ b'g' ∷ b'S' ∷ b't' ∷ b'a' ∷ b'k' ∷ b'e' ∷ b's' ∷ [];
  key_length = 0;
  indexable = false;
  deleted_event = λ key tx. ok tx;
  stored_event = λ key element index tx. ok tx;
}

unfoldable pub get_pending_stakes :
    ℕ → HashMap PendingStakes → Result MapError (Option PendingStakes) × HashMap PendingStakes
get_pending_stakes block_height h = Ops.get pending_stakes_list (format_uint block_height) h

unfoldable pub create_new_pending_stakes :
    ℕ → HashMap PendingStakes → Result MapError PendingStakes × HashMap PendingStakes
create_new_pending_stakes block_height h =
    let key = format_uint block_height in
    let pending_stakes = record (new_pending_stakes key 0) { height = block_height } in
    let (r, h') = Ops.create pending_stakes_list key (some pending_stakes) h in
    elim r [
      | ok _ ↦ (ok (set_key key pending_stakes), h')
      | err e ↦ (err e, h')
      | panic ↦ (panic, h')
    ]
