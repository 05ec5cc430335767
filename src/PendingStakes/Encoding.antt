-- ===== src/PendingStakes/Encoding.antt =====
-- Serialize and Deserialize of pending_stake.go and pending_stakes.go.
use go_pandora_pay.Prelude.{ℕ, ◌≤◌, ◌≡◌, sym, ◌++◌, List, [], ◌∷◌, length, All, ltb, false, arith}
use go_pandora_pay.Prelude.Result.{ok}
use go_pandora_pay.SafeMath.{IsU64}
use go_pandora_pay.Buffers.{
  BufferWriter, read_bytes, read_uvarint, write, write_uvarint, public_key_size, put_uvarint,
}
use go_pandora_pay.Buffers.Framing.{
  Frames, Frames-bind, Frames-last, Frames-pure, read_bytes-Frames, read_uvarint-Frames,
}
use go_pandora_pay.Buffers.Written.{
  Appends, Appends-then, IsWriter, write-Appends, write_uvarint-Appends,
}
use go_pandora_pay.Buffers.RoundTrip.{reader_after, read_written}
use go_pandora_pay.PendingStakes.{
  PendingStake, PendingStakes, validate_stake, validate_all, validate, serialize_stake,
  serialize_all, serialize, deserialize_stake, deserialize_all, make_pending, deserialize,
  new_pending_stakes, most_pointers,
}
use mathlib.Core.List.{append-nil}

-- The stake fits its encoding, which has 66 bytes for the amount.
abbrev pub Fits : PendingStake → Type 0
Fits d = length d.pending_amount ≡ 66

abbrev Keyed : PendingStake → Type 0
Keyed d = length d.public_key ≡ public_key_size

abbrev stake_bytes : PendingStake → List ℕ
stake_bytes d = d.public_key ++ d.pending_amount

serialize_stake-Appends : (d : PendingStake) → Appends (serialize_stake d) (stake_bytes d)
unfolding serialize_stake
serialize_stake-Appends d =
    Appends-then (write d.public_key) (write d.pending_amount) _ _ (write-Appends d.public_key)
      (write-Appends d.pending_amount)

deserialize_stake-Frames :
    (d : PendingStake) → Keyed d → Fits d → Frames deserialize_stake (stake_bytes d) d
unfolding deserialize_stake
deserialize_stake-Frames d k h =
    Frames-bind (read_bytes public_key_size) _ (rw k at (read_bytes-Frames d.public_key))
      (Frames-last (read_bytes 66) _ (rw h at (read_bytes-Frames d.pending_amount)) (Frames-pure d))

abbrev all_bytes : List PendingStake → List ℕ
all_bytes [] = []
all_bytes (d ∷ l) = stake_bytes d ++ all_bytes l

serialize_all-Appends : (l : List PendingStake) → Appends (serialize_all l) (all_bytes l)
unfolding serialize_all
serialize_all-Appends [] = λ w h. (h, sym (append-nil _))
serialize_all-Appends (d ∷ l) =
    Appends-then (serialize_stake d) (serialize_all l) _ _ (serialize_stake-Appends d)
      (serialize_all-Appends l)

deserialize_all-Frames :
    (l : List PendingStake)
    → All Keyed l
    → All Fits l
    → Frames (deserialize_all (length l)) (all_bytes l) l
unfolding deserialize_all
deserialize_all-Frames [] k h = Frames-pure []
deserialize_all-Frames (d ∷ l) (k, ks) (h, hs) =
    Frames-bind deserialize_stake _ (deserialize_stake-Frames d k h) (
      Frames-last (deserialize_all (length l)) _ (deserialize_all-Frames l ks hs)
        (Frames-pure (d ∷ l)))

validate_all-Keyed : (l : List PendingStake) → validate_all l ≡ ok tt → All Keyed l
unfolding validate_all validate_stake
validate_all-Keyed [] e = tt
validate_all-Keyed (d ∷ l) e = ground (arith, validate_all-Keyed l)

make_pending-Frames :
    (l : List PendingStake)
    → length l ≤ most_pointers
    → All Keyed l
    → All Fits l
    → Frames (make_pending (length l)) (all_bytes l) l
unfolding make_pending
make_pending-Frames l few k h =
    let room : ltb most_pointers (length l) ≡ false = ground arith in
    record {
      takes = λ front rest spare. rw room ((deserialize_all-Frames l k h).takes front rest spare);
    }

abbrev pub stakes_bytes : PendingStakes → List ℕ
stakes_bytes d = put_uvarint 9 d.height ++ (put_uvarint 9 (length d.pending) ++ all_bytes d.pending)

pub serialize-Appends : (d : PendingStakes) → Appends (serialize d) (stakes_bytes d)
unfolding serialize
serialize-Appends d = Appends-then (write_uvarint d.height) _ _ _ (write_uvarint-Appends d.height) (
    Appends-then (write_uvarint (length d.pending)) (serialize_all d.pending) _ _
      (write_uvarint-Appends (length d.pending)) (serialize_all-Appends d.pending))

pub deserialize-Frames :
    (d : PendingStakes)
    → validate d ≡ ok tt
    → IsU64 d.height
    → length d.pending ≤ most_pointers
    → All Fits d.pending
    → Frames (deserialize (new_pending_stakes d.key 0)) (stakes_bytes d) d
unfolding deserialize new_pending_stakes validate
deserialize-Frames d valid h few fits =
    Frames-bind read_uvarint _ (read_uvarint-Frames d.height h) (
      Frames-bind read_uvarint _ (read_uvarint-Frames (length d.pending) (omega arith)) (
        Frames-last (make_pending (length d.pending)) _
          (make_pending-Frames d.pending few (validate_all-Keyed d.pending valid) fits)
          (Frames-pure d)))

-- Deserialize into the new stakes of a key reads what Serialize wrote behind any writer, for stakes
-- that pass Validate, with a uint64 height, no more than 2 ^ 45 entries and amounts of 66 bytes, and
-- is left behind those bytes.
pub deserialize-serialize_stakes :
    (d : PendingStakes) (w : BufferWriter) (rest spare : List ℕ)
    → IsWriter w
    → validate d ≡ ok tt
    → IsU64 d.height
    → length d.pending ≤ most_pointers
    → All Fits d.pending
    → let w' = serialize d w in
      deserialize (new_pending_stakes d.key 0) (reader_after w w' rest spare)
      ≡ (ok d, reader_after w' w' rest spare)
deserialize-serialize_stakes d w rest spare writer valid h few fits =
    read_written (serialize d) (deserialize (new_pending_stakes d.key 0)) (stakes_bytes d) d
      (serialize-Appends d) (deserialize-Frames d valid h few fits) w rest spare writer
