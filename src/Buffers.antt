-- ===== src/Buffers.antt =====
-- helpers/advanced_buffers/buffer_reader.go and buffer_writer.go. A byte is a number below 256.
-- A reader holds the slice `Buf` (its bytes, and the bytes of its array behind them up to the
-- capacity) and the position; a read gives back its outcome and the reader after it, since an error
-- does not take back what was read before. `int` is the integers of 64 bits: lengths and positions
-- stay below 2 ^ 63, as those of Go slices do.
pub mod Varint
pub mod Slices
pub mod Framing
pub mod Written
pub mod RoundTrip
pub mod Checked
pub mod Since
mod Tests
use go_pandora_pay.Prelude.{
  ℕ, zero, suc, ◌+◌, ◌-◌, ◌*◌, ◌/◌, ◌%◌, ◌^◌, Bool, true, false, ◌&&◌, ◌||◌, Option, none, some,
  List, [], ◌∷◌, ◌++◌, length, get_elem?, set, take, drop, replicate, ltb, leb, ◌==◌, bytes_equal,
  if◌then◌else◌,
}
use go_pandora_pay.Prelude.Result.{Result, ok, err, panic}
use Prim.Native.Nat.{bit_and, bit_or}

pub data ReadError : Type 0 where
  buf_invalid reading_bool reading_byte reading_bytes reading_hash reading_value : ReadError
  overflow variable_exceeding native_as_short invalid_asset_type : ReadError
  -- what a Deserialize adds to the errors of the reads
  invalid_version invalid_script_type invalid_data_version invalid_tx_type block_exceeds_max_size :
      ReadError

pub record BufferReader : Type 0 where
  pub buf : List ℕ
  -- the array behind the slice, from len(Buf) up to cap(Buf)
  pub spare : List ℕ
  pub position : ℕ

abbrev pub Outcome : Type 0 → Type 0
Outcome A = Result ReadError A × BufferReader

abbrev pub Read : Type 0 → Type 0
Read A = BufferReader → Outcome A

abbrev pub pure : {A : Type 0} → A → Read A
pure a r = (ok a, r)

abbrev pub fail : {A : Type 0} → ReadError → Read A
fail e r = (err e, r)

infixl 5 ◌>>=◌ ◌>>◌
unfoldable pub ◌>>=◌ : {A B : Type 0} → Read A → (A → Read B) → Read B
◌>>=◌ m f r =
    let (a, r') = m r in elim a [ ok x ↦ f x r' | err e ↦ (err e, r') | panic ↦ (panic, r') ]

abbrev pub ◌>>◌ : {A B : Type 0} → Read A → Read B → Read B
m >> k = m >>= λ _. k

-- `out := reader.Buf[reader.Position]; reader.Position += 1`, which panics out of range
pub next_byte : Read ℕ
next_byte r = elim (get_elem? r.buf r.position) [
  | none ↦ (panic, r)
  | some b ↦ (ok b, record r { position = r.position + 1 })
]

-- `reader.Buf[reader.Position : reader.Position+count]`, which panics past the capacity
pub next_slice : ℕ → Read (List ℕ)
next_slice count r =
    if leb (r.position + count) (length r.buf + length r.spare)
    then (
      ok (take count (drop r.position (r.buf ++ r.spare))),
      record r { position = r.position + count },
    )
    else (panic, r)

unfoldable pub read_bool : Read Bool
read_bool r =
    if ltb 0 (length r.buf)
    then elim (get_elem? r.buf r.position) [
      | none ↦ (panic, r)
      | some b ↦
          if ltb 1 b
          then (err buf_invalid, r)
          else (ok (b == 1), record r { position = r.position + 1 })
    ]
    else (err reading_bool, r)

unfoldable pub read_byte : Read ℕ
unfolding next_byte
read_byte r = if ltb 0 (length r.buf) then next_byte r else (err reading_byte, r)

unfoldable pub read_bytes : ℕ → Read (List ℕ)
unfolding next_slice
read_bytes count r = if leb count (length r.buf) then next_slice count r else (err reading_bytes, r)

-- cryptography.HashSize, and config_coins.ASSET_LENGTH with the asset of that many zeros
abbrev pub hash_size : ℕ
hash_size = 32

abbrev pub public_key_size : ℕ
public_key_size = 33

abbrev pub asset_length : ℕ
asset_length = 20

abbrev pub native_asset_full : List ℕ
native_asset_full = replicate 20 0

unfoldable pub read_hash : Read (List ℕ)
unfolding next_slice
read_hash r = if leb hash_size (length r.buf) then next_slice hash_size r else (err reading_hash, r)

-- The loop of ReadUvarint over `Buf[i:]`: `i` bytes are behind it, `x` and `s` are the value and
-- the shift so far, `c` the count of bytes, which is a `byte` and wraps at 256.
pub uvarint_loop : List ℕ → ℕ → ℕ → ℕ → ℕ → Result ReadError (ℕ × ℕ)
uvarint_loop [] i x s c = err reading_value
uvarint_loop (b ∷ bs) i x s c =
    let more =
      uvarint_loop bs (i + 1) (bit_or x (bit_and b 0x7f * 2 ^ s % 2 ^ 64)) (s + 7)
        ((c + 1) % 256) in
    if ltb b 0x80
    then if leb 10 c || (c == 9 && ltb 1 b)
      then err overflow
      else ok (bit_or x (b * 2 ^ s % 2 ^ 64), i + 1)
    else more

unfoldable pub read_uvarint : Read ℕ
unfolding uvarint_loop
read_uvarint r = elim (uvarint_loop (drop r.position r.buf) r.position 0 0 0) [
  | ok (x, i) ↦ (ok x, record r { position = i })
  | err e ↦ (err e, r)
  | panic ↦ (panic, r)
]

-- `reader.ReadBytes(int(length))`: from 2 ^ 63 on the count is negative, so the test of ReadBytes
-- passes and the slice expression panics.
pub read_counted : ℕ → Read (List ℕ)
read_counted count r = if leb (2 ^ 63) count then (panic, r) else read_bytes count r

unfoldable pub read_variable_bytes : ℕ → Read (List ℕ)
unfolding read_counted
read_variable_bytes limit = do
  count ← read_uvarint
  if ltb limit count then fail variable_exceeding else read_counted count

-- A Go string is the list of its bytes.
unfoldable pub read_string : ℕ → Read (List ℕ)
read_string limit = read_variable_bytes limit

pub long_asset : Read (List ℕ)
long_asset = do
  buff ← read_bytes asset_length
  if bytes_equal buff native_asset_full then fail native_as_short else pure buff

unfoldable pub read_asset : Read (List ℕ)
unfolding long_asset
read_asset = do
  asset_type ← read_byte
  if asset_type == 0
      then pure native_asset_full
      else if asset_type == 1
      then long_asset
      else fail invalid_asset_type

-- The writer: the chunks in the order in which they were written, and their total length. Its
-- scratch array `temp` is left out.
pub record BufferWriter : Type 0 where
  pub array : List (List ℕ)
  pub len : ℕ

unfoldable pub new_buffer_writer : BufferWriter
new_buffer_writer = record { array = []; len = 0 }

unfoldable pub write : List ℕ → BufferWriter → BufferWriter
write value w = record { array = w.array ++ value ∷ []; len = w.len + length value }

-- encoding/binary.PutUvarint, the standard library's: seven bits to a byte, lowest first. Ten rounds
-- are enough for a uint64, and an eleventh byte would not fit `temp`.
unfoldable pub put_uvarint : ℕ → ℕ → List ℕ
put_uvarint zero value = value % 256 ∷ []
put_uvarint (suc rounds) value =
    let rest = put_uvarint rounds (value / 128) in
    if ltb value 0x80 then value ∷ [] else bit_or (value % 256) 0x80 ∷ rest

unfoldable pub write_uvarint : ℕ → BufferWriter → BufferWriter
unfolding put_uvarint write
write_uvarint value w = write (put_uvarint 9 value) w

unfoldable pub write_variable_bytes : List ℕ → BufferWriter → BufferWriter
write_variable_bytes value w = write value (write_uvarint (length value) w)

unfoldable pub write_string : List ℕ → BufferWriter → BufferWriter
write_string string w = write_variable_bytes string w

unfoldable pub write_bool : Bool → BufferWriter → BufferWriter
write_bool value w = write ((if value then 1 else 0) ∷ []) w

unfoldable pub write_byte : ℕ → BufferWriter → BufferWriter
write_byte value w = write (value ∷ []) w

unfoldable pub write_asset : List ℕ → BufferWriter → BufferWriter
write_asset asset w =
    if bytes_equal asset native_asset_full then write_byte 0 w else write asset (write_byte 1 w)

-- `copy(out[c:], src)`: it stops where `out` ends
pub copy_at : List ℕ → ℕ → List ℕ → List ℕ
copy_at out c [] = out
copy_at out c (b ∷ bs) = copy_at (set out c b) (c + 1) bs

pub copy_loop : List (List ℕ) → List ℕ → ℕ → List ℕ
copy_loop [] out c = out
copy_loop (chunk ∷ chunks) out c = copy_loop chunks (copy_at out c chunk) (c + length chunk)

unfoldable pub bytes : BufferWriter → List ℕ
unfolding copy_loop copy_at
bytes w = copy_loop w.array (replicate w.len 0) 0
