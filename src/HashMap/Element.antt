-- ===== src/HashMap/Element.antt =====
-- An element's Serialize and Deserialize as store/hash_map/store_hash_map.go calls them: SerializeToBytes
-- of helpers, and Deserialize of an object from CreateObject over a new reader.
use go_pandora_pay.Prelude.{ℕ, ◌≡◌, length, List, []}
use go_pandora_pay.Prelude.Result.{Result, ok, err, panic}
use go_pandora_pay.Buffers.{BufferReader, BufferWriter, Outcome, Read, bytes, new_buffer_writer}
use go_pandora_pay.Buffers.Framing.{Frames}
use go_pandora_pay.Buffers.Written.{Appends, bytes-Appends}
use go_pandora_pay.HashMap.Types.{MapError, element_error}
use mathlib.Core.List.{append-nil}

unfoldable pub serialize_to_bytes : {A : Type 0} → (A → BufferWriter → BufferWriter) → A → List ℕ
serialize_to_bytes serialize a = bytes (serialize a new_buffer_writer)

-- NewBufferReader
abbrev pub new_buffer_reader : List ℕ → BufferReader
new_buffer_reader buf = record { buf = buf; spare = []; position = 0 }

pub as_element : {A : Type 0} → Outcome A → Result MapError A
as_element (ok a, r) = ok a
as_element (err e, r) = err element_error
as_element (panic, r) = panic

unfoldable pub deserialize_from : {A : Type 0} → Read A → List ℕ → Result MapError A
unfolding as_element
deserialize_from read buf = as_element (read (new_buffer_reader buf))

-- An element whose two methods agree on its bytes reads back from them.
pub deserialize_from-serialize_to_bytes :
    {A : Type 0} (serialize : A → BufferWriter → BufferWriter) (read : Read A) (bs : List ℕ) (a : A)
    → Appends (serialize a) bs
    → Frames read bs a
    → deserialize_from read (serialize_to_bytes serialize a) ≡ ok a
unfolding deserialize_from serialize_to_bytes as_element
deserialize_from-serialize_to_bytes serialize read bs a appends frames =
    let end : BufferReader = record { buf = bs; spare = []; position = length bs } in
    let taken : read (new_buffer_reader bs) ≡ (ok a, end) =
      rw (append-nil bs) at (frames.takes [] [] []) in
    rw (bytes-Appends (serialize a) bs appends, taken)
