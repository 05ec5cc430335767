-- ===== src/Buffers/Written.antt =====
-- buffer_writer.go: the bytes that a writer holds, and those that each write appends.
use go_pandora_pay.Prelude.{
  ℕ, zero, suc, ◌+◌, ◌≡◌, refl, ap, ◌∙◌, Bool, List, [], ◌∷◌, ◌++◌, length, set, replicate,
  length-replicate, bytes_equal, if◌then◌else◌, arith, length-append, Bool-cases, inl, inr,
}
use go_pandora_pay.Buffers.{
  BufferWriter, new_buffer_writer, write, write_uvarint, write_variable_bytes, write_bool,
  write_byte, write_asset, bytes, copy_at, copy_loop, put_uvarint, native_asset_full,
}
use go_pandora_pay.Buffers.Framing.{counted, asset_bytes}
use native.Mathlib.Nat.{zero-add, suc-add}
use mathlib.Core.List.{append_assoc, append-nil}

-- The chunks of a writer, one behind the other.
unfoldable pub joined : List (List ℕ) → List ℕ
joined [] = []
joined (chunk ∷ chunks) = chunk ++ joined chunks

abbrev pub written : BufferWriter → List ℕ
written w = joined w.array

-- The length that the writer keeps is that of its chunks.
abbrev pub IsWriter : BufferWriter → Type 0
IsWriter w = w.len ≡ length (written w)

joined-append : (xs : List (List ℕ)) (bs : List ℕ) → joined (xs ++ bs ∷ []) ≡ joined xs ++ bs
unfolding joined
joined-append [] bs = append-nil bs
joined-append (x ∷ xs) bs = rw (joined-append xs bs, append_assoc x (joined xs) bs)

set_append :
    (front : List ℕ) (old b : ℕ) (rest : List ℕ)
    → set (front ++ old ∷ rest) (length front) b ≡ front ++ b ∷ rest
set_append [] old b rest = refl
set_append (x ∷ front) old b rest = ap (◌∷◌ x) (set_append front old b rest)

-- A copy over as many bytes replaces them.
copy_at_append :
    (bs hole front rest : List ℕ)
    → length hole ≡ length bs
    → copy_at (front ++ (hole ++ rest)) (length front) bs ≡ front ++ (bs ++ rest)
unfolding copy_at
copy_at_append [] [] front rest h = refl
copy_at_append [] (x ∷ hole) front rest h = absurd (omega arith)
copy_at_append (b ∷ bs) [] front rest h = absurd (omega arith)
copy_at_append (b ∷ bs) (x ∷ hole) front rest h =
    let ih = copy_at_append bs hole (front ++ b ∷ []) rest (omega arith) in
    rw (set_append front x b (hole ++ rest)) (
      rw
        (
          append_assoc front (b ∷ []) (hole ++ rest),
          length-append front (b ∷ []),
          append_assoc front (b ∷ []) (bs ++ rest),
        )
        at ih)

replicate-add : (m n a : ℕ) → replicate (m + n) a ≡ replicate m a ++ replicate n a
replicate-add zero n a = rw zero-add
replicate-add (suc m) n a = rw suc-add (ap (◌∷◌ a) (replicate-add m n a))

-- The writer's `Bytes` are its chunks in the order of the writes.
copy_loop-joined :
    (chunks : List (List ℕ)) (front : List ℕ)
    → copy_loop chunks (front ++ replicate (length (joined chunks)) 0) (length front)
      ≡ front ++ joined chunks
unfolding copy_loop joined
copy_loop-joined [] front = refl
copy_loop-joined (c ∷ cs) front =
    let zeros : List ℕ = replicate (length (joined cs)) 0 in
    rw
      (
        length-append c (joined cs),
        replicate-add (length c) (length (joined cs)) 0,
        copy_at_append c (replicate (length c) 0) front zeros (length-replicate (length c) 0),
        ← append_assoc front c zeros,
        ← append_assoc front c (joined cs),
        ← length-append front c,
      )
      (copy_loop-joined cs (front ++ c))

-- `Bytes` gives out what was written, in the order of the writes.
pub bytes-written : (w : BufferWriter) → IsWriter w → bytes w ≡ written w
unfolding bytes
bytes-written w h = rw h (copy_loop-joined w.array [])

-- A write keeps the length right and puts its bytes behind those of the writes before it.
abbrev pub Appends : (BufferWriter → BufferWriter) → List ℕ → Type 0
Appends wr bs =
    (w : BufferWriter) → IsWriter w → IsWriter (wr w) × (written (wr w) ≡ written w ++ bs)

pub new_buffer_writer-IsWriter : IsWriter new_buffer_writer
unfolding new_buffer_writer joined
new_buffer_writer-IsWriter = refl

-- What a new writer holds behind a write.
pub bytes-Appends :
    (wr : BufferWriter → BufferWriter) (bs : List ℕ)
    → Appends wr bs
    → bytes (wr new_buffer_writer) ≡ bs
unfolding new_buffer_writer joined
bytes-Appends wr bs appends =
    let (valid, e) = appends new_buffer_writer new_buffer_writer-IsWriter in
    bytes-written (wr new_buffer_writer) valid ∙ e

pub write-Appends : (bs : List ℕ) → Appends (write bs) bs
unfolding write
write-Appends bs w h = ground (arith, joined-append w.array bs, length-append (written w) bs)

pub Appends-then :
    (f g : BufferWriter → BufferWriter) (bs cs : List ℕ)
    → Appends f bs
    → Appends g cs
    → Appends (λ w. g (f w)) (bs ++ cs)
Appends-then f g bs cs hf hg w h =
    let (vf, ef) = hf w h in
    let (vg, eg) = hg (f w) vf in (vg, eg ∙ rw ef (append_assoc (written w) bs cs))

pub write_byte-Appends : (b : ℕ) → Appends (write_byte b) (b ∷ [])
unfolding write_byte
write_byte-Appends b = write-Appends (b ∷ [])

pub write_bool-Appends : (b : Bool) → Appends (write_bool b) ((if b then 1 else 0) ∷ [])
unfolding write_bool
write_bool-Appends b = write-Appends ((if b then 1 else 0) ∷ [])

pub write_uvarint-Appends : (v : ℕ) → Appends (write_uvarint v) (put_uvarint 9 v)
unfolding write_uvarint
write_uvarint-Appends v = write-Appends (put_uvarint 9 v)

pub write_variable_bytes-Appends : (bs : List ℕ) → Appends (write_variable_bytes bs) (counted bs)
unfolding write_variable_bytes
write_variable_bytes-Appends bs =
    Appends-then (write_uvarint (length bs)) (write bs) _ _ (write_uvarint-Appends (length bs))
      (write-Appends bs)

pub write_asset-Appends : (asset : List ℕ) → Appends (write_asset asset) (asset_bytes asset)
unfolding write_asset
write_asset-Appends asset = elim (Bool-cases (bytes_equal asset native_asset_full)) [
  | inl native ↦ rw native (write_byte-Appends 0)
  | inr other ↦
      rw other
        (Appends-then (write_byte 1) (write asset) _ _ (write_byte-Appends 1) (write-Appends asset))
]
