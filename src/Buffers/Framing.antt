-- ===== src/Buffers/Framing.antt =====
-- The bytes that each read of buffer_reader.go takes.
use go_pandora_pay.Prelude.{
  ℕ, ◌+◌, ◌^◌, ◌≤◌, ◌<◌, ◌≡◌, ap, ◌∙◌, Bool, false, List, [], ◌∷◌, ◌++◌, length, bytes_equal,
  bytes_equal_iff, bytes_equal_refl, ltb, ◌==◌, if◌then◌else◌, arith, drop_append, length-append,
  get_elem?-append, Bool-cases, inl, inr,
}
use go_pandora_pay.Prelude.Result.{ok, err, panic}
use go_pandora_pay.Buffers.{
  BufferReader, Read, Outcome, pure, fail, ◌>>=◌, read_byte, read_bytes, read_bool, next_slice,
  read_uvarint, read_variable_bytes, read_asset, read_hash, put_uvarint, long_asset, read_counted,
  native_asset_full, asset_length, hash_size, native_as_short, invalid_asset_type,
  variable_exceeding,
}
use go_pandora_pay.Buffers.Slices.{slice_append}
use go_pandora_pay.SafeMath.{IsU64}
use go_pandora_pay.Buffers.Varint.{uvarint_loop-put_uvarint_start}
use mathlib.Core.Path.{subst}
use mathlib.Core.List.{append_assoc, append-nil}

-- A reader with `front` behind its position and `ahead` before it.
abbrev pub reader_at : List ℕ → List ℕ → List ℕ → BufferReader
reader_at front ahead spare = record {
  buf = front ++ ahead;
  spare = spare;
  position = length front;
}

-- `read` takes exactly the bytes `bs`, wherever they stand, and gives `a`.
pub record Frames {A : Type 0} (read : Read A) (bs : List ℕ) (a : A) : Type 0 where
  pub takes :
      (front rest spare : List ℕ)
      → read (reader_at front (bs ++ rest) spare) ≡ (ok a, reader_at (front ++ bs) rest spare)

-- Where the reader stands after it took `bs`.
reader_moved :
    (front bs rest spare : List ℕ)
    → Path BufferReader
        (record { buf = front ++ (bs ++ rest); spare = spare; position = length front + length bs })
        (reader_at (front ++ bs) rest spare)
reader_moved front bs rest spare = rw (append_assoc front bs rest, length-append front bs)

pub Frames-pure : {A : Type 0} (a : A) → Frames (pure a) [] a
Frames-pure a = record { takes = λ front rest spare. rw (append-nil front) }

-- A read that succeeds hands its value and its reader on.
pub bind_ok :
    {A B : Type 0} (m : Read A) (f : A → Read B) (r r' : BufferReader) (a : A)
    → m r ≡ (ok a, r')
    → (m >>= f) r ≡ f a r'
unfolding ◌>>=◌
bind_ok {A} {B} m f r r' a e = ap continue e
  where
    continue : Outcome A → Outcome B
    continue o = elim o.0 [ ok x ↦ f x o.1 | err x ↦ (err x, o.1) | panic ↦ (panic, o.1) ]

pub Frames-bind :
    {A B : Type 0} (m : Read A) (f : A → Read B) {bs cs : List ℕ} {a : A} {b : B}
    → Frames m bs a
    → Frames (f a) cs b
    → Frames (m >>= f) (bs ++ cs) b
Frames-bind m f {bs} {cs} {a} h g = record {
  takes = λ front rest spare.
      rw (append_assoc bs cs rest, ← append_assoc front bs cs)
        (bind_ok m f (reader_at front (bs ++ (cs ++ rest)) spare)
            (reader_at (front ++ bs) (cs ++ rest) spare) a (h.takes front (cs ++ rest) spare)
          ∙ g.takes (front ++ bs) rest spare);
}

-- The last read of a chain, behind which nothing is taken.
pub Frames-last :
    {A B : Type 0} (m : Read A) (f : A → Read B) {bs : List ℕ} {a : A} {b : B}
    → Frames m bs a
    → Frames (f a) [] b
    → Frames (m >>= f) bs b
Frames-last m f {bs} {a} {b} h g =
    subst (λ z. Frames (m >>= f) z b) (append-nil bs) (Frames-bind m f h g)

-- A read that takes the same bytes gives the same value.
pub Frames-injective :
    {A : Type 0} {read : Read A} {bs : List ℕ} {a b : A}
    → Frames read bs a
    → Frames read bs b
    → a ≡ b
Frames-injective h g = cc (h.takes [] [] [], g.takes [] [] [])

pub read_byte-Frames : (b : ℕ) → Frames read_byte (b ∷ []) b
unfolding read_byte
read_byte-Frames b = record {
  takes = λ front rest spare. ground (
    arith,
    length-append front (b ∷ rest),
    get_elem?-append front rest b,
    reader_moved front (b ∷ []) rest spare,
  );
}

pub read_bool-Frames : (b : Bool) → Frames read_bool ((if b then 1 else 0) ∷ []) b
unfolding read_bool
read_bool-Frames b = record {
  takes = λ front rest spare. ground (
    arith,
    length-append front ((if b then 1 else 0) ∷ rest),
    get_elem?-append front rest (if b then 1 else 0),
    reader_moved front ((if b then 1 else 0) ∷ []) rest spare,
  );
}

next_slice-Frames : (bs : List ℕ) → Frames (next_slice (length bs)) bs bs
unfolding next_slice
next_slice-Frames bs = record {
  takes = λ front rest spare. ground (
    arith,
    length-append front (bs ++ rest),
    length-append bs rest,
    slice_append front bs rest spare,
    reader_moved front bs rest spare,
  );
}

pub read_bytes-Frames : (bs : List ℕ) → Frames (read_bytes (length bs)) bs bs
unfolding read_bytes
read_bytes-Frames bs = record {
  takes = λ front rest spare. ground (
    arith,
    length-append front (bs ++ rest),
    length-append bs rest,
    (next_slice-Frames bs).takes front rest spare,
  );
}

pub read_hash-Frames : (bs : List ℕ) → length bs ≡ hash_size → Frames read_hash bs bs
unfolding read_hash
read_hash-Frames bs h = record {
  takes = λ front rest spare. ground (
    arith,
    length-append front (bs ++ rest),
    length-append bs rest,
    slice_append front bs rest spare,
    reader_moved front bs rest spare,
  );
}

pub read_uvarint-Frames : (v : ℕ) → IsU64 v → Frames read_uvarint (put_uvarint 9 v) v
unfolding read_uvarint
read_uvarint-Frames v h = record {
  takes = λ front rest spare. ground (
    arith,
    drop_append front (put_uvarint 9 v ++ rest),
    uvarint_loop-put_uvarint_start v (length front) rest h,
    reader_moved front (put_uvarint 9 v) rest spare,
  );
}

-- What WriteVariableBytes writes.
abbrev pub counted : List ℕ → List ℕ
counted bs = put_uvarint 9 (length bs) ++ bs

abbrev variable_rest : ℕ → ℕ → Read (List ℕ)
variable_rest limit count = if ltb limit count then fail variable_exceeding else read_counted count

variable_rest-Frames :
    (limit : ℕ) (bs : List ℕ)
    → length bs ≤ limit
    → length bs < 2 ^ 63
    → Frames (variable_rest limit (length bs)) bs bs
unfolding read_counted
variable_rest-Frames limit bs h k = record {
  takes = λ front rest spare. ground (arith, (read_bytes-Frames bs).takes front rest spare);
}

pub read_variable_bytes-Frames :
    (limit : ℕ) (bs : List ℕ)
    → length bs ≤ limit
    → length bs < 2 ^ 63
    → Frames (read_variable_bytes limit) (counted bs) bs
unfolding read_variable_bytes
read_variable_bytes-Frames limit bs h k =
    Frames-bind read_uvarint (variable_rest limit) (read_uvarint-Frames (length bs) (omega arith))
      (variable_rest-Frames limit bs h k)

-- What WriteAsset writes.
abbrev pub asset_bytes : List ℕ → List ℕ
asset_bytes asset = if bytes_equal asset native_asset_full then 0 ∷ [] else 1 ∷ asset

abbrev asset_rest : ℕ → Read (List ℕ)
asset_rest asset_type =
    if asset_type == 0
    then pure native_asset_full
    else if asset_type == 1
    then long_asset
    else fail invalid_asset_type

long_asset-Frames :
    (asset : List ℕ)
    → length asset ≡ asset_length
    → bytes_equal asset native_asset_full ≡ false
    → Frames long_asset asset asset
unfolding long_asset
long_asset-Frames asset h other = record {
  takes = λ front rest spare.
      bind_ok (read_bytes asset_length)
        (λ buff. if bytes_equal buff native_asset_full then fail native_as_short else pure buff)
        (reader_at front (asset ++ rest) spare) (reader_at (front ++ asset) rest spare) asset
        (rw h at ((read_bytes-Frames asset).takes front rest spare))
      ∙ rw other;
}

pub read_asset-Frames :
    (asset : List ℕ) → length asset ≡ asset_length → Frames read_asset (asset_bytes asset) asset
unfolding read_asset
read_asset-Frames asset h = elim (Bool-cases (bytes_equal asset native_asset_full)) [
  | inl native ↦
      rw ((bytes_equal_iff asset native_asset_full).0 native, bytes_equal_refl native_asset_full)
        (Frames-bind read_byte asset_rest (read_byte-Frames 0) (Frames-pure native_asset_full))
  | inr other ↦
      rw other
        (Frames-bind read_byte asset_rest (read_byte-Frames 1) (long_asset-Frames asset h other))
]
