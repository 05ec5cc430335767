-- ===== src/Buffers/Since.antt =====
-- `serialized := r.Buf[first:r.Position]`, by which a Deserialize keeps the bytes that it has read.
use go_pandora_pay.Prelude.{
  ℕ, false, ◌+◌, ◌-◌, ◌≡◌, ◌∙◌, ◌||◌, List, ◌++◌, length, take, drop, ltb, if◌then◌else◌, arith,
  length-append, drop_append, take_append,
}
use go_pandora_pay.Prelude.Result.{ok, panic}
use go_pandora_pay.Buffers.{Read, pure, ◌>>=◌}
use go_pandora_pay.Buffers.Framing.{Frames, reader_at, bind_ok}
use mathlib.Core.List.{append_assoc}

-- The slice expression panics where the position is past the capacity.
unfoldable pub slice_since : ℕ → Read (List ℕ)
slice_since first r =
    if ltb (length r.buf + length r.spare) r.position || ltb r.position first
    then (panic, r)
    else (ok (take (r.position - first) (drop first (r.buf ++ r.spare))), r)

-- A read, and the bytes from where it began.
unfoldable pub with_bytes : {A : Type 0} → Read A → Read (A × List ℕ)
unfolding slice_since
with_bytes read r = (do a ← read; serialized ← slice_since r.position; pure (a, serialized)) r

slice_since-reader_at :
    (front bs rest spare : List ℕ)
    → slice_since (length front) (reader_at (front ++ bs) rest spare)
      ≡ (ok bs, reader_at (front ++ bs) rest spare)
unfolding slice_since
slice_since-reader_at front bs rest spare =
    let inside : ltb (length ((front ++ bs) ++ rest) + length spare) (length (front ++ bs))
        ≡ false =
      ground (arith, length-append (front ++ bs) rest) in
    let after : ltb (length (front ++ bs)) (length front) ≡ false =
      ground (arith, length-append front bs) in
    let size : length (front ++ bs) - length front ≡ length bs =
      omega (arith, length-append front bs) in
    rw (
      inside,
      after,
      size,
      append_assoc (front ++ bs) rest spare,
      append_assoc front bs (rest ++ spare),
      drop_append front (bs ++ (rest ++ spare)),
      take_append bs (rest ++ spare),
    )

-- A read that takes exactly the bytes `bs` keeps them.
pub Frames-with_bytes :
    {A : Type 0} (read : Read A) {bs : List ℕ} {a : A}
    → Frames read bs a
    → Frames (with_bytes read) bs (a, bs)
unfolding with_bytes
Frames-with_bytes read {bs} {a} h = record {
  takes = λ front rest spare.
      bind_ok read (λ a. slice_since (length front) >>= λ serialized. pure (a, serialized))
        (reader_at front (bs ++ rest) spare) (reader_at (front ++ bs) rest spare) a
        (h.takes front rest spare)
      ∙ bind_ok (slice_since (length front)) (λ serialized. pure (a, serialized))
          (reader_at (front ++ bs) rest spare) (reader_at (front ++ bs) rest spare) bs
          (slice_since-reader_at front bs rest spare);
}
