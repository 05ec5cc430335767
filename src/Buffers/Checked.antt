-- ===== src/Buffers/Checked.antt =====
-- Serialize functions that may panic, and the bytes that they append where they do not.
use go_pandora_pay.Prelude.{ℕ, ◌≡◌, refl, ◌∙◌, List, ◌++◌}
use go_pandora_pay.Prelude.Result.{Result, ok, ◌>>=◌}
use go_pandora_pay.Buffers.{BufferWriter, Read, bytes, new_buffer_writer}
use go_pandora_pay.Buffers.Framing.{Frames}
use go_pandora_pay.Buffers.Written.{
  Appends, IsWriter, written, bytes-written, new_buffer_writer-IsWriter, joined,
}
use go_pandora_pay.Buffers.RoundTrip.{reader_after}
use mathlib.Core.List.{append_assoc}

-- The outcome is a writer with the bytes `bs` behind those that were there.
pub record WritesTo {E : Type 0} (r : Result E BufferWriter) (w : BufferWriter) (bs : List ℕ)
    : Type 0 where
  pub writer : BufferWriter
  pub goes : r ≡ ok writer
  pub valid : IsWriter writer
  pub holds : written writer ≡ written w ++ bs

abbrev pub AppendsOk : {E : Type 0} → (BufferWriter → Result E BufferWriter) → List ℕ → Type 0
AppendsOk f bs = (w : BufferWriter) → IsWriter w → WritesTo (f w) w bs

pub AppendsOk-ok :
    {E : Type 0} (f : BufferWriter → BufferWriter) (bs : List ℕ)
    → Appends f bs
    → AppendsOk {E = E} (λ w. ok (f w)) bs
AppendsOk-ok f bs h w v = record { writer = f w; goes = refl; valid = (h w v).0; holds = (h w v).1 }

-- A write that cannot fail before one that may.
pub Appends-AppendsOk :
    {E : Type 0} (f : BufferWriter → BufferWriter) (g : BufferWriter → Result E BufferWriter)
    (bs cs : List ℕ)
    → Appends f bs
    → AppendsOk g cs
    → AppendsOk (λ w. g (f w)) (bs ++ cs)
Appends-AppendsOk f g bs cs hf hg w v =
    let (vf, ef) = hf w v in
    let rest = hg (f w) vf in
    record {
      writer = rest.writer;
      goes = rest.goes;
      valid = rest.valid;
      holds = rest.holds ∙ rw ef (append_assoc (written w) bs cs);
    }

pub AppendsOk-then :
    {E : Type 0} (f g : BufferWriter → Result E BufferWriter) (bs cs : List ℕ)
    → AppendsOk f bs
    → AppendsOk g cs
    → AppendsOk (λ w. f w >>= g) (bs ++ cs)
AppendsOk-then f g bs cs hf hg w v =
    let first = hf w v in
    let rest = hg first.writer first.valid in
    record {
      writer = rest.writer;
      goes = rw first.goes rest.goes;
      valid = rest.valid;
      holds = rest.holds ∙ rw first.holds (append_assoc (written w) bs cs);
    }

-- A write and a read that agree on the bytes: the write goes through behind any writer, and what it
-- wrote reads back.
pub read_back :
    {E A : Type 0} (f : BufferWriter → Result E BufferWriter) (read : Read A) (bs : List ℕ) (a : A)
    → AppendsOk f bs
    → Frames read bs a
    → (w : BufferWriter) (rest spare : List ℕ) → IsWriter w
    → (w' : BufferWriter) × (f w ≡ ok w')
      × (read (reader_after w w' rest spare) ≡ (ok a, reader_after w' w' rest spare))
read_back f read bs a appends frames w rest spare v =
    let done = appends w v in
    (
      done.writer,
      done.goes,
      rw
          (
            bytes-written w v,
            bytes-written done.writer done.valid,
            done.holds,
            append_assoc (written w) bs rest,
          )
          (frames.takes (written w) rest spare ∙ rw (append_assoc (written w) bs rest)),
    )

-- What a new writer holds behind the write.
pub bytes-AppendsOk :
    {E : Type 0} (f : BufferWriter → Result E BufferWriter) (bs : List ℕ)
    → AppendsOk f bs
    → (w' : BufferWriter) × (f new_buffer_writer ≡ ok w') × (bytes w' ≡ bs)
unfolding new_buffer_writer joined
bytes-AppendsOk f bs appends =
    let done = appends new_buffer_writer new_buffer_writer-IsWriter in
    (done.writer, done.goes, bytes-written done.writer done.valid ∙ done.holds)
