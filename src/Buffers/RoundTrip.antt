-- ===== src/Buffers/RoundTrip.antt =====
-- The reads of buffer_reader.go over the bytes of a writer of buffer_writer.go.
use go_pandora_pay.Prelude.{ℕ, ◌^◌, ◌≤◌, ◌<◌, ◌≡◌, ◌∙◌, Bool, List, ◌++◌, length}
use go_pandora_pay.Prelude.Result.{ok}
use go_pandora_pay.Buffers.{
  BufferReader, BufferWriter, Read, write, write_uvarint, write_variable_bytes, write_string,
  write_bool, write_byte, write_asset, bytes, put_uvarint, read_byte, read_bytes, read_bool,
  read_uvarint, read_variable_bytes, read_string, read_asset, read_hash, asset_length, hash_size,
}
use go_pandora_pay.Buffers.Framing.{
  Frames, counted, asset_bytes, read_byte-Frames, read_bool-Frames, read_bytes-Frames,
  read_hash-Frames, read_uvarint-Frames, read_variable_bytes-Frames, read_asset-Frames,
}
use go_pandora_pay.Buffers.Written.{
  Appends, IsWriter, written, bytes-written, write-Appends, write_byte-Appends, write_bool-Appends,
  write_uvarint-Appends, write_variable_bytes-Appends, write_asset-Appends,
}
use go_pandora_pay.SafeMath.{IsU64}
use mathlib.Core.List.{append_assoc}

-- A reader over the bytes of a finished writer `w'` and what follows them, where `w` stopped.
abbrev pub reader_after : BufferWriter → BufferWriter → List ℕ → List ℕ → BufferReader
reader_after w w' rest spare = record {
  buf = bytes w' ++ rest;
  spare = spare;
  position = length (bytes w);
}

-- A write and a read that agree on the bytes agree.
pub read_written :
    {A : Type 0} (wr : BufferWriter → BufferWriter) (read : Read A) (bs : List ℕ) (a : A)
    → Appends wr bs
    → Frames read bs a
    → (w : BufferWriter) (rest spare : List ℕ) → IsWriter w
    → read (reader_after w (wr w) rest spare) ≡ (ok a, reader_after (wr w) (wr w) rest spare)
read_written wr read bs a appends frames w rest spare valid =
    let (valid', e) = appends w valid in
    rw (bytes-written w valid, bytes-written (wr w) valid', e, append_assoc (written w) bs rest)
      (frames.takes (written w) rest spare ∙ rw (append_assoc (written w) bs rest))

module _ (w : BufferWriter) (rest spare : List ℕ) (valid : IsWriter w) where
  -- Behind the bytes of any writer, ReadUvarint reads the uint64 that WriteUvarint wrote.
  pub read_uvarint-write_uvarint :
      (v : ℕ)
      → IsU64 v
      → let w' = write_uvarint v w in
        read_uvarint (reader_after w w' rest spare) ≡ (ok v, reader_after w' w' rest spare)
  read_uvarint-write_uvarint v h =
      read_written (write_uvarint v) read_uvarint (put_uvarint 9 v) v (write_uvarint-Appends v)
        (read_uvarint-Frames v h) w rest spare valid

  -- Behind the bytes of any writer, ReadVariableBytes and ReadString read the bytes that
  -- WriteVariableBytes and WriteString wrote, if they are no more than the limit.
  pub read_variable_bytes-write_variable_bytes :
      (limit : ℕ) (bs : List ℕ)
      → length bs ≤ limit
      → length bs < 2 ^ 63
      → let w' = write_variable_bytes bs w in
        (read_variable_bytes limit (reader_after w w' rest spare)
          ≡ (ok bs, reader_after w' w' rest spare))
        × (read_string limit (reader_after w (write_string bs w) rest spare)
            ≡ (ok bs, reader_after w' w' rest spare))
  unfolding read_string write_string
  read_variable_bytes-write_variable_bytes limit bs h k =
      let e =
        read_written (write_variable_bytes bs) (read_variable_bytes limit) (counted bs) bs
          (write_variable_bytes-Appends bs) (read_variable_bytes-Frames limit bs h k) w rest spare
          valid in
      (e, e)

  -- Behind the bytes of any writer, ReadAsset reads the asset that WriteAsset wrote, the native one
  -- in its short form.
  pub read_asset-write_asset :
      (asset : List ℕ)
      → length asset ≡ asset_length
      → let w' = write_asset asset w in
        read_asset (reader_after w w' rest spare) ≡ (ok asset, reader_after w' w' rest spare)
  read_asset-write_asset asset h =
      read_written (write_asset asset) read_asset (asset_bytes asset) asset
        (write_asset-Appends asset) (read_asset-Frames asset h) w rest spare valid

  -- Behind the bytes of any writer, ReadByte, ReadBool, ReadBytes and ReadHash read the byte, the
  -- bool, the bytes and the hash that were written.
  pub read_fixed-write_fixed :
      (b : ℕ) (flag : Bool) (bs hash : List ℕ)
      → length hash ≡ hash_size
      → (read_byte (reader_after w (write_byte b w) rest spare)
          ≡ (ok b, reader_after (write_byte b w) (write_byte b w) rest spare))
        × (read_bool (reader_after w (write_bool flag w) rest spare)
            ≡ (ok flag, reader_after (write_bool flag w) (write_bool flag w) rest spare))
        × (read_bytes (length bs) (reader_after w (write bs w) rest spare)
            ≡ (ok bs, reader_after (write bs w) (write bs w) rest spare))
        × (read_hash (reader_after w (write hash w) rest spare)
            ≡ (ok hash, reader_after (write hash w) (write hash w) rest spare))
  read_fixed-write_fixed b flag bs hash h = (
    read_written (write_byte b) read_byte _ b (write_byte-Appends b) (read_byte-Frames b) w rest
        spare valid,
    read_written (write_bool flag) read_bool _ flag (write_bool-Appends flag)
        (read_bool-Frames flag) w rest spare valid,
    read_written (write bs) (read_bytes (length bs)) bs bs (write-Appends bs) (read_bytes-Frames bs)
        w rest spare valid,
    read_written (write hash) read_hash hash hash (write-Appends hash) (read_hash-Frames hash h) w
        rest spare valid,
  )
