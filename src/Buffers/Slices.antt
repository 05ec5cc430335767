-- ===== src/Buffers/Slices.antt =====
-- The slice expressions of buffer_reader.go, in and out of their bounds.
use go_pandora_pay.Prelude.{
  ℕ, ◌+◌, ◌≤◌, ◌≡◌, List, ◌++◌, length, take, drop, arith, drop_append, take_append, length-append,
}
use go_pandora_pay.Prelude.Result.{ok}
use go_pandora_pay.Buffers.{read_bytes}
use mathlib.Core.List.{append_assoc}

pub slice_append :
    (front bs rest spare : List ℕ)
    → take (length bs) (drop (length front) ((front ++ (bs ++ rest)) ++ spare)) ≡ bs
slice_append front bs rest spare =
    rw (append_assoc front (bs ++ rest) spare, append_assoc bs rest spare, drop_append front)
      (take_append bs (rest ++ spare))

-- ReadBytes tests the length of the whole slice, and not what is left of it: at the end of the
-- slice it gives out bytes of the array behind it, where the capacity reaches far enough.
pub read_bytes_leaks :
    (front bs rest : List ℕ)
    → length bs ≤ length front
    → read_bytes (length bs) (record { buf = front; spare = bs ++ rest; position = length front })
      ≡ (ok bs, record { buf = front; spare = bs ++ rest; position = length front + length bs })
unfolding read_bytes
read_bytes_leaks front bs rest h =
    ground (arith, length-append bs rest, drop_append front (bs ++ rest), take_append bs rest)
