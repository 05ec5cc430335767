-- ===== src/Buffers/Tests.antt =====
-- buffer_reader.go and buffer_writer.go on given bytes.
use go_pandora_pay.Prelude.{ℕ, ◌+◌, ◌≡◌, List, [], ◌∷◌, ◌++◌, replicate, arith}
use go_pandora_pay.Prelude.Result.{ok, err}
use go_pandora_pay.Buffers.{overflow, uvarint_loop}
use go_pandora_pay.Buffers.Varint.{uvarint_loop_wraps}

abbrev three_bytes : List ℕ
three_bytes = 5 ∷ 6 ∷ 7 ∷ []

uvarint_loop_wraps_example :
    (uvarint_loop (replicate 12 0x80 ++ 1 ∷ three_bytes) 0 0 0 0 ≡ err overflow)
    × (uvarint_loop (replicate 256 0x80 ++ 1 ∷ three_bytes) 0 0 0 0 ≡ ok (0, 0 + 257))
uvarint_loop_wraps_example =
    uvarint_loop_wraps 1 0 12 three_bytes (omega arith) (omega arith) (omega arith)
