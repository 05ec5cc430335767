-- ===== src/Buffers/Varint.antt =====
-- ReadUvarint of buffer_reader.go against what WriteUvarint writes.
use go_pandora_pay.Prelude.{
  sym, ℕ, zero, suc, ◌+◌, ◌*◌, ◌/◌, ◌%◌, ◌^◌, ◌≤◌, ◌<◌, ◌≡◌, ap, ◌∙◌, false, List, [], ◌∷◌, ◌++◌,
  length, All, replicate, ltb, arith,
}
use go_pandora_pay.Prelude.Result.{ok, err}
use go_pandora_pay.Prelude.Bits.{bit_and-low, bit_or-top, bit_or-field, bit_or-lt, zero-bit_or}
use go_pandora_pay.SafeMath.{IsU64}
use go_pandora_pay.Buffers.{overflow, uvarint_loop, put_uvarint}
use Prim.Native.Nat.{bit_and, bit_or}
use native.Mathlib.Numerals.{towards_suc}
use native.Mathlib.Nat.{div-add-mod, mod-eq_of_lt}

-- The group of seven bits of a byte, at shift `s`, joins the value below it.
pub join_group :
    (x b s : ℕ) → x < 2 ^ s → x + b * 2 ^ s < 2 ^ 64 → bit_or x (b * 2 ^ s % 2 ^ 64) ≡ x + b * 2 ^ s
join_group x b s h fits =
    let small : b * 2 ^ s < 2 ^ 64 = omega arith in rw (mod-eq_of_lt small) (bit_or-field s x b h)

shift_seven : (s : ℕ) → 2 ^ (s + 7) ≡ 128 * 2 ^ s
shift_seven s = simp towards_suc (omega arith)

-- The tenth byte of a uint64 is at most 1.
pub tenth_byte : (x w s : ℕ) → s ≡ 63 → x + w * 2 ^ s < 2 ^ 64 → w ≤ 1
tenth_byte x w s e fits = let at_63 : x + w * 2 ^ 63 < 2 ^ 64 = rw e at fits in omega arith

pub last_byte :
    (w i x s c : ℕ) (rest : List ℕ)
    → w < 128
    → c ≤ 9
    → s ≡ 7 * c
    → x < 2 ^ s
    → x + w * 2 ^ s < 2 ^ 64
    → uvarint_loop (w ∷ rest) i x s c ≡ ok (x + w * 2 ^ s, i + 1)
unfolding uvarint_loop
last_byte w i x s c rest hw hc hs hx fits =
    ground (arith, join_group x w s hx fits, tenth_byte x w s)

inner_byte :
    (g i x s c : ℕ) (rest : List ℕ)
    → g < 128
    → c ≤ 8
    → x < 2 ^ s
    → x + g * 2 ^ s < 2 ^ 64
    → uvarint_loop ((g + 128) ∷ rest) i x s c
      ≡ uvarint_loop rest (i + 1) (x + g * 2 ^ s) (s + 7) (c + 1)
unfolding uvarint_loop
inner_byte g i x s c rest hg hc hx fits =
    let low : bit_and (g + 128) 0x7f ≡ g = bit_and-low (g + 128) (omega arith) ∙ omega arith in
    let next : (c + 1) % 256 ≡ c + 1 = omega arith in
    let large : ltb (g + 128) 0x80 ≡ false = ground arith in
    rw (large, low, next, join_group x g s hx fits)

-- A number is its lowest seven bits and the rest, in units of `p`.
seven_bits : (p w : ℕ) → w % 128 * p + w / 128 * (128 * p) ≡ w * p
seven_bits p w =
    let whole = div-add-mod w 128 in omega (arith, ap (λ (number : ℕ). number * p) whole)

pub split_group : (w s : ℕ) → w * 2 ^ s ≡ w % 128 * 2 ^ s + w / 128 * 2 ^ (s + 7)
split_group w s = rw (shift_seven s) (sym (seven_bits (2 ^ s) w))

pub group_below : (g x s : ℕ) → g < 128 → x < 2 ^ s → x + g * 2 ^ s < 2 ^ (s + 7)
group_below g x s hg hx = rw (shift_seven s) (grind arith)

-- The loop with `x` read so far finds the rest `w` of the value, and stops behind its bytes.
uvarint_loop-put_uvarint :
    (k w i x s c : ℕ) (rest : List ℕ)
    → w < 128 ^ suc k
    → c + k ≤ 9
    → s ≡ 7 * c
    → x < 2 ^ s
    → x + w * 2 ^ s < 2 ^ 64
    → uvarint_loop (put_uvarint k w ++ rest) i x s c
      ≡ ok (x + w * 2 ^ s, i + length (put_uvarint k w))
unfolding put_uvarint
uvarint_loop-put_uvarint zero w i x s c rest hw hc hs hx fits =
    let one : w % 256 ≡ w = omega arith in
    rw one (last_byte w i x s c rest (omega arith) (omega arith) hs hx fits)
uvarint_loop-put_uvarint (suc k) w i x s c rest hw hc hs hx fits =
    let split = split_group w s in
    let top : bit_or (w % 256) 0x80 ≡ w % 128 + 128 =
      bit_or-top (w % 256) (omega arith) ∙ omega arith in
    let low = group_below (w % 128) x s (omega arith) hx in
    ground (
      arith,
      top,
      last_byte w i x s c rest,
      inner_byte (w % 128) i x s c (put_uvarint k (w / 128) ++ rest),
      uvarint_loop-put_uvarint k (w / 128) (i + 1) (x + w % 128 * 2 ^ s) (s + 7) (c + 1) rest
          (omega arith) (omega arith) (omega arith) low (omega arith),
    )

-- ReadUvarint finds the uint64 that PutUvarint wrote.
pub uvarint_loop-put_uvarint_start :
    (v i : ℕ) (rest : List ℕ)
    → IsU64 v
    → uvarint_loop (put_uvarint 9 v ++ rest) i 0 0 0 ≡ ok (v, i + length (put_uvarint 9 v))
uvarint_loop-put_uvarint_start v i rest h =
    ground (arith, uvarint_loop-put_uvarint 9 v i 0 0 0 rest)

-- What PutUvarint writes are bytes.
pub put_uvarint-bytes : (k v : ℕ) → v < 128 ^ suc k → All (λ b. b < 256) (put_uvarint k v)
unfolding put_uvarint
put_uvarint-bytes zero v h = omega arith
put_uvarint-bytes (suc k) v h =
    ground (arith, bit_or-top (v % 256), put_uvarint-bytes k (v / 128) (omega arith))

pub length-put_uvarint :
    (k v : ℕ) → (1 ≤ length (put_uvarint k v)) × (length (put_uvarint k v) ≤ k + 1)
unfolding put_uvarint
length-put_uvarint zero v = omega arith
length-put_uvarint (suc k) v = ground (arith, length-put_uvarint k (v / 128))

-- The loop ends with a uint64, behind the bytes that it took and not past the end of the slice.
pub uvarint_loop_bounds :
    (bs : List ℕ) (i x s c v j : ℕ)
    → IsU64 x
    → uvarint_loop bs i x s c ≡ ok (v, j)
    → IsU64 v × (i < j) × (j ≤ i + length bs)
unfolding uvarint_loop
uvarint_loop_bounds [] i x s c v j hx h = cc
uvarint_loop_bounds (b ∷ bs) i x s c v j hx h =
    let more = bit_and b 0x7f * 2 ^ s % 2 ^ 64 in
    ground (
      arith,
      bit_or-lt 64 x (b * 2 ^ s % 2 ^ 64) hx (omega arith),
      bit_or-lt 64 x more hx (omega arith),
      uvarint_loop_bounds bs (i + 1) (bit_or x more) (s + 7) ((c + 1) % 256) v j,
    )

zero-mod_word : (s : ℕ) → 0 * 2 ^ s % 2 ^ 64 ≡ 0
zero-mod_word s = omega arith

-- `n` continuation bytes with no bits in them move the count on, modulo 256.
uvarint_loop-replicate :
    (n i s c : ℕ) (rest : List ℕ)
    → c < 256
    → uvarint_loop (replicate n 0x80 ++ rest) i 0 s c
      ≡ uvarint_loop rest (i + n) 0 (s + 7 * n) ((c + n) % 256)
unfolding uvarint_loop
uvarint_loop-replicate zero i s c rest h =
    let e : (c + 0) % 256 ≡ c = omega arith in
    let f : i + 0 ≡ i = omega arith in let g : s + 0 ≡ s = omega arith in rw (e, f, g)
uvarint_loop-replicate (suc n) i s c rest h =
    let e : ((c + 1) % 256 + n) % 256 ≡ (c + suc n) % 256 = omega arith in
    let f : i + 1 + n ≡ i + suc n = omega arith in
    let g : s + 7 + 7 * n ≡ s + 7 * suc n = omega arith in
    rw (zero-bit_or, zero-mod_word s)
      (rw (uvarint_loop-replicate n (i + 1) (s + 7) ((c + 1) % 256) rest (omega arith), e, f, g))

shifted_out : (b : ℕ) → b * 2 ^ 1792 % 2 ^ 64 ≡ 0
shifted_out b = omega arith

-- The count of ReadUvarint is a `byte`: behind 256 continuation bytes it is 0 again, so a number of
-- 257 bytes, which is longer than any uint64, is read without the error `Overflow`; behind 10 to
-- 255 of them the error is given.
pub uvarint_loop_wraps :
    (b i n : ℕ) (rest : List ℕ)
    → b < 128
    → 10 ≤ n
    → n < 256
    → (uvarint_loop (replicate n 0x80 ++ b ∷ rest) i 0 0 0 ≡ err overflow)
      × (uvarint_loop (replicate 256 0x80 ++ b ∷ rest) i 0 0 0 ≡ ok (0, i + 257))
unfolding uvarint_loop
uvarint_loop_wraps b i n rest hb lo hi = (
  rw (uvarint_loop-replicate n i 0 0 (b ∷ rest) (omega arith)) (ground arith),
  rw (uvarint_loop-replicate 256 i 0 0 (b ∷ rest) (omega arith)) (ground (arith, shifted_out b)),
)
