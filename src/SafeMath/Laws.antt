-- ===== src/SafeMath/Laws.antt =====
-- The operations of helpers/safe_uint64.go and coins.go against exact arithmetic.
use go_pandora_pay.Prelude.{
  ℕ, ◌+◌, ◌-◌, ◌*◌, ◌/◌, ◌^◌, ◌≤◌, ◌<◌, ◌≡◌, ◌⊎◌, Bool, true, false, not, arith, ltb, leb,
  if◌then◌else◌,
}
use go_pandora_pay.Prelude.Result.{Result, ok, err}
use go_pandora_pay.SafeMath.{
  MathError, would_exceed, would_become_negative, error_converting, IsU64, max_uint64,
  safe_uint64_add, safe_uint64_sub, safe_uint64_mul, safe_uint64_update, convert_to_units_uint64,
}

-- `SafeUint64Add` gives the exact sum if that fits 64 bits, and the error otherwise.
pub safe_uint64_add_exact :
    (a value : ℕ)
    → IsU64 a
    → IsU64 value
    → ((a + value < 2 ^ 64) × (safe_uint64_add a value ≡ ok (a + value)))
      ⊎ ((2 ^ 64 ≤ a + value) × (safe_uint64_add a value ≡ err would_exceed))
unfolding safe_uint64_add
safe_uint64_add_exact a value ha hv = ground arith

-- `SafeUint64Sub` gives the exact difference if it is not negative, and the error otherwise.
pub safe_uint64_sub_exact :
    (a value : ℕ)
    → IsU64 a
    → IsU64 value
    → ((value ≤ a) × (safe_uint64_sub a value ≡ ok (a - value)))
      ⊎ ((a < value) × (safe_uint64_sub a value ≡ err would_become_negative))
unfolding safe_uint64_sub
safe_uint64_sub_exact a value ha hv = ground arith

-- The test of `SafeUint64Mul` by division is exact.
fits_iff_div : (a value : ℕ) → 0 < value → max_uint64 / value < a → 2 ^ 64 ≤ a * value
fits_iff_div a value pos h = grind arith

fits_of_div : (a value : ℕ) → 0 < value → a ≤ max_uint64 / value → a * value < 2 ^ 64
fits_of_div a value pos h = grind arith

-- `SafeUint64Mul` by a positive number gives the exact product if that fits 64 bits, and the error
-- otherwise.
pub safe_uint64_mul_exact :
    (a value : ℕ)
    → IsU64 a
    → 0 < value
    → ((a * value < 2 ^ 64) × (safe_uint64_mul a value ≡ ok (a * value)))
      ⊎ ((2 ^ 64 ≤ a * value) × (safe_uint64_mul a value ≡ err would_exceed))
unfolding safe_uint64_mul
safe_uint64_mul_exact a value ha pos =
    ground (arith, fits_iff_div a value pos, fits_of_div a value pos)

-- What `SafeUint64Update` answers: it adds while the sum stays below MaxUint64, and it subtracts
-- while the difference is not negative.
abbrev pub updated : Bool → ℕ → ℕ → Result MathError ℕ
updated true a value = if ltb (a + value) max_uint64 then ok (a + value) else err would_exceed
updated false a value = if leb value a then ok (a - value) else err would_become_negative

-- `SafeUint64Update` answers by exact arithmetic on every pair of uint64, in both directions.
pub safe_uint64_update_exact :
    (sign : Bool) (a value : ℕ)
    → IsU64 a
    → IsU64 value
    → safe_uint64_update sign a value ≡ updated sign a value
unfolding safe_uint64_update
safe_uint64_update_exact true a value ha hv = ground arith
safe_uint64_update_exact false a value ha hv = ground arith

-- An update of a value below MaxUint64 that went through gives a uint64, and the opposite update
-- brings the value back.
pub safe_uint64_update_undo :
    (sign : Bool) (a value b : ℕ)
    → a < max_uint64
    → IsU64 value
    → safe_uint64_update sign a value ≡ ok b
    → (b < max_uint64) × (safe_uint64_update (not sign) b value ≡ ok a)
unfolding safe_uint64_update
safe_uint64_update_undo true a value b ha hv h = ground arith
safe_uint64_update_undo false a value b ha hv h = ground arith

-- Coins that convert at all convert exactly; those below 18446744073709 do.
pub convert_to_units_uint64_exact :
    (number : ℕ)
    → ((number < 18_446_744_073_709)
        × (convert_to_units_uint64 number ≡ ok (number * 1_000_000))
        × IsU64 (number * 1_000_000))
      ⊎ ((18_446_744_073_709 ≤ number) × (convert_to_units_uint64 number ≡ err error_converting))
unfolding convert_to_units_uint64
convert_to_units_uint64_exact number = ground arith
