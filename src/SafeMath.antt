-- ===== src/SafeMath.antt =====
-- helpers/safe_uint64.go: arithmetic on a uint64 that reports an error in place of wrapping, and
-- config/config_coins/coins.go, the conversion of coins to units. A function that writes
-- through `*a` returns the new value. `math.MaxUint64 / value` panics in Go at 0.
use go_pandora_pay.Prelude.{
  ℕ, ◌+◌, ◌-◌, ◌*◌, ◌/◌, ◌%◌, ◌^◌, ◌≤◌, ◌<◌, ◌≡◌, ◌≢◌, ◌↔◌, Bool, true, false, List, [], ◌∷◌, arith,
  ltb, leb, ◌==◌, if◌then◌else◌,
}
use go_pandora_pay.Prelude.Result.{Result, ok, err, panic, ◌>>=◌}
pub mod Laws
mod Tests

pub data MathError : Type 0 where
  would_exceed would_become_negative error_converting : MathError

-- math.MaxUint64
abbrev pub max_uint64 : ℕ
max_uint64 = 0xffff_ffff_ffff_ffff

abbrev pub IsU64 : ℕ → Type 0
IsU64 v = v < 2 ^ 64

unfoldable pub safe_uint64_add : ℕ → ℕ → Result MathError ℕ
safe_uint64_add a value =
    if ltb (max_uint64 - a) value then err would_exceed else ok ((a + value) % 2 ^ 64)

unfoldable pub safe_uint64_sub : ℕ → ℕ → Result MathError ℕ
safe_uint64_sub a value =
    if ltb a value then err would_become_negative else ok ((a + 2 ^ 64 - value) % 2 ^ 64)

unfoldable pub safe_uint64_mul : ℕ → ℕ → Result MathError ℕ
safe_uint64_mul a value =
    if value == 0
    then panic
    else if ltb (max_uint64 / value) a
    then err would_exceed
    else ok (a * value % 2 ^ 64)

unfoldable pub safe_uint64_update : Bool → ℕ → ℕ → Result MathError ℕ
safe_uint64_update true a value =
    if leb (max_uint64 - a) value then err would_exceed else ok ((a + value) % 2 ^ 64)
safe_uint64_update false a value =
    if ltb a value then err would_become_negative else ok ((a + 2 ^ 64 - value) % 2 ^ 64)

abbrev pub coin_denomination : ℕ
coin_denomination = 1_000_000

unfoldable pub convert_to_units_uint64 : ℕ → Result MathError ℕ
convert_to_units_uint64 number =
    if ltb number (max_uint64 / coin_denomination)
    then ok (number * coin_denomination % 2 ^ 64)
    else err error_converting

unfoldable pub convert_to_units_uint64_forced : ℕ → Result MathError ℕ
unfolding convert_to_units_uint64
convert_to_units_uint64_forced number = elim (convert_to_units_uint64 number) [
  | ok out ↦ ok out
  | err e ↦ panic
  | panic ↦ panic
]
