-- ===== src/Prelude/Decimal.antt =====
-- strconv.FormatUint and strconv.ParseUint in base 10, the standard library's, on the bytes of the
-- text.
use Prim.Native.Nat.{ℕ, zero, suc, ◌+◌, ◌-◌, ◌*◌, ◌/◌, ◌%◌, ◌^◌}
use mathlib.Core.Bool.{◌||◌}
use mathlib.Core.Option.{Option, none, some}
use mathlib.Core.List.{List, [], ◌∷◌, ◌++◌}
use go_pandora_pay.Prelude.Tests.{ltb, leb, if◌then◌else◌}

-- Twenty digits hold every uint64.
digits_of : ℕ → ℕ → List ℕ
digits_of zero n = []
digits_of (suc rounds) n =
    let front = digits_of rounds (n / 10) in
    (if ltb n 10 then [] else front) ++ (b'0' + n % 10) ∷ []

unfoldable pub format_uint : ℕ → List ℕ
unfolding digits_of
format_uint n = digits_of 20 n

parse_digits : ℕ → List ℕ → Option ℕ
parse_digits acc [] = some acc
parse_digits acc (c ∷ cs) =
    let more = parse_digits (acc * 10 + (c - b'0')) cs in
    if ltb c b'0' || ltb b'9' c
    then none
    else if leb (2 ^ 64) (acc * 10 + (c - b'0'))
    then none
    else more

-- `none` is the error of a text that is empty, holds another byte than a digit, or does not fit.
unfoldable pub parse_uint : List ℕ → Option ℕ
unfolding parse_digits
parse_uint [] = none
parse_uint (c ∷ cs) = parse_digits 0 (c ∷ cs)
