-- ===== src/SafeMath/Tests.antt =====
-- helpers/safe_uint64.go and config_coins/coins.go on given numbers.
use go_pandora_pay.Prelude.{◌-◌, ◌≡◌, refl, true, arith}
use go_pandora_pay.Prelude.Result.{ok, err}
use go_pandora_pay.SafeMath.{would_exceed, max_uint64, safe_uint64_add, safe_uint64_update}
use go_pandora_pay.SafeMath.Laws.{updated, safe_uint64_update_exact}

safe_uint64_update_exact_example :
    safe_uint64_update true (max_uint64 - 5) 5 ≡ updated true (max_uint64 - 5) 5
safe_uint64_update_exact_example =
    safe_uint64_update_exact true (max_uint64 - 5) 5 (omega arith) (omega arith)

-- SafeUint64Add takes the sum that is MaxUint64, and SafeUint64Update does not.
add_to_max : safe_uint64_add (max_uint64 - 5) 5 ≡ ok max_uint64
unfolding safe_uint64_add
add_to_max = refl

update_to_max : safe_uint64_update true (max_uint64 - 5) 5 ≡ err would_exceed
unfolding safe_uint64_update
update_to_max = refl
