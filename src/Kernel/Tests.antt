-- ===== src/Kernel/Tests.antt =====
-- Kernel hashes on given hashes and stakes.
use go_pandora_pay.Prelude.{
  ℕ, ◌≡◌, ◌↔◌, ◌/◌, ◌≤◌, refl, true, List, [], ◌∷◌, length, replicate, arith, ◌++◌,
}
use go_pandora_pay.Prelude.Result.{ok, panic}
use go_pandora_pay.Kernel.{
  set_bytes, compute_kernel_hash, check_kernel_hash_big, convert_hash_to_difficulty,
  convert_difficulty_to_big,
}
use go_pandora_pay.Kernel.Bounds.{compute_kernel_hash_exact, check_kernel_hash_big_iff}

abbrev thousand : List ℕ
thousand = replicate 30 0 ++ 3 ∷ 232 ∷ []

kernel_of_thousand : compute_kernel_hash thousand 7 ≡ ok (replicate 31 0 ++ 142 ∷ [])
unfolding compute_kernel_hash
kernel_of_thousand = refl

-- A hash of more than 32 bytes panics where its quotient does not fit.
kernel_too_long : compute_kernel_hash (1 ∷ replicate 32 0) 1 ≡ panic
unfolding compute_kernel_hash
kernel_too_long = refl

compute_kernel_hash_exact_example :
    (out : List ℕ) × (compute_kernel_hash thousand 7 ≡ ok out)
    × (length out ≡ 32)
    × (set_bytes 0 out ≡ set_bytes 0 thousand / 7)
compute_kernel_hash_exact_example =
    compute_kernel_hash_exact thousand (omega arith) (omega arith) 7 (omega arith)

check_kernel_hash_big_iff_example :
    (target : ℕ) × (own : ℕ) × (convert_difficulty_to_big 5 ≡ ok target)
    × (convert_hash_to_difficulty thousand ≡ ok own)
    × ((check_kernel_hash_big thousand target ≡ true) ↔ (5 ≤ own))
unfolding set_bytes
check_kernel_hash_big_iff_example = check_kernel_hash_big_iff thousand 5 (omega arith) (omega arith)
