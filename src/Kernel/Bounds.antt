-- ===== src/Kernel/Bounds.antt =====
-- The kernel hash as a number, and what a larger stake or a difficulty does to it.
use go_pandora_pay.Prelude.{
  ℕ, zero, suc, ◌+◌, ◌-◌, ◌*◌, ◌/◌, ◌%◌, ◌^◌, ◌≤◌, ◌<◌, ◌≡◌, ◌↔◌, refl, ◌∙◌, true, List, [], ◌∷◌,
  ◌++◌, length, replicate, All, ◌==◌, arith, length-append, length-replicate, Bool-cases, inl, inr,
}
use go_pandora_pay.Prelude.Result.{ok}
use go_pandora_pay.Buffers.{hash_size}
use go_pandora_pay.Kernel.{
  set_bytes, big_bytes, padded, compute_kernel_hash, check_kernel_hash_big, big_int_max_256,
  convert_hash_to_difficulty, convert_target_to_difficulty, convert_difficulty_to_big,
}
use native.Mathlib.Nat.{
  pow-suc, le-div_iff_mul-le, div-mul-le_self, mul-le-mul_left, mul-le-mul_right, mul_assoc,
  pow-le-pow_right, lt_of_lt_of_le, lt_of_le_of_lt, le_trans, mul_comm, div-le_self,
}

abbrev pub Byte : ℕ → Type 0
Byte b = b < 256

set_bytes-zeros : (k : ℕ) (bs : List ℕ) → set_bytes 0 (replicate k 0 ++ bs) ≡ set_bytes 0 bs
unfolding set_bytes
set_bytes-zeros zero bs = refl
set_bytes-zeros (suc k) bs = set_bytes-zeros k bs

-- The digits of a number read back as the number.
set_bytes-big_bytes :
    (rounds n : ℕ) (out : List ℕ)
    → n ≤ rounds
    → set_bytes 0 (big_bytes rounds n out) ≡ set_bytes n out
unfolding set_bytes big_bytes
set_bytes-big_bytes zero zero out h = refl
set_bytes-big_bytes zero (suc n) out h = absurd (omega arith)
set_bytes-big_bytes (suc rounds) n out h = elim (Bool-cases (n == 0)) [
  | inl done ↦ let e : n ≡ 0 = ground arith in rw e
  | inr more ↦
      let digits : n / 256 * 256 + n % 256 ≡ n = omega arith in
      rw more (set_bytes-big_bytes rounds (n / 256) (n % 256 ∷ out) (ground arith) ∙ rw digits)
]

length-big_bytes :
    (rounds n k : ℕ) (out : List ℕ) → n < 256 ^ k → length (big_bytes rounds n out) ≤ k + length out
unfolding big_bytes
length-big_bytes zero n k out h = omega arith
length-big_bytes (suc rounds) zero k out h = omega arith
length-big_bytes (suc rounds) (suc n) zero out h = absurd (omega arith)
length-big_bytes (suc rounds) (suc n) (suc k) out h =
    ground (arith, pow-suc 256 k, length-big_bytes rounds (suc n / 256) k (suc n % 256 ∷ out))

set_bytes-lt :
    (acc : ℕ) (bs : List ℕ) → All Byte bs → set_bytes acc bs < (acc + 1) * 256 ^ length bs
unfolding set_bytes
set_bytes-lt acc [] h = omega arith
set_bytes-lt acc (b ∷ bs) (h, hs) =
    let power : ℕ = 256 ^ length bs in
    let step : acc * 256 + b + 1 ≤ (acc + 1) * 256 = omega arith in
    let bound : (acc + 1) * 256 * power ≡ (acc + 1) * 256 ^ suc (length bs) =
      rw (pow-suc 256 (length bs), mul_assoc (acc + 1) 256 power, mul_comm 256 power) in
    lt_of_lt_of_le (set_bytes-lt (acc * 256 + b) bs hs) (rw bound at (mul-le-mul_right power step))

div-anti : (n a b : ℕ) → 0 < a → a ≤ b → n / b ≤ n / a
div-anti n a b pos h =
    (le-div_iff_mul-le {k = a} {x = n / b} {y = n} pos).1
      (le_trans (mul-le-mul_left (n / b) h) (div-mul-le_self n b))

module _ (hash : List ℕ) (bytes : All Byte hash) (size : length hash ≤ hash_size) where
  hash_lt : set_bytes 0 hash < 256 ^ hash_size
  hash_lt = lt_of_lt_of_le (set_bytes-lt 0 hash bytes) (
      omega
        (arith, pow-le-pow_right {n = 256} (omega arith) {i = length hash} {j = hash_size} size))

  number_digits : (n : ℕ) → n ≤ set_bytes 0 hash → length (big_bytes n n []) ≤ hash_size
  number_digits n h = omega (arith, length-big_bytes n n hash_size [] (lt_of_le_of_lt h hash_lt))

  -- For a hash of at most 32 bytes and a stake that is not zero, ComputeKernelHash goes through, and
  -- gives 32 bytes that stand for the number of the hash divided by the stake.
  pub compute_kernel_hash_exact :
      (staking_amount : ℕ)
      → 0 < staking_amount
      → (out : List ℕ) × (compute_kernel_hash hash staking_amount ≡ ok out)
        × (length out ≡ hash_size)
        × (set_bytes 0 out ≡ set_bytes 0 hash / staking_amount)
  unfolding compute_kernel_hash padded
  compute_kernel_hash_exact staking_amount pos =
      let number : ℕ = set_bytes 0 hash / staking_amount in
      let buf : List ℕ = big_bytes number number [] in
      let few : length buf ≤ hash_size =
        number_digits number (div-le_self (set_bytes 0 hash) staking_amount) in
      let zeros : List ℕ = replicate (hash_size - length buf) 0 in
      (
        zeros ++ buf,
        ground arith,
        omega (arith, length-append zeros buf, length-replicate (hash_size - length buf) (zero)),
        set_bytes-zeros (hash_size - length buf) buf
            ∙ set_bytes-big_bytes number number [] (omega arith),
      )

  -- A kernel hash that passes a target with some stake passes it with every larger stake: for a hash
  -- of at most 32 bytes, ComputeKernelHash goes through with both, and CheckKernelHashBig of the one
  -- with the larger stake gives true where that of the other does.
  pub check_kernel_hash_big_mono :
      (less more difficulty : ℕ)
      → 0 < less
      → less ≤ more
      → (a : List ℕ) × (b : List ℕ) × (compute_kernel_hash hash less ≡ ok a)
        × (compute_kernel_hash hash more ≡ ok b)
        × (check_kernel_hash_big a difficulty ≡ true → check_kernel_hash_big b difficulty ≡ true)
  unfolding check_kernel_hash_big
  check_kernel_hash_big_mono less more difficulty pos h =
      let (a, ea, _, va) = compute_kernel_hash_exact less pos in
      let (b, eb, _, vb) = compute_kernel_hash_exact more (omega arith) in
      (a, b, ea, eb, λ passes. ground (arith, div-anti (set_bytes 0 hash) less more pos h))

-- A hash that is not zero passes the target of a difficulty that is not zero exactly if its own
-- difficulty is that or more.
pub check_kernel_hash_big_iff :
    (hash : List ℕ) (difficulty : ℕ)
    → 0 < difficulty
    → 0 < set_bytes 0 hash
    → (target : ℕ) × (own : ℕ) × (convert_difficulty_to_big difficulty ≡ ok target)
      × (convert_hash_to_difficulty hash ≡ ok own)
      × ((check_kernel_hash_big hash target ≡ true) ↔ (difficulty ≤ own))
unfolding check_kernel_hash_big convert_difficulty_to_big convert_hash_to_difficulty
    convert_target_to_difficulty
check_kernel_hash_big_iff hash difficulty pos some_hash =
    let value : ℕ = set_bytes 0 hash in
    let target = le-div_iff_mul-le {k = difficulty} {x = value} {y = big_int_max_256} pos in
    let own = le-div_iff_mul-le {k = value} {x = difficulty} {y = big_int_max_256} some_hash in
    (
      big_int_max_256 / difficulty,
      big_int_max_256 / value,
      ground arith,
      ground arith,
      (
        λ passes. own.1 (rw (mul_comm value difficulty) at (target.0 (ground arith))),
        λ more. ground (arith, target.1 (rw (mul_comm difficulty value) at (own.0 more))),
      ),
    )
