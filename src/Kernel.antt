-- ===== src/Kernel.antt =====
-- ComputeKernelHash of cryptography/crypto.go, and the tests of a kernel hash against a target in
-- blockchain/blocks/block/difficulty/difficulty.go. A big.Int that is not negative is a number; its
-- SetBytes and Bytes, of the standard library, are the big-endian digits in base 256.
pub mod Bounds
mod Tests
use go_pandora_pay.Prelude.{
  ℕ, zero, suc, ◌+◌, ◌-◌, ◌*◌, ◌/◌, ◌%◌, ◌^◌, Bool, List, [], ◌∷◌, ◌++◌, length, replicate, ltb,
  leb, ◌==◌, if◌then◌else◌,
}
use go_pandora_pay.Prelude.Result.{Result, ok, err, panic}
use go_pandora_pay.Buffers.{hash_size}

pub data KernelError : Type 0 where
  staking_amount_zero : KernelError

-- `SetBytes` behind the number of the bytes before
unfoldable pub set_bytes : ℕ → List ℕ → ℕ
set_bytes acc [] = acc
set_bytes acc (b ∷ bs) = set_bytes (acc * 256 + b) bs

-- `Bytes` before the digits of what was divided off; `n` rounds are enough for `n`.
unfoldable pub big_bytes : ℕ → ℕ → List ℕ → List ℕ
big_bytes zero n out = out
big_bytes (suc rounds) n out =
    let more = big_bytes rounds (n / 256) (n % 256 ∷ out) in if n == 0 then out else more

-- `var out [HashSize]byte; copy(out[HashSize-len(buf):], buf[:])`, which panics on a longer `buf`
unfoldable pub padded : List ℕ → Result KernelError (List ℕ)
padded buf =
    if ltb hash_size (length buf) then panic else ok (replicate (hash_size - length buf) 0 ++ buf)

unfoldable pub compute_kernel_hash : List ℕ → ℕ → Result KernelError (List ℕ)
unfolding set_bytes big_bytes padded
compute_kernel_hash hash staking_amount =
    let number = set_bytes 0 hash / staking_amount in
    if staking_amount == 0 then err staking_amount_zero else padded (big_bytes number number [])

unfoldable pub check_kernel_hash_big : List ℕ → ℕ → Bool
unfolding set_bytes
check_kernel_hash_big kernel_hash difficulty = leb (set_bytes 0 kernel_hash) difficulty

-- config.BIG_INT_MAX_256, which is `1 << 256`
abbrev pub big_int_max_256 : ℕ
big_int_max_256 = 2 ^ 256

-- A division of big.Int by zero panics.
unfoldable pub convert_target_to_difficulty : ℕ → Result KernelError ℕ
convert_target_to_difficulty target = if target == 0 then panic else ok (big_int_max_256 / target)

unfoldable pub convert_hash_to_difficulty : List ℕ → Result KernelError ℕ
unfolding set_bytes convert_target_to_difficulty
convert_hash_to_difficulty hash = convert_target_to_difficulty (set_bytes 0 hash)

unfoldable pub convert_difficulty_to_big : ℕ → Result KernelError ℕ
convert_difficulty_to_big difficulty =
    if difficulty == 0 then panic else ok (big_int_max_256 / difficulty)
