-- ===== src/Prelude/Bits.antt =====
-- `|` of a number and a shifted field over it, `& 0x7f` and `| 0x80` on a byte, as arithmetic.
use Prim.Native.Nat.{
  ℕ, zero, suc, ◌+◌, ◌-◌, ◌*◌, ◌/◌, ◌%◌, ◌^◌, ◌≤◌, ◌<◌, min, max, bit_and, bit_or, digits,
  bit_or-bitwise, bit_and-bitwise,
}
use mathlib.Core.Path.{◌≡◌, refl, ap, ◌∙◌}
use mathlib.Core.Logic.{ite}
use mathlib.Core.Bool.{Bool, true, false}
use native.Mathlib.Decide.{ℕ_discrete}
use native.Mathlib.Nat.{pow-suc}
use native.Mathlib.Omega.{arith}

module _ (f g : ℕ → ℕ) where
  agree_below : ℕ → Bool
  unfolding ℕ_discrete
  agree_below zero = true
  agree_below (suc n) = ite (ℕ_discrete (f n) (g n)) (agree_below n) false

  agree_below→eq : (n : ℕ) → agree_below n ≡ true → (i : ℕ) → i < n → f i ≡ g i
  unfolding agree_below
  agree_below→eq zero e i h = absurd (omega arith)
  agree_below→eq (suc n) e i h = ground (arith, agree_below→eq n (ground arith) i)

pub bit_and-low : (b : ℕ) → b < 256 → bit_and b 0x7f ≡ b % 128
unfolding agree_below
bit_and-low = agree_below→eq _ _ 256 refl

pub bit_or-top : (b : ℕ) → b < 256 → bit_or b 0x80 ≡ b % 128 + 128
unfolding agree_below
bit_or-top = agree_below→eq _ _ 256 refl

-- The operations on bits take their digits from `digits`, with as many rounds as the first number.
module _ (ended : ℕ → ℕ) (op : ℕ → ℕ → ℕ) where
  one_more_round : (n a b : ℕ) → a ≤ n → digits ended op (suc n) a b ≡ digits ended op n a b
  one_more_round zero a b h = let none_left : a ≡ 0 = omega arith in rw none_left
  one_more_round (suc n) zero b h = refl
  one_more_round (suc n) (suc a) b h =
      ap (λ rest. rest * 2 + op (suc a % 2) (b % 2))
        (one_more_round n (suc a / 2) (b / 2) (omega arith))

  more_rounds : (k a b : ℕ) → digits ended op (k + a) a b ≡ digits ended op a a b
  more_rounds zero a b = let same : 0 + a ≡ a = omega arith in rw same
  more_rounds (suc k) a b =
      let next : suc k + a ≡ suc (k + a) = omega arith in
      rw next (one_more_round (k + a) a b (omega arith) ∙ more_rounds k a b)

  pub digits-halves :
      (a b : ℕ)
      → digits ended op (suc a) (suc a) b
        ≡ digits ended op (suc a / 2) (suc a / 2) (b / 2) * 2 + op (suc a % 2) (b % 2)
  digits-halves a b =
      let rounds : a - suc a / 2 + suc a / 2 ≡ a = omega arith in
      ap (λ rest. rest * 2 + op (suc a % 2) (b % 2))
        (rw rounds at (more_rounds (a - suc a / 2) (suc a / 2) (b / 2)))

pub zero-bit_or : (b : ℕ) → bit_or 0 b ≡ b
zero-bit_or b = bit_or-bitwise 0 b

bit_or-halves : (a b : ℕ) → bit_or a b ≡ bit_or (a / 2) (b / 2) * 2 + max (a % 2) (b % 2)
bit_or-halves zero b = omega (arith, zero-bit_or b, zero-bit_or (b / 2))
bit_or-halves (suc a) b =
    rw (bit_or-bitwise (suc a) b, bit_or-bitwise (suc a / 2) (b / 2))
      (digits-halves (λ b. b) max a b)

pub zero-bit_and : (b : ℕ) → bit_and 0 b ≡ 0
zero-bit_and b = bit_and-bitwise 0 b

pub bit_and-halves : (a b : ℕ) → bit_and a b ≡ bit_and (a / 2) (b / 2) * 2 + min (a % 2) (b % 2)
bit_and-halves zero b = omega (arith, zero-bit_and b, zero-bit_and (b / 2))
bit_and-halves (suc a) b =
    rw (bit_and-bitwise (suc a) b, bit_and-bitwise (suc a / 2) (b / 2))
      (digits-halves (λ b. 0) min a b)

-- Halving takes the last bit off a shifted field, and off the bits below it.
halve_field : (q p : ℕ) → (q * (p * 2) / 2 ≡ q * p) × (q * (p * 2) % 2 ≡ 0)
halve_field q p = omega arith

halve_below : (r k : ℕ) → r < 2 ^ suc k → r / 2 < 2 ^ k
halve_below r k h = ground (arith, pow-suc 2 k)

-- A field above the `k` bits of `r` is added.
pub bit_or-field : (k r q : ℕ) → r < 2 ^ k → bit_or r (q * 2 ^ k) ≡ r + q * 2 ^ k
bit_or-field zero zero q h = zero-bit_or (q * 1) ∙ omega arith
bit_or-field zero (suc r) q h = absurd (omega arith)
bit_or-field (suc k) r q h = ground (
  arith,
  pow-suc 2 k,
  bit_or-halves r (q * 2 ^ suc k),
  halve_field q (2 ^ k),
  bit_or-field k (r / 2) q (halve_below r k h),
)

-- `|` stays within the width of its operands.
pub bit_or-lt : (k a b : ℕ) → a < 2 ^ k → b < 2 ^ k → bit_or a b < 2 ^ k
bit_or-lt zero zero b h g = rw zero-bit_or g
bit_or-lt zero (suc a) b h g = absurd (omega arith)
bit_or-lt (suc k) a b h g = ground (
  arith,
  pow-suc 2 k,
  bit_or-halves a b,
  bit_or-lt k (a / 2) (b / 2) (halve_below a k h) (halve_below b k g),
)
