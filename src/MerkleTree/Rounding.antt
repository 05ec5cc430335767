-- ===== src/MerkleTree/Rounding.antt =====
-- roundNextPowerOfTwo of merkle_tree.go: the least power of two that is no less.
use Prim.Native.Nat.{bit_and}
use go_pandora_pay.Prelude.Bits.{zero-bit_and, bit_and-halves}
use go_pandora_pay.Prelude.{
  ℕ, zero, suc, ◌+◌, ◌-◌, ◌*◌, ◌/◌, ◌^◌, ◌≤◌, ◌<◌, ◌≡◌, ◌≢◌, ◌↔◌, ◌⊎◌, inl, inr, refl, ltb, ◌==◌,
  Bool-cases, arith,
}
use go_pandora_pay.MerkleTree.{log2, round_next_power_of_two}
use native.Mathlib.Nat.{pow-suc}

bit_and_self : (fuel n : ℕ) → n ≤ fuel → bit_and n n ≡ n
bit_and_self zero zero h = zero-bit_and 0
bit_and_self zero (suc n) h = absurd (omega arith)
bit_and_self (suc fuel) zero h = zero-bit_and 0
bit_and_self (suc fuel) (suc n) h =
    omega (arith, bit_and-halves (suc n) (suc n), bit_and_self fuel (suc n / 2) (omega arith))

-- The lowest bit of an even number is that of its half; an odd number loses its last bit.
bit_and_even : (k : ℕ) → 0 < k → bit_and (2 * k) (2 * k - 1) ≡ bit_and k (k - 1) * 2
bit_and_even k pos =
    let half : 2 * k / 2 ≡ k = omega arith in
    let before : (2 * k - 1) / 2 ≡ k - 1 = omega arith in
    omega (arith, rw (half, before) at (bit_and-halves (2 * k) (2 * k - 1)))

bit_and_odd : (k : ℕ) → bit_and (2 * k + 1) (2 * k) ≡ k * 2
bit_and_odd k =
    let half : (2 * k + 1) / 2 ≡ k = omega arith in
    let before : 2 * k / 2 ≡ k = omega arith in
    omega (
      arith,
      bit_and_self k k (omega arith),
      rw (half, before) at (bit_and-halves (2 * k + 1) (2 * k)),
    )

log2_bounds : (fuel n : ℕ) → 0 < n → n ≤ fuel → (2 ^ log2 fuel n ≤ n) × (n < 2 ^ log2 fuel n * 2)
unfolding log2
log2_bounds zero n pos h = absurd (omega arith)
log2_bounds (suc fuel) n pos h = elim (Bool-cases (ltb n 2)) [
  | inl small ↦ rw small (omega arith, ground arith)
  | inr large ↦
      rw (large, pow-suc 2 (log2 fuel (n / 2)))
        (
          omega (arith, (log2_bounds fuel (n / 2) (ground arith) (ground arith)).0),
          omega (arith, (log2_bounds fuel (n / 2) (ground arith) (ground arith)).1),
        )
]

parity : (n : ℕ) → (n ≡ 2 * (n / 2)) ⊎ (n ≡ 2 * (n / 2) + 1)
parity n = ground arith

and_pred_even :
    (n : ℕ) → 1 < n → n ≡ 2 * (n / 2) → bit_and n (n - 1) ≡ bit_and (n / 2) (n / 2 - 1) * 2
and_pred_even n h e = rw (← e) at (bit_and_even (n / 2) (omega arith))

and_pred_odd : (n : ℕ) → n ≡ 2 * (n / 2) + 1 → bit_and n (n - 1) ≡ n / 2 * 2
and_pred_odd n e =
    let before : 2 * (n / 2) ≡ n - 1 = omega arith in rw (← e, before) at (bit_and_odd (n / 2))

-- `number&(number-1) == 0` says that the number is a power of two.
power_iff : (fuel n : ℕ) → 0 < n → n ≤ fuel → (bit_and n (n - 1) ≡ 0) ↔ (n ≡ 2 ^ log2 fuel n)
unfolding log2
power_iff zero n pos h = absurd (omega arith)
power_iff (suc fuel) n pos h = elim (Bool-cases (ltb n 2)) [
  | inl small ↦ let one : n ≡ 1 = ground arith in rw one (λ _. refl, λ _. bit_and_odd 0)
  | inr large ↦
      let big : 1 < n = ground arith in
      let half = power_iff fuel (n / 2) (omega arith) (omega arith) in
      rw (large, pow-suc 2 (log2 fuel (n / 2)))
        (elim (parity n) [
          | inl even ↦ (
            λ z. omega (arith, half.0 (omega (arith, and_pred_even n big even))),
            λ p. omega (arith, half.1 (omega arith), and_pred_even n big even),
          )
          | inr odd ↦ (λ z. absurd (omega (arith, and_pred_odd n odd)), λ p. absurd (omega arith))
        ])
]

-- For a number that is not 0, roundNextPowerOfTwo gives the power of two that is no less than it and
-- less than its double.
pub round_next_power_of_two_bounds :
    (number : ℕ)
    → 0 < number
    → (e : ℕ) × (round_next_power_of_two number ≡ 2 ^ e) × (number ≤ 2 ^ e) × (2 ^ e < 2 * number)
unfolding round_next_power_of_two
round_next_power_of_two_bounds number pos =
    let e : ℕ = log2 number number in
    let (below, above) = log2_bounds number number pos (omega arith) in
    let power = power_iff number number pos (omega arith) in
    elim (Bool-cases (bit_and number (number - 1) == 0)) [
      | inl there ↦
          let same : number ≡ 2 ^ e = power.0 (ground arith) in
          (e, rw there same, omega arith, omega arith)
      | inr other ↦
          let differs : number ≢ 2 ^ e = λ p. absurd (ground (arith, power.1 p)) in
          let next : e + 1 ≡ suc e = omega arith in
          (
            suc e,
            rw (other, next),
            omega (arith, pow-suc 2 e),
            ground (arith, pow-suc 2 e, differs),
          )
    ]
