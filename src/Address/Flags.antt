-- ===== src/Address/Flags.antt =====
-- IntegrationBytes of address.go: the flags that DecodeAddr reads are those that were set.
use go_pandora_pay.Prelude.{ℕ, ◌≡◌, ◌<◌, refl, Bool, true, false, not, ◌&&◌, ltb, arith}
use go_pandora_pay.Address.{add_flag, has_flag}

unfoldable pub flags : Bool → Bool → Bool → Bool → Bool → Bool → ℕ
unfolding add_flag
flags b0 b1 b2 b3 b4 b5 =
    add_flag b5 32
      (add_flag b4 16 (add_flag b3 8 (add_flag b2 4 (add_flag b1 2 (add_flag b0 1 0)))))

same : Bool → Bool → Bool
same true b = b
same false b = not b

same-eq : (a b : Bool) → same a b ≡ true → a ≡ b
unfolding same
same-eq true b h = ground arith
same-eq false b h = ground arith

every : (Bool → Bool) → Bool
every p = p true && p false

every-holds : (p : Bool → Bool) (b : Bool) → every p ≡ true → p b ≡ true
unfolding every
every-holds p true h = ground arith
every-holds p false h = ground arith

-- One flag, over all the values of the six.
at_every :
    (p : Bool → Bool → Bool → Bool → Bool → Bool → Bool)
    → every (λ b0. every (λ b1. every (λ b2. every (λ b3. every (λ b4. every (p b0 b1 b2 b3 b4))))))
      ≡ true
    → (b0 b1 b2 b3 b4 b5 : Bool) → p b0 b1 b2 b3 b4 b5 ≡ true
at_every p h b0 b1 b2 b3 b4 b5 = every-holds (p b0 b1 b2 b3 b4) b5 (
    every-holds (λ b4. every (p b0 b1 b2 b3 b4)) b4
      (every-holds (λ b3. every (λ b4. every (p b0 b1 b2 b3 b4))) b3
        (every-holds (λ b2. every (λ b3. every (λ b4. every (p b0 b1 b2 b3 b4)))) b2
          (every-holds (λ b1. every (λ b2. every (λ b3. every (λ b4. every (p b0 b1 b2 b3 b4))))) b1
            (every-holds
              (λ b0.
                every (λ b1. every (λ b2. every (λ b3. every (λ b4. every (p b0 b1 b2 b3 b4))))))
              b0 h)))))

pub record HasFlags (b0 b1 b2 b3 b4 b5 : Bool) : Type 0 where
  pub staked : has_flag (flags b0 b1 b2 b3 b4 b5) 1 ≡ b0
  pub spend_public_key : has_flag (flags b0 b1 b2 b3 b4 b5) 2 ≡ b1
  pub registration : has_flag (flags b0 b1 b2 b3 b4 b5) 4 ≡ b2
  pub payment_id : has_flag (flags b0 b1 b2 b3 b4 b5) 8 ≡ b3
  pub payment_amount : has_flag (flags b0 b1 b2 b3 b4 b5) 16 ≡ b4
  pub payment_asset : has_flag (flags b0 b1 b2 b3 b4 b5) 32 ≡ b5
  pub small : flags b0 b1 b2 b3 b4 b5 < 64

pub flags-HasFlags : (b0 b1 b2 b3 b4 b5 : Bool) → HasFlags b0 b1 b2 b3 b4 b5
unfolding every same flags has_flag
flags-HasFlags b0 b1 b2 b3 b4 b5 = record {
  staked = same-eq _ b0 (
      at_every (λ b0 b1 b2 b3 b4 b5. same (has_flag (flags b0 b1 b2 b3 b4 b5) 1) b0) refl b0 b1 b2
        b3 b4 b5);
  spend_public_key = same-eq _ b1 (
      at_every (λ b0 b1 b2 b3 b4 b5. same (has_flag (flags b0 b1 b2 b3 b4 b5) 2) b1) refl b0 b1 b2
        b3 b4 b5);
  registration = same-eq _ b2 (
      at_every (λ b0 b1 b2 b3 b4 b5. same (has_flag (flags b0 b1 b2 b3 b4 b5) 4) b2) refl b0 b1 b2
        b3 b4 b5);
  payment_id = same-eq _ b3 (
      at_every (λ b0 b1 b2 b3 b4 b5. same (has_flag (flags b0 b1 b2 b3 b4 b5) 8) b3) refl b0 b1 b2
        b3 b4 b5);
  payment_amount = same-eq _ b4 (
      at_every (λ b0 b1 b2 b3 b4 b5. same (has_flag (flags b0 b1 b2 b3 b4 b5) 16) b4) refl b0 b1 b2
        b3 b4 b5);
  payment_asset = same-eq _ b5 (
      at_every (λ b0 b1 b2 b3 b4 b5. same (has_flag (flags b0 b1 b2 b3 b4 b5) 32) b5) refl b0 b1 b2
        b3 b4 b5);
  small = ground (
    arith,
    at_every (λ b0 b1 b2 b3 b4 b5. ltb (flags b0 b1 b2 b3 b4 b5) 64) refl b0 b1 b2 b3 b4 b5,
  );
}
