-- ===== src/Prelude/Collision.antt =====
-- What equal hashes tell: equal texts, or two texts that a hash function does not tell apart.
use Prim.Native.Nat.{ℕ}
use mathlib.Core.Path.{◌≡◌}
use mathlib.Core.Logic.{◌≢◌, ◌⊎◌, inl, inr}
use mathlib.Core.List.{List}
use go_pandora_pay.Prelude.Tests.{bytes_equal, bytes_equal_iff, Bool-cases}

-- Two texts with one hash.
abbrev pub Collision : (List ℕ → List ℕ) → Type 0
Collision hash = (x : List ℕ) × (y : List ℕ) × (x ≢ y) × (hash x ≡ hash y)

pub eq_or_Collision :
    (hash : List ℕ → List ℕ) (x y : List ℕ) → hash x ≡ hash y → (x ≡ y) ⊎ Collision hash
eq_or_Collision hash x y e = elim (Bool-cases (bytes_equal x y)) [
  | inl same ↦ inl ((bytes_equal_iff x y).0 same)
  | inr other ↦ inr (x, y, (λ h. cc (other, (bytes_equal_iff x y).1 h)), e)
]
