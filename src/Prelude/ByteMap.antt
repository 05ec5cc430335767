-- ===== src/Prelude/ByteMap.antt =====
-- A Go map keyed by strings, as an association list; a string is the list of its bytes. Go's
-- iteration order is arbitrary: a loop over the map takes the order of the list, whatever it is.
use Prim.Native.Nat.{ℕ}
use mathlib.Core.Path.{◌≡◌, refl}
use mathlib.Core.Logic.{◌⊎◌, inl, inr}
use mathlib.Core.Option.{Option, none, some}
use mathlib.Core.List.{List, [], ◌∷◌}
use native.Mathlib.Omega.{arith}
use go_pandora_pay.Prelude.Tests.{
  bytes_equal, bytes_equal_iff, bytes_equal_refl, if◌then◌else◌, Bool-cases,
}

abbrev pub ByteMap {ℓ} : Type ℓ → Type ℓ
ByteMap V = List (List ℕ × V)

module _ {ℓ} {V : Type ℓ} where
  unfoldable pub find : List ℕ → ByteMap V → Option V
  find k [] = none
  find k ((j, v) ∷ m) = if bytes_equal j k then some v else find k m

  unfoldable pub put : List ℕ → V → ByteMap V → ByteMap V
  put k v [] = (k, v) ∷ []
  put k v ((j, w) ∷ m) = if bytes_equal j k then (j, v) ∷ m else (j, w) ∷ put k v m

  -- `delete(m, k)`
  unfoldable pub remove : List ℕ → ByteMap V → ByteMap V
  remove k [] = []
  remove k ((j, w) ∷ m) = let rest = remove k m in if bytes_equal j k then rest else (j, w) ∷ rest

  pub find-put :
      (j k : List ℕ) (v : V) (m : ByteMap V)
      → find j (put k v m) ≡ (if bytes_equal k j then some v else find j m)
  unfolding find put
  find-put j k v [] = refl
  find-put j k v ((i, w) ∷ m) =
      ground
        (arith, bytes_equal_iff k j, bytes_equal_iff i k, bytes_equal_iff i j, find-put j k v m)

  -- An entry of a map that was written to is the one written, or was there before.
  pub find-put_cases :
      (j k : List ℕ) (c v : V) (m : ByteMap V)
      → find j (put k c m) ≡ some v
      → ((k ≡ j) × (c ≡ v)) ⊎ (find j m ≡ some v)
  find-put_cases j k c v m e = elim (Bool-cases (bytes_equal k j)) [
    | inl same ↦ inl ((bytes_equal_iff k j).0 same, cc (rw (find-put j k c m, same) at e))
    | inr other ↦ inr (rw (find-put j k c m, other) at e)
  ]

  pub find-put_self : (k : List ℕ) (v : V) (m : ByteMap V) → find k (put k v m) ≡ some v
  find-put_self k v m = rw (find-put k k v m, bytes_equal_refl k)

  pub find-remove :
      (j k : List ℕ) (m : ByteMap V)
      → find j (remove k m) ≡ (if bytes_equal k j then none else find j m)
  unfolding find remove
  find-remove j k [] = ground arith
  find-remove j k ((i, w) ∷ m) =
      ground
        (arith, bytes_equal_iff k j, bytes_equal_iff i k, bytes_equal_iff i j, find-remove j k m)
