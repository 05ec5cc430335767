-- ===== src/MerkleTree.antt =====
-- cryptography/merkle_tree/merkle_tree.go. SHA3 is the parameter `sha3`. A node is a hash or nil; the
-- hashes that are given are not nil, and have no spare capacity for `append` to write to.
-- `uint(math.Log2(float64(number)))` is the whole part of the logarithm: float64 has every int
-- below 2 ^ 53, and a block of one megabyte has fewer transactions than 2 ^ 20.
pub mod Rounding
pub mod Levels
pub mod Root
pub mod Binding
mod Tests
use Prim.Native.Nat.{bit_and}
use go_pandora_pay.Prelude.{
  ℕ, zero, suc, ◌+◌, ◌-◌, ◌*◌, ◌/◌, ◌^◌, Option, none, some, List, [], ◌∷◌, ◌++◌, length, get_elem?,
  set, replicate, ltb, ◌==◌, if◌then◌else◌,
}
use go_pandora_pay.Prelude.Result.{Result, ok, err, panic, ◌>>=◌}

-- No function of the file gives an error.
pub data NoError : Type 0 where

abbrev pub Node : Type 0
Node = Option (List ℕ)

-- `n` rounds are enough for `n`.
unfoldable pub log2 : ℕ → ℕ → ℕ
log2 zero n = 0
log2 (suc rounds) n = let more = suc (log2 rounds (n / 2)) in if ltb n 2 then 0 else more

unfoldable pub round_next_power_of_two : ℕ → ℕ
unfolding log2
round_next_power_of_two number =
    if bit_and number (number - 1) == 0 then number else 2 ^ (log2 number number + 1)

-- `nodes[i] = hashes[i]` over the nil nodes of the array
unfoldable pub filled : List (List ℕ) → ℕ → List Node
filled [] size = replicate size none
filled (hash ∷ hashes) zero = []
filled (hash ∷ hashes) (suc size) = some hash ∷ filled hashes size

module _ (sha3 : List ℕ → List ℕ) where
  unfoldable pub hash_merkle_node : List ℕ → List ℕ → List ℕ
  hash_merkle_node left right = sha3 (left ++ right)

  -- The cases of the switch
  unfoldable pub parent : Node → Node → Node
  unfolding hash_merkle_node
  parent none right = none
  parent (some left) none = some (hash_merkle_node left left)
  parent (some left) (some right) = some (hash_merkle_node left right)

  -- `nodes[offset] = …`, whose indices panic out of range
  unfoldable pub put_parent : ℕ → ℕ → List Node → Result NoError (List Node)
  unfolding parent
  put_parent i offset nodes = elim (get_elem? nodes i) [
    | none ↦ panic
    | some left ↦ elim (get_elem? nodes (i + 1)) [
      | none ↦ panic
      | some right ↦
          if ltb offset (length nodes) then ok (set nodes offset (parent left right)) else panic
    ]
  ]

  -- `for i := 0; i < arraySize-1; i += 2 { … offset++ }`, by the rounds that are left
  unfoldable pub build_loop : ℕ → ℕ → ℕ → List Node → Result NoError (List Node)
  unfolding put_parent
  build_loop zero i offset nodes = ok nodes
  build_loop (suc rounds) i offset nodes =
      put_parent i offset nodes >>= λ nodes'. build_loop rounds (i + 2) (offset + 1) nodes'

  unfoldable pub build_merkle_tree : List (List ℕ) → Result NoError (List Node)
  unfolding round_next_power_of_two filled build_loop
  build_merkle_tree hashes =
      let rounded = round_next_power_of_two (length hashes) in
      let array_size = rounded * 2 - 1 in
      if length hashes == 0
      then ok []
      else build_loop (array_size / 2) 0 rounded (filled hashes array_size)

  -- `merkles[len(merkles)-1]`, which panics on an empty array
  unfoldable pub merkle_root : List (List ℕ) → Result NoError Node
  unfolding build_merkle_tree
  merkle_root hashes = build_merkle_tree hashes >>= λ merkles.
      if length merkles == 0
      then panic
      else elim (get_elem? merkles (length merkles - 1)) [ none ↦ panic | some node ↦ ok node ]
