-- ===== src/MerkleTree/Tests.antt =====
-- Merkle roots, for a hash function that adds up its text.
use go_pandora_pay.Prelude.{ℕ, ◌+◌, ◌%◌, ◌≡◌, ◌⊎◌, refl, some, List, [], ◌∷◌, replicate, arith}
use go_pandora_pay.Prelude.Collision.{Collision}
use go_pandora_pay.Prelude.Result.{ok}
use go_pandora_pay.MerkleTree.{
  round_next_power_of_two, log2, filled, hash_merkle_node, parent, put_parent, build_loop,
  build_merkle_tree, merkle_root,
}
use go_pandora_pay.MerkleTree.Root.{root, merkle_root-root}
use go_pandora_pay.MerkleTree.Binding.{merkle_root_repeated, merkle_root-injective}

abbrev weight : List ℕ → ℕ
weight [] = 0
weight (byte ∷ text) = byte + weight text

abbrev summed : List ℕ → List ℕ
summed text = weight text % 256 ∷ replicate 31 0

abbrev one : List ℕ
one = replicate 32 1

abbrev two : List ℕ
two = replicate 32 2

abbrev three : List ℕ
three = replicate 32 3

rounded : round_next_power_of_two 5 ≡ 8
unfolding round_next_power_of_two log2
rounded = refl

swapped : merkle_root summed (one ∷ two ∷ []) ≡ merkle_root summed (two ∷ one ∷ [])
unfolding merkle_root build_merkle_tree round_next_power_of_two log2 filled build_loop put_parent
    parent hash_merkle_node
swapped = refl

merkle_root-root_example :
    merkle_root summed (one ∷ two ∷ three ∷ []) ≡ ok (some (root summed 3 (one ∷ two ∷ three ∷ [])))
merkle_root-root_example = merkle_root-root summed (one ∷ two ∷ three ∷ []) (omega arith)

merkle_root_repeated_example :
    merkle_root summed (one ∷ two ∷ three ∷ three ∷ [])
    ≡ merkle_root summed (one ∷ two ∷ three ∷ [])
merkle_root_repeated_example = merkle_root_repeated summed 0 (one ∷ two ∷ []) three refl

merkle_root-injective_example : (one ∷ two ∷ [] ≡ two ∷ one ∷ []) ⊎ Collision summed
merkle_root-injective_example =
    merkle_root-injective summed (λ text. refl) (one ∷ two ∷ []) (two ∷ one ∷ []) refl (omega arith)
      (refl, (refl, tt)) (refl, (refl, tt)) swapped
