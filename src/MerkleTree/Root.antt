-- ===== src/MerkleTree/Root.antt =====
-- MerkleRoot against the Merkle root as it is defined by pairing up.
use go_pandora_pay.Prelude.{
  ℕ, zero, suc, ◌+◌, ◌-◌, ◌*◌, ◌/◌, ◌^◌, ◌≤◌, ◌<◌, ◌≡◌, refl, ap, ◌∙◌, false, none, some, List, [],
  ◌∷◌, ◌++◌, length, replicate, ◌==◌, length-append, length-replicate, get_elem?-append, arith,
}
use go_pandora_pay.Prelude.Result.{ok}
use go_pandora_pay.MerkleTree.{
  Node, hash_merkle_node, parent, filled, build_loop, build_merkle_tree, merkle_root,
}
use go_pandora_pay.MerkleTree.Rounding.{round_next_power_of_two_bounds}
use go_pandora_pay.MerkleTree.Levels.{parents, top, build_loop-top}
use native.Mathlib.Nat.{pow-suc}

power_pos : (e : ℕ) → 0 < 2 ^ e
power_pos zero = omega arith
power_pos (suc e) = omega (arith, pow-suc 2 e, power_pos e)

length-filled : (l : List (List ℕ)) (n : ℕ) → length (filled l n) ≡ n
unfolding filled
length-filled [] n = length-replicate n none
length-filled (x ∷ l) zero = refl
length-filled (x ∷ l) (suc n) = ap suc (length-filled l n)

replicate-add : (m n : ℕ) → replicate {A = Node} (m + n) none ≡ replicate m none ++ replicate n none
replicate-add zero n = let e : 0 + n ≡ n = omega arith in rw e
replicate-add (suc m) n =
    let e : suc m + n ≡ suc (m + n) = omega arith in rw e (ap (◌∷◌ none) (replicate-add m n))

filled-add :
    (l : List (List ℕ)) (m n : ℕ) → length l ≤ m → filled l (m + n) ≡ filled l m ++ replicate n none
unfolding filled
filled-add [] m n h = replicate-add m n
filled-add (x ∷ l) zero n h = absurd (omega arith)
filled-add (x ∷ l) (suc m) n h =
    let e : suc m + n ≡ suc (m + n) = omega arith in
    rw e (ap (◌∷◌ (some x)) (filled-add l m n (omega arith)))

module _ (sha3 : List ℕ → List ℕ) where
  -- The hashes of two neighbours, and that of the last with itself if it stands alone.
  unfoldable pub pair_up : List (List ℕ) → List (List ℕ)
  pair_up [] = []
  pair_up (a ∷ []) = sha3 (a ++ a) ∷ []
  pair_up (a ∷ b ∷ l) = sha3 (a ++ b) ∷ pair_up l

  -- The root of a list: of one hash that hash, else the root of the pairs. As many rounds as there are
  -- hashes are enough.
  unfoldable pub root : ℕ → List (List ℕ) → List ℕ
  unfolding pair_up
  root rounds [] = []
  root rounds (a ∷ []) = a
  root zero (a ∷ b ∷ l) = []
  root (suc rounds) (a ∷ b ∷ l) = root rounds (pair_up (a ∷ b ∷ l))

  parents-none : (m : ℕ) → parents sha3 (replicate (2 * m) none) ≡ replicate m none
  unfolding parents parent
  parents-none zero = refl
  parents-none (suc m) =
      let e : 2 * suc m ≡ suc (suc (2 * m)) = omega arith in rw e (ap (◌∷◌ none) (parents-none m))

  parents-filled :
      (l : List (List ℕ)) (m : ℕ)
      → length l ≤ 2 * m
      → parents sha3 (filled l (2 * m)) ≡ filled (pair_up l) m
  unfolding filled parents parent pair_up hash_merkle_node
  parents-filled [] m h = parents-none m
  parents-filled (a ∷ l) zero h = absurd (omega arith)
  parents-filled (a ∷ []) (suc m) h =
      let e : 2 * suc m ≡ suc (suc (2 * m)) = omega arith in
      rw e (ap (◌∷◌ (some (sha3 (a ++ a)))) (parents-none m))
  parents-filled (a ∷ b ∷ l) (suc m) h =
      let e : 2 * suc m ≡ suc (suc (2 * m)) = omega arith in
      rw e (ap (◌∷◌ (some (sha3 (a ++ b)))) (parents-filled l m (omega arith)))

  pub length-pair_up : (l : List (List ℕ)) → length (pair_up l) ≡ (length l + 1) / 2
  unfolding pair_up
  length-pair_up [] = refl
  length-pair_up (a ∷ []) = refl
  length-pair_up (a ∷ b ∷ l) = omega (arith, length-pair_up l)

  top-filled :
      (e rounds : ℕ) (l : List (List ℕ))
      → length l ≤ 2 ^ e
      → 2 ^ e < 2 * length l
      → length l ≤ rounds
      → top sha3 e (filled l (2 ^ e)) ≡ some (root rounds l) ∷ []
  unfolding top filled root
  top-filled zero rounds [] h g f = absurd (omega arith)
  top-filled zero rounds (a ∷ []) h g f = refl
  top-filled zero rounds (a ∷ b ∷ l) h g f = absurd (omega arith)
  top-filled (suc e) rounds [] h g f = absurd (omega arith)
  top-filled (suc e) rounds (a ∷ []) h g f = absurd (omega (arith, pow-suc 2 e, power_pos e))
  top-filled (suc e) zero (a ∷ b ∷ l) h g f = absurd (omega arith)
  top-filled (suc e) (suc rounds) (a ∷ b ∷ l) h g f =
      let double : 2 ^ suc e ≡ 2 * 2 ^ e = omega (arith, pow-suc 2 e) in
      let few = length-pair_up (a ∷ b ∷ l) in
      rw (double, parents-filled (a ∷ b ∷ l) (2 ^ e) (omega arith))
        (top-filled e rounds (pair_up (a ∷ b ∷ l)) (omega arith) (omega arith) (omega arith))

  whole_array :
      (e : ℕ) (hashes : List (List ℕ)) (nodes : List Node)
      → length hashes ≤ 2 ^ e
      → build_loop sha3 (2 ^ e - 1) 0 (2 ^ e) (filled hashes (2 ^ e) ++ replicate (2 ^ e - 1) none)
        ≡ ok nodes
      → build_loop sha3 ((2 ^ e * 2 - 1) / 2) 0 (2 ^ e) (filled hashes (2 ^ e * 2 - 1)) ≡ ok nodes
  whole_array e hashes nodes h loop =
      let size : 2 ^ e * 2 - 1 ≡ 2 ^ e + (2 ^ e - 1) = omega (arith, power_pos e) in
      let rounds : (2 ^ e * 2 - 1) / 2 ≡ 2 ^ e - 1 = omega (arith, power_pos e) in
      rw (rounds, size, filled-add hashes (2 ^ e) (2 ^ e - 1) h) loop

  built :
      (e : ℕ) (hashes : List (List ℕ))
      → length hashes ≤ 2 ^ e
      → 2 ^ e < 2 * length hashes
      → (before : List Node) × (build_loop sha3
            ((2 ^ e * 2 - 1) / 2)
            0
            (2 ^ e)
            (filled hashes (2 ^ e * 2 - 1))
          ≡ ok (before ++ some (root (length hashes) hashes) ∷ []))
  built e hashes h g =
      let (before, loop) =
        build_loop-top sha3 e [] (filled hashes (2 ^ e)) 0 (2 ^ e) (length-filled hashes (2 ^ e))
          refl (omega arith) in
      let last = top-filled e (length hashes) hashes h g (omega arith) in
      let nodes : List Node = before ++ some (root (length hashes) hashes) ∷ [] in
      (before, whole_array e hashes nodes h (loop ∙ ap (λ t. ok (before ++ t)) last))

  build_merkle_tree-root :
      (hashes : List (List ℕ))
      → 0 < length hashes
      → (before : List Node) × (build_merkle_tree sha3 hashes
          ≡ ok (before ++ some (root (length hashes) hashes) ∷ []))
  unfolding build_merkle_tree
  build_merkle_tree-root hashes pos =
      let (e, rounded, h, g) = round_next_power_of_two_bounds (length hashes) pos in
      let there : (length hashes == 0) ≡ false = ground arith in
      let (before, loop) = built e hashes h g in (before, rw (there, rounded) loop)

  -- MerkleRoot of a list of hashes that is not empty goes through, and gives the root of the list.
  pub merkle_root-root :
      (hashes : List (List ℕ))
      → 0 < length hashes
      → merkle_root sha3 hashes ≡ ok (some (root (length hashes) hashes))
  unfolding merkle_root
  merkle_root-root hashes pos =
      let (before, e) = build_merkle_tree-root hashes pos in
      let last : Node = some (root (length hashes) hashes) in
      let size : length (before ++ last ∷ []) ≡ length before + 1 =
        omega (arith, length-append before (last ∷ [])) in
      let place : length before + 1 - 1 ≡ length before = omega arith in
      let filled : (length before + 1 == 0) ≡ false = ground arith in
      rw (e, size, filled, place, get_elem?-append before [] last)
