-- ===== src/MerkleTree/Binding.antt =====
-- What the root of merkle_tree.go tells of the list of hashes.
use go_pandora_pay.Prelude.{
  ℕ, zero, suc, ◌*◌, ◌≤◌, ◌<◌, ◌≡◌, refl, sym, ap, ◌∙◌, ◌⊎◌, inl, inr, some, List, [], ◌∷◌, ◌++◌,
  length, drop, All, length-append, arith,
}
use go_pandora_pay.Prelude.Collision.{Collision, eq_or_Collision}
use go_pandora_pay.Prelude.Result.{ok}
use go_pandora_pay.MerkleTree.{merkle_root}
use go_pandora_pay.MerkleTree.Root.{pair_up, root, length-pair_up, merkle_root-root}

abbrev pub IsHash : List ℕ → Type 0
IsHash hash = length hash ≡ 32

-- Texts that begin with parts of one length.
append-injective : (a b c d : List ℕ) → length a ≡ length c → a ++ b ≡ c ++ d → (a ≡ c) × (b ≡ d)
append-injective [] b [] d e h = (refl, h)
append-injective [] b (y ∷ c) d e h = absurd (omega arith)
append-injective (x ∷ a) b [] d e h = absurd (omega arith)
append-injective (x ∷ a) b (y ∷ c) d e h =
    let (heads, tails) = append-injective a b c d (omega arith) (ap (drop 1) h) in
    (cc (heads, h), tails)

module _ (sha3 : List ℕ → List ℕ) where
  root_rounds :
      (r s : ℕ) (l : List (List ℕ)) → length l ≤ r → length l ≤ s → root sha3 r l ≡ root sha3 s l
  unfolding root
  root_rounds r s [] h g = refl
  root_rounds r s (a ∷ []) h g = refl
  root_rounds zero s (a ∷ b ∷ l) h g = absurd (omega arith)
  root_rounds (suc r) zero (a ∷ b ∷ l) h g = absurd (omega arith)
  root_rounds (suc r) (suc s) (a ∷ b ∷ l) h g =
      let few = length-pair_up sha3 (a ∷ b ∷ l) in
      root_rounds r s (pair_up sha3 (a ∷ b ∷ l)) (omega arith) (omega arith)

  pair_up_repeated :
      (k : ℕ) (front : List (List ℕ)) (x : List ℕ)
      → length front ≡ 2 * k
      → pair_up sha3 (front ++ x ∷ x ∷ []) ≡ pair_up sha3 (front ++ x ∷ [])
  unfolding pair_up
  pair_up_repeated zero [] x e = refl
  pair_up_repeated zero (a ∷ front) x e = absurd (omega arith)
  pair_up_repeated (suc k) [] x e = absurd (omega arith)
  pair_up_repeated (suc k) (a ∷ []) x e = absurd (omega arith)
  pair_up_repeated (suc k) (a ∷ b ∷ front) x e =
      ap (◌∷◌ (sha3 (a ++ b))) (pair_up_repeated k front x (omega arith))

  root_repeated :
      (k : ℕ) (front : List (List ℕ)) (x : List ℕ) (r s : ℕ)
      → length front ≡ 2 * suc k
      → length (front ++ x ∷ x ∷ []) ≤ r
      → length (front ++ x ∷ []) ≤ s
      → root sha3 r (front ++ x ∷ x ∷ []) ≡ root sha3 s (front ++ x ∷ [])
  unfolding root
  root_repeated k [] x r s e h g = absurd (omega arith)
  root_repeated k (a ∷ []) x r s e h g = absurd (omega arith)
  root_repeated k (a ∷ b ∷ front) x zero s e h g = absurd (omega arith)
  root_repeated k (a ∷ b ∷ front) x (suc r) zero e h g = absurd (omega arith)
  root_repeated k (a ∷ b ∷ front) x (suc r) (suc s) e h g =
      let few = length-pair_up sha3 (a ∷ b ∷ front ++ x ∷ []) in
      let more = length-append front (x ∷ x ∷ []) in
      let less = length-append front (x ∷ []) in
      ap (root sha3 r) (pair_up_repeated (suc k) (a ∷ b ∷ front) x e)
      ∙ (root_rounds r s (pair_up sha3 (a ∷ b ∷ front ++ x ∷ [])) (omega arith) (omega arith))

  -- Behind an even number of hashes, not 0, one hash and that hash twice have one Merkle root: the
  -- root does not tell the number of the hashes.
  pub merkle_root_repeated :
      (k : ℕ) (front : List (List ℕ)) (x : List ℕ)
      → length front ≡ 2 * suc k
      → merkle_root sha3 (front ++ x ∷ x ∷ []) ≡ merkle_root sha3 (front ++ x ∷ [])
  merkle_root_repeated k front x e =
      let twice : List (List ℕ) = front ++ x ∷ x ∷ [] in
      let once : List (List ℕ) = front ++ x ∷ [] in
      merkle_root-root sha3 twice (omega (arith, length-append front (x ∷ x ∷ [])))
      ∙ ap (λ h. ok (some h))
          (root_repeated k front x (length twice) (length once) e (omega arith) (omega arith))
      ∙ sym (merkle_root-root sha3 once (omega (arith, length-append front (x ∷ []))))

  module _ (width : (text : List ℕ) → IsHash (sha3 text)) where
    pair_up-All : (l : List (List ℕ)) → All IsHash (pair_up sha3 l)
    unfolding pair_up
    pair_up-All [] = tt
    pair_up-All (a ∷ []) = (width (a ++ a), tt)
    pair_up-All (a ∷ b ∷ l) = (width (a ++ b), pair_up-All l)

    pair_up-injective :
        (l m : List (List ℕ))
        → length l ≡ length m
        → All IsHash l
        → All IsHash m
        → pair_up sha3 l ≡ pair_up sha3 m
        → (l ≡ m) ⊎ Collision sha3
    unfolding pair_up
    pair_up-injective [] [] e hl hm h = inl refl
    pair_up-injective [] (c ∷ m) e hl hm h = absurd (omega arith)
    pair_up-injective (a ∷ l) [] e hl hm h = absurd (omega arith)
    pair_up-injective (a ∷ []) (c ∷ d ∷ m) e hl hm h = absurd (omega arith)
    pair_up-injective (a ∷ b ∷ l) (c ∷ []) e hl hm h = absurd (omega arith)
    pair_up-injective (a ∷ []) (c ∷ []) e hl hm h =
        elim (eq_or_Collision sha3 (a ++ a) (c ++ c) (cc h)) [
          | inl same ↦
              inl (ap (λ x. x ∷ []) (append-injective a a c c (omega (arith, hl.0, hm.0)) same).0)
          | inr collision ↦ inr collision
        ]
    pair_up-injective (a ∷ b ∷ l) (c ∷ d ∷ m) e hl hm h =
        elim (eq_or_Collision sha3 (a ++ b) (c ++ d) (cc h)) [
          | inl same ↦
              let (left, right) = append-injective a b c d (omega (arith, hl.0, hm.0)) same in
              elim (pair_up-injective l m (omega arith) hl.1.1 hm.1.1 (ap (drop 1) h)) [
                | inl rest ↦ inl (cc (left, right, rest))
                | inr collision ↦ inr collision
              ]
          | inr collision ↦ inr collision
        ]

    pub root-injective :
        (rounds : ℕ) (l m : List (List ℕ))
        → length l ≡ length m
        → length l ≤ rounds
        → All IsHash l
        → All IsHash m
        → root sha3 rounds l ≡ root sha3 rounds m
        → (l ≡ m) ⊎ Collision sha3
    unfolding root
    root-injective rounds [] [] e g hl hm h = inl refl
    root-injective rounds [] (c ∷ m) e g hl hm h = absurd (omega arith)
    root-injective rounds (a ∷ l) [] e g hl hm h = absurd (omega arith)
    root-injective rounds (a ∷ []) (c ∷ []) e g hl hm h = inl (ap (λ x. x ∷ []) h)
    root-injective rounds (a ∷ []) (c ∷ d ∷ m) e g hl hm h = absurd (omega arith)
    root-injective rounds (a ∷ b ∷ l) (c ∷ []) e g hl hm h = absurd (omega arith)
    root-injective zero (a ∷ b ∷ l) (c ∷ d ∷ m) e g hl hm h = absurd (omega arith)
    root-injective (suc rounds) (a ∷ b ∷ l) (c ∷ d ∷ m) e g hl hm h =
        let first = length-pair_up sha3 (a ∷ b ∷ l) in
        let second = length-pair_up sha3 (c ∷ d ∷ m) in
        elim (root-injective rounds (pair_up sha3 (a ∷ b ∷ l)) (pair_up sha3 (c ∷ d ∷ m))
          (omega arith) (omega arith) (pair_up-All (a ∷ b ∷ l)) (pair_up-All (c ∷ d ∷ m)) h) [
            | inl same ↦ pair_up-injective (a ∷ b ∷ l) (c ∷ d ∷ m) e hl hm same
            | inr collision ↦ inr collision
          ]

    -- For a hash function whose hashes have 32 bytes: two lists of as many hashes of 32 bytes, not
    -- empty, that have one Merkle root are the same list, or there are two texts with one hash.
    pub merkle_root-injective :
        (l m : List (List ℕ))
        → length l ≡ length m
        → 0 < length l
        → All IsHash l
        → All IsHash m
        → merkle_root sha3 l ≡ merkle_root sha3 m
        → (l ≡ m) ⊎ Collision sha3
    merkle_root-injective l m e pos hl hm h =
        let first = merkle_root-root sha3 l pos in
        let second = merkle_root-root sha3 m (omega arith) in
        let apart : root sha3 (length l) l ≡ root sha3 (length m) m = cc (first, second, h) in
        let roots : root sha3 (length l) l ≡ root sha3 (length l) m =
          apart ∙ ap (λ n. root sha3 n m) (sym e) in
        root-injective (length l) l m e (omega arith) hl hm roots
