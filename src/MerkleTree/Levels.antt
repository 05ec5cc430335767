-- ===== src/MerkleTree/Levels.antt =====
-- The loop of buildMerkleTree, level by level.
use go_pandora_pay.Prelude.{
  ℕ, zero, suc, ◌+◌, ◌-◌, ◌*◌, ◌^◌, ◌≡◌, refl, ap, ◌∙◌, true, ltb, none, some, List, [], ◌∷◌, ◌++◌,
  length, get_elem?, set, replicate, length-append, get_elem?-append, arith,
}
use go_pandora_pay.Prelude.Result.{ok}
use go_pandora_pay.MerkleTree.{Node, parent, put_parent, build_loop}
use mathlib.Core.List.{append_assoc, append-nil}
use native.Mathlib.Nat.{pow-suc}

set_append :
    (front : List Node) (old b : Node) (rest : List Node)
    → set (front ++ old ∷ rest) (length front) b ≡ front ++ b ∷ rest
set_append [] old b rest = refl
set_append (x ∷ front) old b rest = ap (◌∷◌ x) (set_append front old b rest)

-- The parents of a level, two nodes at a time.
unfoldable pub parents : (List ℕ → List ℕ) → List Node → List Node
parents sha3 [] = []
parents sha3 (a ∷ []) = []
parents sha3 (a ∷ b ∷ l) = parent sha3 a b ∷ parents sha3 l

module _ (sha3 : List ℕ → List ℕ) where
  -- One round: the next two nodes of the level, and the first free place behind what is there.
  put_parent_lem :
      (front mid rest : List Node) (a b : Node) (i offset : ℕ)
      → i ≡ length front
      → offset ≡ length front + 2 + length mid
      → put_parent sha3 i offset (front ++ a ∷ b ∷ (mid ++ none ∷ rest))
        ≡ ok (front ++ a ∷ b ∷ (mid ++ parent sha3 a b ∷ rest))
  unfolding put_parent
  put_parent_lem front mid rest a b i offset ei eo =
      let whole : List Node = front ++ a ∷ b ∷ (mid ++ none ∷ rest) in
      let first : get_elem? whole i ≡ some a =
        rw ei (get_elem?-append front (b ∷ (mid ++ none ∷ rest)) a) in
      let second : get_elem? whole (i + 1) ≡ some b =
        let place : length (front ++ a ∷ []) ≡ i + 1 =
          omega (arith, length-append front (a ∷ [])) in
        rw (append_assoc front (a ∷ []) (b ∷ (mid ++ none ∷ rest)), place) at
          (get_elem?-append (front ++ a ∷ []) (mid ++ none ∷ rest) b) in
      let inside : ltb offset (length whole) ≡ true = ground (
        arith,
        length-append front (a ∷ b ∷ (mid ++ none ∷ rest)),
        length-append mid (none ∷ rest),
      ) in
      let written : set whole offset (parent sha3 a b)
          ≡ front ++ a ∷ b ∷ (mid ++ parent sha3 a b ∷ rest) =
        let place : length (front ++ a ∷ b ∷ mid) ≡ offset =
          omega (arith, length-append front (a ∷ b ∷ mid)) in
        rw
          (
            append_assoc front (a ∷ b ∷ mid) (none ∷ rest),
            append_assoc front (a ∷ b ∷ mid) (parent sha3 a b ∷ rest),
            place,
          )
          at (set_append (front ++ a ∷ b ∷ mid) none (parent sha3 a b) rest) in
      ground arith

  reshaped :
      (front level done x : List Node) (a b p : Node)
      → (front ++ a ∷ b ∷ []) ++ (level ++ ((done ++ p ∷ []) ++ x))
        ≡ front ++ a ∷ b ∷ (level ++ (done ++ p ∷ x))
  reshaped front level done x a b p = rw (
    append_assoc front (a ∷ b ∷ []) (level ++ ((done ++ p ∷ []) ++ x)),
    append_assoc done (p ∷ []) x,
  )

  -- The rounds of one level: its nodes stand behind `front`, with `done` behind them, and their
  -- parents take the next free places.
  build_loop_level :
      (m k : ℕ) (front level done : List Node) (r i offset : ℕ)
      → length level ≡ 2 * m
      → i ≡ length front
      → offset ≡ length front + 2 * m + length done
      → build_loop sha3 (m + k) i offset (front ++ (level ++ (done ++ replicate (m + r) none)))
        ≡ build_loop sha3 k
            (i + 2 * m)
            (offset + m)
            (front ++ (level ++ (done ++ (parents sha3 level ++ replicate r none))))
  unfolding build_loop parents
  build_loop_level zero k front [] done r i offset el ei eo =
      let rounds : 0 + k ≡ k = omega arith in
      let free : 0 + r ≡ r = omega arith in
      let place : i + 0 ≡ i = omega arith in
      let next : offset + 0 ≡ offset = omega arith in rw (rounds, free, place, next)
  build_loop_level zero k front (a ∷ level) done r i offset el ei eo = absurd (omega arith)
  build_loop_level (suc m) k front [] done r i offset el ei eo = absurd (omega arith)
  build_loop_level (suc m) k front (a ∷ []) done r i offset el ei eo = absurd (omega arith)
  build_loop_level (suc m) k front (a ∷ b ∷ level) done r i offset el ei eo =
      let rounds : suc m + k ≡ suc (m + k) = omega arith in
      let free : suc m + r ≡ suc (m + r) = omega arith in
      let place : i + 2 + 2 * m ≡ i + 2 * suc m = omega arith in
      let next : offset + 1 + m ≡ offset + suc m = omega arith in
      let x : List Node = replicate (m + r) none in
      let p : Node = parent sha3 a b in
      let put : put_parent sha3 i offset (front ++ a ∷ b ∷ (level ++ (done ++ none ∷ x)))
          ≡ ok (front ++ a ∷ b ∷ (level ++ (done ++ p ∷ x))) =
        rw (append_assoc level done (none ∷ x), append_assoc level done (p ∷ x)) at
          (put_parent_lem front (level ++ done) x a b i offset ei
            (omega (arith, length-append level done))) in
      let ih =
        build_loop_level m k (front ++ a ∷ b ∷ []) level (done ++ p ∷ []) r (i + 2) (offset + 1)
          (omega arith) (omega (arith, length-append front (a ∷ b ∷ [])))
          (omega (arith, length-append front (a ∷ b ∷ []), length-append done (p ∷ []))) in
      rw (rounds, free, put)
        (rw
          (
            reshaped front level done x a b p,
            reshaped front level done (parents sha3 level ++ replicate r none) a b p,
            place,
            next,
          )
          at ih)

  length-parents :
      (m : ℕ) (level : List Node) → length level ≡ 2 * m → length (parents sha3 level) ≡ m
  unfolding parents
  length-parents zero [] e = refl
  length-parents zero (a ∷ level) e = absurd (omega arith)
  length-parents (suc m) [] e = absurd (omega arith)
  length-parents (suc m) (a ∷ []) e = absurd (omega arith)
  length-parents (suc m) (a ∷ b ∷ level) e = ap suc (length-parents m level (omega arith))

  -- The level that is `e` above, of one node for a level of 2 ^ e.
  unfoldable pub top : ℕ → List Node → List Node
  unfolding parents
  top zero level = level
  top (suc e) level = top e (parents sha3 level)

  pub length-top : (e : ℕ) (level : List Node) → length level ≡ 2 ^ e → length (top e level) ≡ 1
  unfolding top
  length-top zero level h = h
  length-top (suc e) level h =
      length-top e (parents sha3 level) (length-parents (2 ^ e) level (omega (arith, pow-suc 2 e)))

  first_level :
      (e : ℕ) (front level whole : List Node) (i offset : ℕ)
      → length level ≡ 2 * 2 ^ e
      → i ≡ length front
      → offset ≡ length front + 2 * 2 ^ e
      → build_loop sha3
          (2 ^ e - 1)
          (i + 2 * 2 ^ e)
          (offset + 2 ^ e)
          ((front ++ level) ++ (parents sha3 level ++ replicate (2 ^ e - 1) none))
        ≡ ok whole
      → build_loop sha3
          (2 ^ suc e - 1)
          i
          offset
          (front ++ (level ++ replicate (2 ^ suc e - 1) none))
        ≡ ok whole
  first_level e front level whole i offset size ei eo h =
      let k : ℕ = 2 ^ e - 1 in
      let rounds : 2 ^ suc e - 1 ≡ 2 ^ e + k = omega (arith, pow-suc 2 e) in
      rw rounds (
        build_loop_level (2 ^ e) k front level [] k i offset size ei (omega arith)
        ∙ rw (append_assoc front level (parents sha3 level ++ replicate k none)) at h)

  -- The whole loop leaves the top level at the end of the array.
  pub build_loop-top :
      (e : ℕ) (front level : List Node) (i offset : ℕ)
      → length level ≡ 2 ^ e
      → i ≡ length front
      → offset ≡ length front + 2 ^ e
      → (before : List Node) × (build_loop sha3
            (2 ^ e - 1)
            i
            offset
            (front ++ (level ++ replicate (2 ^ e - 1) none))
          ≡ ok (before ++ top e level))
  unfolding build_loop top
  build_loop-top zero front level i offset el ei eo = (front, rw (append-nil level))
  build_loop-top (suc e) front level i offset el ei eo =
      let size : length level ≡ 2 * 2 ^ e = omega (arith, pow-suc 2 e) in
      let (before, ih) =
        build_loop-top e (front ++ level) (parents sha3 level) (i + 2 * 2 ^ e) (offset + 2 ^ e)
          (length-parents (2 ^ e) level size) (omega (arith, length-append front level))
          (omega (arith, pow-suc 2 e, length-append front level)) in
      (
        before,
        first_level e front level (before ++ top (suc e) level) i offset size ei
            (omega (arith, pow-suc 2 e)) ih,
      )
