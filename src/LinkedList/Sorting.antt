-- ===== src/LinkedList/Sorting.antt =====
-- SortList of helpers/linked_list/linked_list_sort.go.
use go_pandora_pay.Prelude.{
  ◌⊎◌, ℕ, zero, suc, ◌+◌, ◌≤◌, ◌≡◌, refl, sym, ap, Bool, true, false, some, List, [], ◌∷◌, ◌++◌,
  length, All, arith, Bool-cases, inl, inr,
}
use go_pandora_pay.Prelude.Result.{ok, panic}
use go_pandora_pay.LinkedList.{LinkedList, merge, get_mid, sort_list_fuel, sort_list, last_of}
use mathlib.Core.List.{Perm}
use mathlib.Core.List.Perm
use mathlib.Core.List.{perm_middle, append-nil}

module _ {T : Type 0} (cmp : T → T → Bool) where
  -- No item stands behind one that it should go before.
  abbrev pub IsSorted : List T → Type 0
  IsSorted [] = Unit
  IsSorted (a ∷ l) = All (λ b. cmp b a ≡ false) l × IsSorted l

  merge-All : (P : T → Type 0) (l₁ l₂ : List T) → All P l₁ → All P l₂ → All P (merge cmp l₁ l₂)
  unfolding merge
  merge-All P [] l₂ h k = k
  merge-All P (a ∷ l₁) [] h k = h
  merge-All P (a ∷ l₁) (b ∷ l₂) (ha, h) (kb, k) = elim (Bool-cases (cmp a b)) [
    | inl before ↦ rw before (ha, merge-All P l₁ (b ∷ l₂) h (kb, k))
    | inr after ↦ rw after (kb, merge-All P (a ∷ l₁) l₂ (ha, h) k)
  ]

  merge-Perm : (l₁ l₂ : List T) → Perm (merge cmp l₁ l₂) (l₁ ++ l₂)
  unfolding merge
  merge-Perm [] l₂ = Perm.refl l₂
  merge-Perm (a ∷ l₁) [] = rw (append-nil l₁) (Perm.refl (a ∷ l₁))
  merge-Perm (a ∷ l₁) (b ∷ l₂) = elim (Bool-cases (cmp a b)) [
    | inl before ↦ rw before (Perm.cons a (merge-Perm l₁ (b ∷ l₂)))
    | inr after ↦
        rw after
          (Perm.trans (Perm.cons b (merge-Perm (a ∷ l₁) l₂)) (Perm.symm (perm_middle (a ∷ l₁) l₂)))
  ]

  -- The two parts are the list, and each is shorter where there are two items or more.
  get_mid-append :
      (fast slow : List T) → let (front, mid) = get_mid cmp fast slow in front ++ mid ≡ slow
  unfolding get_mid
  get_mid-append [] slow = refl
  get_mid-append (a ∷ []) slow = refl
  get_mid-append (a ∷ b ∷ fast) [] = refl
  get_mid-append (a ∷ b ∷ fast) (c ∷ slow) = ap (λ (l : List T). c ∷ l) (get_mid-append fast slow)

  get_mid-length :
      (fast slow : List T)
      → length fast ≤ length slow
      → let (front, mid) = get_mid cmp fast slow in
        (length front + length front ≤ length fast)
        × (length fast ≤ length front + length front + 1)
        × (length front + length mid ≡ length slow)
  unfolding get_mid
  get_mid-length [] slow h = omega arith
  get_mid-length (a ∷ []) slow h = omega arith
  get_mid-length (a ∷ b ∷ fast) [] h = absurd (omega arith)
  get_mid-length (a ∷ b ∷ fast) (c ∷ slow) h =
      ground (arith, get_mid-length fast slow (omega arith))

  All-map : (P Q : T → Type 0) (l : List T) → ((a : T) → P a → Q a) → All P l → All Q l
  All-map P Q [] f h = tt
  All-map P Q (a ∷ l) f (ha, h) = (f a ha, All-map P Q l f h)

  nil_of_Perm : (l : List T) → Perm [] l → l ≡ []
  nil_of_Perm l p = sym (Perm.nil-eq p)

  merged-Perm :
      (front mid l left right : List T)
      → front ++ mid ≡ l
      → Perm left front
      → Perm right mid
      → Perm (merge cmp left right) l
  merged-Perm front mid l left right e p q =
      rw (← e) (Perm.trans (merge-Perm left right) (Perm.append p q))

  merged_step :
      (fuel : ℕ) (a b : T) (l left right : List T)
      → let (front, mid) = get_mid cmp (a ∷ b ∷ l) (a ∷ b ∷ l) in
        sort_list_fuel cmp fuel front ≡ some left
        → sort_list_fuel cmp fuel mid ≡ some right
        → sort_list_fuel cmp (suc fuel) (a ∷ b ∷ l) ≡ some (merge cmp left right)
  unfolding sort_list_fuel get_mid merge
  merged_step fuel a b l left right e f = rw (e, f) refl

  -- The order of `cmp` is strict: it is asymmetric, and what it does not put apart is transitive.
  pub record IsStrict : Type 0 where
    pub asymmetric : (a b : T) → cmp a b ≡ true → cmp b a ≡ false
    pub transitive : (a b c : T) → cmp b a ≡ false → cmp c b ≡ false → cmp c a ≡ false

  module _ (strict : IsStrict) where
    merge-IsSorted : (l₁ l₂ : List T) → IsSorted l₁ → IsSorted l₂ → IsSorted (merge cmp l₁ l₂)
    unfolding merge
    merge-IsSorted [] l₂ h k = k
    merge-IsSorted (a ∷ l₁) [] h k = h
    merge-IsSorted (a ∷ l₁) (b ∷ l₂) (ha, h) (kb, k) = elim (Bool-cases (cmp a b)) [
      | inl before ↦
          let ba = strict.asymmetric a b before in
          let behind =
            All-map (λ c. cmp c b ≡ false) (λ c. cmp c a ≡ false) l₂
              (λ c. strict.transitive a b c ba) kb in
          rw before (
            merge-All (λ c. cmp c a ≡ false) l₁ (b ∷ l₂) ha (ba, behind),
            merge-IsSorted l₁ (b ∷ l₂) h (kb, k),
          )
      | inr after ↦
          let behind =
            All-map (λ c. cmp c a ≡ false) (λ c. cmp c b ≡ false) l₁
              (λ c. strict.transitive b a c after) ha in
          rw after (
            merge-All (λ c. cmp c b ≡ false) (a ∷ l₁) l₂ (after, behind) kb,
            merge-IsSorted (a ∷ l₁) l₂ (ha, h) k,
          )
    ]

    -- With as much fuel as items the sort is through, and its answer is sorted.
    sort_list_fuel-IsSorted :
        (fuel : ℕ) (l : List T)
        → length l ≤ fuel + 1
        → (sorted : List T) × (sort_list_fuel cmp fuel l ≡ some sorted)
          × Perm sorted l
          × IsSorted sorted
    unfolding sort_list_fuel
    sort_list_fuel-IsSorted fuel [] h = ([], refl, Perm.refl [], tt)
    sort_list_fuel-IsSorted fuel (a ∷ []) h = (a ∷ [], refl, Perm.refl (a ∷ []), (tt, tt))
    sort_list_fuel-IsSorted zero (a ∷ b ∷ l) h = absurd (omega arith)
    sort_list_fuel-IsSorted (suc fuel) (a ∷ b ∷ l) h =
        let parts = get_mid cmp (a ∷ b ∷ l) (a ∷ b ∷ l) in
        let sizes = get_mid-length (a ∷ b ∷ l) (a ∷ b ∷ l) (omega arith) in
        let (left, e, p, s) = sort_list_fuel-IsSorted fuel parts.0 (omega (arith, sizes)) in
        let (right, f, q, t) = sort_list_fuel-IsSorted fuel parts.1 (omega (arith, sizes)) in
        (
          merge cmp left right,
          merged_step fuel a b l left right e f,
          merged-Perm parts.0 parts.1 (a ∷ b ∷ l) left right
              (get_mid-append (a ∷ b ∷ l) (a ∷ b ∷ l)) p q,
          merge-IsSorted left right s t,
        )

    IsSorted-answer :
        (l : LinkedList T) (sorted : List T)
        → sort_list_fuel cmp (length l.head) l.head ≡ some sorted
        → Perm sorted l.head
        → IsSorted sorted
        → ((l.head ≡ []) × (sort_list cmp l ≡ panic))
          ⊎ ((a : T) × (rest : List T) × (sort_list cmp l
                ≡ ok (record {
                  head = a ∷ rest;
                  tail = some (last_of a rest);
                  length_field = l.length_field;
                }))
              × Perm (a ∷ rest) l.head
              × IsSorted (a ∷ rest))
    unfolding sort_list
    IsSorted-answer l [] e p s = inl (nil_of_Perm l.head p, rw (sort_list, e) refl)
    IsSorted-answer l (a ∷ rest) e p s = inr (a, rest, rw (sort_list, e) refl, p, s)

    -- SortList of a list with an item ends, with the same items in order, the last of them at the
    -- tail, and the same length; of a list with none it panics.
    pub sort_list-IsSorted :
        (l : LinkedList T)
        → ((l.head ≡ []) × (sort_list cmp l ≡ panic))
          ⊎ ((a : T) × (rest : List T) × (sort_list cmp l
                ≡ ok (record {
                  head = a ∷ rest;
                  tail = some (last_of a rest);
                  length_field = l.length_field;
                }))
              × Perm (a ∷ rest) l.head
              × IsSorted (a ∷ rest))
    sort_list-IsSorted l =
        let (sorted, e, p, s) = sort_list_fuel-IsSorted (length l.head) l.head (omega arith) in
        IsSorted-answer l sorted e p s
