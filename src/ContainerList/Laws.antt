-- ===== src/ContainerList/Laws.antt =====
-- Remove of container_list.go: what it takes out and what it keeps.
use go_pandora_pay.Prelude.{
  ℕ, ◌-◌, ◌≡◌, ◌≢◌, ◌↔◌, ◌⊎◌, inl, inr, refl, ap, ◌∙◌, Bool, true, false, not, ◌&&◌, none, some,
  Option-cases, List, [], ◌∷◌, ◌++◌, length, get_elem?, set, take, All, ltb, ◌==◌, Bool-cases,
  length-append, take_append, get_elem?-append, arith,
}
use go_pandora_pay.ContainerList.{remove_at, find, remove}
use mathlib.Core.List.{Perm, append_assoc, append-nil}
use mathlib.Core.List.Perm
use mathlib.Core.List.{perm_middle}

module _ {T : Type 0} where
  -- A list that is not empty, with its last item apart.
  from_last : (x : T) (l : List T) → (init : List T) × (last : T) × (x ∷ l ≡ init ++ last ∷ [])
  from_last x [] = ([], x, refl)
  from_last x (y ∷ l) = let (init, last, e) = from_last y l in (x ∷ init, last, ap (◌∷◌ x) e)

  set_gap :
      (front rest : List T) (old x : T)
      → set (front ++ old ∷ rest) (length front) x ≡ front ++ x ∷ rest
  set_gap [] rest old x = refl
  set_gap (y ∷ front) rest old x = ap (◌∷◌ y) (set_gap front rest old x)

  remove_at_last : (front : List T) (el : T) → remove_at (length front) (front ++ el ∷ []) ≡ front
  unfolding remove_at
  remove_at_last front el =
      let size : length (front ++ el ∷ []) - 1 ≡ length front =
        omega (arith, length-append front (el ∷ [])) in
      let last : (ltb 1 (length (front ++ el ∷ [])) && not (length front == length front)) ≡ false =
        ground arith in
      rw (size, last) (take_append front (el ∷ []))

  remove_at_inner :
      (front mid : List T) (el last : T)
      → remove_at (length front) (front ++ el ∷ (mid ++ last ∷ [])) ≡ front ++ last ∷ mid
  unfolding remove_at
  remove_at_inner front mid el last =
      let whole : List T = front ++ el ∷ (mid ++ last ∷ []) in
      let kept : List T = front ++ el ∷ mid in
      let shape : kept ++ last ∷ [] ≡ whole = append_assoc front (el ∷ mid) (last ∷ []) in
      let size : length whole - 1 ≡ length kept = omega (
        arith,
        length-append front (el ∷ (mid ++ last ∷ [])),
        length-append mid (last ∷ []),
        length-append front (el ∷ mid),
      ) in
      let long : (ltb 1 (length whole) && not (length front == length whole - 1)) ≡ true = ground (
        arith,
        length-append front (el ∷ (mid ++ last ∷ [])),
        length-append mid (last ∷ []),
        length-append front (el ∷ mid),
      ) in
      let taken : take (length whole - 1) whole ≡ kept =
        ap (λ n. take n whole) size ∙ rw shape at (take_append kept (last ∷ [])) in
      let end : get_elem? whole (length whole - 1) ≡ some last =
        ap (get_elem? whole) size ∙ rw shape at (get_elem?-append kept [] last) in
      rw (long, end, taken) (set_gap front mid el last)

  gap-Perm :
      (front mid : List T) (el last : T)
      → Perm (el ∷ (front ++ last ∷ mid)) (front ++ el ∷ (mid ++ last ∷ []))
  gap-Perm front mid el last =
      let at_end : Perm (front ++ (mid ++ last ∷ [])) (last ∷ (front ++ mid)) =
        rw (append_assoc front mid (last ∷ []), append-nil (front ++ mid)) at
          (perm_middle {a = last} (front ++ mid) []) in
      Perm.trans (Perm.cons el (Perm.trans (perm_middle front mid) (Perm.symm at_end)))
        (Perm.symm (perm_middle front (mid ++ last ∷ [])))

  inner-Perm :
      (front mid : List T) (el last : T)
      → let whole = front ++ el ∷ (mid ++ last ∷ []) in
        Perm (el ∷ remove_at (length front) whole) whole
  inner-Perm front mid el last = rw (remove_at_inner front mid el last) (gap-Perm front mid el last)

  remove_at-Perm :
      (front rest : List T) (el : T)
      → Perm (el ∷ remove_at (length front) (front ++ el ∷ rest)) (front ++ el ∷ rest)
  remove_at-Perm front [] el =
      rw (remove_at_last front el)
        (rw (append-nil front) at (Perm.symm (perm_middle {a = el} front [])))
  remove_at-Perm front (x ∷ l) el =
      let (mid, last, e) = from_last x l in rw e (inner-Perm front mid el last)

  remove_at-Perm_found :
      (el : T) (all front rest : List T) (i : ℕ)
      → all ≡ front ++ el ∷ rest
      → length front ≡ i
      → Perm (el ∷ remove_at i all) all
  remove_at-Perm_found el all front rest i e place = rw (e, ← place) (remove_at-Perm front rest el)

  module _ (same : T → T → Bool) (same_iff : (x y : T) → (same x y ≡ true) ↔ (x ≡ y)) where
    find-none : (el : T) (all : List T) → find same el all ≡ none → All (λ x. x ≢ el) all
    unfolding find
    find-none el [] e = tt
    find-none el (x ∷ all) e = elim (Bool-cases (same x el)) [
      | inl there ↦ absurd (ground arith)
      | inr other ↦ elim (Option-cases (find same el all)) [
        | inl missing ↦ ((λ p. absurd (cc (other, (same_iff x el).1 p))), find-none el all missing)
        | inr (i, found) ↦ absurd (ground arith)
      ]
    ]

    -- The item that is found, with what is in front of it and behind it.
    find-some :
        (el : T) (all : List T) (i : ℕ)
        → find same el all ≡ some i
        → (front : List T) × (rest : List T) × (all ≡ front ++ el ∷ rest) × (length front ≡ i)
    unfolding find
    find-some el [] i e = absurd (cc e)
    find-some el (x ∷ all) i e = elim (Bool-cases (same x el)) [
      | inl there ↦ ([], all, ap (λ y. y ∷ all) ((same_iff x el).0 there), ground arith)
      | inr other ↦ elim (Option-cases (find same el all)) [
        | inl missing ↦ absurd (ground arith)
        | inr (j, found) ↦
            let (front, rest, whole, place) = find-some el all j found in
            (x ∷ front, rest, ap (◌∷◌ x) whole, ground arith)
      ]
    ]

    removed :
        (el : T) (all front rest : List T) (i : ℕ)
        → find same el all ≡ some i
        → all ≡ front ++ el ∷ rest
        → length front ≡ i
        → ((remove same el all).0 ≡ true) × Perm (el ∷ (remove same el all).1) all
    unfolding remove
    removed el all front rest i found e place =
        rw (remove, found) (refl, remove_at-Perm_found el all front rest i e place)

    not_removed :
        (el : T) (all : List T) → find same el all ≡ none → remove same el all ≡ (false, all)
    unfolding remove
    not_removed el all missing = rw (remove, missing)

    -- Remove answers true exactly if the item is in the list. It then takes one such item out and
    -- keeps all the others, in some order; else it leaves the list.
    pub remove_outcome :
        (el : T) (all : List T)
        → (((remove same el all).0 ≡ true) × Perm (el ∷ (remove same el all).1) all)
          ⊎ ((remove same el all ≡ (false, all)) × All (λ x. x ≢ el) all)
    remove_outcome el all = elim (Option-cases (find same el all)) [
      | inl missing ↦ inr (not_removed el all missing, find-none el all missing)
      | inr (i, found) ↦
          let (front, rest, e, place) = find-some el all i found in
          inl (removed el all front rest i found e place)
    ]
