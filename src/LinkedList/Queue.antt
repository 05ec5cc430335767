-- ===== src/LinkedList/Queue.antt =====
-- Push, PushFront and PopHead of linked_list.go on the chain and the tail.
use go_pandora_pay.Prelude.{
  ◌≡◌, refl, Option, none, some, List, [], ◌∷◌, ◌++◌, length, arith, length-append,
}
use go_pandora_pay.LinkedList.{
  LinkedList, push, push_front, pop_head, get_head, get_tail, get_list, last_of,
}

module _ {T : Type 0} where
  -- The tail is the last item of the chain, if it has one.
  abbrev pub IsTailed : List T → Option T → Type 0
  IsTailed [] tail = Unit
  IsTailed (a ∷ rest) tail = tail ≡ some (last_of a rest)

  -- The length is that of the chain, and the tail is its last item.
  abbrev pub IsLinked : LinkedList T → Type 0
  IsLinked l = (l.length_field ≡ length l.head) × IsTailed l.head l.tail

  last_of-append : (a b : T) (l : List T) → last_of a (l ++ b ∷ []) ≡ b
  unfolding last_of
  last_of-append a b [] = refl
  last_of-append a b (c ∷ l) = last_of-append c b l

  -- What Push, PushFront and PopHead do to the list of the data.
  pub get_list-operations :
      (data' : T) (l : LinkedList T)
      → (get_list (push data' l) ≡ get_list l ++ data' ∷ [])
        × (get_list (push_front data' l) ≡ data' ∷ get_list l)
        × (get_list l
            ≡ ((elim (pop_head l).0 [ none ↦ [] | some a ↦ a ∷ [] ]) ++ get_list (pop_head l).1))
  unfolding get_list push push_front pop_head
  get_list-operations data' l = ground arith

  operations-IsLinked :
      (data' : T) (head : List T) (tail : Option T)
      → IsTailed head tail
      → let l : LinkedList T = record { head = head; tail = tail; length_field = length head } in
        IsLinked (push data' l) × IsLinked (push_front data' l) × IsLinked (pop_head l).1
  unfolding push push_front pop_head last_of
  operations-IsLinked data' [] tail t = ((refl, refl), (refl, refl), (refl, tt))
  operations-IsLinked data' (a ∷ []) tail t = ((refl, refl), (refl, t), (refl, tt))
  operations-IsLinked data' (a ∷ b ∷ rest) tail t = (
    (
      rw (length-append (a ∷ b ∷ rest) (data' ∷ [])) (omega arith),
      rw (last_of-append b data' rest) refl,
    ),
    (omega arith, t),
    (omega arith, t),
  )

  -- Push, PushFront and PopHead keep the length that of the chain and the tail its last item.
  pub IsLinked-operations :
      (data' : T) (l : LinkedList T)
      → IsLinked l
      → IsLinked (push data' l) × IsLinked (push_front data' l) × IsLinked (pop_head l).1
  IsLinked-operations data' l (counted, tailed) =
      let same : l ≡ record { head = l.head; tail = l.tail; length_field = length l.head } =
        rw (← counted) refl in
      rw same (operations-IsLinked data' l.head l.tail tailed)

  -- PopHead of the last item leaves it at the tail: GetHead answers that there is none, and GetTail
  -- still answers it.
  pub get_tail-pop_head :
      (a : T) (l : LinkedList T)
      → IsLinked l
      → l.head ≡ a ∷ []
      → (get_head (pop_head l).1 ≡ none) × (get_tail (pop_head l).1 ≡ some a)
  unfolding get_head get_tail pop_head last_of
  get_tail-pop_head a l (counted, tailed) e =
      let last : l.tail ≡ some a = rw e at tailed in (rw (pop_head, e) refl, rw (pop_head, e) last)
