-- ===== src/LinkedList.antt =====
-- helpers/linked_list: a list with its head, its tail and its length. The chain of items from the head
-- is the list of their data, and `tail` is the data of the item that `Tail` points to: while there
-- is an item, the last of the chain, so an item put behind it comes to the end of the chain.
pub mod Queue
pub mod Sorting
mod Tests
use go_pandora_pay.Prelude.{
  ℕ, zero, suc, ◌+◌, Bool, true, false, Option, none, some, List, [], ◌∷◌, ◌++◌, length,
  if◌then◌else◌,
}
use go_pandora_pay.Prelude.Result.{Result, ok, err, panic}
use Prim.Native.Nat.{◌-◌}

pub record LinkedList {ℓ} (T : Type ℓ) : Type ℓ where
  pub head : List T
  pub tail : Option T
  pub length_field : ℕ

pub data SortError : Type 0 where
  out_of_fuel : SortError

module _ {ℓ} {T : Type ℓ} where
  unfoldable pub new_linked_list : LinkedList T
  new_linked_list = record { head = []; tail = none; length_field = 0 }

  -- `list.Empty()`
  unfoldable pub empty : LinkedList T → LinkedList T
  empty l = record { head = []; tail = none; length_field = 0 }

  unfoldable pub push_front : T → LinkedList T → LinkedList T
  push_front data' l = elim l.head [
    | [] ↦ record { head = data' ∷ []; tail = some data'; length_field = l.length_field + 1 }
    | _ ∷ _ ↦ record l { head = data' ∷ l.head; length_field = l.length_field + 1 }
  ]

  unfoldable pub push : T → LinkedList T → LinkedList T
  push data' l = elim l.head [
    | [] ↦ record { head = data' ∷ []; tail = some data'; length_field = l.length_field + 1 }
    | _ ∷ _ ↦ record {
      head = l.head ++ data' ∷ [];
      tail = some data';
      length_field = l.length_field + 1;
    }
  ]

  -- The head's data, if there is one. The tail is left, also behind the last item.
  unfoldable pub pop_head : LinkedList T → Option T × LinkedList T
  pop_head l = elim l.head [
    | [] ↦ (none, l)
    | data' ∷ rest ↦ (some data', record l { head = rest; length_field = l.length_field - 1 })
  ]

  unfoldable pub get_head : LinkedList T → Option T
  get_head l = elim l.head [ [] ↦ none | data' ∷ _ ↦ some data' ]

  unfoldable pub get_tail : LinkedList T → Option T
  get_tail l = l.tail

  unfoldable pub get_list : LinkedList T → List T
  get_list l = l.head

  module _ (cmp : T → T → Bool) where
    unfoldable pub merge : List T → List T → List T
    merge [] list2 = list2
    merge (a ∷ list1) [] = a ∷ list1
    merge (a ∷ list1) (b ∷ list2) =
        let left = merge list1 (b ∷ list2) in
        let right = merge (a ∷ list1) list2 in if cmp a b then a ∷ left else b ∷ right

    -- The loop of getMid: `fast` goes two items in a round, and the part before `mid` is cut off
    -- behind as many items as there were rounds.
    unfoldable pub get_mid : List T → List T → List T × List T
    get_mid [] slow = ([], slow)
    get_mid (_ ∷ []) slow = ([], slow)
    get_mid (_ ∷ _ ∷ fast) [] = ([], [])
    get_mid (_ ∷ _ ∷ fast) (data' ∷ slow) =
        let (front, mid) = get_mid fast slow in (data' ∷ front, mid)

    -- On fuel, of which the length of the list is enough.
    unfoldable pub sort_list_fuel : ℕ → List T → Option (List T)
    sort_list_fuel fuel [] = some []
    sort_list_fuel fuel (a ∷ []) = some (a ∷ [])
    sort_list_fuel zero (a ∷ b ∷ l) = none
    sort_list_fuel (suc fuel) (a ∷ b ∷ l) =
        let (front, mid) = get_mid (a ∷ b ∷ l) (a ∷ b ∷ l) in
        elim (sort_list_fuel fuel front) [
          | none ↦ none
          | some left ↦ elim (sort_list_fuel fuel mid) [
            | none ↦ none
            | some right ↦ some (merge left right)
          ]
        ]

  unfoldable pub last_of : T → List T → T
  last_of a [] = a
  last_of a (b ∷ l) = last_of b l

  -- SortList: the search for the tail panics at a list with no items.
  unfoldable pub sort_list : (T → T → Bool) → LinkedList T → Result SortError (LinkedList T)
  unfolding sort_list_fuel last_of
  sort_list cmp l = elim (sort_list_fuel cmp (length l.head) l.head) [
    | none ↦ err out_of_fuel
    | some [] ↦ panic
    | some (a ∷ sorted) ↦ ok (record l { head = a ∷ sorted; tail = some (last_of a sorted) })
  ]
