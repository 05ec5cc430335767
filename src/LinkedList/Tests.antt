-- ===== src/LinkedList/Tests.antt =====
-- helpers/linked_list on given lists of numbers.
use go_pandora_pay.Prelude.{ℕ, ◌≡◌, ◌⊎◌, refl, some, List, [], ◌∷◌, ltb, arith}
use go_pandora_pay.Prelude.Result.{ok, panic}
use mathlib.Core.List.{Perm}
use go_pandora_pay.LinkedList.{LinkedList, sort_list, last_of}
use go_pandora_pay.LinkedList.Queue.{IsLinked}
use go_pandora_pay.LinkedList.Sorting.{IsSorted, IsStrict, sort_list-IsSorted}

abbrev numbers : LinkedList ℕ
numbers = record { head = 3 ∷ 1 ∷ 2 ∷ []; tail = some 2; length_field = 3 }

abbrev single : LinkedList ℕ
single = record { head = 5 ∷ []; tail = some 5; length_field = 1 }

numbers-IsLinked : IsLinked numbers
unfolding last_of
numbers-IsLinked = (refl, refl)

single-IsLinked : IsLinked single
unfolding last_of
single-IsLinked = (refl, refl)

less-IsStrict : IsStrict ltb
less-IsStrict = record {
  asymmetric = λ a b e. ground arith;
  transitive = λ a b c e f. ground arith;
}

sort_list-IsSorted_example :
    ((numbers.head ≡ []) × (sort_list ltb numbers ≡ panic))
    ⊎ ((a : ℕ) × (rest : List ℕ) × (sort_list ltb numbers
          ≡ ok (record {
            head = a ∷ rest;
            tail = some (last_of a rest);
            length_field = numbers.length_field;
          }))
        × Perm (a ∷ rest) numbers.head
        × IsSorted ltb (a ∷ rest))
sort_list-IsSorted_example = sort_list-IsSorted ltb less-IsStrict numbers
