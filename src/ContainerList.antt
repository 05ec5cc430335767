-- ===== src/ContainerList.antt =====
-- helpers/container_list/container_list.go: a list whose Remove puts the last item in the gap. The lock
-- makes each operation one step; `same` is Go's `==` on the items.
pub mod Laws
mod Tests
use go_pandora_pay.Prelude.{
  ℕ, suc, ◌+◌, ◌-◌, Bool, true, false, not, ◌&&◌, Option, none, some, List, [], ◌∷◌, ◌++◌, length,
  get_elem?, set, take, ltb, ◌==◌, if◌then◌else◌,
}

module _ {T : Type 0} where
  unfoldable pub new_container_list : List T
  new_container_list = []

  -- Push gives the item back.
  unfoldable pub push : T → List T → T × List T
  push el all = (el, all ++ el ∷ [])

  -- RemoveAll gives out the list that it empties.
  unfoldable pub remove_all : List T → List T × List T
  remove_all all = (all, [])

  -- `list2 := make([]T, len(all)-1)` and what is copied to it
  unfoldable pub remove_at : ℕ → List T → List T
  remove_at i all =
      let list2 = take (length all - 1) all in
      if ltb 1 (length all) && not (i == length all - 1)
      then elim (get_elem? all (length all - 1)) [ none ↦ list2 | some last ↦ set list2 i last ]
      else list2

  module _ (same : T → T → Bool) where
    -- The loop of Remove: the first index of the item
    unfoldable pub find : T → List T → Option ℕ
    find el [] = none
    find el (el2 ∷ all) =
        let rest = find el all in
        if same el2 el then some 0 else elim rest [ none ↦ none | some i ↦ some (i + 1) ]

    unfoldable pub remove : T → List T → Bool × List T
    unfolding find remove_at
    remove el all = elim (find el all) [ none ↦ (false, all) | some i ↦ (true, remove_at i all) ]
