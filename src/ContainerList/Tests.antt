-- ===== src/ContainerList/Tests.antt =====
-- A container of numbers.
use go_pandora_pay.Prelude.{ℕ, ◌≡◌, ◌≢◌, ◌⊎◌, refl, true, false, List, [], ◌∷◌, All, ◌==◌, ==_iff}
use go_pandora_pay.ContainerList.{remove}
use go_pandora_pay.ContainerList.Laws.{remove_outcome}
use mathlib.Core.List.{Perm}

abbrev four : List ℕ
four = 5 ∷ 6 ∷ 7 ∷ 8 ∷ []

removed : remove ◌==◌ 6 four ≡ (true, 5 ∷ 8 ∷ 7 ∷ [])
unfolding remove
removed = refl

remove_outcome_example :
    (((remove ◌==◌ 6 four).0 ≡ true) × Perm (6 ∷ (remove ◌==◌ 6 four).1) four)
    ⊎ ((remove ◌==◌ 6 four ≡ (false, four)) × All (λ x. x ≢ 6) four)
remove_outcome_example = remove_outcome ◌==◌ ==_iff 6 four
