-- ===== src/HashMap/Rollback.antt =====
-- Rollback of store_hash_map.go, and the steps of a map between two commits.
use go_pandora_pay.Prelude.{ℕ, ◌≡◌, refl, ◌∙◌, false, Option, none, some, List, [], arith, inl, inr}
use go_pandora_pay.Prelude.Result.{Result-cases}
use go_pandora_pay.HashMap.Types.{Kind, HashMap}
use go_pandora_pay.HashMap.Ops.{
  get, update, update_element, store_change, reindex, delete, create, exists_in, update_or_delete,
  get_by_index, get_key_by_index, rollback, seen,
}
use go_pandora_pay.HashMap.View.{get_cases}

-- A nil element, or one that the test holds of.
abbrev pub Holds : {A : Type 0} → (A → Type 0) → Option A → Type 0
Holds P none = Unit
Holds P (some x) = P x

-- `Typed` is what the Go types of an element's fields bound.
module _ (kind : Kind) (Typed : kind.Elem → Type 0) where
  open kind use {Elem}

  -- One call of a method that reads or changes elements, whatever it answers.
  pub data Step (h : HashMap Elem) : HashMap Elem → Type 0 where
    gets : (key : List ℕ) → Step h (get kind key h).1
    gets_by_index : (index : ℕ) → Step h (get_by_index kind index h).1
    updates :
        (key : List ℕ) (element : Option Elem)
        → Holds Typed element
        → Step h (update kind key element h).1
    creates :
        (key : List ℕ) (element : Option Elem)
        → Holds Typed element
        → Step h (create kind key element h).1
    deletes : (key : List ℕ) → Step h (delete kind key h)
    updates_or_deletes :
        (key : List ℕ) (element : Option Elem)
        → Holds Typed element
        → Step h (update_or_delete kind key element h).1

  pub data Reach (h : HashMap Elem) : HashMap Elem → Type 0 where
    here : Reach h h
    next : {t u : HashMap Elem} → Reach h t → Step t u → Reach h u

  rollback-seen :
      (key : List ℕ) (out : Option Elem) (h : HashMap Elem)
      → rollback kind (seen kind key out h) ≡ rollback kind h
  unfolding rollback
  rollback-seen key out h = refl

  rollback-get :
      (key : List ℕ) (h : HashMap Elem) → rollback kind (get kind key h).1 ≡ rollback kind h
  rollback-get key h = elim (get_cases kind key h) [
    | inl same ↦ rw same
    | inr (out, good, unseen, loaded, e) ↦ rw e (rollback-seen key out h)
  ]

  rollback-delete :
      (key : List ℕ) (h : HashMap Elem) → rollback kind (delete kind key h) ≡ rollback kind h
  unfolding rollback delete reindex
  rollback-delete key h = ground arith

  rollback-store_change :
      (key : List ℕ) (e : Elem) (h : HashMap Elem)
      → rollback kind (store_change kind key e h) ≡ rollback kind h
  unfolding rollback store_change
  rollback-store_change key e h = ground arith

  rollback-update :
      (key : List ℕ) (element : Option Elem) (h : HashMap Elem)
      → rollback kind (update kind key element h).1 ≡ rollback kind h
  unfolding update update_element
  rollback-update key none h = ground arith
  rollback-update key (some e) h =
      ground (arith, rollback-delete key h, rollback-store_change key (kind.set_key key e) h)

  rollback-Step : {h h' : HashMap Elem} → Step h h' → rollback kind h' ≡ rollback kind h
  unfolding create update_or_delete get_by_index
  rollback-Step {h} (gets key) = rollback-get key h
  rollback-Step {h} (gets_by_index index) = elim (Result-cases (get_key_by_index kind index h)) [
    | inl (key, e) ↦ rw (e, get_by_index) (rollback-get key h)
    | inr (inl (x, e)) ↦ rw (e, get_by_index)
    | inr (inr e) ↦ rw (e, get_by_index)
  ]
  rollback-Step {h} (updates key element typed) = rollback-update key element h
  rollback-Step {h} (creates key element typed) = elim (Result-cases (exists_in kind key h)) [
    | inl (there, e) ↦ ground (arith, rollback-update key element h)
    | inr (inl (x, e)) ↦ rw (e, create)
    | inr (inr e) ↦ rw (e, create)
  ]
  rollback-Step {h} (deletes key) = rollback-delete key h
  rollback-Step {h} (updates_or_deletes key element typed) =
      ground (arith, rollback-update key element h, rollback-delete key h)

  pub rollback-Reach : {h h' : HashMap Elem} → Reach h h' → rollback kind h' ≡ rollback kind h
  rollback-Reach here = refl
  rollback-Reach (next r s) = rollback-Step s ∙ rollback-Reach r

  -- Nothing has happened since the last commit.
  pub record IsClean (h : HashMap Elem) : Type 0 where
    pub no_changes : h.changes ≡ []
    pub counted : h.count ≡ h.count_committed
    pub unchanged : h.changed ≡ false

  rollback-clean : (h : HashMap Elem) → IsClean h → rollback kind h ≡ h
  unfolding rollback
  rollback-clean h clean = ground arith

  -- From a map with no uncommitted change, Rollback after any sequence of Get, GetByIndex, Update,
  -- Create, Delete and UpdateOrDelete, whatever they answered, gives the map back as it was.
  pub rollback_undoes : (h h' : HashMap Elem) → IsClean h → Reach h h' → rollback kind h' ≡ h
  rollback_undoes h h' clean r = rollback-Reach r ∙ rollback-clean h clean
