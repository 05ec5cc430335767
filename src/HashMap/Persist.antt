-- ===== src/HashMap/Persist.antt =====
-- CommitChanges as its three loops and its end, and what they leave for each key.
use go_pandora_pay.Prelude.{
  ℕ, ◌≡◌, refl, ◌∙◌, Bool, true, false, ◌||◌, Option, none, some, List, [], ◌∷◌, bytes_equal,
  bytes_equal_iff, if◌then◌else◌, arith, Bool-cases, Option-cases, inl, inr,
}
use go_pandora_pay.Prelude.Result.{ok, Result-cases}
use go_pandora_pay.Prelude.ByteMap.{ByteMap, find, find-put, find-remove}
use go_pandora_pay.Prelude.ByteMap
use go_pandora_pay.HashMap.Store.{map_key}
use go_pandora_pay.HashMap.Types.{Kind, HashMap, Change}
use go_pandora_pay.HashMap.Ops.{load, decode, stored_bytes}
use go_pandora_pay.HashMap.Commit.{
  then_commit, is_deleted, is_updated, commit_deleted, commit_updated, commit_all_deleted,
  commit_all_updated, keys_updated, remove_all, settle, commit_changes,
}
use go_pandora_pay.HashMap.Rounds.{IsQuiet, Same, DeletedAt, UpdatedAt, IsConsistent}
use go_pandora_pay.HashMap.Loops.{
  IsDistinct, Looped, for_each-Looped, Same-DeletedAt, Same-UpdatedAt, Same-trans, then_commit_ok,
}
use go_pandora_pay.HashMap.Durable.{deleted-Round, updated-Round}

unfoldable pub listed : List ℕ → List (List ℕ) → Bool
listed j [] = false
listed j (k ∷ keys) = bytes_equal k j || listed j keys

module _ (kind : Kind) where
  open kind use {Elem, name}

  pub find-remove_all :
      (j : List ℕ) (keys : List (List ℕ)) (m : ByteMap (Change Elem))
      → find j (remove_all kind keys m) ≡ (if listed j keys then none else find j m)
  unfolding remove_all listed
  find-remove_all j [] m = refl
  find-remove_all j (k ∷ keys) m =
      ground (arith, find-remove_all j keys (ByteMap.remove k m), find-remove j k m)

  unfoldable pub is_updated_at : Option (Change Elem) → Bool
  is_updated_at none = false
  is_updated_at (some v) = is_updated v.status

  -- The keys that a commit takes out are those of the updated entries.
  listed-keys_updated :
      (j : List ℕ) (m : ByteMap (Change Elem)) (keys : List (List ℕ))
      → IsDistinct m
      → keys_updated kind m ≡ ok keys
      → listed j keys ≡ is_updated_at (find j m)
  unfolding keys_updated listed is_updated_at find
  listed-keys_updated j [] keys h e = ground arith
  listed-keys_updated j ((k, v) ∷ m) keys (first, h) e = elim (Result-cases (keys_updated kind m)) [
    | inl (rest, went) ↦ ground (arith, listed-keys_updated j m rest h went, bytes_equal_iff k j)
    | inr (inl (x, failed)) ↦ ground arith
    | inr (inr failed) ↦ ground arith
  ]

  -- A commit that succeeds is its three loops and the end.
  commit_ok :
      (h h' : HashMap Elem)
      → commit_changes kind h ≡ (ok tt, h')
      → (keys : List (List ℕ)) × (h₁ : HashMap Elem) × (h₂ : HashMap Elem) × (keys_updated kind
            h.changes
          ≡ ok keys)
        × (commit_all_deleted kind h.changes h ≡ (ok tt, h₁))
        × (commit_all_updated kind h.changes h₁ ≡ (ok tt, h₂))
        × (h' ≡ settle kind keys h₂)
  unfolding commit_changes
  commit_ok h h' e = elim (Result-cases (keys_updated kind h.changes)) [
    | inl (keys, went) ↦
        let (first, rest) =
          then_commit_ok kind (commit_all_deleted kind h.changes h)
            (λ h₁.
              then_commit kind (commit_all_updated kind h.changes h₁)
                λ h₂. (ok tt, settle kind keys h₂))
            h' (rw (commit_changes, went) at e) in
        let h₁ = (commit_all_deleted kind h.changes h).1 in
        let (second, last) =
          then_commit_ok kind (commit_all_updated kind h.changes h₁)
            (λ h₂. (ok tt, settle kind keys h₂)) h' rest in
        (keys, h₁, (commit_all_updated kind h.changes h₁).1, went, first, second, cc)
    | inr (inl (x, failed)) ↦ ground arith
    | inr (inr failed) ↦ ground arith
  ]

  -- Below the changes, a map with no indices reads two places.
  pub load_local :
      (j : List ℕ) (h h' : HashMap Elem)
      → kind.indexable ≡ false
      → find j h'.committed ≡ find j h.committed
      → h'.tx.get (map_key name j) ≡ h.tx.get (map_key name j)
      → load kind j h' ≡ load kind j h
  unfolding load stored_bytes decode
  load_local j h h' plain c b = ground arith

  -- What an updated element reads as, once it is committed.
  pub load_updated :
      (j : List ℕ) (v : Change Elem) (x : Elem) (h : HashMap Elem)
      → kind.indexable ≡ false
      → v.element ≡ some x
      → kind.deserialize j 0 (kind.serialize x) ≡ ok x
      → UpdatedAt kind j v h
      → load kind j h ≡ ok (some x)
  unfolding load stored_bytes decode
  load_updated j v x h plain e round at =
      ground (arith, at.committed, at.element, at.serialized, at.bytes)

  -- What a committed deletion reads as.
  pub load_deleted :
      (j : List ℕ) (v : Change Elem) (h : HashMap Elem)
      → kind.indexable ≡ false
      → DeletedAt kind j v h
      → load kind j h ≡ ok none
  unfolding load stored_bytes decode
  load_deleted j v h plain at = ground (arith, at.committed, at.no_element, at.bytes)

  -- A map that a commit may write out: each key has one entry, a key that is not marked as present has
  -- no bytes, and an entry to write has an element that reads back from its bytes.
  pub record WellFormed (h : HashMap Elem) : Type 0 where
    pub distinct : IsDistinct h.changes
    pub consistent : (j : List ℕ) → IsConsistent kind j h
    pub readable :
        (j : List ℕ) (v : Change Elem)
        → find j h.changes ≡ some v
        → is_updated v.status ≡ true
        → (x : Elem) × (v.element ≡ some x) × (kind.deserialize j 0 (kind.serialize x) ≡ ok x)

  -- After its two loops, a commit has left each key as it was, deleted it, or stored its element.
  pub data Left (j : List ℕ) (h h₂ : HashMap Elem) : Type 0 where
    untouched :
        is_updated_at (find j h.changes) ≡ false
        → ((v : Change Elem) → find j h.changes ≡ some v → is_deleted v.status ≡ false)
        → Same kind j h h₂
        → Left j h h₂
    gone :
        (v : Change Elem)
        → find j h.changes ≡ some v
        → is_deleted v.status ≡ true
        → DeletedAt kind j v h₂
        → Left j h h₂
    stored :
        (v : Change Elem)
        → find j h.changes ≡ some v
        → is_updated v.status ≡ true
        → UpdatedAt kind j v h₂
        → Left j h h₂

  module _ (plain : kind.indexable ≡ false) (quiet : IsQuiet kind) where
    both_loops :
        (j : List ℕ) (h h₁ h₂ : HashMap Elem)
        → Looped kind is_deleted (DeletedAt kind) h.changes h h₁
        → Looped kind is_updated (UpdatedAt kind) h.changes h₁ h₂
        → Left j h h₂
    unfolding is_updated_at
    both_loops j h h₁ h₂ l m = elim (Option-cases (find j h.changes)) [
      | inl e ↦ untouched (rw e) (λ v f. cc) (Same-trans kind (l.others j e) (m.others j e))
      | inr (v, e) ↦ elim (Bool-cases (is_updated v.status)) [
        | inl up ↦ stored v e up (m.done j v e up)
        | inr not_up ↦ elim (Bool-cases (is_deleted v.status)) [
          | inl del ↦
              gone v e del (Same-DeletedAt kind (l.done j v e del) (m.untreated j v e not_up))
          | inr neither ↦
              untouched (rw (e, not_up)) (λ w f. let same : v ≡ w = cc in rw (← same) neither)
                (Same-trans kind (l.untreated j v e neither) (m.untreated j v e not_up))
        ]
      ]
    ]

    -- What a successful commit has done for every key.
    pub commit-Left :
        (h h' : HashMap Elem)
        → h.tx.writable ≡ true
        → WellFormed h
        → commit_changes kind h ≡ (ok tt, h')
        → (keys : List (List ℕ)) × (h₂ : HashMap Elem) × ((j : List ℕ)
            → listed j keys ≡ is_updated_at (find j h.changes))
          × ((j : List ℕ) → Left j h h₂)
          × ((j : List ℕ) → IsConsistent kind j h₂)
          × (h₂.tx.writable ≡ true)
          × (h₂.count ≡ h.count)
          × (h' ≡ settle kind keys h₂)
    unfolding commit_all_deleted commit_all_updated
    commit-Left h h' writes wf e =
        let (keys, h₁, h₂, went, first, second, last) = commit_ok h h' e in
        let l =
          for_each-Looped kind is_deleted (commit_deleted kind) (DeletedAt kind)
            (λ j v a b. Same-DeletedAt kind) (deleted-Round kind plain quiet) h.changes h h₁
            wf.distinct writes wf.consistent first in
        let m =
          for_each-Looped kind is_updated (commit_updated kind) (UpdatedAt kind)
            (λ j v a b. Same-UpdatedAt kind) (updated-Round kind plain quiet) h.changes h₁ h₂
            wf.distinct l.writable l.consistent second in
        (
          keys,
          h₂,
          λ j. listed-keys_updated j h.changes keys wf.distinct went,
          λ j. both_loops j h h₁ h₂ l m,
          m.consistent,
          m.writable,
          m.count ∙ l.count,
          last,
        )
