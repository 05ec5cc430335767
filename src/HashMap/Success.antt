-- ===== src/HashMap/Success.antt =====
-- The outcome of CommitChanges of store/hash_map/store_hash_map.go.
use go_pandora_pay.Prelude.{
  ℕ, ◌≡◌, refl, ◌∙◌, Bool, false, Option, List, [], ◌∷◌, All, if◌then◌else◌, arith, Bool-cases, inl,
  inr,
}
use go_pandora_pay.Prelude.Result.{ok, err, panic}
use go_pandora_pay.Prelude.ByteMap.{ByteMap}
use go_pandora_pay.HashMap.Store.{Tx}
use go_pandora_pay.HashMap.Types.{Kind, HashMap, Change, Status}
use go_pandora_pay.HashMap.Ops.{bad_key}
use go_pandora_pay.HashMap.Commit.{
  Commits, then_commit, is_deleted, is_updated, keys_updated, tx_deleted, tx_added, commit_deleted,
  commit_updated, for_each, commit_all_deleted, commit_all_updated, settle, commit_changes,
}

module _ (kind : Kind) where
  open kind use {Elem, name}

  -- The events of the map give no error.
  pub record HasEvents : Type 0 where
    pub deleted_ok : (k : List ℕ) (tx : Tx) → (tx' : Tx) × (kind.deleted_event k tx ≡ ok tx')
    pub stored_ok :
        (k : List ℕ) (e : Option Elem) (index : ℕ) (tx : Tx)
        → (tx' : Tx) × (kind.stored_event k e index tx ≡ ok tx')

  -- Every changed key has the length of the map's keys.
  abbrev pub HasKeys : ByteMap (Change Elem) → Type 0
  HasKeys m = All (λ entry. bad_key kind entry.0 ≡ false) m

  keys_updated_ok :
      (m : ByteMap (Change Elem))
      → HasKeys m
      → (keys : List (List ℕ)) × (keys_updated kind m ≡ ok keys)
  unfolding keys_updated
  keys_updated_ok [] h = ([], refl)
  keys_updated_ok ((k, v) ∷ m) (good, h) =
      let (keys, e) = keys_updated_ok m h in
      (if is_updated v.status then k ∷ keys else keys, rw (good, e) refl)

  then_commit_next :
      (r : Commits kind) (next : HashMap Elem → Commits kind)
      → r.0 ≡ ok tt
      → then_commit kind r next ≡ next r.1
  then_commit_next (ok u, h) next e = refl
  then_commit_next (err x, h) next e = cc
  then_commit_next (panic, h) next e = cc

  module _ (events : HasEvents) where
    commit_deleted_ok :
        (k : List ℕ) (v : Change Elem) (h : HashMap Elem) → (commit_deleted kind k v h).0 ≡ ok tt
    unfolding commit_deleted
    commit_deleted_ok k v h =
        let (tx', e) = events.deleted_ok k (tx_deleted kind k v h.tx) in ground arith

    commit_updated_ok :
        (k : List ℕ) (v : Change Elem) (h : HashMap Elem) → (commit_updated kind k v h).0 ≡ ok tt
    unfolding commit_updated
    commit_updated_ok k v h =
        let (tx', e) = events.stored_ok k v.element v.index (tx_added kind k v h.tx) in ground arith

    for_each_ok :
        (treated : Status → Bool) (round : List ℕ → Change Elem → HashMap Elem → Commits kind)
        (m : ByteMap (Change Elem)) (h : HashMap Elem)
        → ((k : List ℕ) (v : Change Elem) (h : HashMap Elem) → (round k v h).0 ≡ ok tt)
        → (for_each kind treated round m h).0 ≡ ok tt
    unfolding for_each
    for_each_ok treated round [] h e = refl
    for_each_ok treated round ((k, v) ∷ m) h e = elim (Bool-cases (treated v.status)) [
      | inl is ↦
          rw (is, then_commit_next (round k v h) (for_each kind treated round m) (e k v h))
            (for_each_ok treated round m (round k v h).1 e)
      | inr other ↦ rw other (for_each_ok treated round m h e)
    ]

    -- CommitChanges goes through where every changed key has the length of the map's keys and the
    -- events give no error.
    pub commit_changes-HasKeys :
        (h : HashMap Elem)
        → HasKeys h.changes
        → (h' : HashMap Elem) × (commit_changes kind h ≡ (ok tt, h'))
    unfolding commit_changes commit_all_deleted commit_all_updated
    commit_changes-HasKeys h good =
        let (keys, e) = keys_updated_ok h.changes good in
        let first = for_each_ok is_deleted (commit_deleted kind) h.changes h commit_deleted_ok in
        let h₁ = (commit_all_deleted kind h.changes h).1 in
        let second = for_each_ok is_updated (commit_updated kind) h.changes h₁ commit_updated_ok in
        (
          settle kind keys (commit_all_updated kind h.changes h₁).1,
          rw (commit_changes, e)
              (then_commit_next (commit_all_deleted kind h.changes h)
                  (λ h'.
                    then_commit kind (commit_all_updated kind h.changes h')
                      λ h''. (ok tt, settle kind keys h''))
                  first
                ∙ then_commit_next (commit_all_updated kind h.changes h₁)
                    (λ h''. (ok tt, settle kind keys h'')) second),
        )

  -- In a map of keys of any length every key has the length.
  pub any_length-HasKeys : kind.key_length ≡ 0 → (m : ByteMap (Change Elem)) → HasKeys m
  any_length-HasKeys any [] = tt
  any_length-HasKeys any ((k, v) ∷ m) = (rw any refl, any_length-HasKeys any m)
