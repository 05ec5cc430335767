-- ===== src/HashMap/WellFormed.antt =====
-- What a map answers after CommitChanges of store/hash_map/store_hash_map.go.
use go_pandora_pay.Prelude.{
  ℕ, ◌≡◌, refl, true, false, Option, none, some, List, if◌then◌else◌, arith,
}
use go_pandora_pay.Prelude.Result.{Result, ok}
use go_pandora_pay.Prelude.ByteMap.{find}
use go_pandora_pay.Buffers.{put_uvarint}
use go_pandora_pay.HashMap.Store
use go_pandora_pay.HashMap.Store.{Tx, exists, map_key, exists_key}
use go_pandora_pay.HashMap.Types.{
  Kind, MapError, HashMap, Change, Status, view, updated, deleted, unset,
}
use go_pandora_pay.HashMap.Ops.{load}
use go_pandora_pay.HashMap.Commit.{is_deleted, is_updated, settle, commit_changes}
use go_pandora_pay.HashMap.Rounds.{IsQuiet, deleted_change}
use go_pandora_pay.HashMap.View.{lookup, answer, lookup-answer}
use go_pandora_pay.HashMap.Keys.{get-put_count}
use go_pandora_pay.HashMap.Persist.{
  listed, is_updated_at, find-remove_all, load_local, load_updated, WellFormed, Left, untouched,
  gone, stored, commit-Left,
}

module _ (kind : Kind) where
  open kind use {Elem, name}

  settle-changes :
      (j : List ℕ) (keys : List (List ℕ)) (h : HashMap Elem)
      → find j (settle kind keys h).changes ≡ (if listed j keys then none else find j h.changes)
  unfolding settle
  settle-changes j keys h = find-remove_all kind j keys h.changes

  pub settle-bytes :
      (j : List ℕ) (keys : List (List ℕ)) (h : HashMap Elem)
      → kind.indexable ≡ false
      → h.tx.writable ≡ true
      → (settle kind keys h).tx.get (map_key name j) ≡ h.tx.get (map_key name j)
  unfolding settle Store.put
  settle-bytes j keys h plain writes =
      ground (arith, get-put_count kind plain h.tx writes j (put_uvarint 9 h.count))

  settle-load :
      (j : List ℕ) (keys : List (List ℕ)) (h : HashMap Elem)
      → kind.indexable ≡ false
      → h.tx.writable ≡ true
      → load kind j (settle kind keys h) ≡ load kind j h
  unfolding settle
  settle-load j keys h plain writes =
      load_local kind j h (settle kind keys h) plain refl (settle-bytes j keys h plain writes)

  -- An entry with the status "del" does not have the status "update".
  deleted_not_updated : (s : Status) → is_deleted s ≡ true → is_updated s ≡ false
  deleted_not_updated deleted e = refl
  deleted_not_updated updated e = cc
  deleted_not_updated view e = cc
  deleted_not_updated unset e = cc

  answer_entry :
      (j : List ℕ) (v w : Change Elem) (a b : Result MapError (Option Elem))
      → v.element ≡ w.element
      → answer kind j (some v) a ≡ answer kind j (some w) b
  unfolding answer
  answer_entry j v w a b e = ground arith

  answer_read :
      (j : List ℕ) (v : Change Elem) (a : Result MapError (Option Elem))
      → answer kind j none (ok v.element) ≡ answer kind j (some v) a
  unfolding answer
  answer_read j v a = ground arith

  -- The commit leaves what a key answers as it was, whichever way it treated it.
  Left-lookup :
      (j : List ℕ) (keys : List (List ℕ)) (h h₂ : HashMap Elem)
      → kind.indexable ≡ false
      → h₂.tx.writable ≡ true
      → WellFormed kind h
      → listed j keys ≡ is_updated_at kind (find j h.changes)
      → Left kind j h h₂
      → lookup kind j (settle kind keys h₂) ≡ lookup kind j h
  unfolding is_updated_at
  Left-lookup j keys h h₂ plain writes wf l (untouched not_up not_del s) =
      rw
        (
          lookup-answer kind j h,
          lookup-answer kind j (settle kind keys h₂),
          settle-changes j keys h₂,
          settle-load j keys h₂ plain writes,
          load_local kind j h h₂ plain s.committed s.bytes,
          l,
          not_up,
          s.changes,
        )
        refl
  Left-lookup j keys h h₂ plain writes wf l (gone v f del at) =
      rw
        (
          lookup-answer kind j h,
          lookup-answer kind j (settle kind keys h₂),
          settle-changes j keys h₂,
          l,
          f,
          deleted_not_updated v.status del,
          at.changes,
        )
        (answer_entry j (deleted_change kind v) v _ _ refl)
  Left-lookup j keys h h₂ plain writes wf l (stored v f up at) =
      let (x, e, back) = wf.readable j v f up in
      rw
        (
          lookup-answer kind j h,
          lookup-answer kind j (settle kind keys h₂),
          settle-changes j keys h₂,
          l,
          f,
          up,
          settle-load j keys h₂ plain writes,
          load_updated kind j v x h₂ plain e back at,
          ← e,
        )
        (answer_read j v (load kind j h))

  -- A CommitChanges that succeeds leaves what every key answers as it was: in a map with no indices
  -- whose transaction may be written, that is well formed, and whose events write no keys of the map.
  pub lookup-commit_changes :
      (j : List ℕ) (h h' : HashMap Elem)
      → kind.indexable ≡ false
      → IsQuiet kind
      → h.tx.writable ≡ true
      → WellFormed kind h
      → commit_changes kind h ≡ (ok tt, h')
      → lookup kind j h' ≡ lookup kind j h
  lookup-commit_changes j h h' plain quiet writes wf e =
      let (keys, h₂, l, left, consistent, writable, count, last) =
        commit-Left kind plain quiet h h' writes wf e in
      rw last (Left-lookup j keys h h₂ plain writable wf (l j) (left j))
