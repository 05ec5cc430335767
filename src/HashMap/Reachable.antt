-- ===== src/HashMap/Reachable.antt =====
-- The maps that come about from CreateNewHashMap by the operations of store/hash_map/store_hash_map.go.
use go_pandora_pay.Prelude.{
  ℕ, ◌≤◌, ◌≡◌, refl, ◌∙◌, sym, ap, true, false, Option, none, some, List, [], ◌∷◌, length,
  bytes_equal, bytes_equal_iff, arith, Bool-cases, inl, inr, ◌⊎◌,
}
use go_pandora_pay.Prelude.Result.{ok, Result-cases}
use go_pandora_pay.Prelude.ByteMap.{find-put_cases, ByteMap, find, put, find-put}
use go_pandora_pay.SafeMath.{IsU64}
use go_pandora_pay.HashMap.Store.{Tx, exists, map_key, exists_key}
use go_pandora_pay.HashMap.Types.{Kind, HashMap, Change, deleted}
use go_pandora_pay.HashMap.Ops.{
  entry_of, update_element, load, get, seen, update, delete, create, update_or_delete, get_by_index,
  get_key_by_index, store_change,
}
use go_pandora_pay.HashMap.Commit.{
  is_deleted, is_updated, fresh, commit_changes, create_new_hash_map,
}
use go_pandora_pay.HashMap.Rounds.{IsQuiet}
use go_pandora_pay.HashMap.Loops.{IsDistinct}
use go_pandora_pay.HashMap.View.{
  lookup, get_cases, load_same, store_change-put, entry_written, stamped,
}
use go_pandora_pay.HashMap.Persist.{WellFormed}
use mathlib.Core.Path.{subst}
use go_pandora_pay.HashMap.WellFormed.{lookup-commit_changes}
use go_pandora_pay.HashMap.Recreated.{Current, create_new_hash_map-commit_changes}
use go_pandora_pay.HashMap.Rollback.{
  Holds, Step, Reach, gets, gets_by_index, updates, creates, deletes, updates_or_deletes, here,
  next,
}

pub put-IsDistinct :
    {V : Type 0} (k : List ℕ) (v : V) (m : ByteMap V) → IsDistinct m → IsDistinct (put k v m)
unfolding put find
put-IsDistinct k v [] d = (refl, tt)
put-IsDistinct k v ((i, w) ∷ m) (first, d) = elim (Bool-cases (bytes_equal i k)) [
  | inl same ↦ rw same (first, d)
  | inr other ↦ rw other (
    ground (arith, bytes_equal_iff i k, bytes_equal_iff k i, find-put i k v m),
    put-IsDistinct k v m d,
  )
]

module _ (kind : Kind) where
  open kind use {name}

  -- The transaction holds no bytes for a key that it does not mark as present.
  abbrev pub IsConsistentTx : Tx → Type 0
  IsConsistentTx tx =
      (j : List ℕ) → exists (exists_key name j) tx ≡ false → tx.get (map_key name j) ≡ none

module _ (kind : Kind) (Typed : kind.Elem → Type 0) where
  open kind use {Elem, name}

  -- An element that passes Validate reads back from its bytes.
  abbrev pub IsReadable : Type 0
  IsReadable =
      (k : List ℕ) (e : Elem)
      → Typed e
      → kind.validate (kind.set_key k e) ≡ ok tt
      → kind.deserialize k 0 (kind.serialize (kind.set_key k e)) ≡ ok (kind.set_key k e)

  module _ (plain : kind.indexable ≡ false) where
    pub record Sound (h : HashMap Elem) : Type 0 where
      pub well_formed : WellFormed kind h
      pub current : Current kind plain h

    Sound-fresh : (tx : Tx) (n : ℕ) → IsConsistentTx kind tx → Sound (fresh kind tx n)
    unfolding find
    Sound-fresh tx n consistent = record {
      well_formed = record { distinct = tt; consistent = consistent; readable = λ j v f up. cc };
      current = record {
        backed = λ j. load_same kind j (fresh kind tx 0) (fresh kind tx n) refl refl;
        viewed = λ j v f a b. cc;
        gone = λ j v f a. cc;
      };
    }

    -- An entry that an operation may write under the key.
    record Fine (k : List ℕ) (c : Change Elem) (h : HashMap Elem) : Type 0 where
      readable :
          is_updated c.status ≡ true
          → (x : Elem) × (c.element ≡ some x) × (kind.deserialize k 0 (kind.serialize x) ≡ ok x)
      viewed :
          is_updated c.status ≡ false → is_deleted c.status ≡ false → load kind k h ≡ ok c.element
      gone : is_deleted c.status ≡ true → c.element ≡ none

    Sound-put :
        (k : List ℕ) (c : Change Elem) (h h' : HashMap Elem)
        → h'.changes ≡ put k c h.changes
        → h'.committed ≡ h.committed
        → h'.tx ≡ h.tx
        → Fine k c h
        → Sound h
        → Sound h'
    Sound-put k c h h' changes committed tx fine s =
        let w = s.well_formed in
        let u = s.current in
        let found : (j : List ℕ) (v : Change Elem)
            → find j h'.changes ≡ some v
            → ((k ≡ j) × (c ≡ v)) ⊎ (find j h.changes ≡ some v) =
          λ j v f. find-put_cases j k c v h.changes (rw changes at f) in
        record {
          well_formed = record {
            distinct = rw changes (put-IsDistinct k c h.changes w.distinct);
            consistent = λ j gone. rw tx (w.consistent j (rw tx at gone));
            readable = λ j v f up. elim (found j v f) [
              | inl (same, at) ↦ rw (← same, ← at) (fine.readable (rw at up))
              | inr before ↦ w.readable j v before up
            ];
          };
          current = record {
            backed = λ j.
                load_same kind j h h' committed tx
                ∙ u.backed j
                ∙ load_same kind j (fresh kind h'.tx 0) (fresh kind h.tx 0) refl (sym tx);
            viewed = λ j v f a b. load_same kind j h h' committed tx ∙ elim (found j v f) [
              | inl (same, at) ↦ rw (← same, ← at) (fine.viewed (rw at a) (rw at b))
              | inr before ↦ u.viewed j v before a b
            ];
            gone = λ j v f a. elim (found j v f) [
              | inl (same, at) ↦ rw (← at) (fine.gone (rw at a))
              | inr before ↦ u.gone j v before a
            ];
          };
        }

    Sound-get : (k : List ℕ) (h : HashMap Elem) → Sound h → Sound (get kind k h).1
    Sound-get k h s = elim (get_cases kind k h) [
      | inl same ↦ rw same s
      | inr (out, good, unseen, loaded, e) ↦ rw e (
          Sound-put k _ h (seen kind k out h) refl refl refl
            record { readable = λ up. cc; viewed = λ a b. loaded; gone = λ d. cc } s)
    ]

    delete-put :
        (k : List ℕ) (h : HashMap Elem)
        → (c : Change Elem) × (c.status ≡ deleted)
          × (c.element ≡ none)
          × ((delete kind k h).changes ≡ put k c h.changes)
          × ((delete kind k h).committed ≡ h.committed)
          × ((delete kind k h).tx ≡ h.tx)
    unfolding delete
    delete-put k h = (
      record (entry_of kind k h) { status = deleted; element = none },
      refl,
      refl,
      ground arith,
      ground arith,
      ground arith,
    )

    Sound-delete : (k : List ℕ) (h : HashMap Elem) → Sound h → Sound (delete kind k h)
    Sound-delete k h s =
        let (c, status, element, changes, committed, tx) = delete-put k h in
        Sound-put k c h (delete kind k h) changes committed tx
          record {
            readable = λ up. cc (ap is_updated status);
            viewed = λ a b. cc (ap is_deleted status);
            gone = λ d. element;
          }
          s

    Sound-store_change :
        (k : List ℕ) (e : Elem) (h : HashMap Elem)
        → kind.deserialize k 0 (kind.serialize (kind.set_key k e)) ≡ ok (kind.set_key k e)
        → Sound h
        → Sound (store_change kind k (kind.set_key k e) h)
    Sound-store_change k e h back s =
        let (changes, committed, tx) = store_change-put kind k e h in
        let same : stamped kind k e h ≡ kind.set_key k e = ground arith in
        Sound-put k (entry_written kind k e h) h (store_change kind k (kind.set_key k e) h) changes
          committed tx
          record {
            readable = λ up. (stamped kind k e h, refl, rw same back);
            viewed = λ a b. cc;
            gone = λ d. cc;
          }
          s

    update_cases :
        (k : List ℕ) (e : Elem) (h : HashMap Elem)
        → ((update kind k (some e) h).1 ≡ h)
          ⊎ ((kind.validate (kind.set_key k e) ≡ ok tt)
              × (((update kind k (some e) h).1 ≡ delete kind k h)
                  ⊎ ((update kind k (some e) h).1 ≡ store_change kind k (kind.set_key k e) h)))
    unfolding update update_element
    update_cases k e h = ground arith

    Sound-update :
        IsReadable
        → (k : List ℕ) (e : Option Elem) (h : HashMap Elem) → Holds Typed e
        → Sound h
        → Sound (update kind k e h).1
    unfolding update
    Sound-update readable k none h typed s =
        let same : (update kind k none h).1 ≡ h = ground arith in subst Sound (sym same) s
    Sound-update readable k (some e) h typed s = elim (update_cases k e h) [
      | inl same ↦ subst Sound (sym same) s
      | inr (valid, inl same) ↦ subst Sound (sym same) (Sound-delete k h s)
      | inr (valid, inr same) ↦
          subst Sound (sym same) (Sound-store_change k e h (readable k e typed valid) s)
    ]

    create_cases :
        (k : List ℕ) (e : Option Elem) (h : HashMap Elem)
        → ((create kind k e h).1 ≡ h) ⊎ ((create kind k e h).1 ≡ (update kind k e h).1)
    unfolding create
    create_cases k e h = ground arith

    get_by_index_cases :
        (i : ℕ) (h : HashMap Elem)
        → ((get_by_index kind i h).1 ≡ h)
          ⊎ ((k : List ℕ) × ((get_by_index kind i h).1 ≡ (get kind k h).1))
    unfolding get_by_index
    get_by_index_cases i h = elim (Result-cases (get_key_by_index kind i h)) [
      | inl (k, e) ↦ inr (k, rw (get_by_index, e) refl)
      | inr (inl (x, e)) ↦ inl (rw (get_by_index, e) refl)
      | inr (inr e) ↦ inl (rw (get_by_index, e) refl)
    ]

    update_or_delete_cases :
        (k : List ℕ) (e : Option Elem) (h : HashMap Elem)
        → ((update_or_delete kind k e h).1 ≡ delete kind k h)
          ⊎ ((update_or_delete kind k e h).1 ≡ (update kind k e h).1)
    unfolding update_or_delete
    update_or_delete_cases k e h = ground arith

    Sound-Step : IsReadable → (h h' : HashMap Elem) → Step kind Typed h h' → Sound h → Sound h'
    Sound-Step r h _ (gets k) s = Sound-get k h s
    Sound-Step r h _ (gets_by_index i) s = elim (get_by_index_cases i h) [
      | inl same ↦ subst Sound (sym same) s
      | inr (k, same) ↦ subst Sound (sym same) (Sound-get k h s)
    ]
    Sound-Step r h _ (updates k e typed) s = Sound-update r k e h typed s
    Sound-Step r h _ (creates k e typed) s = elim (create_cases k e h) [
      | inl same ↦ subst Sound (sym same) s
      | inr same ↦ subst Sound (sym same) (Sound-update r k e h typed s)
    ]
    Sound-Step r h _ (deletes k) s = Sound-delete k h s
    Sound-Step r h _ (updates_or_deletes k e typed) s = elim (update_or_delete_cases k e h) [
      | inl same ↦ subst Sound (sym same) (Sound-delete k h s)
      | inr same ↦ subst Sound (sym same) (Sound-update r k e h typed s)
    ]

    -- Each call of a method keeps the map sound.
    pub Sound-Reach :
        (h h' : HashMap Elem) → IsReadable → Sound h → Reach kind Typed h h' → Sound h'
    Sound-Reach h _ r s here = s
    Sound-Reach h _ r s (next {t} {u} before step) =
        Sound-Step r t u step (Sound-Reach h t r s before)

    -- CommitChanges and CreateNewHashMap after any sequence of Get, GetByIndex, Update, Create, Delete
    -- and UpdateOrDelete, whatever they answered, in a map with no indices and a name of five bytes
    -- or more that began empty over a consistent transaction, with events that write no keys of the
    -- map and typed elements that read back. If the transaction may be written and the commit
    -- succeeds, the committed map answers for every key what it did before, and a map that is made
    -- over the same transaction has its count and answers the same.
    pub reopen_after_commit :
        (j : List ℕ) (tx : Tx) (n : ℕ) (h h' : HashMap Elem)
        → IsQuiet kind
        → IsReadable
        → 5 ≤ length name
        → IsConsistentTx kind tx
        → Reach kind Typed (fresh kind tx n) h
        → IsU64 h.count
        → h.tx.writable ≡ true
        → commit_changes kind h ≡ (ok tt, h')
        → (create_new_hash_map kind h'.tx ≡ ok (fresh kind h'.tx h.count))
          × (lookup kind j h' ≡ lookup kind j h)
          × (lookup kind j (fresh kind h'.tx h.count) ≡ lookup kind j h)
    reopen_after_commit j tx n h h' quiet readable long consistent reach fits writes e =
        let s = Sound-Reach (fresh kind tx n) h readable (Sound-fresh tx n consistent) reach in
        let (made, same) =
          create_new_hash_map-commit_changes kind plain j h h' quiet long fits writes s.well_formed
            s.current e in
        (made, lookup-commit_changes kind j h h' plain quiet writes s.well_formed e, same)
