-- ===== src/HashMap/View.antt =====
-- What Get answers for each key, before and after the operations of store_hash_map.go.
use go_pandora_pay.Prelude.{
  ℕ, ◌≡◌, ◌⊎◌, refl, true, false, not, ◌&&◌, Option, none, some, List, ◌∙◌, if◌then◌else◌,
  bytes_equal, bytes_equal_iff, arith, Option-cases, Bool-cases, inl, inr,
}
use go_pandora_pay.Prelude.Result.{Result, ok, err, Result-cases}
use go_pandora_pay.Prelude.ByteMap.{ByteMap, find, find-put}
use go_pandora_pay.Prelude.ByteMap
use go_pandora_pay.HashMap.Types.{
  Kind, MapError, HashMap, Change, deleted, updated, key_length_invalid,
}
use go_pandora_pay.HashMap.Ops.{
  bad_key, load, get, present, entry_of, store_change, update, update_element, delete, seen,
}

module _ (kind : Kind) where
  open kind use {Elem}

  -- What Get answers.
  abbrev pub lookup : List ℕ → HashMap Elem → Result MapError (Option Elem)
  lookup key h = (get kind key h).0

  unfoldable pub answer :
      List ℕ → Option (Change Elem) → Result MapError (Option Elem) → Result MapError (Option Elem)
  answer j found loaded =
      if bad_key kind j
      then err key_length_invalid
      else elim found [ some c ↦ ok c.element | none ↦ loaded ]

  pub lookup-answer :
      (j : List ℕ) (h : HashMap Elem) → lookup j h ≡ answer j (find j h.changes) (load kind j h)
  unfolding get answer
  lookup-answer j h = ground arith

  -- What is below the changes depends on the committed elements and the transaction alone.
  pub load_same :
      (j : List ℕ) (h h' : HashMap Elem)
      → h'.committed ≡ h.committed
      → h'.tx ≡ h.tx
      → load kind j h' ≡ load kind j h
  unfolding load
  load_same j h h' f g = rw (f, g)

  -- A new entry among the changes changes the answer for its key alone.
  pub lookup-put :
      (j k : List ℕ) (c : Change Elem) (h h' : HashMap Elem)
      → h'.changes ≡ ByteMap.put k c h.changes
      → h'.committed ≡ h.committed
      → h'.tx ≡ h.tx
      → bad_key kind k ≡ false
      → lookup j h' ≡ (if bytes_equal k j then ok c.element else lookup j h)
  unfolding answer
  lookup-put j k c h h' e f g good = ground (
    arith,
    lookup-answer j h,
    lookup-answer j h',
    load_same j h h' f g,
    find-put j k c h.changes,
    bytes_equal_iff k j,
  )

  -- Get changes nothing, or it keeps what it has read below the changes.
  pub get_cases :
      (k : List ℕ) (h : HashMap Elem)
      → ((get kind k h).1 ≡ h)
        ⊎ ((out : Option Elem) × (bad_key kind k ≡ false)
            × (find k h.changes ≡ none)
            × (load kind k h ≡ ok out)
            × ((get kind k h).1 ≡ seen kind k out h))
  unfolding get
  get_cases k h = elim (Bool-cases (bad_key kind k)) [
    | inl bad ↦ inl (rw bad)
    | inr good ↦ elim (Option-cases (find k h.changes)) [
      | inr (c, found) ↦ inl (ground arith)
      | inl unseen ↦ elim (Result-cases (load kind k h)) [
        | inl (out, e) ↦ inr (out, good, unseen, e, ground arith)
        | inr (inl (x, e)) ↦ inl (ground arith)
        | inr (inr e) ↦ inl (ground arith)
      ]
    ]
  ]

  -- Get leaves what every key answers as it was, though it keeps what it has read.
  pub lookup-get : (j k : List ℕ) (h : HashMap Elem) → lookup j (get kind k h).1 ≡ lookup j h
  unfolding answer
  lookup-get j k h = elim (get_cases k h) [
    | inl same ↦ rw same
    | inr (out, good, unseen, loaded, e) ↦ rw e (
        lookup-put j k _ h (seen kind k out h) refl refl refl good
        ∙ ground (arith, lookup-answer j h, lookup-answer k h, bytes_equal_iff k j))
  ]

  -- The element as Update stores it: under its key, and a new one at the end of the indices.
  abbrev pub stamped : List ℕ → Elem → HashMap Elem → Elem
  stamped k e h =
      if not (present kind k h) && kind.indexable
      then kind.set_index h.count (kind.set_key k e)
      else kind.set_key k e

  -- The entry that Update writes.
  abbrev pub entry_written : List ℕ → Elem → HashMap Elem → Change Elem
  entry_written k e h =
      let fresh = not (present kind k h) && kind.indexable in
      record {
        element = some (stamped k e h);
        status = updated;
        index = if fresh then h.count else (entry_of kind k h).index;
        index_process = if fresh then true else (entry_of kind k h).index_process;
      }

  pub store_change-put :
      (k : List ℕ) (e : Elem) (h : HashMap Elem)
      → let h' = store_change kind k (kind.set_key k e) h in
        (h'.changes ≡ ByteMap.put k (entry_written k e h) h.changes)
        × (h'.committed ≡ h.committed)
        × (h'.tx ≡ h.tx)
  unfolding store_change
  store_change-put k e h = elim (Bool-cases (present kind k h)) [
    | inl there ↦ (rw there, rw there, rw there)
    | inr fresh ↦ elim (Bool-cases kind.indexable) [
      | inl indexed ↦ (rw (fresh, indexed), rw fresh, rw fresh)
      | inr plain ↦ (rw (fresh, plain), rw fresh, rw fresh)
    ]
  ]

  -- A successful Update had a key of the right length and an element that passes Validate, and it is
  -- a Delete where the element is deletable.
  pub update_ok :
      (k : List ℕ) (e : Elem) (h h' : HashMap Elem)
      → update kind k (some e) h ≡ (ok tt, h')
      → (bad_key kind k ≡ false)
        × (kind.validate (kind.set_key k e) ≡ ok tt)
        × (h' ≡ (
            if kind.is_deletable (kind.set_key k e)
            then delete kind k h
            else store_change kind k (kind.set_key k e) h))
  unfolding update update_element
  update_ok k e h h' done = elim (Bool-cases (bad_key kind k)) [
    | inl bad ↦ ground arith
    | inr good ↦ elim (Result-cases (kind.validate (kind.set_key k e))) [
      | inl (u, valid) ↦ (good, valid, ground arith)
      | inr (inl (x, invalid)) ↦ ground arith
      | inr (inr panics) ↦ ground arith
    ]
  ]

  -- A successful Update with an element that stays answers that element for its key, and leaves what
  -- every other key answers as it was.
  pub lookup-update :
      (j k : List ℕ) (e : Elem) (h h' : HashMap Elem)
      → kind.is_deletable (kind.set_key k e) ≡ false
      → update kind k (some e) h ≡ (ok tt, h')
      → lookup j h' ≡ (if bytes_equal k j then ok (some (stamped k e h)) else lookup j h)
  lookup-update j k e h h' stays done =
      let (good, valid, same) = update_ok k e h h' done in
      let (changes, committed, tx) = store_change-put k e h in
      rw (same, stays)
        (lookup-put j k (entry_written k e h) h (store_change kind k (kind.set_key k e) h) changes
          committed tx good)

  -- A successful Update with a deletable element is a Delete.
  pub lookup-update_deletable :
      (j k : List ℕ) (e : Elem) (h h' : HashMap Elem)
      → kind.is_deletable (kind.set_key k e) ≡ true
      → update kind k (some e) h ≡ (ok tt, h')
      → lookup j h' ≡ lookup j (delete kind k h)
  lookup-update_deletable j k e h h' goes done =
      let (good, valid, same) = update_ok k e h h' done in rw (same, goes)

  -- Delete in a map with no indices answers nil for its key, and leaves what every other key answers
  -- as it was.
  pub lookup-delete :
      (j k : List ℕ) (h : HashMap Elem)
      → kind.indexable ≡ false
      → bad_key kind k ≡ false
      → lookup j (delete kind k h) ≡ (if bytes_equal k j then ok none else lookup j h)
  unfolding delete
  lookup-delete j k h plain good =
      lookup-put j k (record (entry_of kind k h) { status = deleted; element = none }) h
        (delete kind k h) (ground arith) (ground arith) (ground arith) good
