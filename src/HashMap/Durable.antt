-- ===== src/HashMap/Durable.antt =====
-- The rounds of CommitChanges as the loops of Loops take them.
use go_pandora_pay.Prelude.{
  ℕ, ◌≡◌, refl, ◌∙◌, true, false, Option, none, some, List, bytes_equal, bytes_equal_iff,
  bytes_equal_refl, if◌then◌else◌, arith, Bool-cases, ◌≢◌, inl, inr,
}
use mathlib.Core.Path.{subst}
use go_pandora_pay.Prelude.Result.{ok}
use go_pandora_pay.Prelude.ByteMap.{find-put_self}
use go_pandora_pay.HashMap.Store.{Tx, exists, map_key, exists_key}
use go_pandora_pay.HashMap.Types.{Kind, HashMap, Change}
use go_pandora_pay.HashMap.Commit.{commit_deleted, commit_updated, serialized_of}
use go_pandora_pay.HashMap.Rounds.{
  IsQuiet, Same, Writes-Same, DeletedAt, UpdatedAt, IsConsistent, deleted_change, stored_entry,
  commit_deleted-Writes, commit_updated-Writes,
}
use go_pandora_pay.HashMap.Loops.{Round}

module _ (kind : Kind) (plain : kind.indexable ≡ false) (quiet : IsQuiet kind) where
  open kind use {Elem, name}

  at_self :
      (f : List ℕ → Option (List ℕ)) (k : List ℕ) (b : Option (List ℕ))
      (g : List ℕ → Option (List ℕ))
      → ((j : List ℕ) → f j ≡ (if bytes_equal k j then b else g j))
      → f k ≡ b
  at_self f k b g e = rw (e k, bytes_equal_refl k)

  exists_false :
      (key : List ℕ) (tx : Tx) (t : Option (List ℕ))
      → tx.get key ≡ t
      → t ≢ none
      → exists key tx ≡ true
  unfolding exists
  exists_false key tx t e h = ground arith

  still-IsConsistent :
      (k j : List ℕ) (h h' : HashMap Elem)
      → IsConsistent kind k h'
      → (bytes_equal k j ≡ false → Same kind j h h')
      → IsConsistent kind j h
      → IsConsistent kind j h'
  unfolding exists
  still-IsConsistent k j h h' at others before gone = elim (Bool-cases (bytes_equal k j)) [
    | inl same ↦ subst (λ i. IsConsistent kind i h') ((bytes_equal_iff k j).0 same) at gone
    | inr other ↦ let s = others other in s.bytes ∙ before (ground (arith, s.there))
  ]

  pub deleted-Round :
      (k : List ℕ) (v : Change Elem) (h h' : HashMap Elem)
      → h.tx.writable ≡ true
      → ((j : List ℕ) → IsConsistent kind j h)
      → commit_deleted kind k v h ≡ (ok tt, h')
      → Round kind (DeletedAt kind) k v h h'
  deleted-Round k v h h' writes consistent e =
      let (c, none_left, w) =
        commit_deleted-Writes kind plain quiet k v h h' writes (consistent k) e in
      let bytes =
        at_self (λ i. h'.tx.get (map_key name i)) k none (λ i. h.tx.get (map_key name i)) w.bytes in
      record {
        writable = w.writable;
        count = w.count;
        consistent =
            λ j. still-IsConsistent k j h h' (λ _. bytes) (Writes-Same kind j w) (consistent j);
        others = λ j. Writes-Same kind j w;
        done = record {
          kept = c;
          changes = rw w.changes (find-put_self k (deleted_change kind v) h.changes);
          committed = rw w.committed (find-put_self k c h.committed);
          no_element = none_left;
          bytes = bytes;
          there =
              at_self (λ i. h'.tx.get (exists_key name i)) k none
                (λ i. h.tx.get (exists_key name i)) w.there;
        };
      }

  pub updated-Round :
      (k : List ℕ) (v : Change Elem) (h h' : HashMap Elem)
      → h.tx.writable ≡ true
      → ((j : List ℕ) → IsConsistent kind j h)
      → commit_updated kind k v h ≡ (ok tt, h')
      → Round kind (UpdatedAt kind) k v h h'
  updated-Round k v h h' writes consistent e =
      let (t, some_left, w) = commit_updated-Writes kind plain quiet k v h h' writes e in
      let there =
        at_self (λ i. h'.tx.get (exists_key name i)) k t (λ i. h.tx.get (exists_key name i))
          w.there in
      let there_now = exists_false (exists_key name k) h'.tx t there some_left in
      record {
        writable = w.writable;
        count = w.count;
        consistent =
            λ j. still-IsConsistent k j h h' (λ gone. cc) (Writes-Same kind j w) (consistent j);
        others = λ j. Writes-Same kind j w;
        done = record {
          kept = stored_entry kind v;
          committed = rw w.committed (find-put_self k (stored_entry kind v) h.committed);
          element = refl;
          serialized = refl;
          bytes =
              at_self (λ i. h'.tx.get (map_key name i)) k (some (serialized_of kind v.element))
                (λ i. h.tx.get (map_key name i)) w.bytes;
          mark = t;
          there = there;
          marked = some_left;
        };
      }
