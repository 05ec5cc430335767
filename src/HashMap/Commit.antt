-- ===== src/HashMap/Commit.antt =====
-- CommitChanges and CreateNewHashMap of store/hash_map/store_hash_map.go. The two loops of a commit
-- run over the entries that `Changes` had when it began: each changes its own entry alone.
use go_pandora_pay.Prelude.{
  ℕ, ◌+◌, ◌*◌, ◌%◌, ◌^◌, Bool, true, false, ◌&&◌, Option, none, some, List, [], ◌∷◌, length, ltb,
  leb, ◌==◌, if◌then◌else◌,
}
use go_pandora_pay.Prelude.Result.{Result, ok, err, panic}
use go_pandora_pay.Prelude.ByteMap.{ByteMap, find}
use go_pandora_pay.Prelude.ByteMap
use go_pandora_pay.Prelude.Decimal.{format_uint}
use go_pandora_pay.Buffers.{put_uvarint}
use go_pandora_pay.HashMap.Store.{
  Tx, exists, map_key, exists_key, list_keys_key, list_key, count_key,
}
use go_pandora_pay.HashMap.Store
use go_pandora_pay.HashMap.Types.{
  Kind, MapError, HashMap, Change, Committed, Status, view, updated, deleted, new_committed,
  key_length_invalid,
}
use go_pandora_pay.HashMap.Ops.{bad_key}
use Prim.Native.Nat.{bit_and, bit_or}

abbrev pub is_updated : Status → Bool
is_updated updated = true
is_updated _ = false

abbrev pub is_deleted : Status → Bool
is_deleted deleted = true
is_deleted _ = false

-- encoding/binary.Uvarint, the standard library's, for the number at the front of the bytes:
-- `none` is its answer 0 for bytes that end inside a number or do not fit.
unfoldable pub uvarint : List ℕ → ℕ → ℕ → ℕ → Option ℕ
uvarint [] x s i = none
uvarint (b ∷ bs) x s i =
    let more = uvarint bs (bit_or x (bit_and b 0x7f * 2 ^ s % 2 ^ 64)) (s + 7) (i + 1) in
    if i == 10
    then none
    else if ltb b 0x80
    then if i == 9 && ltb 1 b then none else some (bit_or x (b * 2 ^ s % 2 ^ 64))
    else more

module _ (kind : Kind) where
  open kind use {Elem}

  abbrev pub Commits : Type 0
  Commits = Result MapError (Unit {0}) × HashMap Elem

  -- The first loop: the keys to take out of `Changes`, or the error of a key of another length.
  unfoldable pub keys_updated : ByteMap (Change Elem) → Result MapError (List (List ℕ))
  keys_updated [] = ok []
  keys_updated ((k, v) ∷ m) =
      let rest = keys_updated m in
      if bad_key kind k then err key_length_invalid else elim rest [
        | ok keys ↦ ok (if is_updated v.status then k ∷ keys else keys)
        | err e ↦ err e
        | panic ↦ panic
      ]

  abbrev pub committed_of : List ℕ → HashMap Elem → Committed Elem
  committed_of k h = elim (find k h.committed) [ some c ↦ c | none ↦ new_committed ]

  -- `hashMap.Tx.Delete` of the keys of a deleted entry
  unfoldable pub tx_deleted : List ℕ → Change Elem → Tx → Tx
  tx_deleted k v tx =
      let tx' = Store.delete (exists_key kind.name k) (Store.delete (map_key kind.name k) tx) in
      if tx.writable
      then if kind.indexable && v.index_process
        then Store.delete (list_keys_key kind.name k)
            (Store.delete (list_key kind.name v.index) tx')
        else tx'
      else tx

  -- One round of the second loop, for an entry with the status "del".
  unfoldable pub commit_deleted : List ℕ → Change Elem → HashMap Elem → Commits
  unfolding tx_deleted
  commit_deleted k v h =
      let c = record (committed_of k h) {
        status = view;
        element = none;
        size = 0;
        serialized = none;
      } in
      let finished = λ (stored : Status) (tx : Tx). record h {
        tx = tx;
        committed = ByteMap.put k (record c { stored = stored }) h.committed;
        changes = ByteMap.put k (record v { status = view; index_process = false }) h.changes;
      } in
      let broken = λ (tx : Tx). record h {
        tx = tx;
        committed = ByteMap.put k c h.committed;
        changes = ByteMap.put k (record v { status = view }) h.changes;
      } in
      let tx' = tx_deleted k v h.tx in
      if exists (exists_key kind.name k) h.tx
      then elim (kind.deleted_event k tx') [
        | ok tx'' ↦ (ok tt, finished deleted tx'')
        | err e ↦ (err e, broken tx')
        | panic ↦ (panic, broken tx')
      ]
      else (ok tt, finished view h.tx)

  -- `hashMap.Tx.Put` of the keys of an entry that is new to the transaction
  unfoldable pub tx_added : List ℕ → Change Elem → Tx → Tx
  tx_added k v tx =
      let tx' = Store.put (exists_key kind.name k) (1 ∷ []) tx in
      if tx.writable
      then if kind.indexable && v.index_process
        then Store.put (list_keys_key kind.name k) (format_uint v.index)
            (Store.put (list_key kind.name v.index) k tx')
        else tx'
      else tx

  -- `helpers.SerializeToBytes(v.Element)`: an entry with the status "update" has an element.
  abbrev pub serialized_of : Option Elem → List ℕ
  serialized_of none = []
  serialized_of (some e) = kind.serialize e

  -- The rest of a round of the third loop, behind the event.
  unfoldable pub store_element : List ℕ → Change Elem → Tx → HashMap Elem → HashMap Elem
  store_element k v tx h =
      let bytes = serialized_of v.element in
      record h {
        tx = if tx.writable then Store.put (map_key kind.name k) bytes tx else tx;
        committed =
            ByteMap.put k
              (record {
                element = v.element;
                status = view;
                stored = updated;
                serialized = some bytes;
                size = length bytes;
              })
              h.committed;
        changes = ByteMap.put k (record v { index_process = false }) h.changes;
      }

  -- One round of the third loop, for an entry with the status "update".
  unfoldable pub commit_updated : List ℕ → Change Elem → HashMap Elem → Commits
  unfolding tx_added store_element
  commit_updated k v h =
      let c = record (committed_of k h) { element = v.element } in
      let tx' = tx_added k v h.tx in
      let broken = record h { tx = tx'; committed = ByteMap.put k c h.committed } in
      if exists (exists_key kind.name k) h.tx
      then (ok tt, store_element k v h.tx h)
      else elim (kind.stored_event k c.element v.index tx') [
        | ok tx'' ↦ (ok tt, store_element k v tx'' h)
        | err e ↦ (err e, broken)
        | panic ↦ (panic, broken)
      ]

  abbrev pub then_commit : Commits → (HashMap Elem → Commits) → Commits
  then_commit (ok _, h) next = next h
  then_commit (err e, h) next = (err e, h)
  then_commit (panic, h) next = (panic, h)

  -- `for k, v := range hashMap.Changes { if v.Status == … { … } }`, up to the first error
  unfoldable pub for_each :
      (Status → Bool)
      → (List ℕ → Change Elem → HashMap Elem → Commits)
      → ByteMap (Change Elem)
      → HashMap Elem
      → Commits
  for_each treated round [] h = (ok tt, h)
  for_each treated round ((k, v) ∷ m) h =
      then_commit (if treated v.status then round k v h else (ok tt, h)) (for_each treated round m)

  unfoldable pub commit_all_deleted : ByteMap (Change Elem) → HashMap Elem → Commits
  commit_all_deleted = for_each is_deleted commit_deleted

  unfoldable pub commit_all_updated : ByteMap (Change Elem) → HashMap Elem → Commits
  commit_all_updated = for_each is_updated commit_updated

  unfoldable pub remove_all : List (List ℕ) → ByteMap (Change Elem) → ByteMap (Change Elem)
  remove_all [] m = m
  remove_all (k ∷ keys) m = remove_all keys (ByteMap.remove k m)

  -- The end of a commit: the count is kept, and written if the transaction may be.
  unfoldable pub settle : List (List ℕ) → HashMap Elem → HashMap Elem
  unfolding remove_all
  settle removed h = record h {
    changes = remove_all removed h.changes;
    count_committed = h.count;
    tx =
        if h.tx.writable
        then Store.put (count_key kind.name) (put_uvarint 9 h.count) h.tx
        else h.tx;
    changed = false;
  }

  unfoldable pub commit_changes : HashMap Elem → Commits
  unfolding keys_updated for_each commit_all_deleted commit_all_updated
  commit_changes h = elim (keys_updated h.changes) [
    | err e ↦ (err e, h)
    | panic ↦ (panic, h)
    | ok removed ↦
        then_commit (commit_all_deleted h.changes h)
          λ h'. then_commit (commit_all_updated h.changes h') λ h''. (ok tt, settle removed h'')
  ]

  abbrev pub fresh : Tx → ℕ → HashMap Elem
  fresh tx count = record {
    tx = tx;
    count = count;
    count_committed = count;
    changes = [];
    changed = false;
    committed = [];
  }

  -- CreateNewHashMap: it panics at a name of four bytes or fewer, and at a count that is no number.
  unfoldable pub create_new_hash_map : Tx → Result MapError (HashMap Elem)
  unfolding uvarint
  create_new_hash_map tx =
      if leb (length kind.name) 4 then panic else elim (tx.get (count_key kind.name)) [
        | none ↦ ok (fresh tx 0)
        | some buffer ↦ elim (uvarint buffer 0 0 0) [
          | none ↦ panic
          | some count ↦ ok (fresh tx count)
        ]
      ]
