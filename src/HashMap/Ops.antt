-- ===== src/HashMap/Ops.antt =====
-- store/hash_map/store_hash_map.go up to ResetChangesSize, without the map `changesSize` that only
-- ComputeChangesSize reads. Elements are values: the program changes an element between Get and
-- Update and gives it back by Update.
use go_pandora_pay.Prelude.{
  ℕ, ◌+◌, ◌-◌, ◌%◌, ◌^◌, Bool, true, false, not, ◌&&◌, Option, none, some, List, [], ◌∷◌, length,
  ltb, leb, ◌==◌, if◌then◌else◌,
}
use go_pandora_pay.Prelude.Result.{Result, ok, err, panic}
use go_pandora_pay.Prelude.ByteMap.{ByteMap, find}
use go_pandora_pay.Prelude.ByteMap
use go_pandora_pay.Prelude.Decimal.{parse_uint}
use go_pandora_pay.HashMap.Store.{Tx, exists, map_key, exists_key, list_keys_key, list_key}
use go_pandora_pay.HashMap.Types.{
  Kind, MapError, HashMap, Change, view, updated, deleted, new_change, not_indexable,
  only_committed, key_not_found, index_exceeds_count, not_found, key_length_invalid, already_exists,
  data_null, parse_error,
}

-- `generics.IsZero(element)`, for a pointer
abbrev pub is_nil : {A : Type 0} → Option A → Bool
is_nil none = true
is_nil (some _) = false

module _ (kind : Kind) where
  open kind use {Elem}

  abbrev pub Outcome : Type 0 → Type 0
  Outcome A = Result MapError A × HashMap Elem

  -- `hashMap.keyLength != 0 && len(key) != hashMap.keyLength`
  abbrev pub bad_key : List ℕ → Bool
  bad_key key = not (kind.key_length == 0) && not (length key == kind.key_length)

  -- What Get finds below the changes: the bytes of the element and its index.
  unfoldable pub stored_bytes : List ℕ → HashMap Elem → Result MapError (Option (List ℕ) × ℕ)
  stored_bytes key h = elim (find key h.committed) [
    | some c ↦ elim c.element [
      | some e ↦ ok (c.serialized, if kind.indexable then kind.get_index e else 0)
      | none ↦ ok (none, 0)
    ]
    | none ↦ elim (h.tx.get (map_key kind.name key)) [
      | none ↦ ok (none, 0)
      | some bytes ↦
          if kind.indexable
          then elim (h.tx.get (list_keys_key kind.name key)) [
            | none ↦ err key_not_found
            | some text ↦ elim (parse_uint text) [
              | none ↦ err parse_error
              | some index ↦ ok (some bytes, index)
            ]
          ]
          else ok (some bytes, 0)
    ]
  ]

  -- `hashMap.deserialize`, where there are bytes
  unfoldable pub decode : List ℕ → Option (List ℕ) × ℕ → Result MapError (Option Elem)
  decode key (none, index) = ok none
  decode key (some bytes, index) = elim (kind.deserialize key index bytes) [
    | ok e ↦ ok (some e)
    | err e ↦ err e
    | panic ↦ panic
  ]

  unfoldable pub load : List ℕ → HashMap Elem → Result MapError (Option Elem)
  unfolding decode stored_bytes
  load key h = elim (stored_bytes key h) [
    | ok found ↦ decode key found
    | err e ↦ err e
    | panic ↦ panic
  ]

  -- `hashMap.Changes[key] = &ChangesMapElement[T]{out, "view", 0, false}`
  abbrev pub seen : List ℕ → Option Elem → HashMap Elem → HashMap Elem
  seen key out h = record h {
    changes =
        ByteMap.put key (record { element = out; status = view; index = 0; index_process = false })
          h.changes;
  }

  unfoldable pub get : List ℕ → HashMap Elem → Outcome (Option Elem)
  unfolding load
  get key h = if bad_key key then (err key_length_invalid, h) else elim (find key h.changes) [
    | some c ↦ (ok c.element, h)
    | none ↦ elim (load key h) [
      | ok out ↦ (ok out, seen key out h)
      | err e ↦ (err e, h)
      | panic ↦ (panic, h)
    ]
  ]

  unfoldable pub exists_in : List ℕ → HashMap Elem → Result MapError Bool
  exists_in key h = if bad_key key then err key_length_invalid else elim (find key h.changes) [
    | some c ↦ ok (not (is_nil c.element))
    | none ↦ elim (find key h.committed) [
      | some c ↦ ok (not (is_nil c.element))
      | none ↦ ok (exists (exists_key kind.name key) h.tx)
    ]
  ]

  -- The entry that Update and Delete write to, and whether they take the key for present: by its
  -- entry among the changes, and else by the transaction.
  abbrev pub entry_of : List ℕ → HashMap Elem → Change Elem
  entry_of key h = elim (find key h.changes) [ some c ↦ c | none ↦ new_change ]

  unfoldable pub present : List ℕ → HashMap Elem → Bool
  present key h = elim (find key h.changes) [
    | some c ↦ not (is_nil c.element)
    | none ↦ exists (exists_key kind.name key) h.tx
  ]

  -- `v.index -= 1` for the entries behind a deleted index
  unfoldable pub lower_index : ℕ → Change Elem → Change Elem
  lower_index bound v =
      if ltb bound v.index
      then record v {
        index = v.index - 1;
        element = elim v.element [ none ↦ none | some e ↦ some (kind.set_index (v.index - 1) e) ];
      }
      else v

  unfoldable pub lower_indices : ℕ → ByteMap (Change Elem) → ByteMap (Change Elem)
  unfolding lower_index
  lower_indices bound [] = []
  lower_indices bound ((k, v) ∷ m) = (k, lower_index bound v) ∷ lower_indices bound m

  -- The indices behind a deletion that lowered the count to `count`.
  unfoldable pub reindex : List ℕ → Change Elem → ℕ → HashMap Elem → HashMap Elem
  unfolding lower_indices
  reindex key c count h =
      if c.index_process
      then record h {
        changes =
            ByteMap.put key (record c { index_process = false }) (lower_indices c.index h.changes);
      }
      else record h {
        changes = ByteMap.put key (record c { index = count; index_process = true }) h.changes;
      }

  unfoldable pub delete : List ℕ → HashMap Elem → HashMap Elem
  unfolding present reindex
  delete key h =
      let c = record (entry_of key h) { status = deleted; element = none } in
      let h' = record h { changes = ByteMap.put key c h.changes; changed = true } in
      let count' = (h.count + 2 ^ 64 - 1) % 2 ^ 64 in
      let h'' = record h' { count = count' } in
      if present key h then (if kind.indexable then reindex key c count' h'' else h'') else h'

  -- Update behind the guards: the change, and the count and the index of a new key.
  unfoldable pub store_change : List ℕ → Elem → HashMap Elem → HashMap Elem
  unfolding present
  store_change key data' h =
      let c = record (entry_of key h) { status = updated; element = some data' } in
      let indexed = record c {
        element = some (kind.set_index h.count data');
        index = h.count;
        index_process = true;
      } in
      if present key h
      then record h { changes = ByteMap.put key c h.changes; changed = true }
      else record h {
        changes = ByteMap.put key (if kind.indexable then indexed else c) h.changes;
        changed = true;
        count = (h.count + 1) % 2 ^ 64;
      }

  unfoldable pub update_element : List ℕ → Elem → HashMap Elem → Outcome (Unit {0})
  unfolding store_change delete
  update_element key data' h = elim (kind.validate data') [
    | ok _ ↦ (ok tt, if kind.is_deletable data' then delete key h else store_change key data' h)
    | err e ↦ (err e, h)
    | panic ↦ (panic, h)
  ]

  unfoldable pub update : List ℕ → Option Elem → HashMap Elem → Outcome (Unit {0})
  unfolding update_element
  update key element h = if bad_key key then (err key_length_invalid, h) else elim element [
    | none ↦ (err data_null, h)
    | some e ↦ update_element key (kind.set_key key e) h
  ]

  unfoldable pub create : List ℕ → Option Elem → HashMap Elem → Outcome (Unit {0})
  create key element h = elim (exists_in key h) [
    | ok there ↦ if there then (err already_exists, h) else update key element h
    | err e ↦ (err e, h)
    | panic ↦ (panic, h)
  ]

  unfoldable pub update_or_delete : List ℕ → Option Elem → HashMap Elem → Outcome (Unit {0})
  update_or_delete key element h =
      if is_nil element then (ok tt, delete key h) else update key element h

  -- What GetIndexByKey and GetKeyByIndex answer, for a map with no uncommitted change.
  unfoldable pub get_index_by_key : List ℕ → HashMap Elem → Result MapError ℕ
  get_index_by_key key h =
      if not kind.indexable
      then err not_indexable
      else if h.changed
      then err only_committed
      else elim (h.tx.get (list_keys_key kind.name key)) [
        | none ↦ err key_not_found
        | some text ↦ elim (parse_uint text) [ none ↦ err parse_error | some index ↦ ok index ]
      ]

  unfoldable pub get_key_by_index : ℕ → HashMap Elem → Result MapError (List ℕ)
  get_key_by_index index h =
      if not kind.indexable
      then err not_indexable
      else if h.changed
      then err only_committed
      else if leb h.count index
      then err index_exceeds_count
      else elim (h.tx.get (list_key kind.name index)) [ none ↦ err not_found | some key ↦ ok key ]

  unfoldable pub get_by_index : ℕ → HashMap Elem → Outcome (Option Elem)
  get_by_index index h = elim (get_key_by_index index h) [
    | ok key ↦ get key h
    | err e ↦ (err e, h)
    | panic ↦ (panic, h)
  ]

  unfoldable pub rollback : HashMap Elem → HashMap Elem
  rollback h = record h { changes = []; count = h.count_committed; changed = false }

  unfoldable pub reset : HashMap Elem → HashMap Elem
  reset h = record h { committed = []; changes = []; changed = false }

  unfoldable pub set_tx : Tx → HashMap Elem → HashMap Elem
  set_tx tx h = record h { tx = tx }
