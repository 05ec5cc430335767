-- ===== src/HashMap/Types.antt =====
-- store/hash_map/store_hash_map_types.go and the struct of store_hash_map.go.
use go_pandora_pay.Prelude.{ℕ, Bool, false, Option, none, List}
use go_pandora_pay.Prelude.Result.{Result}
use go_pandora_pay.Prelude.ByteMap.{ByteMap}
use go_pandora_pay.HashMap.Store.{Tx}

pub data MapError : Type 0 where
  not_indexable only_committed key_not_found index_exceeds_count not_found : MapError
  key_length_invalid already_exists data_null parse_error : MapError
  -- what the element's own methods or the events answer
  element_error event_error : MapError

-- HashMapElementSerializableInterface, with the arguments and the fields that CreateNewHashMap and
-- its callers set. An event reads and writes the transaction; where the source leaves it nil it
-- gives the transaction back.
pub record Kind : Type 1 where
  pub Elem : Type 0
  pub validate : Elem → Result MapError (Unit {0})
  pub is_deletable : Elem → Bool
  pub set_key : List ℕ → Elem → Elem
  pub set_index : ℕ → Elem → Elem
  pub get_index : Elem → ℕ
  pub serialize : Elem → List ℕ
  -- CreateObject(key, index), then Deserialize
  pub deserialize : List ℕ → ℕ → List ℕ → Result MapError Elem
  pub name : List ℕ
  pub key_length : ℕ
  pub indexable : Bool
  pub deleted_event : List ℕ → Tx → Result MapError Tx
  pub stored_event : List ℕ → Option Elem → ℕ → Tx → Result MapError Tx

-- The strings "", "view", "update" and "del" of Status and Stored.
pub data Status : Type 0 where
  unset view updated deleted : Status

-- A nil element is `none`.
pub record Change (E : Type 0) : Type 0 where
  pub element : Option E
  pub status : Status
  pub index : ℕ
  pub index_process : Bool

pub record Committed (E : Type 0) : Type 0 where
  pub element : Option E
  pub status : Status
  pub stored : Status
  pub serialized : Option (List ℕ)
  pub size : ℕ

-- `new(ChangesMapElement[T])`, `new(CommittedMapElement[T])`
abbrev pub new_change : {E : Type 0} → Change E
new_change = record { element = none; status = unset; index = 0; index_process = false }

abbrev pub new_committed : {E : Type 0} → Committed E
new_committed = record {
  element = none;
  status = unset;
  stored = unset;
  serialized = none;
  size = 0;
}

pub record HashMap (E : Type 0) : Type 0 where
  pub tx : Tx
  pub count : ℕ
  pub count_committed : ℕ
  pub changes : ByteMap (Change E)
  pub changed : Bool
  pub committed : ByteMap (Committed E)
