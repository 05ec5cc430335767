-- ===== src/HashMap/Store.antt =====
-- store/store_db/store_db_interface/store_db_transaction_interface.go: a transaction, as what each
-- key holds and whether it may be written; and the keys that store/hash_map builds from the name of
-- a map.
use go_pandora_pay.Prelude.{
  ℕ, Bool, true, false, Option, none, some, List, [], ◌∷◌, ◌++◌, bytes_equal, if◌then◌else◌,
}
use go_pandora_pay.Prelude.Decimal.{format_uint}

pub record Tx : Type 0 where
  pub get : List ℕ → Option (List ℕ)
  pub writable : Bool

unfoldable pub exists : List ℕ → Tx → Bool
exists key tx = elim (tx.get key) [ none ↦ false | some _ ↦ true ]

abbrev pub entry_set :
    (List ℕ → Option (List ℕ)) → List ℕ → Option (List ℕ) → List ℕ → Option (List ℕ)
entry_set f key value j = if bytes_equal key j then value else f j

-- Put and Delete of a writable transaction; the callers test IsWritable.
unfoldable pub put : List ℕ → List ℕ → Tx → Tx
put key value tx = record tx { get = entry_set tx.get key (some value) }

unfoldable pub delete : List ℕ → Tx → Tx
delete key tx = record tx { get = entry_set tx.get key none }

-- `hashMap.name + ":map:" + key` and its kin
abbrev pub map_key : List ℕ → List ℕ → List ℕ
map_key name key = name ++ (b':' ∷ b'm' ∷ b'a' ∷ b'p' ∷ b':' ∷ key)

abbrev pub exists_key : List ℕ → List ℕ → List ℕ
exists_key name key = name ++ (b':' ∷ b'e' ∷ b'x' ∷ b'i' ∷ b's' ∷ b't' ∷ b's' ∷ b':' ∷ key)

abbrev pub list_keys_key : List ℕ → List ℕ → List ℕ
list_keys_key name key =
    name ++ (b':' ∷ b'l' ∷ b'i' ∷ b's' ∷ b't' ∷ b'K' ∷ b'e' ∷ b'y' ∷ b's' ∷ b':' ∷ key)

abbrev pub list_key : List ℕ → ℕ → List ℕ
list_key name index = name ++ (b':' ∷ b'l' ∷ b'i' ∷ b's' ∷ b't' ∷ b':' ∷ format_uint index)

abbrev pub count_key : List ℕ → List ℕ
count_key name = name ++ (b':' ∷ b'c' ∷ b'o' ∷ b'u' ∷ b'n' ∷ b't' ∷ [])
