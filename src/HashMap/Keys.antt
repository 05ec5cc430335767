-- ===== src/HashMap/Keys.antt =====
-- The keys that store_hash_map.go builds for one map, and the writes of a commit under them.
use go_pandora_pay.Prelude.{
  ℕ, ◌≡◌, refl, true, false, none, some, List, [], ◌∷◌, ◌++◌, bytes_equal, bytes_equal_refl,
  if◌then◌else◌, arith,
}
use go_pandora_pay.HashMap.Store.{Tx, exists, entry_set, map_key, exists_key, count_key}
use go_pandora_pay.HashMap.Store
use go_pandora_pay.HashMap.Types.{Kind, Change}
use go_pandora_pay.HashMap.Commit.{tx_deleted, tx_added}

bytes_equal-append : (front a b : List ℕ) → bytes_equal (front ++ a) (front ++ b) ≡ bytes_equal a b
unfolding bytes_equal
bytes_equal-append [] a b = refl
bytes_equal-append (x ∷ front) a b = ground (arith, bytes_equal-append front a b)

module _ (name k j : List ℕ) where
  map-map : bytes_equal (map_key name k) (map_key name j) ≡ bytes_equal k j
  unfolding bytes_equal
  map-map = rw (bytes_equal-append name)

  exists-exists : bytes_equal (exists_key name k) (exists_key name j) ≡ bytes_equal k j
  unfolding bytes_equal
  exists-exists = rw (bytes_equal-append name)

  exists-map : bytes_equal (exists_key name k) (map_key name j) ≡ false
  unfolding bytes_equal
  exists-map = rw (bytes_equal-append name)

  map-exists : bytes_equal (map_key name k) (exists_key name j) ≡ false
  unfolding bytes_equal
  map-exists = rw (bytes_equal-append name)

module _ (name j : List ℕ) where
  count-map : bytes_equal (count_key name) (map_key name j) ≡ false
  unfolding bytes_equal
  count-map = rw (bytes_equal-append name)

  count-exists : bytes_equal (count_key name) (exists_key name j) ≡ false
  unfolding bytes_equal
  count-exists = rw (bytes_equal-append name)

module _ (kind : Kind) (plain : kind.indexable ≡ false) (tx : Tx)
    (writes : tx.writable ≡ true) where
  open kind use {Elem, name}

  -- After the deletion of the entry of a key the transaction holds nothing for it.
  pub get-tx_deleted :
      (k j : List ℕ) (v : Change Elem)
      → ((tx_deleted kind k v tx).get (map_key name j)
          ≡ (if bytes_equal k j then none else tx.get (map_key name j)))
        × ((tx_deleted kind k v tx).get (exists_key name j)
            ≡ (if bytes_equal k j then none else tx.get (exists_key name j)))
        × ((tx_deleted kind k v tx).writable ≡ true)
  unfolding tx_deleted Store.delete
  get-tx_deleted k j v = (
    rw (writes, plain, exists-map name k j, map-map name k j),
    rw (writes, plain, map-exists name k j, exists-exists name k j),
    rw (writes, plain),
  )

  pub get-tx_added :
      (k j : List ℕ) (v : Change Elem)
      → ((tx_added kind k v tx).get (map_key name j) ≡ tx.get (map_key name j))
        × ((tx_added kind k v tx).get (exists_key name j)
            ≡ (if bytes_equal k j then some (1 ∷ []) else tx.get (exists_key name j)))
        × ((tx_added kind k v tx).writable ≡ true)
  unfolding tx_added Store.put
  get-tx_added k j v = (
    rw (writes, plain, exists-map name k j),
    rw (writes, plain, exists-exists name k j),
    rw (writes, plain),
  )

  pub get-put_map :
      (k j bytes : List ℕ)
      → ((Store.put (map_key name k) bytes tx).get (map_key name j)
          ≡ (if bytes_equal k j then some bytes else tx.get (map_key name j)))
        × ((Store.put (map_key name k) bytes tx).get (exists_key name j)
            ≡ tx.get (exists_key name j))
        × ((Store.put (map_key name k) bytes tx).writable ≡ true)
  unfolding Store.put
  get-put_map k j bytes = (rw (map-map name k j), rw (map-exists name k j), writes)

  pub get-put_count :
      (j bytes : List ℕ)
      → ((Store.put (count_key name) bytes tx).get (map_key name j) ≡ tx.get (map_key name j))
        × ((Store.put (count_key name) bytes tx).get (exists_key name j)
            ≡ tx.get (exists_key name j))
        × ((Store.put (count_key name) bytes tx).get (count_key name) ≡ some bytes)
  unfolding Store.put
  get-put_count j bytes =
      (rw (count-map name j), rw (count-exists name j), rw (bytes_equal_refl (count_key name)))
