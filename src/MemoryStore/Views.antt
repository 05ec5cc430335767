-- ===== src/MemoryStore/Views.antt =====
-- A transaction of store_db_memory_transaction.go as what it answers for each key.
use go_pandora_pay.Prelude.{
  ℕ, ◌≡◌, refl, true, Option, none, some, List, bytes_equal, bytes_equal_iff, if◌then◌else◌, arith,
  Option-cases, inl, inr,
}
use go_pandora_pay.Prelude.Result.{ok}
use go_pandora_pay.Prelude.ByteMap.{find, find-put}
use go_pandora_pay.HashMap.Store.{Tx}
use go_pandora_pay.HashMap.Store
use go_pandora_pay.MemoryStore.{
  Transaction, TransactionData, Operation, read_it, put_it, delete_it, in_store, keep, answered,
  put, get, exists, delete, StoreError,
}

-- The transaction as the interface that the maps use: what Get answers, and IsWritable.
unfoldable pub as_tx : Transaction → Tx
as_tx tx = record { get = λ key. (get key tx).0; writable = tx.write }

as_tx-keep :
    (j key : List ℕ) (value : Option (List ℕ)) (operation : Operation) (tx : Transaction)
    → (as_tx (keep key value operation tx)).get j ≡ (
        if bytes_equal key j
        then answered (record { value = value; operation = operation })
        else (as_tx tx).get j)
unfolding as_tx get
as_tx-keep j key value operation tx =
    ground (arith, find-put j key (record { value = value; operation = operation }) tx.local)

get_kept :
    (key : List ℕ) (data' : TransactionData) (tx : Transaction)
    → find key tx.local ≡ some data'
    → (get key tx).1 ≡ tx
unfolding get
get_kept key data' tx found = rw (get, found) refl

-- What Get keeps beside the store is what it answered.
pub as_tx-get :
    (j key : List ℕ) (tx : Transaction) → (as_tx (get key tx).1).get j ≡ (as_tx tx).get j
unfolding as_tx get
as_tx-get j key tx = elim (Option-cases (find key tx.local)) [
  | inl missing ↦
      ground (arith, as_tx-keep j key (in_store key tx.store) read_it tx, bytes_equal_iff key j)
  | inr (data', found) ↦ rw (get_kept key data' tx found) refl
]

-- A transaction that may be written does to what it answers what Put and Delete of the interface
-- do, Get and Exists answer by it, and they change no answer.
pub transaction-Tx :
    (j key value : List ℕ) (tx : Transaction)
    → tx.write ≡ true
    → (put {E = StoreError} key (some value) tx ≡ ok (keep key (some value) put_it tx))
      × ((as_tx (keep key (some value) put_it tx)).get j ≡ (Store.put key value (as_tx tx)).get j)
      × (delete {E = StoreError} key tx ≡ ok (keep key none delete_it tx))
      × ((as_tx (keep key none delete_it tx)).get j ≡ (Store.delete key (as_tx tx)).get j)
      × ((exists key tx).0 ≡ Store.exists key (as_tx tx))
      × ((as_tx (get key tx).1).get j ≡ (as_tx tx).get j)
      × ((as_tx (exists key tx).1).get j ≡ (as_tx tx).get j)
unfolding put delete exists Store.put Store.delete Store.exists
transaction-Tx j key value tx writes = (
  ground arith,
  as_tx-keep j key (some value) put_it tx,
  ground arith,
  as_tx-keep j key none delete_it tx,
  unfold as_tx in refl,
  as_tx-get j key tx,
  as_tx-get j key tx,
)
