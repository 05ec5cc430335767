-- ===== src/MemoryStore/Tests.antt =====
-- store_db_memory on given transactions.
use go_pandora_pay.Prelude.{ℕ, ◌≡◌, refl, true, Option, none, some, List, [], ◌∷◌, ◌⊎◌}
use go_pandora_pay.Prelude.Result.{ok, err, panic}
use go_pandora_pay.Prelude.ByteMap.{ByteMap}
use go_pandora_pay.HashMap.Store
use go_pandora_pay.MemoryStore.{
  Transaction, put_it, delete_it, in_store, keep, put, get, exists, delete, new_transaction,
  StoreError, callback_error, Callback, update,
}
use go_pandora_pay.MemoryStore.Views.{as_tx, transaction-Tx}
use go_pandora_pay.MemoryStore.Updates.{started, wrote, got, update_cases}

abbrev store : ByteMap (Option (List ℕ))
store = (1 ∷ [], some (7 ∷ [])) ∷ []

abbrev running : Transaction
running = new_transaction true store

-- A callback that reads one key, writes another and fails.
abbrev failing : Callback
failing tx = (err callback_error, keep (2 ∷ []) (some (9 ∷ [])) put_it (get (1 ∷ []) tx).1)

update_cases_example :
    ((failing running).0 ≡ ok tt
      × ((update failing store).0 ≡ ok tt)
      × (in_store (2 ∷ []) (update failing store).1 ≡ (as_tx (failing running).1).get (2 ∷ [])))
    ⊎ ((e : StoreError) × ((failing running).0 ≡ err e) × (update failing store ≡ (ok tt, store)))
    ⊎ (((failing running).0 ≡ panic) × (update failing store ≡ (panic, store)))
update_cases_example =
    update_cases (2 ∷ []) failing store (wrote (2 ∷ []) (some (9 ∷ [])) (got (1 ∷ []) started))

transaction-Tx_example :
    (put {E = StoreError} (2 ∷ []) (some (9 ∷ [])) running
      ≡ ok (keep (2 ∷ []) (some (9 ∷ [])) put_it running))
    × ((as_tx (keep (2 ∷ []) (some (9 ∷ [])) put_it running)).get (1 ∷ [])
        ≡ (Store.put (2 ∷ []) (9 ∷ []) (as_tx running)).get (1 ∷ []))
    × (delete {E = StoreError} (2 ∷ []) running ≡ ok (keep (2 ∷ []) none delete_it running))
    × ((as_tx (keep (2 ∷ []) none delete_it running)).get (1 ∷ [])
        ≡ (Store.delete (2 ∷ []) (as_tx running)).get (1 ∷ []))
    × ((exists (2 ∷ []) running).0 ≡ Store.exists (2 ∷ []) (as_tx running))
    × ((as_tx (get (2 ∷ []) running).1).get (1 ∷ []) ≡ (as_tx running).get (1 ∷ []))
    × ((as_tx (exists (2 ∷ []) running).1).get (1 ∷ []) ≡ (as_tx running).get (1 ∷ []))
transaction-Tx_example = transaction-Tx (1 ∷ []) (2 ∷ []) (9 ∷ []) running refl
