-- ===== src/MemoryStore/Updates.antt =====
-- Update of store_db_memory.go: what the store holds behind it, by what the callback answered.
use go_pandora_pay.Prelude.{
  ℕ, ◌≡◌, refl, ◌∙◌, ap, Bool, true, Option, none, some, List, [], ◌∷◌, bytes_equal_iff, arith,
  Option-cases, inl, inr, ◌⊎◌,
}
use go_pandora_pay.Prelude.Result.{Result, ok, err, panic, Result-cases}
use go_pandora_pay.Prelude.ByteMap.{ByteMap, find, find-put, find-remove, find-put_cases}
use go_pandora_pay.Prelude.ByteMap
use go_pandora_pay.HashMap.Loops.{IsDistinct}
use go_pandora_pay.HashMap.Reachable.{put-IsDistinct}
use go_pandora_pay.MemoryStore.{
  Transaction, TransactionData, Operation, read_it, put_it, delete_it, in_store, keep, get, exists,
  write_entries, write_tx, new_transaction, StoreError, Callback, update,
}
use go_pandora_pay.MemoryStore.Views.{as_tx}

-- What a transaction comes to by calls of its methods. A Put or a Delete that panics leaves it.
pub data Ran (start : Transaction) : Transaction → Type 0 where
  started : Ran start start
  got : {tx : Transaction} (key : List ℕ) → Ran start tx → Ran start (get key tx).1
  asked : {tx : Transaction} (key : List ℕ) → Ran start tx → Ran start (exists key tx).1
  wrote :
      {tx : Transaction} (key : List ℕ) (value : Option (List ℕ))
      → Ran start tx
      → Ran start (keep key value put_it tx)
  deleted :
      {tx : Transaction} (key : List ℕ) → Ran start tx → Ran start (keep key none delete_it tx)

-- What is kept beside the store has one entry for each key, and what was read is in the store.
record IsFaithful (tx : Transaction) : Type 0 where
  distinct : IsDistinct tx.local
  was_read :
      (j : List ℕ) (data' : TransactionData)
      → find j tx.local ≡ some data'
      → data'.operation ≡ read_it
      → data'.value ≡ in_store j tx.store

keep-IsFaithful :
    (key : List ℕ) (value : Option (List ℕ)) (operation : Operation) (tx : Transaction)
    → (operation ≡ read_it → value ≡ in_store key tx.store)
    → IsFaithful tx
    → IsFaithful (keep key value operation tx)
keep-IsFaithful key value operation tx stored f = record {
  distinct = put-IsDistinct key _ tx.local f.distinct;
  was_read = λ j data' e read. elim (find-put_cases j key _ data' tx.local e) [
    | inl (same, at) ↦
        rw (← same, ← at) (stored (ap (λ (d : TransactionData). d.operation) at ∙ read))
    | inr before ↦ f.was_read j data' before read
  ];
}

write_entries-in_store :
    (j : List ℕ) (l : ByteMap TransactionData) (store : ByteMap (Option (List ℕ)))
    → IsDistinct l
    → in_store j (write_entries l store) ≡ (elim (find j l) [
      | none ↦ in_store j store
      | some data' ↦ elim data'.operation [
        | delete_it ↦ none
        | put_it ↦ data'.value
        | read_it ↦ in_store j store
      ]
    ])
unfolding write_entries find
write_entries-in_store j [] store h = refl
write_entries-in_store j ((key, data') ∷ l) store (first, h) = ground (
  arith,
  write_entries-in_store j l (ByteMap.remove key store) h,
  write_entries-in_store j l (ByteMap.put key data'.value store) h,
  write_entries-in_store j l store h,
  find-put j key data'.value store,
  find-remove j key store,
  bytes_equal_iff key j,
  first,
)

-- What a running transaction keeps of the one that started.
record Runs (start tx : Transaction) : Type 0 where
  faithful : IsFaithful tx
  same_store : tx.store ≡ start.store
  same_write : tx.write ≡ start.write

get-Runs : (key : List ℕ) (start tx : Transaction) → Runs start tx → Runs start (get key tx).1
unfolding get
get-Runs key start tx r = elim (Option-cases (find key tx.local)) [
  | inl missing ↦
      rw (get, missing)
        (record {
          faithful = keep-IsFaithful key (in_store key tx.store) read_it tx (λ e. refl) r.faithful;
          same_store = r.same_store;
          same_write = r.same_write;
        })
  | inr (data', found) ↦ rw (get, found) r
]

Ran-Runs : (start tx : Transaction) → IsFaithful start → Ran start tx → Runs start tx
unfolding exists
Ran-Runs start _ f started = record { faithful = f; same_store = refl; same_write = refl }
Ran-Runs start _ f (got {tx} key ran) = get-Runs key start tx (Ran-Runs start tx f ran)
Ran-Runs start _ f (asked {tx} key ran) = get-Runs key start tx (Ran-Runs start tx f ran)
Ran-Runs start _ f (wrote {tx} key value ran) =
    let r = Ran-Runs start tx f ran in
    record {
      faithful = keep-IsFaithful key value put_it tx (λ e. cc) r.faithful;
      same_store = r.same_store;
      same_write = r.same_write;
    }
Ran-Runs start _ f (deleted {tx} key ran) =
    let r = Ran-Runs start tx f ran in
    record {
      faithful = keep-IsFaithful key none delete_it tx (λ e. cc) r.faithful;
      same_store = r.same_store;
      same_write = r.same_write;
    }

new-IsFaithful :
    (write : Bool) (store : ByteMap (Option (List ℕ))) → IsFaithful (new_transaction write store)
unfolding find
new-IsFaithful write store = record { distinct = tt; was_read = λ j data' e read. cc }

-- A faithful transaction answers what writeTx makes of the store.
faithful-answer :
    (j : List ℕ) (tx : Transaction)
    → IsFaithful tx
    → in_store j (write_entries tx.local tx.store) ≡ (as_tx tx).get j
unfolding as_tx get
faithful-answer j tx f = elim (Option-cases (find j tx.local)) [
  | inl missing ↦ ground (arith, write_entries-in_store j tx.local tx.store f.distinct)
  | inr (data', found) ↦
      ground
        (arith, write_entries-in_store j tx.local tx.store f.distinct, f.was_read j data' found)
]

update_done :
    (j : List ℕ) (callback : Callback) (store : ByteMap (Option (List ℕ)))
    → Runs (new_transaction true store) (callback (new_transaction true store)).1
    → (callback (new_transaction true store)).0 ≡ ok tt
    → let (r, tx) = callback (new_transaction true store) in
      (r ≡ ok tt)
      × ((update callback store).0 ≡ ok tt)
      × (in_store j (update callback store).1 ≡ (as_tx tx).get j)
unfolding update write_tx
update_done j callback store runs e =
    let tx = (callback (new_transaction true store)).1 in
    let done : update callback store ≡ (ok tt, write_entries tx.local tx.store) =
      rw (update, e, runs.same_write) refl in
    (
      e,
      ap (λ (o : Result StoreError (Unit {0}) × ByteMap (Option (List ℕ))). o.0) done,
      rw done (faithful-answer j tx runs.faithful),
    )

-- Update, with a callback that calls the methods of its transaction: if the callback returns nil,
-- Update returns nil and the store holds for each key what the transaction answered at the end; if
-- it returns an error, Update returns nil all the same, and the store is as it was; and Update
-- panics if the callback does.
pub update_cases :
    (j : List ℕ) (callback : Callback) (store : ByteMap (Option (List ℕ)))
    → Ran (new_transaction true store) (callback (new_transaction true store)).1
    → let (r, tx) = callback (new_transaction true store) in
      ((r ≡ ok tt)
        × ((update callback store).0 ≡ ok tt)
        × (in_store j (update callback store).1 ≡ (as_tx tx).get j))
      ⊎ ((e : StoreError) × (r ≡ err e) × (update callback store ≡ (ok tt, store)))
      ⊎ ((r ≡ panic) × (update callback store ≡ (panic, store)))
unfolding update
update_cases j callback store ran =
    let runs =
      Ran-Runs (new_transaction true store) (callback (new_transaction true store)).1
        (new-IsFaithful true store) ran in
    elim (Result-cases (callback (new_transaction true store)).0) [
      | inl (u, e) ↦ inl (update_done j callback store runs e)
      | inr (inl (x, e)) ↦ inr (inl (x, e, rw (update, e) refl))
      | inr (inr e) ↦ inr (inr (e, rw (update, e) refl))
    ]
