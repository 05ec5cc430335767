-- ===== src/MemoryStore.antt =====
-- store/store_db/store_db_memory: the store in memory, and its transactions, which keep what they
-- read and write beside the store until writeTx. A nil slice is `none`, and a clone is its bytes. The
-- lock lets one writing transaction run at a time, so a callback is a function on its transaction.
pub mod Views
pub mod Updates
mod Tests
use go_pandora_pay.Prelude.{
  ℕ, Bool, true, false, not, Option, none, some, List, [], ◌∷◌, if◌then◌else◌,
}
use go_pandora_pay.Prelude.Result.{Result, ok, err, panic}
use go_pandora_pay.Prelude.ByteMap.{ByteMap, find}
use go_pandora_pay.Prelude.ByteMap

-- The strings "get", "put" and "del" of `operation`.
pub data Operation : Type 0 where
  read_it put_it delete_it : Operation

pub record TransactionData : Type 0 where
  pub value : Option (List ℕ)
  pub operation : Operation

pub record Transaction : Type 0 where
  pub store : ByteMap (Option (List ℕ))
  pub write : Bool
  pub local : ByteMap TransactionData

-- `tx.store[key]`
abbrev pub in_store : List ℕ → ByteMap (Option (List ℕ)) → Option (List ℕ)
in_store key store = elim (find key store) [ none ↦ none | some value ↦ value ]

-- `tx.local.Store(key, &StoreDBMemoryTransactionData{value, operation})`
abbrev pub keep : List ℕ → Option (List ℕ) → Operation → Transaction → Transaction
keep key value operation tx = record tx {
  local = ByteMap.put key (record { value = value; operation = operation }) tx.local;
}

unfoldable pub put : {E : Type 0} → List ℕ → Option (List ℕ) → Transaction → Result E Transaction
put key value tx = if not tx.write then panic else ok (keep key value put_it tx)

abbrev pub answered : TransactionData → Option (List ℕ)
answered data' = elim data'.operation [
  | delete_it ↦ none
  | put_it ↦ data'.value
  | read_it ↦ data'.value
]

unfoldable pub get : List ℕ → Transaction → Option (List ℕ) × Transaction
get key tx = elim (find key tx.local) [
  | some data' ↦ (answered data', tx)
  | none ↦ let resp = in_store key tx.store in (resp, keep key resp read_it tx)
]

unfoldable pub exists : List ℕ → Transaction → Bool × Transaction
unfolding get
exists key tx = let (data', tx') = get key tx in (elim data' [ none ↦ false | some _ ↦ true ], tx')

unfoldable pub delete : {E : Type 0} → List ℕ → Transaction → Result E Transaction
delete key tx = if not tx.write then panic else ok (keep key none delete_it tx)

-- `tx.local.Range(…)`
unfoldable pub write_entries :
    ByteMap TransactionData → ByteMap (Option (List ℕ)) → ByteMap (Option (List ℕ))
write_entries [] store = store
write_entries ((key, data') ∷ l) store = write_entries l (elim data'.operation [
  | delete_it ↦ ByteMap.remove key store
  | put_it ↦ ByteMap.put key data'.value store
  | read_it ↦ store
])

pub data StoreError : Type 0 where
  not_writeable callback_error : StoreError

unfoldable pub write_tx : Transaction → Result StoreError (ByteMap (Option (List ℕ)))
unfolding write_entries
write_tx tx = if not tx.write then err not_writeable else ok (write_entries tx.local tx.store)

abbrev pub Callback : Type 0
Callback = Transaction → Result StoreError (Unit {0}) × Transaction

abbrev pub new_transaction : Bool → ByteMap (Option (List ℕ)) → Transaction
new_transaction write store = record { store = store; write = write; local = [] }

unfoldable pub view : Callback → ByteMap (Option (List ℕ)) → Result StoreError (Unit {0})
view callback store = (callback (new_transaction false store)).0

-- What Update returns, and the store behind it.
unfoldable pub update :
    Callback → ByteMap (Option (List ℕ)) → Result StoreError (Unit {0}) × ByteMap (Option (List ℕ))
unfolding write_tx
update callback store =
    let (r, tx) = callback (new_transaction true store) in
    elim r [
      | ok _ ↦ elim (write_tx tx) [
        | ok store' ↦ (ok tt, store')
        | err e ↦ (err e, store)
        | panic ↦ (panic, store)
      ]
      | err e ↦ (ok tt, store)
      | panic ↦ (panic, store)
    ]
