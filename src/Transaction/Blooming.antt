-- ===== src/Transaction/Blooming.antt =====
-- BloomAll and Verify of transaction_bloom.go, on a transaction that was made here and on one that was
-- read.
use go_pandora_pay.Prelude.{ℕ, ◌≡◌, refl, true, List, none, some, arith}
use go_pandora_pay.Prelude.Result.{ok, err}
use go_pandora_pay.TransactionSimple.{TxError, TransactionSimple, bloom_now, verify_bloom_all}
use go_pandora_pay.Transaction.{
  Transaction, simple, serialize_manual_to_bytes, bloom_of, bloom_all, validate, verify,
}
use go_pandora_pay.Transaction.Base.{TransactionBaseInterface}

module _ {Z : Type 0} (interface : TransactionBaseInterface Z) (sha3 : List ℕ → List ℕ) where
  -- With its own bloom and that of its base.
  abbrev pub bloomed : TransactionSimple → List ℕ → Transaction Z → Transaction Z
  bloomed base text tx = record tx {
    base = simple (record base { bloom = some true });
    bloom = some (bloom_of interface sha3 text);
  }

  -- A simple transaction that was read, and so has its bloom from Deserialize, is bloomed and then
  -- verified whatever Validate says of it.
  pub bloom_all_read :
      (base : TransactionSimple) (text : List ℕ) (tx : Transaction Z)
      → tx.base ≡ simple base
      → base.bloom ≡ none
      → let read = record tx { bloom = some (bloom_of interface sha3 text) } in
        (bloom_all interface sha3 read ≡ (ok tt, bloomed base text tx))
        × (verify interface sha3 (bloomed base text tx) ≡ ok tt)
  unfolding bloom_all bloom_now verify verify_bloom_all bloom_of
  bloom_all_read base text tx e bare = (rw (e, bare), refl)

  -- BloomAll of a simple transaction that has no bloom: where Validate passes it, it goes through with
  -- the bloom that Deserialize would give it, and Verify passes what it leaves; where Validate does
  -- not, it gives that error and leaves the transaction.
  pub bloom_all_made :
      (base : TransactionSimple) (text : List ℕ) (tx : Transaction Z)
      → tx.base ≡ simple base
      → base.bloom ≡ none
      → tx.bloom ≡ none
      → serialize_manual_to_bytes interface sha3 tx ≡ ok text
      → (validate interface sha3 tx ≡ ok tt
          → (bloom_all interface sha3 tx ≡ (ok tt, bloomed base text tx))
            × (verify interface sha3 (bloomed base text tx) ≡ ok tt))
        × ((e : TxError)
            → validate interface sha3 tx ≡ err e
            → bloom_all interface sha3 tx ≡ (err e, tx))
  unfolding bloom_all bloom_now verify verify_bloom_all bloom_of
  bloom_all_made base text tx e bare fresh bytes =
      (λ valid. (ground arith, refl), λ x invalid. ground arith)
