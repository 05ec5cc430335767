-- ===== src/PlainAccounts/Reopen.antt =====
-- What the plain accounts answer after a commit, and after the map is made again.
use go_pandora_pay.Prelude.{ℕ, ◌≡◌, refl, true, List, All, arith}
use go_pandora_pay.Prelude.Result.{ok}
use mathlib.Core.Path.{subst}
use go_pandora_pay.SafeMath.{IsU64}
use go_pandora_pay.Buffers.Framing.{Frames}
use go_pandora_pay.HashMap.Store.{Tx}
use go_pandora_pay.HashMap.Types.{HashMap}
use go_pandora_pay.HashMap.Commit.{fresh, commit_changes, create_new_hash_map}
use go_pandora_pay.HashMap.Rounds.{IsQuiet}
use go_pandora_pay.HashMap.View.{lookup}
use go_pandora_pay.HashMap.Rollback.{Reach}
use go_pandora_pay.HashMap.Reachable.{IsReadable, IsConsistentTx, reopen_after_commit}
use go_pandora_pay.HashMap.Success.{HasEvents, HasKeys, commit_changes-HasKeys}
use go_pandora_pay.Liquidity.Encoding.{Fits}
use go_pandora_pay.PlainAccount.{PlainAccount, new_plain_account}
use go_pandora_pay.PlainAccount
use go_pandora_pay.PlainAccount.Laws.{account_bytes, plain_account-Appends, plain_account-Frames}
use go_pandora_pay.HashMap.Element.{deserialize_from-serialize_to_bytes}
use go_pandora_pay.PlainAccounts.{plain_accounts, validate_account}

-- What the Go types of an account's fields bound: uint64 counters, and entries of 20 bytes; and the
-- index 0 of NewPlainAccount, since a map with no indices does not call SetIndex.
abbrev pub IsTyped : PlainAccount → Type 0
IsTyped self =
    (self.index ≡ 0)
    × IsU64 self.nonce
    × IsU64 self.unclaimed
    × All Fits self.asset_fee_liquidities.list

validate_account-ok :
    (self : PlainAccount) → validate_account self ≡ ok tt → PlainAccount.validate self ≡ ok tt
unfolding validate_account
validate_account-ok self e = ground arith

pub IsReadable-plain_accounts : IsReadable plain_accounts IsTyped
unfolding PlainAccount.set_key
IsReadable-plain_accounts k e (no_index, hn, hu, fits) valid =
    let self = PlainAccount.set_key k e in
    let frames =
      subst
        (λ i. Frames (PlainAccount.deserialize (new_plain_account k i)) (account_bytes self) self)
        no_index (plain_account-Frames self (validate_account-ok self valid) hn hu fits) in
    deserialize_from-serialize_to_bytes PlainAccount.serialize
      (PlainAccount.deserialize (new_plain_account k 0)) (account_bytes self) self
      (plain_account-Appends self) frames

pub IsQuiet-plain_accounts : IsQuiet plain_accounts
IsQuiet-plain_accounts = record {
  deleted_quiet = λ k j tx tx' e. ground arith;
  stored_quiet = λ k j x i tx tx' e. ground arith;
}

pub HasEvents-plain_accounts : HasEvents plain_accounts
HasEvents-plain_accounts = record {
  deleted_ok = λ k tx. (tx, refl);
  stored_ok = λ k e index tx. (tx, refl);
}

-- From no change over a consistent transaction, after any sequence of Get, GetByIndex, Update,
-- Create, Delete and UpdateOrDelete with typed accounts, whatever they answered: if the transaction
-- may be written and every changed key has the length of a public key, CommitChanges goes through,
-- the committed plain accounts answer for every key what they did before, and NewPlainAccounts over
-- the same transaction gives a map with their count that answers the same.
pub plain_accounts_reopen :
    (j : List ℕ) (tx : Tx) (n : ℕ) (h : HashMap PlainAccount)
    → IsConsistentTx plain_accounts tx
    → Reach plain_accounts IsTyped (fresh plain_accounts tx n) h
    → IsU64 h.count
    → h.tx.writable ≡ true
    → HasKeys plain_accounts h.changes
    → (h' : HashMap PlainAccount) × (commit_changes plain_accounts h ≡ (ok tt, h'))
      × (create_new_hash_map plain_accounts h'.tx ≡ ok (fresh plain_accounts h'.tx h.count))
      × (lookup plain_accounts j h' ≡ lookup plain_accounts j h)
      × (lookup plain_accounts j (fresh plain_accounts h'.tx h.count) ≡ lookup plain_accounts j h)
plain_accounts_reopen j tx n h consistent reach fits writes keys =
    let (h', e) = commit_changes-HasKeys plain_accounts HasEvents-plain_accounts h keys in
    let (made, same, again) =
      reopen_after_commit plain_accounts IsTyped refl j tx n h h' IsQuiet-plain_accounts
        IsReadable-plain_accounts (omega arith) consistent reach fits writes e in
    (h', e, made, same, again)
