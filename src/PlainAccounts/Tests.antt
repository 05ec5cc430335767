-- ===== src/PlainAccounts/Tests.antt =====
-- store/hash_map on given plain accounts.
use go_pandora_pay.Prelude.{
  ℕ, ◌≡◌, refl, true, false, some, none, List, [], replicate, bytes_equal, if◌then◌else◌, arith,
}
use go_pandora_pay.Prelude.Result.{ok}
use go_pandora_pay.Prelude.ByteMap.{find, put}
use go_pandora_pay.Liquidity.{no_liquidities, has_asset_fee_liquidities}
use go_pandora_pay.Liquidity
use go_pandora_pay.PlainAccount.{PlainAccount, new_plain_account}
use go_pandora_pay.PlainAccount
use go_pandora_pay.HashMap.Store.{Tx, exists}
use go_pandora_pay.HashMap.Types.{HashMap}
use go_pandora_pay.HashMap.Ops.{get, update, delete, rollback}
use go_pandora_pay.HashMap.Commit.{
  commit_deleted, commit_updated, fresh, commit_changes, create_new_hash_map,
}
use go_pandora_pay.HashMap.View.{lookup, lookup-update, lookup-delete, stamped}
use go_pandora_pay.HashMap.Rollback.{Reach, rollback_undoes, here, next, gets, updates, deletes}
use go_pandora_pay.HashMap.Reachable.{reopen_after_commit}
use go_pandora_pay.PlainAccounts.{plain_accounts, validate_account}
use go_pandora_pay.HashMap.Success.{HasKeys, commit_changes-HasKeys}
use go_pandora_pay.PlainAccounts.Reopen.{
  HasEvents-plain_accounts, IsTyped, IsReadable-plain_accounts, IsQuiet-plain_accounts,
  plain_accounts_reopen,
}

abbrev alice : List ℕ
alice = replicate 33 1

abbrev bob : List ℕ
bob = replicate 33 2

abbrev account : PlainAccount
account = record {
  key = [];
  index = 0;
  nonce = 3;
  unclaimed = 300;
  asset_fee_liquidities = no_liquidities;
}

abbrev empty_tx : Tx
empty_tx = record { get = λ key. none; writable = true }

abbrev start : HashMap PlainAccount
start = fresh plain_accounts empty_tx 0

abbrev with_alice : HashMap PlainAccount
with_alice = (update plain_accounts alice (some account) start).1

with_alice-updated : update plain_accounts alice (some account) start ≡ (ok tt, with_alice)
unfolding update validate_account PlainAccount.validate Liquidity.validate PlainAccount.set_key
with_alice-updated = refl

account-IsTyped : IsTyped account
account-IsTyped = (refl, omega arith, omega arith, tt)

-- Alice's account is written, read, and Bob's is deleted, which was not there.
abbrev later : HashMap PlainAccount
later = delete plain_accounts bob (get plain_accounts alice with_alice).1

later-reached : Reach plain_accounts IsTyped start later
later-reached =
    next (next (next here (updates alice (some account) account-IsTyped)) (gets alice))
      (deletes bob)

abbrev committed : HashMap PlainAccount
committed = (commit_changes plain_accounts later).1

later-committed : commit_changes plain_accounts later ≡ (ok tt, committed)
unfolding commit_changes update get delete validate_account PlainAccount.validate Liquidity.validate
    PlainAccount.set_key PlainAccount.is_deletable bytes_equal find put exists commit_deleted
    commit_updated
later-committed = refl

later-writable : later.tx.writable ≡ true
unfolding update get delete validate_account PlainAccount.validate Liquidity.validate
    PlainAccount.set_key PlainAccount.is_deletable bytes_equal find exists put
later-writable = refl

later-count : later.count ≡ 1
unfolding update get delete validate_account PlainAccount.validate Liquidity.validate
    PlainAccount.set_key PlainAccount.is_deletable bytes_equal find exists put
later-count = refl

later-HasKeys : HasKeys plain_accounts later.changes
unfolding update get delete validate_account PlainAccount.validate Liquidity.validate
    PlainAccount.set_key PlainAccount.is_deletable bytes_equal find exists put
later-HasKeys = (refl, (refl, tt))

plain_accounts_reopen_example :
    (h' : HashMap PlainAccount) × (commit_changes plain_accounts later ≡ (ok tt, h'))
    × (create_new_hash_map plain_accounts h'.tx ≡ ok (fresh plain_accounts h'.tx later.count))
    × (lookup plain_accounts alice h' ≡ lookup plain_accounts alice later)
    × (lookup plain_accounts alice (fresh plain_accounts h'.tx later.count)
        ≡ lookup plain_accounts alice later)
plain_accounts_reopen_example =
    plain_accounts_reopen alice empty_tx 0 later (λ j e. refl) later-reached
      (rw later-count (omega arith)) later-writable later-HasKeys

rollback_undoes_example : rollback plain_accounts later ≡ start
rollback_undoes_example =
    rollback_undoes plain_accounts IsTyped start later
      record { no_changes = refl; counted = refl; unchanged = refl } later-reached

account-stays : PlainAccount.is_deletable (PlainAccount.set_key alice account) ≡ false
unfolding PlainAccount.is_deletable PlainAccount.set_key
account-stays = refl

lookup-update_example : lookup plain_accounts alice with_alice ≡ (
    if bytes_equal alice alice
    then ok (some (stamped plain_accounts alice account start))
    else lookup plain_accounts alice start)
lookup-update_example =
    lookup-update plain_accounts alice alice account start with_alice account-stays
      with_alice-updated

lookup-delete_example :
    lookup plain_accounts alice (delete plain_accounts alice with_alice)
    ≡ (if bytes_equal alice alice then ok none else lookup plain_accounts alice with_alice)
lookup-delete_example = lookup-delete plain_accounts alice alice with_alice refl refl

reopen_after_commit_example :
    (create_new_hash_map plain_accounts committed.tx
      ≡ ok (fresh plain_accounts committed.tx later.count))
    × (lookup plain_accounts alice committed ≡ lookup plain_accounts alice later)
    × (lookup plain_accounts alice (fresh plain_accounts committed.tx later.count)
        ≡ lookup plain_accounts alice later)
reopen_after_commit_example =
    reopen_after_commit plain_accounts IsTyped refl alice empty_tx 0 later committed
      IsQuiet-plain_accounts IsReadable-plain_accounts (omega arith) (λ j e. refl) later-reached
      (rw later-count (omega arith)) later-writable later-committed

commit_changes-HasKeys_example :
    (h' : HashMap PlainAccount) × (commit_changes plain_accounts later ≡ (ok tt, h'))
commit_changes-HasKeys_example =
    commit_changes-HasKeys plain_accounts HasEvents-plain_accounts later later-HasKeys
