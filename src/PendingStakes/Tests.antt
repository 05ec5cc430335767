-- ===== src/PendingStakes/Tests.antt =====
-- The pending stakes on given heights.
use go_pandora_pay.Prelude.{
  ℕ, ◌≡◌, refl, true, none, some, List, [], ◌∷◌, replicate, bytes_equal, arith,
}
use go_pandora_pay.Prelude.Result.{ok}
use go_pandora_pay.Prelude.ByteMap.{find, put}
use go_pandora_pay.HashMap.Store.{Tx, exists}
use go_pandora_pay.HashMap.Types.{HashMap}
use go_pandora_pay.HashMap.Ops.{update}
use go_pandora_pay.HashMap.Commit.{fresh, commit_changes, create_new_hash_map}
use go_pandora_pay.HashMap.View.{lookup}
use go_pandora_pay.HashMap.Rollback.{here, next, updates}
use go_pandora_pay.PendingStakes.{PendingStakes, pending_stakes_list, validate, set_key}
use go_pandora_pay.PendingStakes.Reopen.{pending_stakes_reopen}

abbrev stakes : PendingStakes
stakes = record {
  key = b'7' ∷ [];
  height = 7;
  pending = record { public_key = replicate 33 1; pending_amount = replicate 66 2 } ∷ [];
}

abbrev seven : List ℕ
seven = b'7' ∷ []

abbrev empty_tx : Tx
empty_tx = record { get = λ key. none; writable = true }

abbrev start : HashMap PendingStakes
start = fresh pending_stakes_list empty_tx 0

abbrev later : HashMap PendingStakes
later = (update pending_stakes_list seven (some stakes) start).1

later-count : later.count ≡ 1
unfolding update validate set_key bytes_equal find exists put
later-count = refl

later-writable : later.tx.writable ≡ true
unfolding update validate set_key bytes_equal find exists put
later-writable = refl

pending_stakes_reopen_example :
    (h' : HashMap PendingStakes) × (commit_changes pending_stakes_list later ≡ (ok tt, h'))
    × (create_new_hash_map pending_stakes_list h'.tx
        ≡ ok (fresh pending_stakes_list h'.tx later.count))
    × (lookup pending_stakes_list seven h' ≡ lookup pending_stakes_list seven later)
    × (lookup pending_stakes_list seven (fresh pending_stakes_list h'.tx later.count)
        ≡ lookup pending_stakes_list seven later)
pending_stakes_reopen_example =
    pending_stakes_reopen seven empty_tx 0 later (λ j e. refl)
      (next here (updates seven (some stakes) (omega arith, omega arith, (refl, tt))))
      (rw later-count (omega arith)) later-writable
