-- ===== src/PendingStakes/Reopen.antt =====
-- What the pending stakes answer after a commit, and after the map is made again.
use go_pandora_pay.Prelude.{ℕ, ◌≤◌, ◌≡◌, refl, true, List, length, All, arith}
use go_pandora_pay.Prelude.Result.{ok}
use go_pandora_pay.SafeMath.{IsU64}
use go_pandora_pay.HashMap.Store.{Tx}
use go_pandora_pay.HashMap.Types.{HashMap}
use go_pandora_pay.HashMap.Commit.{fresh, commit_changes, create_new_hash_map}
use go_pandora_pay.HashMap.Element.{deserialize_from-serialize_to_bytes}
use go_pandora_pay.HashMap.Rounds.{IsQuiet}
use go_pandora_pay.HashMap.View.{lookup}
use go_pandora_pay.HashMap.Rollback.{Reach}
use go_pandora_pay.HashMap.Reachable.{IsReadable, IsConsistentTx, reopen_after_commit}
use go_pandora_pay.HashMap.Success.{HasEvents, commit_changes-HasKeys, any_length-HasKeys}
use go_pandora_pay.PendingStakes.{
  PendingStakes, pending_stakes_list, serialize, deserialize, new_pending_stakes, set_key,
  most_pointers,
}
use go_pandora_pay.PendingStakes.Encoding.{
  Fits, stakes_bytes, serialize-Appends, deserialize-Frames,
}

-- What the Go types and the memory bound: a uint64 height, a slice of pointers, amounts of 66 bytes.
abbrev pub IsTyped : PendingStakes → Type 0
IsTyped d = IsU64 d.height × (length d.pending ≤ most_pointers) × All Fits d.pending

IsReadable-pending_stakes : IsReadable pending_stakes_list IsTyped
unfolding set_key
IsReadable-pending_stakes k d (h, few, fits) valid =
    deserialize_from-serialize_to_bytes serialize (deserialize (new_pending_stakes k 0))
      (stakes_bytes (set_key k d)) (set_key k d) (serialize-Appends (set_key k d))
      (deserialize-Frames (set_key k d) valid h few fits)

IsQuiet-pending_stakes : IsQuiet pending_stakes_list
IsQuiet-pending_stakes = record {
  deleted_quiet = λ k j tx tx' e. ground arith;
  stored_quiet = λ k j x i tx tx' e. ground arith;
}

HasEvents-pending_stakes : HasEvents pending_stakes_list
HasEvents-pending_stakes = record {
  deleted_ok = λ k tx. (tx, refl);
  stored_ok = λ k e index tx. (tx, refl);
}

-- From no change over a consistent transaction, after any sequence of Get, GetByIndex, Update,
-- Create, Delete and UpdateOrDelete with typed stakes, whatever they answered: if the transaction may
-- be written, CommitChanges goes through, the committed list of pending stakes answers for every key
-- what it did before, and NewPendingStakesList over the same transaction gives a map with its count
-- that answers the same.
pub pending_stakes_reopen :
    (j : List ℕ) (tx : Tx) (n : ℕ) (h : HashMap PendingStakes)
    → IsConsistentTx pending_stakes_list tx
    → Reach pending_stakes_list IsTyped (fresh pending_stakes_list tx n) h
    → IsU64 h.count
    → h.tx.writable ≡ true
    → (h' : HashMap PendingStakes) × (commit_changes pending_stakes_list h ≡ (ok tt, h'))
      × (create_new_hash_map pending_stakes_list h'.tx
          ≡ ok (fresh pending_stakes_list h'.tx h.count))
      × (lookup pending_stakes_list j h' ≡ lookup pending_stakes_list j h)
      × (lookup pending_stakes_list j (fresh pending_stakes_list h'.tx h.count)
          ≡ lookup pending_stakes_list j h)
pending_stakes_reopen j tx n h consistent reach fits writes =
    let keys = any_length-HasKeys pending_stakes_list refl h.changes in
    let (h', e) = commit_changes-HasKeys pending_stakes_list HasEvents-pending_stakes h keys in
    let (made, same, again) =
      reopen_after_commit pending_stakes_list IsTyped refl j tx n h h' IsQuiet-pending_stakes
        IsReadable-pending_stakes (omega arith) consistent reach fits writes e in
    (h', e, made, same, again)
