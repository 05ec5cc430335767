-- ===== src/HashMap/Recreated.antt =====
-- CreateNewHashMap of store/hash_map/store_hash_map.go over a transaction that a CommitChanges wrote.
use go_pandora_pay.Prelude.{
  ℕ, zero, suc, ◌+◌, ◌*◌, ◌/◌, ◌%◌, ◌^◌, ◌≤◌, ◌<◌, ltb, leb, ◌≡◌, refl, ◌∙◌, sym, ap, true, false,
  Option, none, some, List, [], ◌∷◌, length, arith, Option-cases, inl, inr,
}
use go_pandora_pay.Prelude.Result.{Result, ok}
use go_pandora_pay.Prelude.ByteMap.{find}
use go_pandora_pay.SafeMath.{IsU64}
use go_pandora_pay.Buffers.{put_uvarint}
use go_pandora_pay.Buffers.Varint.{join_group, split_group, group_below, tenth_byte}
use go_pandora_pay.Prelude.Bits.{bit_and-low, bit_or-top}
use go_pandora_pay.HashMap.Store
use go_pandora_pay.HashMap.Store.{Tx, exists, map_key, exists_key, count_key}
use go_pandora_pay.HashMap.Types.{Kind, MapError, HashMap, Change}
use go_pandora_pay.HashMap.Ops.{load, stored_bytes, decode}
use go_pandora_pay.HashMap.Commit.{
  uvarint, is_deleted, is_updated, settle, commit_changes, create_new_hash_map, serialized_of,
  fresh,
}
use go_pandora_pay.HashMap.Rounds.{IsQuiet}
use go_pandora_pay.HashMap.View.{lookup, answer, lookup-answer}
use go_pandora_pay.HashMap.Keys.{get-put_count}
use go_pandora_pay.HashMap.Persist.{
  is_updated_at, load_local, WellFormed, Left, untouched, gone, stored, commit-Left,
}
use go_pandora_pay.HashMap.WellFormed.{settle-bytes}
use Prim.Native.Nat.{bit_and, bit_or}

uvarint_inner :
    (g x s i : ℕ) (rest : List ℕ)
    → g < 128
    → i ≤ 8
    → x < 2 ^ s
    → x + g * 2 ^ s < 2 ^ 64
    → uvarint ((g + 128) ∷ rest) x s i ≡ uvarint rest (x + g * 2 ^ s) (s + 7) (i + 1)
unfolding uvarint
uvarint_inner g x s i rest hg hi hx fits =
    let low : bit_and (g + 128) 0x7f ≡ g = bit_and-low (g + 128) (omega arith) ∙ omega arith in
    let large : ltb (g + 128) 0x80 ≡ false = ground arith in
    rw (large, low, join_group x g s hx fits) (ground arith)

uvarint_last :
    (w x s i : ℕ) (rest : List ℕ)
    → w < 128
    → i ≤ 9
    → s ≡ 7 * i
    → x < 2 ^ s
    → x + w * 2 ^ s < 2 ^ 64
    → uvarint (w ∷ rest) x s i ≡ some (x + w * 2 ^ s)
unfolding uvarint
uvarint_last w x s i rest hw hi hs hx fits =
    ground (arith, join_group x w s hx fits, tenth_byte x w s)

uvarint-put_uvarint :
    (k w x s c : ℕ)
    → w < 128 ^ suc k
    → c + k ≤ 9
    → s ≡ 7 * c
    → x < 2 ^ s
    → x + w * 2 ^ s < 2 ^ 64
    → uvarint (put_uvarint k w) x s c ≡ some (x + w * 2 ^ s)
unfolding put_uvarint
uvarint-put_uvarint zero w x s c hw hc hs hx fits =
    let one : w % 256 ≡ w = omega arith in
    rw one (uvarint_last w x s c [] (omega arith) (omega arith) hs hx fits)
uvarint-put_uvarint (suc k) w x s c hw hc hs hx fits =
    let split = split_group w s in
    let top : bit_or (w % 256) 0x80 ≡ w % 128 + 128 =
      bit_or-top (w % 256) (omega arith) ∙ omega arith in
    let low = group_below (w % 128) x s (omega arith) hx in
    ground (
      arith,
      top,
      uvarint_last w x s c [],
      uvarint_inner (w % 128) x s c (put_uvarint k (w / 128)),
      uvarint-put_uvarint k (w / 128) (x + w % 128 * 2 ^ s) (s + 7) (c + 1) (omega arith)
          (omega arith) (omega arith) low (omega arith),
    )

module _ (kind : Kind) (plain : kind.indexable ≡ false) where
  open kind use {Elem, name}

  -- What the map holds over the transaction is what the transaction holds: its committed elements,
  -- and the entries that Get has read.
  pub record Current (h : HashMap Elem) : Type 0 where
    pub backed : (j : List ℕ) → load kind j h ≡ load kind j (fresh kind h.tx 0)
    pub viewed :
        (j : List ℕ) (v : Change Elem)
        → find j h.changes ≡ some v
        → is_updated v.status ≡ false
        → is_deleted v.status ≡ false
        → load kind j h ≡ ok v.element
    pub gone :
        (j : List ℕ) (v : Change Elem)
        → find j h.changes ≡ some v
        → is_deleted v.status ≡ true
        → v.element ≡ none

  load-fresh :
      (j : List ℕ) (tx tx' : Tx) (n m : ℕ)
      → tx'.get (map_key name j) ≡ tx.get (map_key name j)
      → load kind j (fresh kind tx' n) ≡ load kind j (fresh kind tx m)
  load-fresh j tx tx' n m e = load_local kind j (fresh kind tx m) (fresh kind tx' n) plain refl e

  load-fresh_absent :
      (j : List ℕ) (tx : Tx) (n : ℕ)
      → tx.get (map_key name j) ≡ none
      → load kind j (fresh kind tx n) ≡ ok none
  unfolding load stored_bytes decode find
  load-fresh_absent j tx n e = ground arith

  load-fresh_bytes :
      (j bytes : List ℕ) (x : Elem) (tx : Tx) (n : ℕ)
      → tx.get (map_key name j) ≡ some bytes
      → kind.deserialize j 0 bytes ≡ ok x
      → load kind j (fresh kind tx n) ≡ ok (some x)
  unfolding load stored_bytes decode find
  load-fresh_bytes j bytes x tx n e back = ground arith

  -- An entry that Get read answers what is below it.
  answer_viewed :
      (j : List ℕ) (h : HashMap Elem)
      → Current h
      → is_updated_at kind (find j h.changes) ≡ false
      → ((v : Change Elem) → find j h.changes ≡ some v → is_deleted v.status ≡ false)
      → answer kind j none (load kind j h) ≡ answer kind j (find j h.changes) (load kind j h)
  unfolding answer is_updated_at
  answer_viewed j h c e d = elim (Option-cases (find j h.changes)) [
    | inl unseen ↦ rw unseen refl
    | inr (v, f) ↦
        let not_up : is_updated v.status ≡ false = rw f at e in
        ground (arith, c.viewed j v f not_up (d v f))
  ]

  settle-fresh :
      (j : List ℕ) (n : ℕ) (keys : List (List ℕ)) (h : HashMap Elem)
      → h.tx.writable ≡ true
      → load kind j (fresh kind (settle kind keys h).tx n) ≡ load kind j (fresh kind h.tx 0)
  settle-fresh j n keys h writes =
      load-fresh j h.tx (settle kind keys h).tx n 0 (settle-bytes kind j keys h plain writes)

  answer_same :
      (j : List ℕ) (v : Change Elem) (a b : Result MapError (Option Elem))
      → a ≡ ok v.element
      → answer kind j none a ≡ answer kind j (some v) b
  unfolding answer
  answer_same j v a b e = ground arith

  lookup-fresh :
      (j : List ℕ) (tx : Tx) (n : ℕ)
      → lookup kind j (fresh kind tx n) ≡ answer kind j none (load kind j (fresh kind tx n))
  unfolding find
  lookup-fresh j tx n = lookup-answer kind j (fresh kind tx n)

  Left-fresh :
      (j : List ℕ) (n : ℕ) (keys : List (List ℕ)) (h h₂ : HashMap Elem)
      → h₂.tx.writable ≡ true
      → WellFormed kind h
      → Current h
      → Left kind j h h₂
      → lookup kind j (fresh kind (settle kind keys h₂).tx n) ≡ lookup kind j h
  Left-fresh j n keys h h₂ writes wf cur (untouched not_up not_del s) =
      rw
        (
          lookup-answer kind j h,
          lookup-fresh j (settle kind keys h₂).tx n,
          settle-fresh j n keys h₂ writes,
          load-fresh j h.tx h₂.tx 0 0 s.bytes,
          ← cur.backed j,
        )
        (answer_viewed j h cur not_up not_del)
  Left-fresh j n keys h h₂ writes wf cur (gone v f del at) =
      rw
        (
          lookup-answer kind j h,
          lookup-fresh j (settle kind keys h₂).tx n,
          settle-fresh j n keys h₂ writes,
          f,
        )
        (answer_same j v _ _
          (load-fresh_absent j h₂.tx 0 at.bytes ∙ ap ok (sym (cur.gone j v f del))))
  Left-fresh j n keys h h₂ writes wf cur (stored v f up at) =
      let (x, e, back) = wf.readable j v f up in
      let bytes : h₂.tx.get (map_key name j) ≡ some (kind.serialize x) =
        at.bytes ∙ ap (λ o. some (serialized_of kind o)) e in
      rw
        (
          lookup-answer kind j h,
          lookup-fresh j (settle kind keys h₂).tx n,
          settle-fresh j n keys h₂ writes,
          f,
        )
        (answer_same j v _ _
          (load-fresh_bytes j (kind.serialize x) x h₂.tx 0 bytes back ∙ ap ok (sym e)))

  create_new-settle :
      (keys : List (List ℕ)) (h : HashMap Elem)
      → h.tx.writable ≡ true
      → 5 ≤ length name
      → IsU64 h.count
      → create_new_hash_map kind (settle kind keys h).tx
        ≡ ok (fresh kind (settle kind keys h).tx h.count)
  unfolding create_new_hash_map settle Store.put
  create_new-settle keys h writes long fits =
      let read =
        uvarint-put_uvarint 9 h.count 0 0 0 (omega arith) (omega arith) refl (omega arith)
          (omega arith) in
      let named : leb (length name) 4 ≡ false = ground arith in
      rw
        (named, writes, (get-put_count kind plain h.tx writes name (put_uvarint 9 h.count)).2, read)
        (ground arith)

  count_new :
      {n m : ℕ} {tx : Tx}
      → n ≡ m
      → create_new_hash_map kind tx ≡ ok (fresh kind tx n)
      → create_new_hash_map kind tx ≡ ok (fresh kind tx m)
  count_new {tx = tx} e made = made ∙ ap (λ (i : ℕ). ok (fresh kind tx i)) e

  -- A map that CreateNewHashMap makes over the transaction that a successful CommitChanges wrote has
  -- the count of the committed map, and answers for every key what that map did: in a map with no
  -- indices and a name of five bytes or more, whose transaction may be written, that is well formed
  -- and current, and whose events write no keys of the map.
  pub create_new_hash_map-commit_changes :
      (j : List ℕ) (h h' : HashMap Elem)
      → IsQuiet kind
      → 5 ≤ length name
      → IsU64 h.count
      → h.tx.writable ≡ true
      → WellFormed kind h
      → Current h
      → commit_changes kind h ≡ (ok tt, h')
      → (create_new_hash_map kind h'.tx ≡ ok (fresh kind h'.tx h.count))
        × (lookup kind j (fresh kind h'.tx h.count) ≡ lookup kind j h)
  create_new_hash_map-commit_changes j h h' quiet long fits writes wf cur e =
      let (keys, h₂, l, left, consistent, writable, count, last) =
        commit-Left kind plain quiet h h' writes wf e in
      (
        rw (last) (count_new count (create_new-settle keys h₂ writable long (rw count fits))),
        rw last (Left-fresh j h.count keys h h₂ writable wf cur (left j)),
      )
