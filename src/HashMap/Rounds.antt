-- ===== src/HashMap/Rounds.antt =====
-- One round of each loop of CommitChanges, for the key of its entry and for the other keys.
use go_pandora_pay.Prelude.{
  ℕ, ◌≡◌, refl, ◌∙◌, true, false, Option, none, some, List, [], ◌∷◌, length, bytes_equal,
  bytes_equal_iff, if◌then◌else◌, arith, Bool-cases, Option-cases, ◌≢◌, inl, inr,
}
use go_pandora_pay.Prelude.Result.{ok, Result-cases}
use go_pandora_pay.Prelude.ByteMap.{ByteMap, find, find-put}
use go_pandora_pay.Prelude.ByteMap
use go_pandora_pay.HashMap.Store.{Tx, exists, map_key, exists_key}
use go_pandora_pay.HashMap.Store
use go_pandora_pay.HashMap.Types.{Kind, HashMap, Change, Committed, Status, view, deleted, updated}
use go_pandora_pay.HashMap.Commit.{
  committed_of, tx_deleted, tx_added, commit_deleted, commit_updated, store_element, serialized_of,
}
use go_pandora_pay.HashMap.Keys.{get-tx_deleted, get-tx_added, get-put_map}

-- An event leaves the elements of the map alone. (Those of the program write keys of other names.)
pub record IsQuiet (kind : Kind) : Type 0 where
  pub deleted_quiet :
      (k j : List ℕ) (tx tx' : Tx)
      → kind.deleted_event k tx ≡ ok tx'
      → (tx'.writable ≡ tx.writable)
        × (tx'.get (map_key kind.name j) ≡ tx.get (map_key kind.name j))
        × (tx'.get (exists_key kind.name j) ≡ tx.get (exists_key kind.name j))
  pub stored_quiet :
      (k j : List ℕ) (e : Option kind.Elem) (index : ℕ) (tx tx' : Tx)
      → kind.stored_event k e index tx ≡ ok tx'
      → (tx'.writable ≡ tx.writable)
        × (tx'.get (map_key kind.name j) ≡ tx.get (map_key kind.name j))
        × (tx'.get (exists_key kind.name j) ≡ tx.get (exists_key kind.name j))

module _ (kind : Kind) where
  open kind use {Elem, name}

  -- The map holds the same of the key: its change, its committed element and its bytes.
  pub record Same (j : List ℕ) (h h' : HashMap Elem) : Type 0 where
    pub changes : find j h'.changes ≡ find j h.changes
    pub committed : find j h'.committed ≡ find j h.committed
    pub bytes : h'.tx.get (map_key name j) ≡ h.tx.get (map_key name j)
    pub there : h'.tx.get (exists_key name j) ≡ h.tx.get (exists_key name j)

  -- What a commit leaves for a deleted key, until its entry is taken out.
  pub record DeletedAt (j : List ℕ) (v : Change Elem) (h : HashMap Elem) : Type 0 where
    pub kept : Committed Elem
    pub changes : find j h.changes ≡ some (record v { status = view; index_process = false })
    pub committed : find j h.committed ≡ some kept
    pub no_element : kept.element ≡ none
    pub bytes : h.tx.get (map_key name j) ≡ none
    pub there : h.tx.get (exists_key name j) ≡ none

  -- What a commit leaves for an updated key.
  pub record UpdatedAt (j : List ℕ) (v : Change Elem) (h : HashMap Elem) : Type 0 where
    pub kept : Committed Elem
    pub committed : find j h.committed ≡ some kept
    pub element : kept.element ≡ v.element
    pub serialized : kept.serialized ≡ some (serialized_of kind v.element)
    pub bytes : h.tx.get (map_key name j) ≡ some (serialized_of kind v.element)
    pub mark : Option (List ℕ)
    pub there : h.tx.get (exists_key name j) ≡ mark
    pub marked : mark ≢ none

  -- A round writes one key: its change, its committed element and what the transaction holds for it.
  pub record Writes (k : List ℕ) (v : Change Elem) (c : Committed Elem) (b t : Option (List ℕ))
      (h h' : HashMap Elem) : Type 0 where
    pub changes : h'.changes ≡ ByteMap.put k v h.changes
    pub committed : h'.committed ≡ ByteMap.put k c h.committed
    pub bytes :
        (j : List ℕ)
        → h'.tx.get (map_key name j) ≡ (if bytes_equal k j then b else h.tx.get (map_key name j))
    pub there :
        (j : List ℕ)
        → h'.tx.get (exists_key name j)
          ≡ (if bytes_equal k j then t else h.tx.get (exists_key name j))
    pub writable : h'.tx.writable ≡ true
    pub count : h'.count ≡ h.count

  pub Writes-Same :
      {k : List ℕ} {v : Change Elem} {c : Committed Elem} {b t : Option (List ℕ)}
      {h h' : HashMap Elem} (j : List ℕ)
      → Writes k v c b t h h'
      → bytes_equal k j ≡ false
      → Same j h h'
  Writes-Same {k} {v} {c} {h = h} j w other = record {
    changes = rw (w.changes, find-put j k v h.changes, other);
    committed = rw (w.committed, find-put j k c h.committed, other);
    bytes = rw (w.bytes j, other);
    there = rw (w.there j, other);
  }

  -- Where the transaction says that a key is not there, it holds no bytes for it.
  abbrev pub IsConsistent : List ℕ → HashMap Elem → Type 0
  IsConsistent k h = exists (exists_key name k) h.tx ≡ false → h.tx.get (map_key name k) ≡ none

  absent : (k : List ℕ) (tx : Tx) → exists k tx ≡ false → tx.get k ≡ none
  unfolding exists
  absent k tx e = ground arith

  -- What a key holds may be written as if it had just been set.
  reset_same :
      (f : List ℕ → Option (List ℕ)) (k j : List ℕ) (b : Option (List ℕ))
      → f k ≡ b
      → f j ≡ (if bytes_equal k j then b else f j)
  reset_same f k j b e = ground (arith, bytes_equal_iff k j)

  -- The committed element of a deleted key.
  abbrev gone_entry : List ℕ → HashMap Elem → Status → Committed Elem
  gone_entry k h stored = record (committed_of kind k h) {
    status = view;
    element = none;
    size = 0;
    serialized = none;
    stored = stored;
  }

  abbrev written : List ℕ → Change Elem → Committed Elem → Tx → HashMap Elem → HashMap Elem
  written k v c tx h = record h {
    tx = tx;
    committed = ByteMap.put k c h.committed;
    changes = ByteMap.put k v h.changes;
  }

  abbrev pub deleted_change : Change Elem → Change Elem
  deleted_change v = record v { status = view; index_process = false }

  abbrev pub updated_change : Change Elem → Change Elem
  updated_change v = record v { index_process = false }

  -- The committed element of an updated key.
  abbrev pub stored_entry : Change Elem → Committed Elem
  stored_entry v = record {
    element = v.element;
    status = view;
    stored = updated;
    serialized = some (serialized_of kind v.element);
    size = length (serialized_of kind v.element);
  }

  module _ (plain : kind.indexable ≡ false) (quiet : IsQuiet kind) where
    pub commit_deleted-Writes :
        (k : List ℕ) (v : Change Elem) (h h' : HashMap Elem)
        → h.tx.writable ≡ true
        → IsConsistent k h
        → commit_deleted kind k v h ≡ (ok tt, h')
        → (c : Committed Elem) × (c.element ≡ none) × Writes k (deleted_change v) c none none h h'
    unfolding commit_deleted
    commit_deleted-Writes k v h h' writes consistent done =
        elim (Bool-cases (exists (exists_key name k) h.tx)) [
          | inr gone ↦
              let e : h' ≡ written k (deleted_change v) (gone_entry k h view) h.tx h =
                ground arith in
              (
                gone_entry k h view,
                refl,
                rw e (record {
                  changes = refl;
                  committed = refl;
                  bytes =
                      λ j. reset_same (λ i. h.tx.get (map_key name i)) k j none (consistent gone);
                  there = λ j.
                      reset_same (λ i. h.tx.get (exists_key name i)) k j none (absent _ h.tx gone);
                  writable = writes;
                  count = refl;
                }),
              )
          | inl there ↦ elim (Result-cases (kind.deleted_event k (tx_deleted kind k v h.tx))) [
            | inl (tx', heard) ↦
                let e : h' ≡ written k (deleted_change v) (gone_entry k h deleted) tx' h =
                  ground arith in
                (
                  gone_entry k h deleted,
                  refl,
                  rw e (record {
                    changes = refl;
                    committed = refl;
                    bytes = λ j.
                        (quiet.deleted_quiet k j _ tx' heard).1
                        ∙ (get-tx_deleted kind plain h.tx writes k j v).0;
                    there = λ j.
                        (quiet.deleted_quiet k j _ tx' heard).2
                        ∙ (get-tx_deleted kind plain h.tx writes k j v).1;
                    writable =
                        (quiet.deleted_quiet k k _ tx' heard).0
                        ∙ (get-tx_deleted kind plain h.tx writes k k v).2;
                    count = refl;
                  }),
                )
            | inr (inl (x, broken)) ↦ ground arith
            | inr (inr broken) ↦ ground arith
          ]
        ]

    -- The rest of an update, over a transaction that holds the same of the map's elements but for the
    -- mark that the key is there.
    store_element-Writes :
        (k : List ℕ) (v : Change Elem) (t : Option (List ℕ)) (tx : Tx) (h : HashMap Elem)
        → tx.writable ≡ true
        → ((j : List ℕ) → tx.get (map_key name j) ≡ h.tx.get (map_key name j))
        → ((j : List ℕ)
            → tx.get (exists_key name j)
              ≡ (if bytes_equal k j then t else h.tx.get (exists_key name j)))
        → Writes k
            (updated_change v)
            (stored_entry v)
            (some (serialized_of kind v.element))
            t
            h
            (store_element kind k v tx h)
    unfolding store_element
    store_element-Writes k v t tx h writes same marked =
        let put = get-put_map kind plain tx writes k in
        let bytes = serialized_of kind v.element in
        let e : store_element kind k v tx h
            ≡ written k (updated_change v) (stored_entry v) (Store.put (map_key name k) bytes tx)
                h =
          ground arith in
        rw e (record {
          changes = refl;
          committed = refl;
          bytes = λ j. (put j bytes).0 ∙ rw (same j);
          there = λ j. (put j bytes).1 ∙ marked j;
          writable = (put k bytes).2;
          count = refl;
        })

    exists-none : (key : List ℕ) (tx : Tx) → tx.get key ≡ none → exists key tx ≡ false
    unfolding exists
    exists-none key tx e = rw (e, exists)

    exists-some : (key b : List ℕ) (tx : Tx) → tx.get key ≡ some b → exists key tx ≡ true
    unfolding exists
    exists-some key b tx e = rw (e, exists)

    pub commit_updated-Writes :
        (k : List ℕ) (v : Change Elem) (h h' : HashMap Elem)
        → h.tx.writable ≡ true
        → commit_updated kind k v h ≡ (ok tt, h')
        → (t : Option (List ℕ)) × (t ≢ none)
          × Writes k
              (updated_change v)
              (stored_entry v)
              (some (serialized_of kind v.element))
              t
              h
              h'
    unfolding commit_updated
    commit_updated-Writes k v h h' writes done =
        elim (Option-cases (h.tx.get (exists_key name k))) [
          | inr (b, there) ↦
              let e : h' ≡ store_element kind k v h.tx h =
                ground (arith, exists-some _ b h.tx there) in
              (
                some b,
                λ p. cc,
                rw e (
                    store_element-Writes k v (some b) h.tx h writes (λ j. refl)
                      (λ j. reset_same (λ i. h.tx.get (exists_key name i)) k j (some b) there)),
              )
          | inl new ↦
              elim (Result-cases (kind.stored_event k v.element v.index (tx_added kind k v h.tx))) [
                | inl (tx', heard) ↦
                    let e : h' ≡ store_element kind k v tx' h =
                      ground (arith, exists-none _ h.tx new) in
                    let added = get-tx_added kind plain h.tx writes k in
                    let same =
                      λ (j : List ℕ). quiet.stored_quiet k j v.element v.index _ tx' heard in
                    (
                      some (1 ∷ []),
                      λ p. cc,
                      rw e (
                          store_element-Writes k v (some (1 ∷ [])) tx' h
                            ((same k).0 ∙ (added k v).2) (λ j. (same j).1 ∙ (added j v).0)
                            (λ j. (same j).2 ∙ (added j v).1)),
                    )
                | inr (inl (x, broken)) ↦ ground (arith, exists-none _ h.tx new)
                | inr (inr broken) ↦ ground (arith, exists-none _ h.tx new)
              ]
        ]
