-- ===== src/HashMap/Loops.antt =====
-- The two loops of CommitChanges, over the entries that `Changes` had when the commit began.
use go_pandora_pay.Prelude.{
  ℕ, ◌≡◌, refl, ◌∙◌, Bool, true, false, none, some, List, [], ◌∷◌, bytes_equal, bytes_equal_iff,
  arith, Bool-cases, inl, inr, ◌⊎◌, ap,
}
use go_pandora_pay.Prelude.Result.{ok, err, panic}
use go_pandora_pay.Prelude.ByteMap.{ByteMap, find}
use go_pandora_pay.HashMap.Types.{Kind, HashMap, Change, Status}
use go_pandora_pay.HashMap.Commit.{Commits, then_commit, for_each}
use go_pandora_pay.HashMap.Rounds.{Same, DeletedAt, UpdatedAt, IsConsistent}

-- No key is listed twice.
abbrev pub IsDistinct : {V : Type 0} → ByteMap V → Type 0
IsDistinct [] = Unit
IsDistinct ((k, v) ∷ m) = (find k m ≡ none) × IsDistinct m

module _ (kind : Kind) where
  open kind use {Elem, name}

  pub then_commit_ok :
      (r : Commits kind) (next : HashMap Elem → Commits kind) (h' : HashMap Elem)
      → then_commit kind r next ≡ (ok tt, h')
      → (r ≡ (ok tt, r.1)) × (next r.1 ≡ (ok tt, h'))
  then_commit_ok (ok u, h) next h' e = (refl, e)
  then_commit_ok (err x, h) next h' e = cc
  then_commit_ok (panic, h) next h' e = cc

  Same-refl : (j : List ℕ) (h : HashMap Elem) → Same kind j h h
  Same-refl j h = record { changes = refl; committed = refl; bytes = refl; there = refl }

  pub Same-trans :
      {j : List ℕ} {a b c : HashMap Elem} → Same kind j a b → Same kind j b c → Same kind j a c
  Same-trans s t = record {
    changes = t.changes ∙ s.changes;
    committed = t.committed ∙ s.committed;
    bytes = t.bytes ∙ s.bytes;
    there = t.there ∙ s.there;
  }

  pub Same-DeletedAt :
      {j : List ℕ} {v : Change Elem} {a b : HashMap Elem}
      → DeletedAt kind j v a
      → Same kind j a b
      → DeletedAt kind j v b
  Same-DeletedAt d s = record {
    kept = d.kept;
    changes = s.changes ∙ d.changes;
    committed = s.committed ∙ d.committed;
    no_element = d.no_element;
    bytes = s.bytes ∙ d.bytes;
    there = s.there ∙ d.there;
  }

  pub Same-UpdatedAt :
      {j : List ℕ} {v : Change Elem} {a b : HashMap Elem}
      → UpdatedAt kind j v a
      → Same kind j a b
      → UpdatedAt kind j v b
  Same-UpdatedAt d s = record {
    kept = d.kept;
    committed = s.committed ∙ d.committed;
    element = d.element;
    serialized = d.serialized;
    bytes = s.bytes ∙ d.bytes;
    mark = d.mark;
    there = s.there ∙ d.there;
    marked = d.marked;
  }

  -- What the loop over the entries `m` has done: nothing to the keys with no entry to treat.
  pub record Looped (treated : Status → Bool) (At : List ℕ → Change Elem → HashMap Elem → Type 0)
      (m : ByteMap (Change Elem)) (h h' : HashMap Elem) : Type 0 where
    pub writable : h'.tx.writable ≡ true
    pub count : h'.count ≡ h.count
    pub consistent : (k : List ℕ) → IsConsistent kind k h'
    pub others : (j : List ℕ) → find j m ≡ none → Same kind j h h'
    pub untreated :
        (j : List ℕ) (v : Change Elem)
        → find j m ≡ some v
        → treated v.status ≡ false
        → Same kind j h h'
    pub done :
        (j : List ℕ) (v : Change Elem) → find j m ≡ some v → treated v.status ≡ true → At j v h'

  -- One round of a loop: the key of the entry is treated, and the others are left alone.
  pub record Round (At : List ℕ → Change Elem → HashMap Elem → Type 0) (k : List ℕ)
      (v : Change Elem) (h h' : HashMap Elem) : Type 0 where
    pub writable : h'.tx.writable ≡ true
    pub count : h'.count ≡ h.count
    pub consistent : (j : List ℕ) → IsConsistent kind j h'
    pub others : (j : List ℕ) → bytes_equal k j ≡ false → Same kind j h h'
    pub done : At k v h'

  find_cons :
      (j k : List ℕ) (v w : Change Elem) (m : ByteMap (Change Elem))
      → find j ((k, v) ∷ m) ≡ some w
      → ((j ≡ k) × (v ≡ w)) ⊎ ((bytes_equal k j ≡ false) × (find j m ≡ some w))
  unfolding find
  find_cons j k v w m e = ground (arith, bytes_equal_iff k j)

  find_cons_none :
      (j k : List ℕ) (v : Change Elem) (m : ByteMap (Change Elem))
      → find j ((k, v) ∷ m) ≡ none
      → (bytes_equal k j ≡ false) × (find j m ≡ none)
  unfolding find
  find_cons_none j k v m e = ground arith

  module _ (treated : Status → Bool) (round : List ℕ → Change Elem → HashMap Elem → Commits kind)
      (At : List ℕ → Change Elem → HashMap Elem → Type 0)
      (keep : (j : List ℕ) (v : Change Elem) (a b : HashMap Elem)
        → At j v a
        → Same kind j a b
        → At j v b)
      (rounds : (k : List ℕ) (v : Change Elem) (h h' : HashMap Elem)
        → h.tx.writable ≡ true
        → ((j : List ℕ) → IsConsistent kind j h)
        → round k v h ≡ (ok tt, h')
        → Round At k v h h') where
    treated_first :
        (k : List ℕ) (v : Change Elem) (m : ByteMap (Change Elem)) (h h₁ h' : HashMap Elem)
        → find k m ≡ none
        → treated v.status ≡ true
        → Round At k v h h₁
        → Looped treated At m h₁ h'
        → Looped treated At ((k, v) ∷ m) h h'
    treated_first k v m h h₁ h' distinct is r l = record {
      writable = l.writable;
      count = l.count ∙ r.count;
      consistent = l.consistent;
      others = λ j e.
          let (other, e') = find_cons_none j k v m e in
          Same-trans (r.others j other) (l.others j e');
      untreated = λ j w e t. elim (find_cons j k v w m e) [
        | inl (same, at) ↦ cc (ap (λ (x : Change Elem). treated x.status) at)
        | inr (other, e') ↦ Same-trans (r.others j other) (l.untreated j w e' t)
      ];
      done = λ j w e t. elim (find_cons j k v w m e) [
        | inl (same, at) ↦ rw (same, ← at) (keep k v h₁ h' r.done (l.others k distinct))
        | inr (other, e') ↦ l.done j w e' t
      ];
    }

    untreated_first :
        (k : List ℕ) (v : Change Elem) (m : ByteMap (Change Elem)) (h h' : HashMap Elem)
        → find k m ≡ none
        → treated v.status ≡ false
        → Looped treated At m h h'
        → Looped treated At ((k, v) ∷ m) h h'
    untreated_first k v m h h' distinct is l = record {
      writable = l.writable;
      count = l.count;
      consistent = l.consistent;
      others = λ j e. l.others j (find_cons_none j k v m e).1;
      untreated = λ j w e t. elim (find_cons j k v w m e) [
        | inl (same, at) ↦ rw same (l.others k distinct)
        | inr (other, e') ↦ l.untreated j w e' t
      ];
      done = λ j w e t. elim (find_cons j k v w m e) [
        | inl (same, at) ↦ cc (ap (λ (x : Change Elem). treated x.status) at)
        | inr (other, e') ↦ l.done j w e' t
      ];
    }

    Looped-nil :
        (h : HashMap Elem)
        → h.tx.writable ≡ true
        → ((j : List ℕ) → IsConsistent kind j h)
        → Looped treated At [] h h
    unfolding find
    Looped-nil h writes consistent = record {
      writable = writes;
      count = refl;
      consistent = consistent;
      others = λ j e. Same-refl j h;
      untreated = λ j v e t. cc;
      done = λ j v e t. cc;
    }

    pub for_each-Looped :
        (m : ByteMap (Change Elem)) (h h' : HashMap Elem)
        → IsDistinct m
        → h.tx.writable ≡ true
        → ((j : List ℕ) → IsConsistent kind j h)
        → for_each kind treated round m h ≡ (ok tt, h')
        → Looped treated At m h h'
    unfolding for_each
    for_each-Looped [] h h' distinct writes consistent e =
        let same : h ≡ h' = cc in rw (← same) (Looped-nil h writes consistent)
    for_each-Looped ((k, v) ∷ m) h h' (first, distinct) writes consistent e =
        elim (Bool-cases (treated v.status)) [
          | inl is ↦
              let (went, later) =
                then_commit_ok (round k v h) (for_each kind treated round m) h' (rw is at e) in
              let r = rounds k v h (round k v h).1 writes consistent went in
              treated_first k v m h (round k v h).1 h' first is r
                (for_each-Looped m (round k v h).1 h' distinct r.writable r.consistent later)
          | inr not_treated ↦
              untreated_first k v m h h' first not_treated
                (for_each-Looped m h h' distinct writes consistent (rw not_treated at e))
        ]
