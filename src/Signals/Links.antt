-- ===== src/Signals/Links.antt =====
-- A signal and its successor in the rows, under each write of signals.
use opercerta.Common.{
  ℕ, ◌≡◌, refl, ap, false, Option, none, some, ◌==◌, ==_iff, arith, inl, inr, ◌⊎◌, Bool-cases,
  Option-cases,
}
use opercerta.Domain.Errors.{Uuid, ok}
use opercerta.Domain.Signals.{SignalDraft, derive_signal_dedup_key}
use opercerta.Store.Table.{Table, get, insert, find_row}
use opercerta.Store.Schema.{Signal, Db}
use opercerta.Signals.Repository.{
  find_key, find_successor, follows, upsert_detected, create_successor, detected_signal,
  successor_signal,
}
use opercerta.Signals.Keys.{IsKeyed, SameKeys, nil, cons}
use opercerta.Signals.Retry.{with_signal, retried, retried_lem}

-- the signal is on record, and so is its successor of the given id
pub record IsLinked (p j : Uuid) (t : Table Signal) : Type 0 where
  pub predecessor : Signal
  pub found : get p t ≡ some predecessor
  pub successor : Signal
  pub follows_it : find_successor p t ≡ some (j, successor)

SameKeys-found :
    (k : Uuid) (s : Signal) {t t' : Table Signal}
    → SameKeys t t'
    → get k t ≡ some s
    → (s' : Signal) × (get k t' ≡ some s')
unfolding get
SameKeys-found k s nil h = absurd cc
SameKeys-found k s (cons {k = j} {s = a} {s' = b} e f r) h = elim (Bool-cases (j == k)) [
  | inl same ↦ (b, rw same refl)
  | inr other ↦ let (c, found) = SameKeys-found k s r (ground arith) in (c, rw other found)
]

SameKeys-successor :
    (p j : Uuid) (x : Signal) {t t' : Table Signal}
    → SameKeys t t'
    → find_successor p t ≡ some (j, x)
    → (x' : Signal) × (find_successor p t' ≡ some (j, x'))
unfolding find_successor find_row
SameKeys-successor p j x nil h = absurd cc
SameKeys-successor p j x (cons {k} {s = a} {s' = b} e f r) h = elim (Bool-cases (follows p a)) [
  | inl same ↦ (b, ground arith)
  | inr other ↦
      let (c, found) = SameKeys-successor p j x r (ground arith) in (c, rw (f, other) found)
]

module _ (p j : Uuid) where
  pub SameKeys-IsLinked : {t t' : Table Signal} → SameKeys t t' → IsLinked p j t → IsLinked p j t'
  SameKeys-IsLinked r m =
      let (s, found) = SameKeys-found p m.predecessor r m.found in
      let (x, follows_it) = SameKeys-successor p j m.successor r m.follows_it in
      record { predecessor = s; found = found; successor = x; follows_it = follows_it }

  insert-IsLinked :
      (k : Uuid) (s : Signal) (t : Table Signal)
      → get k t ≡ none
      → follows p s ≡ false
      → IsLinked p j t
      → IsLinked p j (insert k s t)
  unfolding get insert find_successor find_row
  insert-IsLinked k s t new other m = record {
    predecessor = m.predecessor;
    found = ground (arith, ==_iff k p, m.found);
    successor = m.successor;
    follows_it = rw other m.follows_it;
  }

  module _ (db db' : Db) (k : Uuid) (row : Uuid × Signal)
      (new : get k db.operational_signals ≡ none) where
    pub upsert_detected-IsLinked :
        (draft : SignalDraft)
        → upsert_detected draft k db ≡ ok (row, db')
        → IsLinked p j db.operational_signals
        → IsLinked p j db'.operational_signals
    unfolding upsert_detected
    upsert_detected-IsLinked draft h m = elim written [
      | inl same ↦ rw same m
      | inr more ↦ rw more (insert-IsLinked k (detected_signal draft) _ new refl m)
    ]
      where
        written : (db' ≡ db) ⊎ (db' ≡ with_signal k (detected_signal draft) db)
        written =
            elim (Option-cases (find_key (derive_signal_dedup_key draft) db.operational_signals)) [
              | inr (r, e) ↦ inl (ground arith)
              | inl e ↦ inr (ground arith)
            ]

    pub create_successor-IsLinked :
        (q : Uuid) (now : ℕ)
        → IsKeyed db.operational_signals
        → create_successor q now k db ≡ ok (row, db')
        → IsLinked p j db.operational_signals
        → IsLinked p j db'.operational_signals
    create_successor-IsLinked q now keyed h m =
        let (s, found, wants, same) = retried_lem q now k db db' row keyed new h in
        let rows = ap (λ (x : (Uuid × Signal) × Db). x.1) same in
        rw rows (written s (find_successor q db.operational_signals) refl)
      where
        written :
            (s : Signal) (o : Option (Uuid × Signal))
            → find_successor q db.operational_signals ≡ o
            → IsLinked p j (retried q now k s o db).1.operational_signals
        written s (some r) e = m
        written s none e =
            insert-IsLinked k (successor_signal q s now) db.operational_signals new
              (ground (arith, ==_iff q p, e, m.follows_it)) m
