-- ===== src/Signals/Keys.antt =====
-- The keys of the signals: one row for each dedup key, and a retry's key for each successor.
use opercerta.Common.{
  ℕ, ◌≡◌, ◌↔◌, refl, Bool, Option, none, some, [], ◌∷◌, ◌==◌, ==_iff, arith, decide_iff, inl, inr,
  Bool-cases,
}
use opercerta.Domain.Errors.{Uuid}
use opercerta.Store.Table.{Table, get, update, update_where, find_row}
use opercerta.Store.Schema.{Signal, SignalStatus, DedupKey, Db}
use opercerta.Signals.Repository.{
  DedupKey-discrete, find_key, find_successor, repair_all, repair, target_of, linked_status,
}

-- a signal has a retry's key just where it has a predecessor
abbrev pub IsRetryKeyed : Signal → Type 0
IsRetryKeyed s = (p : Uuid) → (s.dedup_key ≡ DedupKey.retry p) ↔ (s.predecessor_signal_id ≡ some p)

abbrev pub IsKeyed : Table Signal → Type 0
IsKeyed [] = Unit {0}
IsKeyed ((k, s) ∷ t) =
    (get k t ≡ none) × (find_key s.dedup_key t ≡ none) × IsRetryKeyed s × IsKeyed t

-- the same rows, but for what an update may change
pub data SameKeys : Table Signal → Table Signal → Type 0 where
  nil : SameKeys [] []
  cons :
      {k : Uuid} {s s' : Signal} {t t' : Table Signal}
      → s'.dedup_key ≡ s.dedup_key
      → s'.predecessor_signal_id ≡ s.predecessor_signal_id
      → SameKeys t t'
      → SameKeys ((k, s) ∷ t) ((k, s') ∷ t')

SameKeys-get : (k : Uuid) {t t' : Table Signal} → SameKeys t t' → get k t ≡ none → get k t' ≡ none
unfolding get
SameKeys-get k nil h = refl
SameKeys-get k (cons {k = j} {s} {s'} {t} {t'} e f r) h = ground (arith, SameKeys-get k r)

SameKeys-find_key :
    (key : DedupKey) {t t' : Table Signal}
    → SameKeys t t'
    → find_key key t ≡ none
    → find_key key t' ≡ none
unfolding find_key find_row
SameKeys-find_key key nil h = refl
SameKeys-find_key key (cons {k = j} {s} {s'} {t} {t'} e f r) h = ground (
  arith,
  SameKeys-find_key key r,
  decide_iff (DedupKey-discrete s.dedup_key key),
  decide_iff (DedupKey-discrete s'.dedup_key key),
)

pub SameKeys-IsKeyed : {t t' : Table Signal} → SameKeys t t' → IsKeyed t → IsKeyed t'
SameKeys-IsKeyed nil h = tt
SameKeys-IsKeyed (cons {k} {s} {s'} {t} {t'} e f r) (new, free, links, h) = (
  SameKeys-get k r new,
  rw e (SameKeys-find_key s.dedup_key r free),
  λ p. rw (e, f) (links p),
  SameKeys-IsKeyed r h,
)

pub SameKeys-refl : (t : Table Signal) → SameKeys t t
SameKeys-refl [] = nil
SameKeys-refl ((k, s) ∷ t) = cons refl refl (SameKeys-refl t)

-- an update of the rows that keeps the two columns
module _ (f : Signal → Signal) (key : (s : Signal) → (f s).dedup_key ≡ s.dedup_key)
    (links : (s : Signal) → (f s).predecessor_signal_id ≡ s.predecessor_signal_id) where
  pub SameKeys-update : (k : Uuid) (t : Table Signal) → SameKeys t (update k f t)
  unfolding update
  SameKeys-update k [] = nil
  SameKeys-update k ((j, s) ∷ t) = elim (Bool-cases (j == k)) [
    | inl e ↦ rw e (cons (key s) (links s) (SameKeys-update k t))
    | inr e ↦ rw e (cons refl refl (SameKeys-update k t))
  ]

  pub SameKeys-update_where :
      (p : Signal → Bool) (t : Table Signal) → SameKeys t (update_where p f t)
  unfolding update_where
  SameKeys-update_where p [] = nil
  SameKeys-update_where p ((j, s) ∷ t) = elim (Bool-cases (p s)) [
    | inl e ↦ rw e (cons (key s) (links s) (SameKeys-update_where p t))
    | inr e ↦ rw e (cons refl refl (SameKeys-update_where p t))
  ]

repair_keys :
    (o : Option SignalStatus) (at : ℕ) (s : Signal)
    → ((repair o at s).dedup_key ≡ s.dedup_key)
      × ((repair o at s).predecessor_signal_id ≡ s.predecessor_signal_id)
repair_keys o at s = ground arith

pub SameKeys-repair_all : (db : Db) (at : ℕ) (t : Table Signal) → SameKeys t (repair_all db at t)
unfolding repair_all
SameKeys-repair_all db at [] = nil
SameKeys-repair_all db at ((k, s) ∷ t) =
    let o = target_of (linked_status s.operation_id db) in
    cons (repair_keys o at s).0 (repair_keys o at s).1 (SameKeys-repair_all db at t)

-- without a successor the key of a retry is free
pub find_key-retry :
    (p : Uuid) (t : Table Signal)
    → IsKeyed t
    → find_successor p t ≡ none
    → find_key (DedupKey.retry p) t ≡ none
unfolding find_key find_successor find_row
find_key-retry p [] h e = refl
find_key-retry p ((k, s) ∷ t) (new, free, links, h) e = ground (
  arith,
  links p,
  find_key-retry p t h,
  decide_iff (DedupKey-discrete s.dedup_key (DedupKey.retry p)),
  ==_iff p p,
)
