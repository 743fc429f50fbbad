-- ===== src/Signals/Retry.antt =====
-- Detections and retries of signals, made once or twice.
use opercerta.Common.{
  ℕ, ◌≡◌, ap, true, Option, none, some, ==_iff, arith, decide_iff, if◌then◌else◌, inl, inr, ◌⊎◌,
  Bool-cases, Option-cases,
}
use opercerta.Domain.Errors.{Uuid, ok, err, signal_retry_not_allowed, signal_not_found}
use opercerta.Domain.Signals.{SignalDraft, derive_signal_dedup_key}
use opercerta.Store.Table.{get, insert, find_row}
use opercerta.Store.Schema.{Signal, Db}
use opercerta.Signals.Repository.{
  DedupKey-discrete, find_key, find_successor, is_clash, needs_attention, upsert_detected,
  create_successor, successor_signal, detected_signal,
}
use opercerta.Signals.Keys.{IsKeyed, find_key-retry}

-- the rows with one more signal
abbrev pub with_signal : Uuid → Signal → Db → Db
with_signal id s db = record db { operational_signals = insert id s db.operational_signals }

-- what a retry comes to: the successor, and the rows
abbrev pub retried : Uuid → ℕ → Uuid → Signal → Option (Uuid × Signal) → Db → (Uuid × Signal) × Db
retried predecessor at id s (some row) db = (row, db)
retried predecessor at id s none db =
    ((id, successor_signal predecessor s at), with_signal id (successor_signal predecessor s at) db)

pub create_successor-attention :
    (p : Uuid) (at : ℕ) (id : Uuid) (s : Signal) (db : Db)
    → IsKeyed db.operational_signals
    → get p db.operational_signals ≡ some s
    → needs_attention s.status ≡ true
    → create_successor p at id db
      ≡ ok (retried p at id s (find_successor p db.operational_signals) db)
unfolding create_successor is_clash
create_successor-attention p at id s db keyed found wants =
    ground (arith, find_key-retry p db.operational_signals keyed)

-- With keyed signals, a retry raises that the signal is not found exactly when it is not on
-- record, raises that it is not allowed when the signal requires no attention, returns the
-- successor on record when there is one, and otherwise inserts an open successor, so no unique
-- constraint is ever violated.
pub create_successor_outcomes :
    (p : Uuid) (at : ℕ) (id : Uuid) (db : Db)
    → IsKeyed db.operational_signals
    → ((get p db.operational_signals ≡ none)
        × (create_successor p at id db ≡ err (signal_not_found p)))
      ⊎ ((s : Signal) × (get p db.operational_signals ≡ some s)
          × (create_successor p at id db ≡ (
              if needs_attention s.status
              then ok (retried p at id s (find_successor p db.operational_signals) db)
              else err (signal_retry_not_allowed p))))
unfolding create_successor is_clash
create_successor_outcomes p at id db keyed = elim (Option-cases (get p db.operational_signals)) [
  | inl e ↦ inl (e, ground arith)
  | inr (s, e) ↦ inr (s, e, ground (arith, find_key-retry p db.operational_signals keyed))
]

-- the successor that a retry returns is the one on record, and the predecessor is as it was
pub retried_row :
    (p : Uuid) (at : ℕ) (id : Uuid) (s : Signal) (o : Option (Uuid × Signal)) (db : Db)
    → find_successor p db.operational_signals ≡ o
    → find_successor p (retried p at id s o db).1.operational_signals
      ≡ some (retried p at id s o db).0
unfolding find_successor insert find_row
retried_row p at id s (some row) db h = h
retried_row p at id s none db h = ground (arith, ==_iff p p)

pub get-retried :
    (p : Uuid) (at : ℕ) (id : Uuid) (s : Signal) (o : Option (Uuid × Signal)) (db : Db)
    → get id db.operational_signals ≡ none
    → get p db.operational_signals ≡ some s
    → get p (retried p at id s o db).1.operational_signals ≡ some s
unfolding get insert
get-retried p at id s (some row) db new h = h
get-retried p at id s none db new h = ground (arith, ==_iff id p)

retried-IsKeyed :
    (p : Uuid) (at : ℕ) (id : Uuid) (s : Signal) (db : Db)
    → get id db.operational_signals ≡ none
    → IsKeyed db.operational_signals
    → IsKeyed (retried p at id s (find_successor p db.operational_signals) db).1.operational_signals
unfolding insert
retried-IsKeyed p at id s db new keyed =
    elim (Option-cases (find_successor p db.operational_signals)) [
      | inr (row, e) ↦ rw e keyed
      | inl e ↦
          rw e
            (new, find_key-retry p db.operational_signals keyed e, λ q. (λ h. cc, λ h. cc), keyed)
    ]

module _ (p : Uuid) (at : ℕ) (id : Uuid) (db db' : Db) (row : Uuid × Signal)
    (keyed : IsKeyed db.operational_signals) (new : get id db.operational_signals ≡ none)
    (h : create_successor p at id db ≡ ok (row, db')) where
  -- a retry that succeeded was of a signal that wants attention
  pub retried_lem :
      (s : Signal) × (get p db.operational_signals ≡ some s)
      × (needs_attention s.status ≡ true)
      × ((row, db') ≡ retried p at id s (find_successor p db.operational_signals) db)
  retried_lem = elim (create_successor_outcomes p at id db keyed) [
    | inl (_, e) ↦ absurd (ground arith)
    | inr (s, found, e) ↦ elim (Bool-cases (needs_attention s.status)) [
      | inr no_need ↦ absurd (ground arith)
      | inl wants ↦ (s, found, wants, ground arith)
    ]
  ]

  pub create_successor-IsKeyed : IsKeyed db'.operational_signals
  create_successor-IsKeyed =
      let (s, found, wants, same) = retried_lem in
      rw (ap (λ (x : (Uuid × Signal) × Db). x.1) same) (retried-IsKeyed p at id s db new keyed)

pub detected_lem :
    (draft : SignalDraft) (id : Uuid) (db : Db) (row : Uuid × Signal)
    → find_key (derive_signal_dedup_key draft) db.operational_signals ≡ some row
    → upsert_detected draft id db ≡ ok (row, db)
unfolding upsert_detected
detected_lem draft id db row h = ground arith

module _ (draft : SignalDraft) (id : Uuid) (db db' : Db) (row : Uuid × Signal)
    (h : upsert_detected draft id db ≡ ok (row, db')) where
  pub detected_row : find_key (derive_signal_dedup_key draft) db'.operational_signals ≡ some row
  unfolding upsert_detected find_key insert find_row
  detected_row = ground (
    arith,
    decide_iff (DedupKey-discrete (derive_signal_dedup_key draft) (derive_signal_dedup_key draft)),
  )

  pub upsert_detected-again :
      (draft' : SignalDraft) (id' : Uuid)
      → draft'.signal_type ≡ draft.signal_type
      → draft'.object_id ≡ draft.object_id
      → draft'.facts_hash ≡ draft.facts_hash
      → upsert_detected draft' id' db' ≡ ok (row, db')
  upsert_detected-again draft' id' kind object hash =
      detected_lem draft' id' db' row (rw (kind, object, hash) detected_row)

  pub upsert_detected-IsKeyed :
      get id db.operational_signals ≡ none
      → IsKeyed db.operational_signals
      → IsKeyed db'.operational_signals
  unfolding upsert_detected insert
  upsert_detected-IsKeyed new keyed =
      elim (Option-cases (find_key (derive_signal_dedup_key draft) db.operational_signals)) [
        | inr (r, e) ↦ rw (rows_old r e) keyed
        | inl e ↦ rw (rows_new e) (new, e, λ q. (λ h. cc, λ h. cc), keyed)
      ]
    where
      rows_old :
          (r : Uuid × Signal)
          → find_key (derive_signal_dedup_key draft) db.operational_signals ≡ some r
          → db' ≡ db
      rows_old r e = ground arith

      rows_new :
          find_key (derive_signal_dedup_key draft) db.operational_signals ≡ none
          → db' ≡ with_signal id (detected_signal draft) db
      rows_new e = ground arith
