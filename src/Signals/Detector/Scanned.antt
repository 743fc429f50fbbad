-- ===== src/Signals/Detector/Scanned.antt =====
-- What a scan finds, and what the next one does.
use opercerta.Common.{
  ℕ, ◌+◌, ◌≤◌, ◌≡◌, refl, ◌∙◌, arith, none, some, List, [], ◌∷◌, length, inl, inr, Option-cases,
  Bool-cases, decide, decide_iff,
}
use opercerta.Domain.Errors.{Uuid, Error, ok, err, Result-cases}
use opercerta.Domain.Values.{DateTime, Runtime}
use opercerta.Domain.Signals.{SignalDraft, derive_signal_dedup_key}
use opercerta.Store.Table.{insert, find_row}
use opercerta.Store.Schema.{Signal, DedupKey, Db}
use opercerta.Signals.Repository.{DedupKey-discrete, detected_signal, find_key, upsert_detected}
use opercerta.Signals.Retry.{with_signal, detected_row, detected_lem}
use opercerta.Signals.Detector.{
  SignalEvidenceGateway, ScanTarget, SignalScanIssue, SignalScanResult, unavailable, Found,
  with_row, with_issue, nothing, detect, kept, noted, scan_targets, result, scan,
}

-- the rows of the first are rows of the second
abbrev Keeps : Db → Db → Type 0
Keeps db db' =
    (k : DedupKey) (row : Uuid × Signal)
    → find_key k db.operational_signals ≡ some row
    → find_key k db'.operational_signals ≡ some row

-- a new row hides no other, since its key was free
not_hidden :
    (d : SignalDraft) (id : Uuid) (db : Db) (k : DedupKey) (row : Uuid × Signal)
    → find_key (derive_signal_dedup_key d) db.operational_signals ≡ none
    → find_key k db.operational_signals ≡ some row
    → find_key k (with_signal id (detected_signal d) db).operational_signals ≡ some row
unfolding find_key find_row insert
not_hidden d id db k row free found =
    elim (Bool-cases (decide (DedupKey-discrete (derive_signal_dedup_key d) k))) [
      | inl same ↦
          let equal = (decide_iff (DedupKey-discrete (derive_signal_dedup_key d) k)).0 same in
          absurd (cc (equal, free, found))
      | inr differ ↦ rw differ found
    ]

-- what an upsert comes to: it always returns
upserted :
    (d : SignalDraft) (id : Uuid) (db : Db)
    → (row : Uuid × Signal) × (db' : Db) × (upsert_detected d id db ≡ ok (row, db'))
      × (find_key (derive_signal_dedup_key d) db'.operational_signals ≡ some row)
      × Keeps db db'
unfolding upsert_detected find_key find_row insert
upserted d id db =
    elim (Option-cases (find_key (derive_signal_dedup_key d) db.operational_signals)) [
      | inr (row, e) ↦ (row, db, detected_lem d id db row e, e, λ k r h. h)
      | inl e ↦
          let db' = with_signal id (detected_signal d) db in
          let h : upsert_detected d id db ≡ ok ((id, detected_signal d), db') = ground arith in
          (
            (id, detected_signal d),
            db',
            h,
            detected_row d id db db' (id, detected_signal d) h,
            λ k r found. not_hidden d id db k r e found,
          )
    ]

module _ (py : Runtime) (gateway : SignalEvidenceGateway) (now : DateTime) where
  -- the targets whose detection raises
  abbrev pub failing : List ScanTarget → List SignalScanIssue
  failing [] = []
  failing (t ∷ ts) = elim (detect py gateway t now) [
    | err _ ↦ unavailable t ∷ failing ts
    | ok _ ↦ failing ts
  ]

  module _ (new_id : ℕ → Uuid) (n : ℕ) (t : ScanTarget) (ts : List ScanTarget) (db : Db) where
    step_issue :
        (e : Error)
        → detect py gateway t now ≡ err e
        → scan_targets py gateway now new_id n (t ∷ ts) db
          ≡ noted py gateway t (scan_targets py gateway now new_id n ts db)
    unfolding scan_targets
    step_issue e h = ground arith

    step_none :
        detect py gateway t now ≡ ok none
        → scan_targets py gateway now new_id n (t ∷ ts) db
          ≡ scan_targets py gateway now new_id n ts db
    unfolding scan_targets
    step_none h = ground arith

    step_row :
        (draft : SignalDraft) (row : Uuid × Signal) (db' : Db)
        → detect py gateway t now ≡ ok (some draft)
        → upsert_detected draft (new_id n) db ≡ ok (row, db')
        → scan_targets py gateway now new_id n (t ∷ ts) db
          ≡ kept py gateway row (scan_targets py gateway now new_id (n + 1) ts db')
    unfolding scan_targets
    step_row draft row db' h e = ground arith

  -- what a scan of some targets is to give
  record IsScan (ts : List ScanTarget) (db : Db) (f : Found) (db' : Db) : Type 0 where
    keeps : Keeps db db'
    issues : f.issues ≡ failing ts
    few : length f.signals + length f.issues ≤ length ts
    again :
        (new_id : ℕ → Uuid) (n : ℕ) (d : Db)
        → Keeps db' d
        → scan_targets py gateway now new_id n ts d ≡ ok (f, d)

  Scanned : (new_id : ℕ → Uuid) (n : ℕ) (ts : List ScanTarget) (db : Db) → Type 0
  Scanned new_id n ts db =
      (f : Found) × (db' : Db) × (scan_targets py gateway now new_id n ts db ≡ ok (f, db'))
      × IsScan ts db f db'

  issued :
      (new_id : ℕ → Uuid) (n : ℕ) (t : ScanTarget) (ts : List ScanTarget) (db : Db) (e : Error)
      → detect py gateway t now ≡ err e
      → Scanned new_id n ts db
      → Scanned new_id n (t ∷ ts) db
  unfolding Scanned
  issued new_id n t ts db e h (f, db', found, w) = (
    with_issue t f,
    db',
    rw (step_issue new_id n t ts db e h, found) refl,
    record {
      keeps = w.keeps;
      issues = ground (arith, w.issues);
      few = omega (arith, w.few);
      again = λ ids m d k. rw (step_issue ids m t ts d e h, w.again ids m d k) refl;
    },
  )

  passed :
      (new_id : ℕ → Uuid) (n : ℕ) (t : ScanTarget) (ts : List ScanTarget) (db : Db)
      → detect py gateway t now ≡ ok none
      → Scanned new_id n ts db
      → Scanned new_id n (t ∷ ts) db
  unfolding Scanned
  passed new_id n t ts db h (f, db', found, w) = (
    f,
    db',
    rw (step_none new_id n t ts db h) found,
    record {
      keeps = w.keeps;
      issues = ground (arith, w.issues);
      few = omega (arith, w.few);
      again = λ ids m d k. rw (step_none ids m t ts d h) (w.again ids m d k);
    },
  )

  drafted :
      (new_id : ℕ → Uuid) (n : ℕ) (t : ScanTarget) (ts : List ScanTarget) (db : Db)
      (draft : SignalDraft)
      → detect py gateway t now ≡ ok (some draft)
      → ((db_1 : Db) → Scanned new_id (n + 1) ts db_1)
      → Scanned new_id n (t ∷ ts) db
  unfolding Scanned
  drafted new_id n t ts db draft h rest =
      let (row, db_1, e, held, keeps_1) = upserted draft (new_id n) db in
      let (f, db', found, w) = rest db_1 in
      let key = derive_signal_dedup_key draft in
      (
        with_row row f,
        db',
        rw (step_row new_id n t ts db draft row db_1 h e, found) refl,
        record {
          keeps = λ k r there. w.keeps k r (keeps_1 k r there);
          issues = ground (arith, w.issues);
          few = omega (arith, w.few);
          again = λ ids m d k.
              rw
                (
                  step_row ids m t ts d draft row d h
                      (detected_lem draft (ids m) d row (k key row (w.keeps key row held))),
                  w.again ids (m + 1) d k,
                )
                refl;
        },
      )

  scanned : (new_id : ℕ → Uuid) (n : ℕ) (ts : List ScanTarget) (db : Db) → Scanned new_id n ts db
  unfolding scan_targets Scanned
  scanned new_id n [] db = (
    nothing,
    db,
    refl,
    record { keeps = λ k r h. h; issues = refl; few = omega arith; again = λ new_id n d k. refl },
  )
  scanned new_id n (t ∷ ts) db = elim (Result-cases (detect py gateway t now)) [
    | inr (e, h) ↦ issued new_id n t ts db e h (scanned new_id n ts db)
    | inl (o, h) ↦ elim (Option-cases o) [
      | inl none_ ↦ passed new_id n t ts db (h ∙ rw none_ refl) (scanned new_id n ts db)
      | inr (draft, some_) ↦
          drafted new_id n t ts db draft (h ∙ rw some_ refl)
            (λ db_1. scanned new_id (n + 1) ts db_1)
    ]
  ]

  -- A scan of the watch list always returns, has as its issues exactly the targets whose
  -- detection raises, in their order, gives no more signals and issues than it scanned targets,
  -- and a further scan at the same time with the same sources returns the same result and writes
  -- nothing.
  pub scan_lem :
      (targets : List ScanTarget) (new_id : ℕ → Uuid) (db : Db)
      → (r : SignalScanResult) × (db' : Db) × (scan py gateway targets now new_id db ≡ ok (r, db'))
        × (r.issues ≡ failing targets)
        × (length r.signals + length r.issues ≤ r.scanned_count)
        × ((ids : ℕ → Uuid) → scan py gateway targets now ids db' ≡ ok (r, db'))
  unfolding scan Scanned
  scan_lem targets new_id db =
      let (f, db', found, w) = scanned new_id 0 targets db in
      (
        (result py gateway targets now (f, db')).0,
        db',
        rw found refl,
        w.issues,
        w.few,
        λ ids. rw (w.again ids 0 db' (λ k r h. h)) refl,
      )
