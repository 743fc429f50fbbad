-- ===== src/Signals/Scans.antt =====
-- The scans of one object: a detection is made once for each set of facts.
use opercerta.Common.{◌≡◌, arith, some}
use opercerta.Domain.Errors.{Uuid, ok}
use opercerta.Domain.Values.{DateTime, require_timezone}
use opercerta.Domain.Facts.{Assessment}
use opercerta.Domain.Signals.{SignalDraft, build_signal_draft}
use opercerta.Store.Schema.{Signal, Db}
use opercerta.Signals.Repository.{upsert_detected}
use opercerta.Signals.Retry.{upsert_detected-again}

same_facts :
    (a : Assessment) (t t' : DateTime) (d d' : SignalDraft)
    → build_signal_draft a t ≡ ok (some d)
    → build_signal_draft a t' ≡ ok (some d')
    → (d'.signal_type ≡ d.signal_type)
      × (d'.object_id ≡ d.object_id)
      × (d'.facts_hash ≡ d.facts_hash)
unfolding build_signal_draft require_timezone
same_facts (Assessment.replenishment a) t t' d d' h h' = ground arith
same_facts (Assessment.maintenance a) t t' d d' h h' = ground arith
same_facts (Assessment.task_recovery a) t t' d d' h h' = ground arith

-- Two drafts that are built from one assessment, at any two times, are detected once: after the
-- first was upserted, the upsert of the second returns the same row and leaves the rows alone.
pub detected_once :
    (a : Assessment) (t t' : DateTime) (d d' : SignalDraft) (id id' : Uuid) (db db' : Db)
    (row : Uuid × Signal)
    → build_signal_draft a t ≡ ok (some d)
    → build_signal_draft a t' ≡ ok (some d')
    → upsert_detected d id db ≡ ok (row, db')
    → upsert_detected d' id' db' ≡ ok (row, db')
detected_once a t t' d d' id id' db db' row h h' first =
    let (kind, object, hash) = same_facts a t t' d d' h h' in
    upsert_detected-again d id db db' row first d' id' kind object hash
