-- ===== src/System/Detected.antt =====
-- The invariant of the rows and the transactions of the signal repository.
use opercerta.Common.{ℕ, ◌≡◌, none, arith, inl, inr, Option-cases}
use opercerta.Domain.Errors.{Uuid, ok}
use opercerta.Domain.Signals.{SignalDraft, derive_signal_dedup_key}
use opercerta.Store.Table.{get}
use opercerta.Store.Schema.{Signal, Db}
use opercerta.Operations.Frame.{SameRows}
use opercerta.Signals.Repository.{
  upsert_detected, create_successor, reconcile_terminal_links, find_key,
}
use opercerta.Signals.Keys.{IsKeyed, SameKeys-IsKeyed, SameKeys-repair_all}
use opercerta.Signals.Retry.{upsert_detected-IsKeyed, create_successor-IsKeyed}
use opercerta.Signals.Reconciled.{reconciled_rows}
use opercerta.System.Invariant.{IsConsistent}

-- all tables but that of the signals are as they were
pub record SameBusiness (db db' : Db) : Type 0 where
  pub operations : db'.operations ≡ db.operations
  pub approvals : db'.approvals ≡ db.approvals
  pub work_orders : db'.work_orders ≡ db.work_orders
  pub audit_events : db'.audit_events ≡ db.audit_events

SameBusiness-IsConsistent :
    (db db' : Db)
    → SameBusiness db db'
    → IsKeyed db'.operational_signals
    → IsConsistent db
    → IsConsistent db'
SameBusiness-IsConsistent db db' s keyed c = record {
  dense = rw (s.operations, s.audit_events) c.dense;
  unique = rw s.approvals c.unique;
  lawful = rw (s.operations, s.approvals) c.lawful;
  owned = rw (s.operations, s.approvals) c.owned;
  orders = rw (s.approvals, s.work_orders) c.orders;
  keyed = keyed;
}

module _ (db db' : Db) where
  pub SameRows-SameBusiness : SameRows db db' → SameBusiness db db'
  SameRows-SameBusiness s = record {
    operations = s.operations;
    approvals = s.approvals;
    work_orders = s.work_orders;
    audit_events = s.audit_events;
  }

  pub SameRows-IsConsistent : SameRows db db' → IsConsistent db → IsConsistent db'
  SameRows-IsConsistent s c =
      SameBusiness-IsConsistent db db' (SameRows-SameBusiness s) (rw s.operational_signals c.keyed)
        c

  pub upsert_detected-SameBusiness :
      (draft : SignalDraft) (k : Uuid) (r : Uuid × Signal)
      → upsert_detected draft k db ≡ ok (r, db')
      → SameBusiness db db'
  unfolding upsert_detected
  upsert_detected-SameBusiness draft k r h =
      elim (Option-cases (find_key (derive_signal_dedup_key draft) db.operational_signals)) [
        | inl e ↦ record {
          operations = ground arith;
          approvals = ground arith;
          work_orders = ground arith;
          audit_events = ground arith;
        }
        | inr (row, e) ↦ record {
          operations = ground arith;
          approvals = ground arith;
          work_orders = ground arith;
          audit_events = ground arith;
        }
      ]

  pub create_successor-SameBusiness :
      (p : Uuid) (now : ℕ) (k : Uuid) (r : Uuid × Signal)
      → create_successor p now k db ≡ ok (r, db')
      → SameBusiness db db'
  unfolding create_successor
  create_successor-SameBusiness p now k r h = record {
    operations = ground arith;
    approvals = ground arith;
    work_orders = ground arith;
    audit_events = ground arith;
  }

  pub reconcile_terminal_links-SameBusiness :
      (now n : ℕ) → reconcile_terminal_links now db ≡ ok (n, db') → SameBusiness db db'
  unfolding reconcile_terminal_links
  reconcile_terminal_links-SameBusiness now n h = record {
    operations = ground arith;
    approvals = ground arith;
    work_orders = ground arith;
    audit_events = ground arith;
  }

  module _ (c : IsConsistent db) where
    pub upsert_detected-IsConsistent :
        (draft : SignalDraft) (k : Uuid) (r : Uuid × Signal)
        → get k db.operational_signals ≡ none
        → upsert_detected draft k db ≡ ok (r, db')
        → IsConsistent db'
    upsert_detected-IsConsistent draft k r new h =
        SameBusiness-IsConsistent db db' (upsert_detected-SameBusiness draft k r h)
          (upsert_detected-IsKeyed draft k db db' r h new c.keyed) c

    pub create_successor-IsConsistent :
        (p : Uuid) (now : ℕ) (k : Uuid) (r : Uuid × Signal)
        → get k db.operational_signals ≡ none
        → create_successor p now k db ≡ ok (r, db')
        → IsConsistent db'
    create_successor-IsConsistent p now k r new h =
        SameBusiness-IsConsistent db db' (create_successor-SameBusiness p now k r h)
          (create_successor-IsKeyed p now k db db' r c.keyed new h) c

    pub reconcile_terminal_links-IsConsistent :
        (now n : ℕ) → reconcile_terminal_links now db ≡ ok (n, db') → IsConsistent db'
    reconcile_terminal_links-IsConsistent now n h =
        SameBusiness-IsConsistent db db' (reconcile_terminal_links-SameBusiness now n h)
          (rw (reconciled_rows now n db db' h).1
            (SameKeys-IsKeyed (SameKeys-repair_all db now db.operational_signals) c.keyed))
          c
