-- ===== src/System/Reached.antt =====
-- The reachable states of the rows.
use opercerta.Common.{ℕ, ◌≡◌, refl, true, some, [], ◌∷◌, ◌==◌, ==_iff, arith, Bool-cases, inl, inr}
use opercerta.Domain.Errors.{Uuid}
use opercerta.Domain.Values.{Digest}
use opercerta.Domain.Facts.{EvidenceContent, approved}
use opercerta.Store.Table.{Table, get, find_row}
use opercerta.Store.Schema.{Operation, Approval, WorkOrder, Db, empty_db}
use opercerta.Approvals.{recorded, lapsed, find_approval}
use opercerta.Approvals.Rows.{submit_once-ok, submit_bound-recorded, submit_bound-lapsed}
use opercerta.WorkOrders.{is_taken}
use opercerta.Audit.{sequences, countdown, event_count}
use opercerta.Cycles.{decision_in, is_behind_approval}
use opercerta.System.{
  Step, created, called, submitted, submitted_bound, ordered, detected, retried, reconciled, saved,
  Reachable, start, then_,
}
use opercerta.System.Invariant.{IsConsistent, AllApproved, WasApproved}
use opercerta.System.Transactions.{
  create-IsConsistent, run-IsConsistent, Lapsed-IsConsistent, create_or_get_once-IsConsistent,
}
use opercerta.Operations.Frame.{save_bundle-SameRows}
use opercerta.System.Detected.{
  SameRows-IsConsistent, upsert_detected-IsConsistent, create_successor-IsConsistent,
  reconcile_terminal_links-IsConsistent,
}
use opercerta.System.Decided.{Decided-IsConsistent}

empty-IsConsistent : IsConsistent empty_db
unfolding get find_approval find_row sequences countdown
empty-IsConsistent = record {
  dense = record { numbered = λ id. refl };
  unique = tt;
  lawful = λ id op h. absurd (cc);
  owned = λ id n h. refl;
  orders = tt;
  keyed = tt;
}

-- the work order of an operation that some row is for
is_taken_row :
    (k : Uuid) (w v : WorkOrder) (t : Table WorkOrder)
    → get k t ≡ some w
    → w.operation_id ≡ v.operation_id
    → is_taken v t ≡ true
unfolding get is_taken find_row
is_taken_row k w v [] h e = absurd (cc)
is_taken_row k w v ((j, x) ∷ t) h e =
    ground (arith, is_taken_row k w v t, ==_iff x.operation_id v.operation_id)

AllApproved-get :
    (approvals : Table Approval) (k : Uuid) (w : WorkOrder) (t : Table WorkOrder)
    → AllApproved approvals t
    → get k t ≡ some w
    → WasApproved approvals w.operation_id
unfolding get
AllApproved-get approvals k w [] h e = absurd (cc)
AllApproved-get approvals k w ((j, x) ∷ t) (_, (c, d), _, h) e = elim (Bool-cases (j == k)) [
  | inl same ↦ (c, ground arith)
  | inr other ↦ AllApproved-get approvals k w t h (ground arith)
]

AllApproved-single :
    (approvals : Table Approval) (j k : Uuid) (v w : WorkOrder) (t : Table WorkOrder)
    → AllApproved approvals t
    → get j t ≡ some v
    → get k t ≡ some w
    → v.operation_id ≡ w.operation_id
    → j ≡ k
unfolding get
AllApproved-single approvals j k v w [] h e f same = absurd (cc)
AllApproved-single approvals j k v w ((i, x) ∷ t) (_, _, free, h) e f same = ground (
  arith,
  AllApproved-single approvals j k v w t h,
  is_taken_row j v x t,
  is_taken_row k w x t,
  ==_iff i j,
  ==_iff i k,
)

module _ (hash_json : EvidenceContent → Digest) where
  -- A transaction that commits keeps the rows consistent.
  pub Step-IsConsistent : (db db' : Db) → IsConsistent db → Step hash_json db db' → IsConsistent db'
  Step-IsConsistent db db' c (created request id r at new h) =
      create-IsConsistent db db' c request id r at new h
  Step-IsConsistent db db' c (called call id at b h) =
      run-IsConsistent db db' c hash_json call id at b h
  Step-IsConsistent db db' c (submitted command k at r new h) =
      Decided-IsConsistent command k at.now at.event_id db db' r new
        (submit_once-ok command k db db' at r h) c
  Step-IsConsistent db db' c (submitted_bound command expected k now e (recorded r) new h) =
      Decided-IsConsistent command k now e db db' r new
        (submit_bound-recorded command expected k now e db db' r h).decision c
  Step-IsConsistent db db' c (submitted_bound command expected k now e lapsed new h) =
      Lapsed-IsConsistent db db' c (submit_bound-lapsed command expected k now e db db' h)
  Step-IsConsistent db db' c (ordered id payload digest k at r new h) =
      create_or_get_once-IsConsistent db db' c id payload digest k at r h
  Step-IsConsistent db db' c (detected draft k r new h) =
      upsert_detected-IsConsistent db db' c draft k r new h
  Step-IsConsistent db db' c (retried p now k r new h) =
      create_successor-IsConsistent db db' c p now k r new h
  Step-IsConsistent db db' c (reconciled now n h) =
      reconcile_terminal_links-IsConsistent db db' c now n h
  Step-IsConsistent db db' c (saved id bundle rows h) =
      SameRows-IsConsistent db db' (save_bundle-SameRows hash_json id bundle rows db db' h) c

  pub Reachable-IsConsistent : (db : Db) → Reachable hash_json db → IsConsistent db
  Reachable-IsConsistent db start = empty-IsConsistent
  Reachable-IsConsistent db (then_ {db = before} reached step) =
      Step-IsConsistent before db (Reachable-IsConsistent before reached) step

  -- In every state that the transactions of the operation, evidence, approval, work order and
  -- signal repositories can reach from empty tables, those of the operation state repository
  -- left out since they check no approval, an operation in status executing or verifying has an
  -- approved decision on record for its current approval cycle.
  pub execution_approved :
      (db : Db) (id : Uuid) (op : Operation)
      → Reachable hash_json db
      → get id db.operations ≡ some op
      → is_behind_approval op.status ≡ true
      → decision_in id op.approval_cycle db.approvals ≡ some approved
  execution_approved db id op reached found behind =
      ((Reachable-IsConsistent db reached).lawful id op found).approval behind

  -- In every reachable state a work order belongs to an operation for which some approval cycle
  -- ended in an approval, and no other row of the work orders is for the same operation.
  pub work_order_approved :
      (db : Db) (k : Uuid) (w : WorkOrder)
      → Reachable hash_json db
      → get k db.work_orders ≡ some w
      → ((c : ℕ) × (decision_in w.operation_id c db.approvals ≡ some approved))
        × ((j : Uuid) (v : WorkOrder)
            → get j db.work_orders ≡ some v
            → v.operation_id ≡ w.operation_id
            → j ≡ k)
  work_order_approved db k w reached found =
      let orders = (Reachable-IsConsistent db reached).orders in
      (
        AllApproved-get db.approvals k w db.work_orders orders found,
        λ j v e same. AllApproved-single db.approvals j k v w db.work_orders orders e found same,
      )

  -- In every reachable state the audit events of each operation are numbered from its event
  -- counter down to 1, without a gap or a duplicate, and an id that names no operation has none.
  pub events_numbered :
      (db : Db) (id : Uuid)
      → Reachable hash_json db
      → sequences id db.audit_events ≡ countdown (event_count id db.operations)
  events_numbered db id reached = (Reachable-IsConsistent db reached).dense.numbered id
