-- ===== src/System/Decisions.antt =====
-- The decisions on record, in all later states of the service.
use opercerta.Common.{ℕ, ◌≡◌, refl, sym, arith, ◌==◌, ==_iff, ◌&&◌, some, inl, inr, Bool-cases}
use opercerta.Domain.Errors.{Uuid, ok, err, approval_already_decided}
use opercerta.Domain.Values.{Digest}
use opercerta.Domain.Facts.{EvidenceContent}
use opercerta.Store.Table.{Table, get, insert, find_row}
use opercerta.Store.Schema.{Operation, Approval, Db}
use opercerta.Operations.Transition.{Stamp}
use opercerta.Operations.Transition.Inversion.{transition-ok}
use opercerta.Operations.Calls.{run-IsCall, IsCall-WritesEvidence}
use opercerta.Operations.Frame.{approvals_after, save_bundle-SameRows}
use opercerta.Operations.Create.Rows.{create-ok, created_tables}
use opercerta.Approvals.{
  ApprovalCommand, ApprovalRecord, recorded, lapsed, find_approval, submit_once,
}
use opercerta.Approvals.Rows.{Decided, submit_once-ok, submit_bound-recorded, submit_bound-lapsed}
use opercerta.WorkOrders.Rows.{create_or_get_once-ok}
use opercerta.System.{
  Step, created, called, submitted, submitted_bound, ordered, detected, retried, reconciled, saved,
  Onward, now_, and_,
}
use opercerta.System.Detected.{
  upsert_detected-SameBusiness, create_successor-SameBusiness,
  reconcile_terminal_links-SameBusiness,
}

-- a decision on the cycle of an operation
abbrev pub IsDecided : Uuid → ℕ → Db → Type 0
IsDecided id c db = (row : Uuid × Approval) × (find_approval id c db.approvals ≡ some row)

Decided-IsDecided :
    (command : ApprovalCommand) (k : Uuid) (now : ℕ) (event_id : Uuid) (db db' : Db)
    (r : ApprovalRecord)
    → Decided command k now event_id db db' r
    → IsDecided command.operation_id r.approval_cycle db'
unfolding find_approval find_row insert
Decided-IsDecided command k now event_id db db' r m = (
  (k, m.row),
  rw (m.rows, m.returned)
      (ground (
        arith,
        m.of_operation,
        m.of_cycle,
        ==_iff m.row.operation_id command.operation_id,
        ==_iff m.row.approval_cycle m.op.approval_cycle,
      )),
)

-- another decision leaves it there
insert_kept :
    (id : Uuid) (c : ℕ) (k : Uuid) (a : Approval) (approvals : Table Approval)
    → (row : Uuid × Approval) × (find_approval id c approvals ≡ some row)
    → (row : Uuid × Approval) × (find_approval id c (insert k a approvals) ≡ some row)
unfolding find_approval find_row insert
insert_kept id c k a approvals (row, h) =
    elim (Bool-cases (a.operation_id == id && a.approval_cycle == c)) [
      | inl e ↦ ((k, a), rw e refl)
      | inr e ↦ (row, rw e h)
    ]

module _ (hash_json : EvidenceContent → Digest) (id : Uuid) (c : ℕ) where
  same_approvals :
      (db db' : Db) → db'.approvals ≡ db.approvals → IsDecided id c db → IsDecided id c db'
  same_approvals db db' e (row, h) = (row, rw e h)

  decision_kept :
      {command : ApprovalCommand} {k now event_id : Uuid} {r : ApprovalRecord} (db db' : Db)
      → Decided command k now event_id db db' r
      → IsDecided id c db
      → IsDecided id c db'
  decision_kept {k = k} db db' m h = rw m.rows (insert_kept id c k m.row db.approvals h)

  Step-IsDecided : (db db' : Db) → Step hash_json db db' → IsDecided id c db → IsDecided id c db'
  Step-IsDecided db db' (created request j r at new h) = same_approvals db db' (
      let (_, _, _, rows) = create-ok request j at db db' r h in
      rw (rows, (created_tables request j at db).1) refl)
  Step-IsDecided db db' (called call j at b h) =
      let (t, is_call, e) = run-IsCall hash_json call j at db db' b h in
      elim (transition-ok j t at db db' b e) [
        | inr (_, rows, _) ↦ same_approvals db db' (rw rows refl)
        | inl (_, m) ↦
            same_approvals db db'
              (approvals_after j t at db db' (IsCall-WritesEvidence hash_json j is_call) m)
      ]
  Step-IsDecided db db' (submitted command k at r new h) =
      decision_kept db db' (submit_once-ok command k db db' at r h)
  Step-IsDecided db db' (submitted_bound command expected k now e (recorded r) new h) =
      decision_kept db db' (submit_bound-recorded command expected k now e db db' r h).decision
  Step-IsDecided db db' (submitted_bound command expected k now e lapsed new h) =
      same_approvals db db' (rw (submit_bound-lapsed command expected k now e db db' h).rows refl)
  Step-IsDecided db db' (ordered j payload digest k at r new h) =
      elim (create_or_get_once-ok j payload digest k at db db' r h) [
        | inr m ↦ same_approvals db db' (rw m.rows refl)
        | inl m ↦ same_approvals db db' (rw m.rows refl)
      ]
  Step-IsDecided db db' (detected draft k r new h) =
      same_approvals db db' (upsert_detected-SameBusiness db db' draft k r h).approvals
  Step-IsDecided db db' (retried p now k r new h) =
      same_approvals db db' (create_successor-SameBusiness db db' p now k r h).approvals
  Step-IsDecided db db' (reconciled now n h) =
      same_approvals db db' (reconcile_terminal_links-SameBusiness db db' now n h).approvals
  Step-IsDecided db db' (saved j bundle rows h) =
      same_approvals db db' (save_bundle-SameRows hash_json j bundle rows db db' h).approvals

  Onward-IsDecided :
      {db db' : Db} → Onward hash_json db db' → IsDecided id c db → IsDecided id c db'
  Onward-IsDecided now_ h = h
  Onward-IsDecided (and_ o step) h = Step-IsDecided _ _ step (Onward-IsDecided o h)

decided_raises :
    (command : ApprovalCommand) (k : Uuid) (at : Stamp) (db : Db) (op : Operation)
    → get command.operation_id db.operations ≡ some op
    → IsDecided command.operation_id op.approval_cycle db
    → submit_once command k at db ≡ err (approval_already_decided command.operation_id)
unfolding submit_once
decided_raises command k at db op found (row, h) = ground arith

module _ (hash_json : EvidenceContent → Digest) where
  -- After a submission that succeeded, in every later state of the service in which the
  -- operation is in the approval cycle of that decision, a further submission for the operation
  -- raises that the approval is decided, whoever makes it and whatever it decides.
  pub submit_once-stays :
      (command command' : ApprovalCommand) (k k' : Uuid) (at at' : Stamp) (db db' d : Db)
      (r : ApprovalRecord) (op : Operation)
      → submit_once command k at db ≡ ok (r, db')
      → Onward hash_json db' d
      → command'.operation_id ≡ command.operation_id
      → get command.operation_id d.operations ≡ some op
      → op.approval_cycle ≡ r.approval_cycle
      → submit_once command' k' at' d ≡ err (approval_already_decided command.operation_id)
  submit_once-stays command command' k k' at at' db db' d r op h onward same found cycle =
      let first =
        Decided-IsDecided command k at.now at.event_id db db' r
          (submit_once-ok command k db db' at r h) in
      let later = Onward-IsDecided hash_json command.operation_id r.approval_cycle onward first in
      rw (sym same) (decided_raises command' k' at' d op (rw same found) (rw (same, cycle) later))
