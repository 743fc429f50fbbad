-- ===== src/Tests/Writes.antt =====
-- The theorems on the approvals, the work orders and `_transition`, at concrete rows.
use mathlib.Core.Bool.{decide}
use native.Mathlib.Decide.{ℕ_discrete}
use opercerta.Common.Tests.{String-discrete}
use opercerta.Common.{◌≡◌, ◌⊎◌, refl, true, false, none, some, [], ◌∷◌, if◌then◌else◌, leb}
use opercerta.Domain.Status.{OperationStatus, OperationStatus-discrete}
use opercerta.Domain.Errors.{
  ok, err, approval_expired, approval_snapshot_mismatch, approval_already_decided,
  idempotency_conflict,
}
use opercerta.Domain.Values.{aware}
use opercerta.Domain.Scenarios.{ApprovalBinding-discrete}
use opercerta.Domain.Facts.{OperationSnapshot, Bundle, Plan}
use opercerta.Store.Schema.{EventType, of_version, Operation, Approval, Db, empty_db}
use opercerta.Store.Table.{insert, update, get, find_row}
use opercerta.Store.Tx.{insert_audit_event, has_sequence}
use opercerta.Operations.Snapshots.{current_binding, derive_binding, differs}
use opercerta.Operations.Transition.{Transition, transition, locked_operation, known_status}
use opercerta.Operations.Transition.Inversion.{Changed, changed_db, Unchanged, transition-ok}
use opercerta.Operations.Arguments
use opercerta.Operations.Create.{new_operation}
use opercerta.Approvals.{
  find_approval, approval_row, approval_record, inventory_values, submit_once, submit_bound,
  submit_bound_once, set_status,
}
use opercerta.Approvals.Rows.{decided_db, lapsed_db, DecidedBound, submit_bound-recorded}
use opercerta.Approvals.Once.{submit_bound_once_outcomes}
use opercerta.WorkOrders.{
  new_work_order, create_or_get_once, is_taken, find_existing, find_approved,
}
use opercerta.WorkOrders.Rows.{Created, Replayed, created_db, create_or_get_once-ok}
use opercerta.WorkOrders.Replay.{create_or_get_once-again}
use opercerta.System.{and_, now_, reconciled, of_states}
use opercerta.System.Decisions.{submit_once-stays}
use opercerta.System.Lifecycle.Whole.{WholeLater, Transaction-WholeLater}
use opercerta.Operations.States.{
  arguments, moved_operation, mark, state_transition, move, mark_awaiting_approval,
}
use opercerta.Signals.Repository.{reconcile_terminal_links, repair_all, repair_count}
use opercerta.Tests.Data.{hash_json, request, bundle, plan, binding, stamp, command}

-- an operation that waits for its first decision
abbrev snapshot : OperationSnapshot
snapshot = record {
  request = request;
  risk = record {
    evidence = some (Bundle.inventory bundle);
    assessment = none;
    approval_binding = some binding;
  };
  plan = some (Plan.replenishment plan);
  work_order_payload = [];
}

abbrev awaiting : Operation
awaiting = record (new_operation request 1 1) {
  status = some OperationStatus.awaiting_approval;
  approval_cycle = 1;
  approval_expires_at = some 1000;
  request_payload = some snapshot;
}

abbrev db_awaiting : Db
db_awaiting = record empty_db { operations = (1, awaiting) ∷ [] }

-- the rows after the decision
abbrev bound_row : Approval
bound_row = approval_row command 1 6 (inventory_values binding) (some binding) (some 11)

submit_bound_once_outcomes_example : submit_bound_once command binding (aware 6) 7 6 db_awaiting ≡ (
    if leb 1000 6
    then (err approval_expired, lapsed_db 1 awaiting 1000 6 6 db_awaiting)
    else if differs binding binding
    then (err approval_snapshot_mismatch, db_awaiting)
    else (
      ok (approval_record 7 command 1 6),
      decided_db 7 command awaiting bound_row 6 6 db_awaiting,
    ))
unfolding get find_approval find_row current_binding derive_binding has_sequence
    ApprovalBinding-discrete ℕ_discrete String-discrete decide
submit_bound_once_outcomes_example =
    submit_bound_once_outcomes command binding binding 6 7 6 1000 awaiting db_awaiting (record {
      found = refl;
      undecided = refl;
      pending = refl;
      expiry = refl;
      stored = refl;
      unused = refl;
    })

-- the rows after the first decision of the cycle
abbrev db_decided : Db
db_decided = decided_db 7 command awaiting (approval_row command 1 6 none none none) 6 6 db_awaiting

submit_once-stays_example :
    submit_once command 8 (stamp 9) db_decided ≡ err (approval_already_decided 1)
unfolding submit_once get find_approval find_row has_sequence update insert reconcile_terminal_links
    repair_all repair_count
submit_once-stays_example =
    submit_once-stays hash_json command command 7 8 (stamp 6) (stamp 9) db_awaiting db_decided
      db_decided (approval_record 7 command 1 6)
      (set_status OperationStatus.resuming 6 awaiting awaiting) refl
      (and_ now_ (reconciled 8 0 refl)) refl refl refl

-- an operation that the state repository moves to the approval
abbrev db_received : Db
db_received = record empty_db { operations = (1, new_operation request 1 1) ∷ [] }

abbrev db_marked : Db
db_marked = record empty_db {
  operations =
      (1, moved_operation (arguments mark_awaiting_approval) 2 (new_operation request 1 1)) ∷ [];
  audit_events =
      record {
        id = 2;
        operation_id = 1;
        sequence = 2;
        event_type = EventType.approval_requested;
        payload = of_version 1;
        created_at = 2;
      }
      ∷ [];
}

Transaction-WholeLater_example : WholeLater 1 (new_operation request 1 1) db_marked
unfolding mark state_transition move get update has_sequence locked_operation known_status
    OperationStatus-discrete insert_audit_event decide
Transaction-WholeLater_example =
    Transaction-WholeLater db_received db_marked 1 (new_operation request 1 1) refl hash_json (
      of_states mark_awaiting_approval 1 (stamp 2)
        (record {
          operation_id = 1;
          status = OperationStatus.awaiting_approval;
          changed = true;
          audit_sequence = some 2;
        })
        refl)

submit_bound-recorded_example :
    DecidedBound command binding 7 6 6 db_awaiting
      (decided_db 7 command awaiting bound_row 6 6 db_awaiting)
      (approval_record 7 command 1 6)
unfolding submit_bound get find_approval find_row current_binding derive_binding has_sequence
    ApprovalBinding-discrete ℕ_discrete String-discrete decide
submit_bound-recorded_example =
    submit_bound-recorded command binding 7 6 6 db_awaiting
      (decided_db 7 command awaiting bound_row 6 6 db_awaiting) (approval_record 7 command 1 6) refl

-- an approved operation that resumes
abbrev resuming : Operation
resuming = record awaiting { status = some OperationStatus.resuming }

abbrev db_resuming : Db
db_resuming = record empty_db { operations = (1, resuming) ∷ []; approvals = (7, bound_row) ∷ [] }

create_or_get_once-ok_example :
    Created 1 [] "d2" 9
      (stamp 8)
      db_resuming
      (created_db 1 [] "d2" 9 (stamp 8) resuming db_resuming)
      (record { id = 9; work_order = new_work_order 1 [] "d2" 8; replayed = false })
    ⊎ Replayed 1 "d2" db_resuming
        (created_db 1 [] "d2" 9 (stamp 8) resuming db_resuming)
        (record { id = 9; work_order = new_work_order 1 [] "d2" 8; replayed = false })
unfolding create_or_get_once get find_existing find_approved is_taken find_row has_sequence
create_or_get_once-ok_example =
    create_or_get_once-ok 1 [] "d2" 9 (stamp 8) db_resuming
      (created_db 1 [] "d2" 9 (stamp 8) resuming db_resuming)
      (record { id = 9; work_order = new_work_order 1 [] "d2" 8; replayed = false }) refl

create_or_get_once-again_example :
    create_or_get_once 1 [] "d2" 10
      (stamp 9)
      (created_db 1 [] "d2" 9 (stamp 8) resuming db_resuming)
    ≡ (if decide (String-discrete "d2" "d2")
        then ok (
          record { id = 9; work_order = new_work_order 1 [] "d2" 8; replayed = true },
          created_db 1 [] "d2" 9 (stamp 8) resuming db_resuming,
        )
        else err (idempotency_conflict 1))
unfolding create_or_get_once get find_existing find_approved is_taken find_row has_sequence
create_or_get_once-again_example =
    create_or_get_once-again 1 [] "d2" 9 (stamp 8) db_resuming
      (created_db 1 [] "d2" 9 (stamp 8) resuming db_resuming)
      (record { id = 9; work_order = new_work_order 1 [] "d2" 8; replayed = false }) [] "d2" 10
      (stamp 9) refl

-- the failure of an operation that waits
abbrev lost : Transition
lost = Arguments.failed (record { code = "lost"; message = "lost" })

abbrev db_lost : Db
db_lost = changed_db 1 lost (stamp 9) awaiting snapshot lost.payload db_awaiting

transition-ok_example :
    ((true ≡ true) × Changed 1 lost (stamp 9) db_awaiting db_lost)
    ⊎ ((true ≡ false) × (db_lost ≡ db_awaiting) × Unchanged 1 lost (stamp 9) db_awaiting)
unfolding transition get has_sequence OperationStatus-discrete
transition-ok_example = transition-ok 1 lost (stamp 9) db_awaiting db_lost true refl
