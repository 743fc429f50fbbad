-- ===== src/Tests/Reached.antt =====
-- The theorems on reachable states, at the run.
use opercerta.Common.{ℕ, ◌≡◌, refl, true, some, [], ◌∷◌}
use mathlib.Core.Bool.{decide}
use native.Mathlib.Decide.{ℕ_discrete}
use opercerta.Common.Tests.{String-discrete}
use opercerta.Domain.Status.{OperationStatus, OperationStatus-discrete}
use opercerta.Domain.Scenarios.{ApprovalBinding-discrete}
use opercerta.Domain.Errors.{Uuid}
use opercerta.Domain.Values.{require_timezone}
use opercerta.Domain.Facts.{ApprovalDecision}
use opercerta.Store.Schema.{Operation, WorkOrder, Db, empty_db}
use opercerta.Store.Table.{get, insert, update, update_where, find_row}
use opercerta.Store.Tx.{has_sequence}
use opercerta.Operations.Checks.{
  OptionInteger-discrete, require_plan_matches_assessment, work_order_payload,
}
use opercerta.Operations.Snapshots.{
  derive_binding, require_binding_matches_snapshot, current_binding,
}
use opercerta.Operations.EvidenceRows.{save_evidence}
use opercerta.Operations.Locators.{require_approval_locator}
use opercerta.Operations.Transition.{transition}
use opercerta.Operations.Create.{create, new_operation}
use opercerta.Operations.Create.Rows.{created_db}
use opercerta.Operations.Methods
use opercerta.Operations.Calls.{Call, run}
use opercerta.Approvals.{submit_bound, find_approval}
use opercerta.WorkOrders.{create_or_get_once, is_taken, find_existing, find_approved}
use opercerta.Audit.{sequences, countdown, event_count}
use opercerta.Cycles.{decision_in}
use opercerta.System.{created, called}
use opercerta.System.Reached.{execution_approved, work_order_approved, events_numbered}
use opercerta.System.Lifecycle.{Later}
use opercerta.System.Lifecycle.Steps.{Step-Later, terminal_stays}
use opercerta.Tests.Data.{hash_json, request, stamp}
use opercerta.Tests.Run.{db_1, db_2, db_3, db_4, db_5, db_6, db_7, db_8, reached_7, reached_8}

execution_approved_example : decision_in 1 1 db_7.approvals ≡ some ApprovalDecision.approved
unfolding db_1 db_2 db_3 db_4 db_5 db_6 db_7 create run transition save_evidence submit_bound
    current_binding get insert update update_where find_row has_sequence find_approval
    require_timezone require_plan_matches_assessment work_order_payload
    require_binding_matches_snapshot require_approval_locator decide ℕ_discrete String-discrete
    OptionInteger-discrete derive_binding OperationStatus-discrete ApprovalBinding-discrete
    Methods.mark_gathering_evidence Methods.record_evidence Methods.record_validated_plan
    Methods.mark_awaiting_approval Methods.mark_executing
execution_approved_example = execution_approved hash_json db_7 1 _ reached_7 refl refl

work_order_approved_example :
    ((c : ℕ) × (decision_in 1 c db_8.approvals ≡ some ApprovalDecision.approved))
    × ((j : Uuid) (v : WorkOrder) → get j db_8.work_orders ≡ some v → v.operation_id ≡ 1 → j ≡ 9)
unfolding db_1 db_2 db_3 db_4 db_5 db_6 db_7 db_8 create run transition save_evidence submit_bound
    current_binding create_or_get_once get insert update update_where find_row has_sequence
    find_approval is_taken find_existing find_approved require_timezone
    require_plan_matches_assessment work_order_payload require_binding_matches_snapshot
    require_approval_locator decide ℕ_discrete String-discrete OptionInteger-discrete derive_binding
    OperationStatus-discrete ApprovalBinding-discrete Methods.mark_gathering_evidence
    Methods.record_evidence Methods.record_validated_plan Methods.mark_awaiting_approval
    Methods.mark_executing
work_order_approved_example = work_order_approved hash_json db_8 9 _ reached_8 refl

events_numbered_example : sequences 1 db_8.audit_events ≡ countdown (event_count 1 db_8.operations)
events_numbered_example = events_numbered hash_json db_8 1 reached_8

Step-Later_example : Later 1 (new_operation request 1 1) db_2
unfolding db_1 db_2 create run transition get insert update has_sequence OperationStatus-discrete
    Methods.mark_gathering_evidence
Step-Later_example =
    Step-Later hash_json db_1 db_2 1 (new_operation request 1 1) refl
      (called Call.mark_gathering_evidence 1 (stamp 2) true refl)

-- an operation that has failed
abbrev failed_operation : Operation
failed_operation = record (new_operation request 1 1) { status = some OperationStatus.failed }

abbrev db_failed : Db
db_failed = record empty_db { operations = (1, failed_operation) ∷ [] }

terminal_stays_example :
    (op : Operation) × (get 1 (created_db request 2 (stamp 9) db_failed).operations ≡ some op)
    × (op.status ≡ some OperationStatus.failed)
unfolding create get insert has_sequence
terminal_stays_example =
    terminal_stays hash_json db_failed (created_db request 2 (stamp 9) db_failed) 1 failed_operation
      OperationStatus.failed (created request 2 2 (stamp 9) refl refl) refl refl refl
