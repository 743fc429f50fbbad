-- ===== src/Tests/Run.antt =====
-- A replenishment from its request to its work order.
use mathlib.Core.Bool.{decide}
use native.Mathlib.Decide.{ℕ_discrete}
use opercerta.Common.Tests.{String-discrete}
use opercerta.Common.{refl, true, some, []}
use opercerta.Domain.Status.{OperationStatus-discrete}
use opercerta.Domain.Scenarios.{ApprovalBinding-discrete}
use opercerta.Domain.Errors.{Result, ok, err}
use opercerta.Domain.Values.{aware, require_timezone}
use opercerta.Domain.Facts.{Bundle, Assessment, Plan}
use opercerta.Store.Schema.{Db, empty_db}
use opercerta.Store.Table.{get, insert, update, update_where, find_row}
use opercerta.Store.Tx.{has_sequence}
use opercerta.Operations.Checks.{
  OptionInteger-discrete, require_plan_matches_assessment, work_order_payload,
}
use opercerta.Operations.Snapshots.{
  derive_binding, require_binding_matches_snapshot, current_binding,
}
use opercerta.Operations.EvidenceRows.{save_evidence}
use opercerta.Operations.Locators.{require_approval_locator}
use opercerta.Operations.Transition.{transition}
use opercerta.Operations.Create.{create}
use opercerta.Operations.Methods
use opercerta.Operations.Calls.{Call, run}
use opercerta.Approvals.{submit_bound, find_approval}
use opercerta.WorkOrders.{create_or_get_once, is_taken, find_existing, find_approved}
use opercerta.System.{created, called, submitted_bound, ordered, Reachable, start, then_}
use opercerta.Tests.Data.{
  hash_json, request, bundle, assessment, plan, binding, stamp, rows, command,
}

abbrev rows_of : {A : Type 0} → Result (A × Db) → Db
rows_of (ok (_, db)) = db
rows_of (err _) = empty_db

unfoldable pub db_1 : Db
db_1 = rows_of (create request 1 (stamp 1) empty_db)

unfoldable pub db_2 : Db
db_2 = rows_of (run hash_json Call.mark_gathering_evidence 1 (stamp 2) db_1)

unfoldable pub db_3 : Db
db_3 =
    rows_of (run hash_json (Call.record_evidence (Bundle.inventory bundle) rows) 1 (stamp 3) db_2)

unfoldable pub db_4 : Db
db_4 = rows_of (
    run hash_json
      (Call.record_validated_plan (Assessment.replenishment assessment)
        (some (Plan.replenishment plan)))
      1 (stamp 4) db_3)

unfoldable pub db_5 : Db
db_5 = rows_of (run hash_json (Call.mark_awaiting_approval binding (aware 1000)) 1 (stamp 5) db_4)

unfoldable pub db_6 : Db
db_6 = rows_of (submit_bound command binding 7 6 6 db_5)

unfoldable pub db_7 : Db
db_7 = rows_of (run hash_json (Call.mark_executing 7) 1 (stamp 7) db_6)

unfoldable pub db_8 : Db
db_8 = rows_of (create_or_get_once 1 [] "d2" 9 (stamp 8) db_7)

pub reached_1 : Reachable hash_json db_1
unfolding db_1 create run transition save_evidence submit_bound current_binding create_or_get_once
    get insert update update_where find_row has_sequence find_approval is_taken find_existing
    find_approved require_timezone require_plan_matches_assessment work_order_payload
    require_binding_matches_snapshot require_approval_locator decide ℕ_discrete String-discrete
    OptionInteger-discrete derive_binding OperationStatus-discrete ApprovalBinding-discrete
    Methods.mark_gathering_evidence Methods.record_evidence Methods.record_validated_plan
    Methods.mark_awaiting_approval Methods.mark_executing
reached_1 = then_ start (created request 1 1 (stamp 1) refl refl)

pub reached_2 : Reachable hash_json db_2
unfolding db_1 db_2 create run transition save_evidence submit_bound current_binding
    create_or_get_once get insert update update_where find_row has_sequence find_approval is_taken
    find_existing find_approved require_timezone require_plan_matches_assessment work_order_payload
    require_binding_matches_snapshot require_approval_locator decide ℕ_discrete String-discrete
    OptionInteger-discrete derive_binding OperationStatus-discrete ApprovalBinding-discrete
    Methods.mark_gathering_evidence Methods.record_evidence Methods.record_validated_plan
    Methods.mark_awaiting_approval Methods.mark_executing
reached_2 = then_ reached_1 (called Call.mark_gathering_evidence 1 (stamp 2) true refl)

pub reached_3 : Reachable hash_json db_3
unfolding db_1 db_2 db_3 create run transition save_evidence submit_bound current_binding
    create_or_get_once get insert update update_where find_row has_sequence find_approval is_taken
    find_existing find_approved require_timezone require_plan_matches_assessment work_order_payload
    require_binding_matches_snapshot require_approval_locator decide ℕ_discrete String-discrete
    OptionInteger-discrete derive_binding OperationStatus-discrete ApprovalBinding-discrete
    Methods.mark_gathering_evidence Methods.record_evidence Methods.record_validated_plan
    Methods.mark_awaiting_approval Methods.mark_executing
reached_3 =
    then_ reached_2
      (called (Call.record_evidence (Bundle.inventory bundle) rows) 1 (stamp 3) true refl)

pub reached_4 : Reachable hash_json db_4
unfolding db_1 db_2 db_3 db_4 create run transition save_evidence submit_bound current_binding
    create_or_get_once get insert update update_where find_row has_sequence find_approval is_taken
    find_existing find_approved require_timezone require_plan_matches_assessment work_order_payload
    require_binding_matches_snapshot require_approval_locator decide ℕ_discrete String-discrete
    OptionInteger-discrete derive_binding OperationStatus-discrete ApprovalBinding-discrete
    Methods.mark_gathering_evidence Methods.record_evidence Methods.record_validated_plan
    Methods.mark_awaiting_approval Methods.mark_executing
reached_4 = then_ reached_3 (
    called
      (Call.record_validated_plan (Assessment.replenishment assessment)
        (some (Plan.replenishment plan)))
      1 (stamp 4) true refl)

pub reached_5 : Reachable hash_json db_5
unfolding db_1 db_2 db_3 db_4 db_5 create run transition save_evidence submit_bound current_binding
    create_or_get_once get insert update update_where find_row has_sequence find_approval is_taken
    find_existing find_approved require_timezone require_plan_matches_assessment work_order_payload
    require_binding_matches_snapshot require_approval_locator decide ℕ_discrete String-discrete
    OptionInteger-discrete derive_binding OperationStatus-discrete ApprovalBinding-discrete
    Methods.mark_gathering_evidence Methods.record_evidence Methods.record_validated_plan
    Methods.mark_awaiting_approval Methods.mark_executing
reached_5 =
    then_ reached_4
      (called (Call.mark_awaiting_approval binding (aware 1000)) 1 (stamp 5) true refl)

pub reached_6 : Reachable hash_json db_6
unfolding db_1 db_2 db_3 db_4 db_5 db_6 create run transition save_evidence submit_bound
    current_binding create_or_get_once get insert update update_where find_row has_sequence
    find_approval is_taken find_existing find_approved require_timezone
    require_plan_matches_assessment work_order_payload require_binding_matches_snapshot
    require_approval_locator decide ℕ_discrete String-discrete OptionInteger-discrete derive_binding
    OperationStatus-discrete ApprovalBinding-discrete Methods.mark_gathering_evidence
    Methods.record_evidence Methods.record_validated_plan Methods.mark_awaiting_approval
    Methods.mark_executing
reached_6 = then_ reached_5 (submitted_bound command binding 7 6 6 _ refl refl)

pub reached_7 : Reachable hash_json db_7
unfolding db_1 db_2 db_3 db_4 db_5 db_6 db_7 create run transition save_evidence submit_bound
    current_binding create_or_get_once get insert update update_where find_row has_sequence
    find_approval is_taken find_existing find_approved require_timezone
    require_plan_matches_assessment work_order_payload require_binding_matches_snapshot
    require_approval_locator decide ℕ_discrete String-discrete OptionInteger-discrete derive_binding
    OperationStatus-discrete ApprovalBinding-discrete Methods.mark_gathering_evidence
    Methods.record_evidence Methods.record_validated_plan Methods.mark_awaiting_approval
    Methods.mark_executing
reached_7 = then_ reached_6 (called (Call.mark_executing 7) 1 (stamp 7) true refl)

pub reached_8 : Reachable hash_json db_8
unfolding db_1 db_2 db_3 db_4 db_5 db_6 db_7 db_8 create run transition save_evidence submit_bound
    current_binding create_or_get_once get insert update update_where find_row has_sequence
    find_approval is_taken find_existing find_approved require_timezone
    require_plan_matches_assessment work_order_payload require_binding_matches_snapshot
    require_approval_locator decide ℕ_discrete String-discrete OptionInteger-discrete derive_binding
    OperationStatus-discrete ApprovalBinding-discrete Methods.mark_gathering_evidence
    Methods.record_evidence Methods.record_validated_plan Methods.mark_awaiting_approval
    Methods.mark_executing
reached_8 = then_ reached_7 (ordered 1 [] "d2" 9 (stamp 8) _ refl refl)
