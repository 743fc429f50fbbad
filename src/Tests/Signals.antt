-- ===== src/Tests/Signals.antt =====
-- The theorem on the signals, at an operation that fails.
use opercerta.Common.{◌≡◌, refl, none, some, [], ◌∷◌}
use opercerta.Domain.Status.{OperationStatus, OperationStatus-discrete}
use opercerta.Domain.Contracts.{ObjectType}
use opercerta.Domain.Facts.{OperationError, OperationSnapshot}
use opercerta.Store.Schema.{
  Operation, Signal, SignalStatus, SignalType, SignalSeverity, DedupKey, Db, empty_db,
}
use opercerta.Store.Table.{get, update, update_where}
use opercerta.Store.Tx.{has_sequence}
use opercerta.Operations.Arguments
use opercerta.Operations.Create.{new_operation}
use opercerta.Operations.Methods
use opercerta.Operations.Calls.{Call, run}
use opercerta.Operations.Signals.{terminal_closes_signals}
use opercerta.Operations.Transition.{transition, changed_operation, close_signal}
use opercerta.Operations.Transition.Inversion.{changed_db}
use opercerta.Tests.Data.{hash_json, request, stamp}

-- the signal that the operation investigates
abbrev signal : Signal
signal = record {
  dedup_key = DedupKey.detected SignalType.inventory_shortage "SKU-1" "f1";
  signal_type = SignalType.inventory_shortage;
  object_type = ObjectType.inventory;
  object_id = "SKU-1";
  source = "scan";
  severity = SignalSeverity.high;
  reason_code = "below_reorder_point";
  facts_hash = "f1";
  facts = [];
  status = SignalStatus.investigating;
  operation_id = some 1;
  predecessor_signal_id = none;
  detected_at = 1;
  updated_at = 1;
  resolved_at = none;
}

abbrev db_investigated : Db
db_investigated = record empty_db {
  operations = (1, new_operation request 1 1) ∷ [];
  operational_signals = (5, signal) ∷ [];
}

abbrev lost : OperationError
lost = record { code = "lost"; message = "lost" }

abbrev snapshot : OperationSnapshot
snapshot = record {
  request = request;
  risk = record { evidence = none; assessment = none; approval_binding = none };
  plan = none;
  work_order_payload = [];
}

abbrev failed_operation : Operation
failed_operation = changed_operation (Arguments.failed lost) snapshot 9 (new_operation request 1 1)

abbrev db_failed : Db
db_failed =
    changed_db 1 (Arguments.failed lost) (stamp 9) (new_operation request 1 1) snapshot
      (Arguments.failed lost).payload db_investigated

terminal_closes_signals_example :
    (close_signal SignalStatus.attention_required 9 signal).status ≡ SignalStatus.attention_required
unfolding run Methods.mark_failed transition get update update_where has_sequence
    OperationStatus-discrete
terminal_closes_signals_example =
    terminal_closes_signals hash_json (Call.mark_failed lost) 1 5 (stamp 9) db_investigated
      db_failed failed_operation OperationStatus.failed SignalStatus.attention_required
      (close_signal SignalStatus.attention_required 9 signal) refl refl refl refl refl refl
