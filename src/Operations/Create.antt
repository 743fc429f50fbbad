-- ===== src/Operations/Create.antt =====
-- `create`: a request becomes an operation, and claims the signal that triggered it.
pub mod Rows
use opercerta.Common.{
  ℕ, String, String-discrete, Bool, true, false, not, ◌&&◌, ◌||◌, Option, none, some, [], decide,
}
use opercerta.Domain.Status.{OperationStatus}
use opercerta.Domain.Errors.{
  Uuid, Result, ok, err, signal_not_found, signal_object_mismatch, signal_already_claimed, raise_if,
  ◌>>=◌ as bind,
}
use opercerta.Domain.Contracts.{OperationRequest, ObjectType, ObjectType-discrete, is_none}
use opercerta.Domain.Facts.{OperationSnapshot}
use opercerta.Store.Table.{get, insert, update}
use opercerta.Store.Schema.{
  Operation, Signal, SignalStatus, open_, investigating, operation_received, of_request, Db,
}
use opercerta.Store.Tx.{Tx, query, modify, pure, insert_audit_event, ◌>>=◌, ◌>>◌}
use opercerta.Operations.Transition.{Stamp}

-- the row of a new operation
abbrev pub new_operation : OperationRequest → Uuid → ℕ → Operation
new_operation request id now = record {
  thread_id = id;
  request_payload = some (record {
    request = request;
    risk = record { evidence = none; assessment = none; approval_binding = none };
    plan = none;
    work_order_payload = [];
  });
  status = some OperationStatus.received;
  result_payload = none;
  error_code = none;
  approval_expires_at = none;
  approval_cycle = 0;
  next_audit_sequence = 1;
  created_at = now;
  updated_at = now;
}

abbrev same_object : Option ObjectType → Option String → Signal → Bool
same_object (some t) (some i) s =
    decide (ObjectType-discrete s.object_type t) && decide (String-discrete s.object_id i)
same_object _ _ s = false

abbrev pub is_open : SignalStatus → Bool
is_open open_ = true
is_open _ = false

-- the checks on the locked signal
abbrev claimable : Uuid → OperationRequest → Option Signal → Result (Unit {0})
claimable id request none = err (signal_not_found id)
claimable id request (some s) =
    bind
      (raise_if (not (same_object request.object_type request.object_id s))
        (signal_object_mismatch id))
      (λ _.
        raise_if (not (is_open s.status) || not (is_none s.operation_id))
          (signal_already_claimed id))

unfoldable pub check_trigger : OperationRequest → Option Uuid → Db → Result (Unit {0})
check_trigger request none db = ok tt
check_trigger request (some id) db = claimable id request (get id db.operational_signals)

abbrev pub claimed : Uuid → ℕ → Signal → Signal
claimed operation_id now s = record s {
  status = investigating;
  operation_id = some operation_id;
  updated_at = now;
}

abbrev pub claim : Option Uuid → Uuid → ℕ → Db → Db
claim none operation_id now db = db
claim (some id) operation_id now db = record db {
  operational_signals = update id (claimed operation_id now) db.operational_signals;
}

-- the new operation's id comes from `uuid4`
unfoldable pub create : OperationRequest → Uuid → Stamp → Tx Uuid
unfolding check_trigger insert_audit_event
create request operation_id at = do
  query (check_trigger request request.trigger_signal_id)
  modify (λ db. record db {
    operations = insert operation_id (new_operation request operation_id at.now) db.operations;
  })
  insert_audit_event (record {
    id = at.event_id;
    operation_id = operation_id;
    sequence = 1;
    event_type = operation_received;
    payload = of_request request;
    created_at = at.now;
  })
  modify (claim request.trigger_signal_id operation_id at.now)
  pure operation_id
