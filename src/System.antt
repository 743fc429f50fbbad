-- ===== src/System.antt =====
-- The repositories together. `Step` has the transactions of the repositories that the service runs;
-- `Transaction` has those of operation_state_repository.py as well, which only the reliability graph
-- calls. `create_or_get` commits what `create_or_get_once` does.
pub mod Invariant
pub mod Preservation
pub mod Orders
pub mod Transactions
pub mod Decided
pub mod Detected
pub mod Reached
pub mod Lifecycle
pub mod Retries
pub mod Expired
pub mod Decisions
pub mod Kept
use opercerta.Common.{ℕ, ◌≡◌, Bool, Option, none, some}
use opercerta.Domain.Errors.{Uuid, ok}
use opercerta.Domain.Values.{JsonObject, Digest}
use opercerta.Domain.Contracts.{OperationRequest}
use opercerta.Domain.Scenarios.{ApprovalBinding}
use opercerta.Domain.Facts.{Bundle, EvidenceContent}
use opercerta.Operations.EvidenceRows.{EvidenceStamp, save_bundle}
use opercerta.Operations.States.{StateCall, OperationTransitionResult, mark}
use opercerta.Store.Table.{get}
use opercerta.Store.Schema.{Db, empty_db}
use opercerta.Operations.Transition.{Stamp}
use opercerta.Operations.Create.{create}
use opercerta.Operations.Calls.{Call, run}
use opercerta.Approvals.{ApprovalCommand, ApprovalRecord, Submission, submit_once, submit_bound}
use opercerta.Domain.Signals.{SignalDraft}
use opercerta.Store.Schema.{Signal}
use opercerta.Signals.Repository.{upsert_detected, create_successor, reconcile_terminal_links}
use opercerta.WorkOrders.{WorkOrderWriteResult, create_or_get_once}

module _ (hash_json : EvidenceContent → Digest) where
  -- One transaction that commits. The ids that it draws from `uuid4` are not in use.
  pub data Step (db db' : Db) : Type 0 where
    created :
        (request : OperationRequest) (id r : Uuid) (at : Stamp)
        → get id db.operations ≡ none
        → create request id at db ≡ ok (r, db')
        → Step db db'
    called :
        (c : Call) (id : Uuid) (at : Stamp) (b : Bool)
        → run hash_json c id at db ≡ ok (b, db')
        → Step db db'
    submitted :
        (command : ApprovalCommand) (k : Uuid) (at : Stamp) (r : ApprovalRecord)
        → get k db.approvals ≡ none
        → submit_once command k at db ≡ ok (r, db')
        → Step db db'
    submitted_bound :
        (command : ApprovalCommand) (expected : ApprovalBinding) (k : Uuid) (now : ℕ)
        (event_id : Uuid) (s : Submission)
        → get k db.approvals ≡ none
        → submit_bound command expected k now event_id db ≡ ok (s, db')
        → Step db db'
    ordered :
        (id : Uuid) (payload : JsonObject) (digest : Digest) (k : Uuid) (at : Stamp)
        (r : WorkOrderWriteResult)
        → get k db.work_orders ≡ none
        → create_or_get_once id payload digest k at db ≡ ok (r, db')
        → Step db db'
    detected :
        (draft : SignalDraft) (k : Uuid) (r : Uuid × Signal)
        → get k db.operational_signals ≡ none
        → upsert_detected draft k db ≡ ok (r, db')
        → Step db db'
    retried :
        (p : Uuid) (now : ℕ) (k : Uuid) (r : Uuid × Signal)
        → get k db.operational_signals ≡ none
        → create_successor p now k db ≡ ok (r, db')
        → Step db db'
    reconciled : (now n : ℕ) → reconcile_terminal_links now db ≡ ok (n, db') → Step db db'
    saved :
        (id : Uuid) (bundle : Bundle) (rows : EvidenceStamp)
        → save_bundle hash_json id bundle rows db ≡ ok (tt, db')
        → Step db db'

  -- one that may also be of the state repository
  pub data Transaction (db db' : Db) : Type 0 where
    of_service : Step db db' → Transaction db db'
    of_states :
        (c : StateCall) (id : Uuid) (at : Stamp) (r : OperationTransitionResult)
        → mark c id at db ≡ ok (r, db')
        → Transaction db db'

  -- any transactions of the service, from some rows on
  pub data Onward (db : Db) : Db → Type 0 where
    now_ : Onward db db
    and_ : {d d' : Db} → Onward db d → Step d d' → Onward db d'

  -- the rows after any transactions, from an empty database
  pub data Reachable : Db → Type 0 where
    start : Reachable empty_db
    then_ : {db db' : Db} → Reachable db → Step db db' → Reachable db'
