-- ===== src/Lib.antt =====
-- Opercerta: the approval, execution and recovery of operations, and the rules that decide them.
--
-- A request becomes an operation. Evidence is gathered for it (a stock, a machine, a task, each
-- with a policy), an assessment of the evidence decides whether anything is to be done, a plan is
-- built from it and bound to the evidence by hashes, an approver decides on the binding, and a work
-- order is created once. Every move of an operation is a transaction on the tables of a database,
-- with an audit event. The directory of the source is src/opercerta.
--
--   Common         Boolean tests, lists and integers over the native numbers
--   Domain         domain/recovery.py (Status, Recovery), domain/errors.py (Errors),
--                  domain/contracts.py, domain/scenarios.py, domain/replenishment.py,
--                  domain/maintenance.py, domain/task_recovery.py, domain/operation_state.py
--                  (Facts), domain/signals.py (Signals); `Values` has the timestamps and the JSON
--                  facts
--   Store          infrastructure/db/schema.py: the rows, tables as lists of rows under their keys,
--                  and transactions as functions of the rows that may fail
--   Operations     infrastructure/db/replenishment_operation_repository.py: `create`, the `mark_`
--                  and `record_` methods, and the `_transition` beneath them; EvidenceRows is
--                  infrastructure/db/evidence_repository.py, Expiry
--                  application/approval_expiry.py with the query behind it, and States the `mark_`
--                  methods of infrastructure/db/operation_state_repository.py
--   Approvals      infrastructure/db/approval_repository.py
--   WorkOrders     infrastructure/db/work_order_repository.py
--   Signals        infrastructure/db/signal_repository.py: Repository has the operations that write
--                  and `load`, Keys the unique keys, Retry and Scans what is made once, Reconciled
--                  the repair of the links, Lineage the order of a case's signals; Detector is
--                  application/signal_detection.py
--   Agent          the agent's boundary: domain/agent.py (Contracts), agent/tool_policy.py (Policy),
--                  agent/harness.py (Harness), agent/tool_executor.py (Executor), and Loop, the
--                  nodes and edges of workflow/inventory_agent_root_graph.py from the start to
--                  `calculate_policy`, with its state, and with a node as a function of the state
--   Recovery       workflow/recovery_coordinator.py, with the view that it reads of
--                  infrastructure/db/operation_state_repository.py
--   Audit, Cycles  the invariants of the events and of the approval cycles
--   System         `Step`, the transactions of the operation, evidence, approval, work order and
--                  signal repositories as one relation, and what holds in every state that it
--                  reaches; Lifecycle has the diagram of the statuses, and Decisions, Kept and
--                  Retries what a decision and a retry leave for all later states; `Transaction`
--                  adds the methods of States
--   Tests          concrete inputs
--
-- A method of a repository is a function with the method's name, without its leading underscore. A
-- method whose body is one `_transition` has its keyword arguments in Operations/Arguments and its
-- body in Operations/Methods. A transaction takes the rows and returns a value and the rows, or an
-- error; an error keeps no row that the transaction wrote, as the rollback of `engine.begin()`.
-- The row locks (`FOR UPDATE`) put the transactions on one operation in a sequence, so the step
-- relation interleaves whole transactions.
--
-- The `mark_` methods of infrastructure/db/operation_state_repository.py commit on their own, check
-- neither the approval nor the work order that they are given, and update no signal. Only the graph
-- of workflow/reliability_graph.py calls them. They are no part of `Step`, so what is said of the
-- reachable states is said of a service that runs without that graph. `Transaction` has them.
--
-- Conventions. A UUID is a number; those that the source draws from `uuid4` are arguments, and the
-- step relation takes them to be new as keys of their table. A timestamp is a number of
-- microseconds, with or without a time zone. A JSON column holds the value that its model
-- validates, and `none` where validation fails; a status is `none` where the text names no status.
-- A string that pydantic strips is taken stripped, except where the source strips it itself.
-- An idempotency key is its operation's id, since the source puts one prefix before every id. The
-- unique constraints on the events and on the work orders are checks; the one on the approvals is
-- left to the code's own query. The dedup key of a signal is a value with its kind and its parts in
-- place of the text; ids compare as their texts do. The arguments of a tool call are an object of
-- JSON scalars with its keys in order, so equal dictionaries are equal.
-- A node that parses a field of the state which is not there raises a `ValueError`.
--
-- Fuel. The loops over rows, calls and tuples are structural. Two loops take fuel: the inner loop of
-- a lineage, with one turn for each signal, since a turn visits a signal that was not visited; and
-- the loop of the agent, with one turn beyond the budget of model calls, since each turn but the
-- last makes one. That this is enough is a result for both.
--
-- Parameters. `Runtime` has SHA-256 over the canonical JSON, `isoformat` and `str.strip`;
-- `hash_json` is the hash of a record of evidence. `Setup` has the arguments of the agent's graph:
-- its budget and switches, what the gateways of the model and of the reads answer (an answer, an
-- error that the graph catches, or another one), pydantic's check of an identifier, `sorted`, and
-- what the first call of the operation repository comes to. `Checkpoint` has what the checkpointer
-- tells of a graph, and `is_digest` is the test for 64 hexadecimal digits. `IsCalm` says that no
-- gateway raises an error which the graph lets through. No law of the others is assumed.
--
-- Not modelled: the ranges and patterns of the pydantic fields beyond those that the validators
-- check, the overflow of `datetime` and `timedelta`, the keys of the audit events, foreign keys, the
-- lists of the signals and the other read views of the operations, the agent's graph from
-- `calculate_policy` on, the other graphs of the workflow, the API, the evaluation, the caches and
-- gateways, the observability and the web client, which call what is modelled here or stand beside
-- it.
pub mod Common
pub mod Domain
pub mod Store
pub mod Operations
pub mod Approvals
pub mod WorkOrders
pub mod Audit
pub mod Cycles
pub mod Signals
pub mod Agent
pub mod System
pub mod Tests
pub mod Recovery
