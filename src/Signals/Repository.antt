-- ===== src/Signals/Repository.antt =====
-- `SignalRepository`: the operations that write, and `load`.
use opercerta.Common.{
  ℕ, ◌+◌, Bool, true, false, not, ◌||◌, Option, none, some, [], ◌∷◌, ◌==◌, if◌then◌else◌, decide,
  ℕ_discrete, String-discrete,
}
use opercerta.Domain.Status.{OperationStatus}
use opercerta.Domain.Errors.{
  Uuid, Result, ok, err, signal_not_found, signal_retry_not_allowed, integrity_error, raise_if,
}
use opercerta.Domain.Contracts.{is_none}
use opercerta.Domain.Signals.{SignalDraft, derive_signal_dedup_key, derive_signal_retry_dedup_key}
use opercerta.Store.Table.{Table, get, insert, find_row}
use opercerta.Store.Schema.{Operation, Signal, SignalStatus, DedupKey, Db}
use opercerta.Store.Tx.{Tx, lift, query, modify, pure, ◌>>=◌, ◌>>◌}
use opercerta.Operations.Transition.{signal_status_for_operation_terminal}

unfoldable pub DedupKey-discrete : Discrete DedupKey
DedupKey-discrete = hlevel (ℕ_discrete, String-discrete)

unfoldable pub SignalStatus-discrete : Discrete SignalStatus
SignalStatus-discrete = hlevel

abbrev pub has_key : DedupKey → Signal → Bool
has_key key s = decide (DedupKey-discrete s.dedup_key key)

abbrev same_id : Uuid → Option Uuid → Bool
same_id id none = false
same_id id (some j) = j == id

-- `predecessor_signal_id == id`, which is not true of a null
abbrev pub follows : Uuid → Signal → Bool
follows id s = same_id id s.predecessor_signal_id

-- `select … where dedup_key == key`
unfoldable pub find_key : DedupKey → Table Signal → Option (Uuid × Signal)
find_key key signals = find_row (has_key key) signals

-- `select … where predecessor_signal_id == id`
unfoldable pub find_successor : Uuid → Table Signal → Option (Uuid × Signal)
find_successor id signals = find_row (follows id) signals

abbrev pub detected_signal : SignalDraft → Signal
detected_signal d = record {
  dedup_key = derive_signal_dedup_key d;
  signal_type = d.signal_type;
  object_type = d.object_type;
  object_id = d.object_id;
  source = d.source;
  severity = d.severity;
  reason_code = d.reason_code;
  facts_hash = d.facts_hash;
  facts = d.facts;
  status = SignalStatus.open_;
  operation_id = none;
  predecessor_signal_id = none;
  detected_at = d.detected_at;
  updated_at = d.detected_at;
  resolved_at = none;
}

abbrev add : Uuid → Signal → Db → Db
add id s db = record db { operational_signals = insert id s db.operational_signals }

-- `insert … on_conflict_do_nothing`, and the row that is there where there was a conflict
abbrev insert_or_existing : Uuid → Signal → Option (Uuid × Signal) → Tx (Uuid × Signal)
insert_or_existing id s (some row) = pure row
insert_or_existing id s none = modify (add id s) >> pure (id, s)

-- the id comes from `uuid4`
unfoldable pub upsert_detected : SignalDraft → Uuid → Tx (Uuid × Signal)
upsert_detected draft id = do
  existing ← query (λ db. ok (find_key (derive_signal_dedup_key draft) db.operational_signals))
  insert_or_existing id (detected_signal draft) existing

unfoldable pub load : Uuid → Db → Result (Uuid × Signal)
load id db = elim (get id db.operational_signals) [
  | some s ↦ ok (id, s)
  | none ↦ err (signal_not_found id)
]

-- the copy of a signal that its retry is detected by
abbrev pub successor_signal : Uuid → Signal → ℕ → Signal
successor_signal predecessor s at = record s {
  dedup_key = derive_signal_retry_dedup_key predecessor;
  status = SignalStatus.open_;
  operation_id = none;
  predecessor_signal_id = some predecessor;
  detected_at = at;
  updated_at = at;
  resolved_at = none;
}

-- the unique constraints on the key and on the predecessor
unfoldable pub is_clash : Uuid → DedupKey → Table Signal → Bool
is_clash predecessor key signals =
    not (is_none (find_key key signals)) || not (is_none (find_successor predecessor signals))

abbrev pub needs_attention : SignalStatus → Bool
needs_attention SignalStatus.attention_required = true
needs_attention _ = false

abbrev required_signal : Uuid → Option Signal → Result Signal
required_signal id none = err (signal_not_found id)
required_signal id (some s) = ok s

unfoldable pub insert_successor : Uuid → Uuid → Signal → Tx (Uuid × Signal)
unfolding is_clash
insert_successor predecessor id s = do
  query (λ db. raise_if (is_clash predecessor s.dedup_key db.operational_signals) integrity_error)
  modify (add id s)
  pure (id, s)

abbrev existing_or_insert : Option (Uuid × Signal) → Uuid → Uuid → Signal → Tx (Uuid × Signal)
existing_or_insert (some row) predecessor id s = pure row
existing_or_insert none predecessor id s = insert_successor predecessor id s

unfoldable pub create_successor : Uuid → ℕ → Uuid → Tx (Uuid × Signal)
unfolding insert_successor
create_successor predecessor at id = do
  s ← query (λ db. required_signal predecessor (get predecessor db.operational_signals))
  lift (raise_if (not (needs_attention s.status)) (signal_retry_not_allowed predecessor))
  existing ← query (λ db. ok (find_successor predecessor db.operational_signals))
  existing_or_insert existing predecessor id (successor_signal predecessor s at)

-- the status of the operation that a signal is linked to
abbrev status_of : Option Operation → Option OperationStatus
status_of none = none
status_of (some op) = op.status

abbrev pub linked_status : Option Uuid → Db → Option OperationStatus
linked_status none db = none
linked_status (some id) db = status_of (get id db.operations)

-- what the loop makes of a status; the rows that the `select` leaves out have no target either
abbrev pub target_of : Option OperationStatus → Option SignalStatus
target_of none = none
target_of (some s) = signal_status_for_operation_terminal s

abbrev resolved_at : SignalStatus → ℕ → Option ℕ
resolved_at SignalStatus.resolved at = some at
resolved_at _ at = none

abbrev repaired : SignalStatus → ℕ → Signal → Signal
repaired target at s = record s {
  status = target;
  updated_at = at;
  resolved_at = resolved_at target at;
}

-- one turn of the loop, and whether it counts
abbrev pub repair : Option SignalStatus → ℕ → Signal → Signal
repair none at s = s
repair (some target) at s =
    if decide (SignalStatus-discrete s.status target) then s else repaired target at s

abbrev pub is_repaired : Option SignalStatus → Signal → Bool
is_repaired none s = false
is_repaired (some target) s = not (decide (SignalStatus-discrete s.status target))

unfoldable pub repair_all : Db → ℕ → Table Signal → Table Signal
repair_all db at [] = []
repair_all db at ((k, s) ∷ t) =
    (k, repair (target_of (linked_status s.operation_id db)) at s) ∷ repair_all db at t

unfoldable pub repair_count : Db → Table Signal → ℕ
repair_count db [] = 0
repair_count db ((k, s) ∷ t) =
    (if is_repaired (target_of (linked_status s.operation_id db)) s then 1 else 0)
    + repair_count db t

unfoldable pub reconcile_terminal_links : ℕ → Tx ℕ
unfolding repair_all repair_count
reconcile_terminal_links at db = ok (
  repair_count db db.operational_signals,
  record db { operational_signals = repair_all db at db.operational_signals },
)
