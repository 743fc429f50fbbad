-- ===== src/Tests/Detections.antt =====
-- The theorems on the signals, at a shortage that is detected, retried and reconciled.
use opercerta.Common.{
  pos, arith, ◌⊎◌, ◌==◌, ℕ, if◌then◌else◌, ◌≡◌, refl, true, none, some, [], ◌∷◌, List,
}
use opercerta.Domain.Errors.{Result, Uuid, ok, err, signal_not_found, signal_retry_not_allowed}
use opercerta.Domain.Status.{OperationStatus, OperationStatus-discrete}
use mathlib.Core.Bool.{decide}
use opercerta.Common.Tests.{String-discrete}
use opercerta.Domain.Contracts.{ObjectType, ObjectType-discrete}
use opercerta.Domain.Values.{aware, number, require_timezone}
use opercerta.Domain.Facts.{Assessment}
use opercerta.Domain.Signals.{SignalDraft, build_signal_draft}
use opercerta.Signals.Scans.{detected_once}
use opercerta.Store.Schema.{Signal, SignalStatus, SignalType, SignalSeverity, Db, empty_db}
use opercerta.Store.Table.{get, insert, update, update_where, find_row}
use opercerta.Store.Tx.{has_sequence}
use opercerta.Operations.Methods
use opercerta.Operations.Calls.{Call, run}
use opercerta.Operations.Create.{new_operation, create, check_trigger}
use opercerta.Operations.Transition.{transition}
use opercerta.Domain.Contracts.{OperationRequest}
use opercerta.Domain.Facts.{OperationError}
use opercerta.Signals.Repository.{
  repair_all, repair_count, needs_attention, create_successor, upsert_detected,
  reconcile_terminal_links, find_key, find_successor, detected_signal, successor_signal,
  SignalStatus-discrete,
}
use opercerta.Signals.Keys.{IsKeyed}
use opercerta.Signals.Reconciled.{target, reconcile_terminal_links_lem}
use opercerta.Signals.Lineage.{Row, ordered_lineage, chase, Chased}
use opercerta.Signals.Lineage.Chase.{count}
use opercerta.Signals.Lineage.Complete.{chase-Chased, ordered_lineage-count}
use opercerta.Signals.Retry.{retried, with_signal, create_successor_outcomes}
use opercerta.System.{Onward, Reachable, start, then_, detected, created, called}
use opercerta.System.Retries.{ReturnsOnly, retry_once}
use opercerta.Tests.Data.{assessment, hash_json, request, stamp}

abbrev draft : SignalDraft
draft = record {
  signal_type = SignalType.inventory_shortage;
  object_type = ObjectType.inventory;
  object_id = "SKU-1";
  source = "demo_watchlist.v1";
  severity = SignalSeverity.medium;
  reason_code = "inventory_below_reorder_point";
  facts_hash = "f1";
  facts = [];
  detected_at = 1;
}

abbrev triggered : OperationRequest
triggered = record request { trigger_signal_id = some 5 }

abbrev lost : OperationError
lost = record { code = "lost"; message = "lost" }

abbrev db_detected : Db
db_detected = with_signal 5 (detected_signal draft) empty_db

abbrev stock_draft : ℕ → SignalDraft
stock_draft at = record {
  signal_type = SignalType.inventory_shortage;
  object_type = ObjectType.inventory;
  object_id = "SKU-1";
  source = "demo_watchlist.v1";
  severity = SignalSeverity.medium;
  reason_code = "inventory_below_reorder_point";
  facts_hash = "d1";
  facts =
      ("available_quantity", number (pos 5))
      ∷ ("recommended_quantity", number (pos 15))
      ∷ ("reorder_point", number (pos 10))
      ∷ ("target_stock", number (pos 20))
      ∷ [];
  detected_at = at;
}

abbrev db_short : Db
db_short = with_signal 5 (detected_signal (stock_draft 1)) empty_db

detected_once_example :
    upsert_detected (stock_draft 8) 6 db_short ≡ ok ((5, detected_signal (stock_draft 1)), db_short)
unfolding build_signal_draft require_timezone upsert_detected find_key find_row insert
detected_once_example =
    detected_once (Assessment.replenishment assessment) (aware 1) (aware 8) (stock_draft 1)
      (stock_draft 8) 5 6 empty_db db_short (5, detected_signal (stock_draft 1)) refl refl refl

abbrev rows_of : {A : Type 0} → Result (A × Db) → Db
rows_of (ok (_, db)) = db
rows_of (err _) = empty_db

-- the shortage becomes an operation, which fails
unfoldable db_claimed : Db
db_claimed = rows_of (create triggered 1 (stamp 2) db_detected)

unfoldable db_lost : Db
db_lost = rows_of (run hash_json (Call.mark_failed lost) 1 (stamp 3) db_claimed)

reached_detected : Reachable hash_json db_detected
unfolding upsert_detected find_key find_row insert get
reached_detected = then_ start (detected draft 5 (5, detected_signal draft) refl refl)

reached_lost : Reachable hash_json db_lost
unfolding db_claimed db_lost create check_trigger run Methods.mark_failed transition get insert
    update update_where has_sequence OperationStatus-discrete decide ObjectType-discrete
    String-discrete
reached_lost =
    then_ (then_ reached_detected (created triggered 1 1 (stamp 2) refl refl))
      (called (Call.mark_failed lost) 1 (stamp 3) true refl)

abbrev lost_signal : Signal
lost_signal = record (detected_signal draft) {
  status = SignalStatus.attention_required;
  operation_id = some 1;
  updated_at = 3;
}

retry_once_example :
    (row : Uuid × Signal) × (db' : Db) × (create_successor 5 9 6 db_lost ≡ ok (row, db'))
    × (find_successor 5 db'.operational_signals ≡ some row)
    × ((d : Db) → Onward hash_json db' d → ReturnsOnly 5 row.0 d)
unfolding db_claimed db_lost create check_trigger run Methods.mark_failed transition get insert
    update update_where has_sequence OperationStatus-discrete decide ObjectType-discrete
    String-discrete
retry_once_example = retry_once hash_json db_lost 5 lost_signal 9 6 reached_lost refl refl refl

abbrev db_attention : Db
db_attention = record empty_db { operational_signals = (5, lost_signal) ∷ [] }

attention-IsKeyed : IsKeyed db_attention.operational_signals
unfolding get find_key find_row
attention-IsKeyed = (refl, refl, λ p. (λ h. absurd cc, λ h. absurd cc), tt)

create_successor_outcomes_example :
    ((get 5 db_attention.operational_signals ≡ none)
      × (create_successor 5 9 6 db_attention ≡ err (signal_not_found 5)))
    ⊎ ((s : Signal) × (get 5 db_attention.operational_signals ≡ some s)
        × (create_successor 5 9 6 db_attention ≡ (
            if needs_attention s.status
            then ok
                (retried 5 9 6 s (find_successor 5 db_attention.operational_signals) db_attention)
            else err (signal_retry_not_allowed 5))))
create_successor_outcomes_example = create_successor_outcomes 5 9 6 db_attention attention-IsKeyed

abbrev next : Signal
next = successor_signal 5 lost_signal 9

-- the signal that a late decision leaves under investigation
abbrev stale : Signal
stale = record lost_signal { status = SignalStatus.investigating }

abbrev db_stale : Db
db_stale = record empty_db {
  operations =
      (1, record (new_operation triggered 1 1) { status = some OperationStatus.expired }) ∷ [];
  operational_signals = (5, stale) ∷ [];
}

abbrev repaired_stale : Signal
repaired_stale = record lost_signal { updated_at = 9 }

abbrev db_repaired : Db
db_repaired = record db_stale { operational_signals = (5, repaired_stale) ∷ [] }

abbrev one : ℕ
one = 1

reconcile_terminal_links_lem_example :
    ((k : Uuid) (x : Signal) (g : SignalStatus)
      → get k db_repaired.operational_signals ≡ some x
      → target db_repaired x ≡ some g
      → x.status ≡ g)
    × ((at' : ℕ) → reconcile_terminal_links at' db_repaired ≡ ok (0, db_repaired))
    × (one ≡ 0 → db_repaired ≡ db_stale)
unfolding reconcile_terminal_links repair_all repair_count get SignalStatus-discrete decide
reconcile_terminal_links_lem_example = reconcile_terminal_links_lem 9 1 db_stale db_repaired refl

-- a lineage of three, and a loop that no row of it starts
abbrev third : Signal
third = successor_signal 6 next 12

abbrev lineage : List Row
lineage = (7, third) ∷ (6, next) ∷ (5, lost_signal) ∷ (8, successor_signal 8 next 13) ∷ []

ordered_lineage-count_example : count (λ (r : Row). r.0 == 7) (ordered_lineage lineage) ≡ 1
unfolding get
ordered_lineage-count_example =
    ordered_lineage-count lineage (refl, (refl, (refl, (refl, tt)))) (λ (r : Row). r.0 == 7)

first_row : (r : Row) → some (5, lost_signal) ≡ some r → get r.0 lineage ≡ some r.1
unfolding get
first_row r e = ground arith

chase-Chased_example :
    Chased lineage (some (5, lost_signal)) [] (chase 4 lineage (some (5, lost_signal)) [])
unfolding get
chase-Chased_example =
    chase-Chased lineage (refl, (refl, (refl, (refl, tt)))) (some (5, lost_signal)) [] first_row
