-- ===== src/Signals/Kept.antt =====
-- The keys of the signals behind the transactions of the operation repository.
use opercerta.Common.{ℕ, ◌≡◌, refl, Option, none, some, arith, inl, inr, Option-cases}
use opercerta.Domain.Errors.{Uuid}
use opercerta.Domain.Contracts.{OperationRequest}
use opercerta.Store.Table.{update_where}
use opercerta.Store.Schema.{Signal, SignalStatus, Db}
use opercerta.Operations.Transition.{
  Transition, Stamp, signal_status_for_operation_terminal, is_linked, close_signal,
}
use opercerta.Operations.Transition.Inversion.{Changed}
use opercerta.Operations.Frame.{WritesEvidence}
use opercerta.Operations.Create.{claimed}
use opercerta.Operations.Create.Rows.{created_db}
use opercerta.Signals.Keys.{SameKeys, SameKeys-refl, SameKeys-update, SameKeys-update_where}

closed_key :
    (g : SignalStatus) (now : ℕ) (s : Signal) → (close_signal g now s).dedup_key ≡ s.dedup_key
closed_key g now s = ground arith

closed_predecessor :
    (g : SignalStatus) (now : ℕ) (s : Signal)
    → (close_signal g now s).predecessor_signal_id ≡ s.predecessor_signal_id
closed_predecessor g now s = ground arith

module _ (id : Uuid) (t : Transition) (at : Stamp) (db db' : Db)
    (frame : WritesEvidence t.transaction_write) (c : Changed id t at db db') where
  signals_kept : c.written.operational_signals ≡ db.operational_signals
  signals_kept = (frame.at db c.written c.wrote).operational_signals

  -- where the target closes no signal, and where it does
  rows_open :
      signal_status_for_operation_terminal t.target ≡ none
      → db'.operational_signals ≡ db.operational_signals
  rows_open e = rw (c.rows, e) signals_kept

  rows_closed :
      (g : SignalStatus)
      → signal_status_for_operation_terminal t.target ≡ some g
      → db'.operational_signals
        ≡ update_where (is_linked id) (close_signal g at.now) db.operational_signals
  rows_closed g e = rw (c.rows, e, signals_kept) refl

  pub Changed-SameKeys : SameKeys db.operational_signals db'.operational_signals
  Changed-SameKeys = elim (Option-cases (signal_status_for_operation_terminal t.target)) [
    | inl e ↦ rw (rows_open e) (SameKeys-refl db.operational_signals)
    | inr (g, e) ↦ rw (rows_closed g e) (
        SameKeys-update_where (close_signal g at.now) (closed_key g at.now)
          (closed_predecessor g at.now) (is_linked id) db.operational_signals)
  ]

pub create-SameKeys :
    (request : OperationRequest) (id : Uuid) (at : Stamp) (db : Db)
    → SameKeys db.operational_signals (created_db request id at db).operational_signals
create-SameKeys request id at db = go request.trigger_signal_id refl
  where
    go :
        (o : Option Uuid)
        → request.trigger_signal_id ≡ o
        → SameKeys db.operational_signals (created_db request id at db).operational_signals
    go none e = rw e (SameKeys-refl db.operational_signals)
    go (some s) e =
        rw e (SameKeys-update (claimed id at.now) (λ x. refl) (λ x. refl) s db.operational_signals)
