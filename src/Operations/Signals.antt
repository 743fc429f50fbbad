-- ===== src/Operations/Signals.antt =====
-- The signals that are linked to an operation, behind a method of the operation repository.
use opercerta.Common.{ℕ, ◌≡◌, refl, true, some, ==_iff, arith, inl, inr}
use opercerta.Domain.Status.{OperationStatus}
use opercerta.Domain.Errors.{Uuid, ok}
use opercerta.Domain.Values.{Digest}
use opercerta.Domain.Facts.{EvidenceContent}
use opercerta.Store.Table.{get, update_where, get-update_where}
use opercerta.Store.Schema.{Operation, Signal, SignalStatus, Db}
use opercerta.Operations.Transition.{
  Transition, Stamp, signal_status_for_operation_terminal, is_linked, close_signal,
}
use opercerta.Operations.Transition.Inversion.{Changed, transition-ok}
use opercerta.Operations.Calls.{Call, run, run-IsCall, IsCall-WritesEvidence}
use opercerta.Operations.Frame.{operations_after}

closed_status : (g : SignalStatus) (now : ℕ) (x : Signal) → (close_signal g now x).status ≡ g
closed_status SignalStatus.resolved now x = refl
closed_status SignalStatus.open_ now x = refl
closed_status SignalStatus.investigating now x = refl
closed_status SignalStatus.attention_required now x = refl

closed_link :
    (g : SignalStatus) (now : ℕ) (x : Signal) → (close_signal g now x).operation_id ≡ x.operation_id
closed_link SignalStatus.resolved now x = refl
closed_link SignalStatus.open_ now x = refl
closed_link SignalStatus.investigating now x = refl
closed_link SignalStatus.attention_required now x = refl

module _ (id : Uuid) (t : Transition) (at : Stamp) (db db' : Db) (c : Changed id t at db db')
    (g : SignalStatus) (closes : signal_status_for_operation_terminal t.target ≡ some g) where
  signals_after :
      db'.operational_signals
      ≡ update_where (is_linked id) (close_signal g at.now) c.written.operational_signals
  signals_after = rw (c.rows, closes) refl

  pub Changed_signals :
      (k : Uuid) (x : Signal)
      → get k db'.operational_signals ≡ some x
      → x.operation_id ≡ some id
      → x.status ≡ g
  Changed_signals k x found linked = ground (
    arith,
    signals_after,
    get-update_where k (is_linked id) (close_signal g at.now) c.written.operational_signals,
    closed_status g at.now,
    closed_link g at.now,
    ==_iff id id,
  )

module _ (hash_json : EvidenceContent → Digest) where
  -- When a method of the operation repository has changed an operation and its status is a
  -- terminal one, every signal that is linked to the operation has the status that this terminal
  -- status calls for: resolved, or attention required.
  pub terminal_closes_signals :
      (call : Call) (id k : Uuid) (at : Stamp) (db db' : Db) (op : Operation) (s : OperationStatus)
      (g : SignalStatus) (x : Signal)
      → run hash_json call id at db ≡ ok (true, db')
      → get id db'.operations ≡ some op
      → op.status ≡ some s
      → signal_status_for_operation_terminal s ≡ some g
      → get k db'.operational_signals ≡ some x
      → x.operation_id ≡ some id
      → x.status ≡ g
  terminal_closes_signals call id k at db db' op s g x h found status closes row linked =
      let (t, is_call, e) = run-IsCall hash_json call id at db db' true h in
      elim (transition-ok id t at db db' true e) [
        | inr (b, _, _) ↦ absurd (cc)
        | inl (_, c) ↦
            Changed_signals id t at db db' c g
              (ground (
                arith,
                operations_after id t at db db' (IsCall-WritesEvidence hash_json id is_call) c id,
                ==_iff id id,
              ))
              k x row linked
      ]
