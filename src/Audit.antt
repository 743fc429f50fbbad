-- ===== src/Audit.antt =====
-- The audit trail of an operation: the numbers of its events, and their count in its row.
pub mod Methods
use opercerta.Common.{
  ℕ, zero, suc, ◌+◌, ◌≤◌, ◌<◌, ◌≡◌, refl, ap, Bool, true, false, ◌&&◌, Option, none, some, List, [],
  ◌∷◌, ◌==◌, ==_iff, any, arith, if◌then◌else◌,
}
use native.Mathlib.Numerals.{add-one}
use opercerta.Domain.Errors.{Uuid, ok, raise_if}
use opercerta.Store.Table.{Table, get}
use opercerta.Store.Schema.{Operation, AuditEvent, Db}
use opercerta.Store.Tx.{has_sequence}

-- the numbers of an operation's events, newest first
unfoldable pub sequences : Uuid → List AuditEvent → List ℕ
sequences id [] = []
sequences id (e ∷ es) =
    if e.operation_id == id then e.sequence ∷ sequences id es else sequences id es

-- n, …, 2, 1
unfoldable pub countdown : ℕ → List ℕ
countdown zero = []
countdown (suc n) = suc n ∷ countdown n

abbrev pub counted : Option Operation → ℕ
counted none = 0
counted (some op) = op.next_audit_sequence

-- `next_audit_sequence` of an operation, and 0 where there is none
abbrev pub event_count : Uuid → Table Operation → ℕ
event_count id operations = counted (get id operations)

pub record IsDense (operations : Table Operation) (events : List AuditEvent) : Type 0 where
  pub numbered : (id : Uuid) → sequences id events ≡ countdown (event_count id operations)

above_countdown : (n k : ℕ) → n < k → any (λ (m : ℕ). m == k) (countdown n) ≡ false
unfolding countdown
above_countdown zero k h = refl
above_countdown (suc n) k h = ground (arith, above_countdown n k)

has_sequence-sequences :
    (id : Uuid) (k : ℕ) (es : List AuditEvent)
    → has_sequence id k es ≡ any (λ (m : ℕ). m == k) (sequences id es)
unfolding has_sequence sequences
has_sequence-sequences id k [] = refl
has_sequence-sequences id k (e ∷ es) = ground (arith, has_sequence-sequences id k es)

-- In a dense trail the next number is free: the unique constraint never fires.
pub has_sequence_next :
    (operations : Table Operation) (es : List AuditEvent) (id : Uuid)
    → IsDense operations es
    → has_sequence id (event_count id operations + 1) es ≡ false
has_sequence_next operations es id d =
    rw (has_sequence-sequences, d.numbered id)
      (above_countdown (event_count id operations) (event_count id operations + 1) (omega arith))

countdown-add_one : (n : ℕ) → countdown (n + 1) ≡ (n + 1) ∷ countdown n
unfolding countdown
countdown-add_one n = rw add-one refl

-- One more event with the next number, and one more in the row.
pub IsDense-append :
    (operations operations' : Table Operation) (es : List AuditEvent) (e : AuditEvent)
    → ((j : Uuid)
        → event_count j operations'
          ≡ (if e.operation_id == j then e.sequence else event_count j operations))
    → e.sequence ≡ event_count e.operation_id operations + 1
    → IsDense operations es
    → IsDense operations' (e ∷ es)
unfolding sequences
IsDense-append operations operations' es e rows next d = record {
  numbered = λ j. ground (
    arith,
    rows j,
    d.numbered j,
    ==_iff e.operation_id j,
    countdown-add_one (event_count e.operation_id operations),
  );
}
