-- ===== src/Store/Tx.antt =====
-- A transaction: `async with engine.begin()` commits what its body wrote when the body returns, and
-- rolls back when it raises.
pub mod Inversion
use opercerta.Common.{
  ℕ, ◌≡◌, refl, Bool, true, false, Option, none, some, List, [], ◌∷◌, ◌==◌, ◌&&◌, any,
}
use opercerta.Domain.Errors.{Uuid, Error, Result, ok, err, integrity_error, raise_if}
use opercerta.Store.Schema.{Db, AuditEvent}

-- a body, with the rows as it finds them
abbrev pub Tx : Type 0 → Type 0
Tx A = Db → Result (A × Db)

module _ {A B : Type 0} where
  abbrev pub continue : Result (A × Db) → (A → Tx B) → Result (B × Db)
  continue (ok (a, db)) f = f a db
  continue (err e) f = err e

module _ {A B : Type 0} where
  infixl 5 ◌>>=◌ ◌>>◌
  abbrev pub ◌>>=◌ : Tx A → (A → Tx B) → Tx B
  ◌>>=◌ m f db = continue (m db) f

  abbrev pub ◌>>◌ : Tx A → Tx B → Tx B
  m >> k = m >>= λ _. k

module _ {A : Type 0} where
  abbrev pub pure : A → Tx A
  pure a db = ok (a, db)

  abbrev returned : Result A → Db → Result (A × Db)
  returned (ok a) db = ok (a, db)
  returned (err e) db = err e

  -- code that does not touch the database
  abbrev pub lift : Result A → Tx A
  lift r db = returned r db

  -- a body that only reads
  abbrev pub query : (Db → Result A) → Tx A
  query f db = returned (f db) db

  -- the rows after the transaction, beside what it returned or raised
  unfoldable pub commit : Tx A → Db → Result A × Db
  commit m db = elim (m db) [ ok (a, db') ↦ (ok a, db') | err e ↦ (err e, db) ]

abbrev pub modify : (Db → Db) → Tx (Unit {0})
modify f db = ok (tt, f db)

-- the unique constraint on the operation and the sequence
unfoldable pub has_sequence : Uuid → ℕ → List AuditEvent → Bool
has_sequence id n events = any (λ (e : AuditEvent). e.operation_id == id && e.sequence == n) events

-- `insert(audit_events)`; ids from `uuid4` do not clash
unfoldable pub insert_audit_event : AuditEvent → Tx (Unit {0})
unfolding has_sequence
insert_audit_event e = do
  query (λ db. raise_if (has_sequence e.operation_id e.sequence db.audit_events) integrity_error)
  modify (λ db. record db { audit_events = e ∷ db.audit_events })
