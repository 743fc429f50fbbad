-- ===== src/Store/Tx/Inversion.antt =====
-- What a step of a transaction that returned has done.
use opercerta.Common.{◌≡◌, refl, Bool, true, false, ◌∷◌, arith}
use opercerta.Domain.Errors.{Error, Result, ok, err, raise_if}
use opercerta.Store.Schema.{Db, AuditEvent}
use opercerta.Store.Tx.{Tx, continue, lift, query, has_sequence, insert_audit_event}

module _ {A : Type 0} where
  pub lift-ok :
      (r : Result A) (db db' : Db) (a : A) → lift r db ≡ ok (a, db') → (r ≡ ok a) × (db ≡ db')
  lift-ok (ok x) db db' a h = (cc, cc)
  lift-ok (err e) db db' a h = (cc, cc)

  pub query-ok :
      (q : Db → Result A) (db db' : Db) (a : A)
      → query q db ≡ ok (a, db')
      → (q db ≡ ok a) × (db ≡ db')
  query-ok q db db' a h = lift-ok (q db) db db' a h

module _ {A B : Type 0} where
  pub continue-ok :
      (r : Result (A × Db)) (f : A → Tx B) (b : B) (db' : Db)
      → continue r f ≡ ok (b, db')
      → (a : A) × (db₁ : Db) × (r ≡ ok (a, db₁)) × (f a db₁ ≡ ok (b, db'))
  continue-ok (ok (a, db₁)) f b db' h = (a, db₁, refl, h)
  continue-ok (err e) f b db' h = cc

pub raise_if-ok : (b : Bool) (e : Error) → raise_if b e ≡ ok tt → b ≡ false
raise_if-ok true e h = cc
raise_if-ok false e h = refl

pub insert_audit_event-ok :
    (e : AuditEvent) (db db' : Db)
    → insert_audit_event e db ≡ ok (tt, db')
    → (has_sequence e.operation_id e.sequence db.audit_events ≡ false)
      × (db' ≡ record db { audit_events = e ∷ db.audit_events })
unfolding insert_audit_event
insert_audit_event-ok e db db' h = ground arith
