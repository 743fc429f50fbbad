-- ===== src/Operations/Expiry.antt =====
-- application/approval_expiry.py, with `list_due_approval_ids`: the operations whose approval has
-- run out.
pub mod Expired
use opercerta.Common.{
  ℕ, ◌+◌, ℤ, pos, pos_part, ltb_ℤ, Bool, true, false, ◌||◌, ◌&&◌, ◌==◌, ltb, leb, Option, none,
  some, List, [], ◌∷◌, map, if◌then◌else◌, zero, suc,
}
use opercerta.Domain.Status.{OperationStatus}
use opercerta.Domain.Errors.{Uuid, Result, ok, err, ◌>>=◌}
use opercerta.Domain.Values.{DateTime, require_timezone}
use opercerta.Store.Table.{Table}
use opercerta.Store.Schema.{Operation, Db}
use opercerta.Operations.Transition.{Stamp}
use opercerta.Operations.Arguments.{is_pending}
use opercerta.Operations.Methods.{mark_expired}

abbrev waits : Option OperationStatus → Bool
waits none = false
waits (some s) = is_pending s

abbrev has_run_out : ℕ → Option ℕ → Bool
has_run_out now none = false
has_run_out now (some expires) = leb expires now

-- the `where` of the query
abbrev pub is_due : ℕ → Operation → Bool
is_due now op = waits op.status && has_run_out now op.approval_expires_at

-- the `order_by`; every row that is sorted has an expiry
abbrev expires_before : Option ℕ → Option ℕ → Uuid → Uuid → Bool
expires_before (some a) (some b) j k = ltb a b || a == b && ltb j k
expires_before _ _ j k = ltb j k

abbrev pub comes_before : Uuid × Operation → Uuid × Operation → Bool
comes_before (j, a) (k, b) = expires_before a.approval_expires_at b.approval_expires_at j k

unfoldable pub place : Uuid × Operation → Table Operation → Table Operation
place r [] = r ∷ []
place r (q ∷ rows) = elim (comes_before q r) [ true ↦ q ∷ place r rows | false ↦ r ∷ q ∷ rows ]

unfoldable pub due_rows : ℕ → Table Operation → Table Operation
due_rows now [] = []
due_rows now (r ∷ rows) = elim (is_due now r.1) [
  | true ↦ place r (due_rows now rows)
  | false ↦ due_rows now rows
]

unfoldable pub limited : ℕ → Table Operation → List Uuid
limited zero rows = []
limited (suc n) [] = []
limited (suc n) (r ∷ rows) = r.0 ∷ limited n rows

unfoldable pub list_due_approval_ids : DateTime → ℤ → Db → Result (List Uuid)
list_due_approval_ids now limit db = require_timezone now >>= λ at.
    ok (if ltb_ℤ limit (pos 1) then [] else limited (pos_part limit) (due_rows at db.operations))

abbrev pub counted : Bool → Uuid → Result (List Uuid × Db) → Result (List Uuid × Db)
counted b id (err e) = err e
counted true id (ok (ids, db)) = ok (id ∷ ids, db)
counted false id (ok (ids, db)) = ok (ids, db)

-- the loop; the n-th transaction draws `at n`
unfoldable pub expire_all : DateTime → (ℕ → Stamp) → ℕ → List Uuid → Db → Result (List Uuid × Db)
expire_all now at n [] db = ok ([], db)
expire_all now at n (id ∷ ids) db = elim (mark_expired id now (at n) db) [
  | err e ↦ err e
  | ok (b, db') ↦ counted b id (expire_all now at (n + 1) ids db')
]

unfoldable pub expire_due : DateTime → ℤ → (ℕ → Stamp) → Db → Result (List Uuid × Db)
expire_due now limit at db =
    list_due_approval_ids now limit db >>= λ due. expire_all now at 0 due db
