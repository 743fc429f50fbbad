-- ===== src/Tests/Expiry.antt =====
-- The theorem on the expiry service, at an approval that has run out and one that has not.
use mathlib.Core.Bool.{decide}
use native.Mathlib.Decide.{ℕ_discrete}
use opercerta.Common.{ℕ, ◌+◌, ◌≤◌, refl, pos, pos_part, some, List, [], ◌∷◌, length, Memᴰ}
use opercerta.Domain.Status.{OperationStatus, OperationStatus-discrete}
use opercerta.Domain.Errors.{Uuid, Result, ok, err}
use opercerta.Domain.Values.{aware, require_timezone}
use opercerta.Store.Schema.{Operation, Db, empty_db}
use opercerta.Store.Table.{get, update, update_where}
use opercerta.Store.Tx.{has_sequence}
use opercerta.Operations.Create.{new_operation}
use opercerta.Operations.Methods.{mark_expired}
use opercerta.Operations.Transition.{transition}
use opercerta.Operations.Expiry.{
  list_due_approval_ids, expire_all, expire_due, due_rows, place, limited,
}
use opercerta.Operations.Expiry.Expired.{IsDue}
use opercerta.System.Expired.{IsExpired, expire_due_lem}
use opercerta.Tests.Data.{hash_json, request, stamp}

abbrev waiting : Uuid → ℕ → Operation
waiting id expires = record (new_operation request id 1) {
  status = some OperationStatus.awaiting_approval;
  approval_expires_at = some expires;
}

abbrev db_waiting : Db
db_waiting = record empty_db { operations = (1, waiting 1 50) ∷ (2, waiting 2 90) ∷ [] }

abbrev rows_of : Result (List Uuid × Db) → Db
rows_of (ok (_, db)) = db
rows_of (err _) = empty_db

unfoldable db_lapsed : Db
db_lapsed = rows_of (expire_due (aware 60) (pos 10) (λ n. stamp (n + 61)) db_waiting)

abbrev lapsed : List Uuid
lapsed = 1 ∷ []

expire_due_lem_example :
    (length lapsed ≤ pos_part (pos 10))
    × ((id : Uuid) → Memᴰ id lapsed → IsDue 60 db_waiting.operations id × IsExpired db_lapsed id)
    × ((id : Uuid) → IsExpired db_waiting id → IsExpired db_lapsed id)
unfolding db_lapsed expire_due list_due_approval_ids expire_all due_rows place limited
    require_timezone mark_expired transition get update update_where has_sequence
    OperationStatus-discrete decide ℕ_discrete
expire_due_lem_example =
    expire_due_lem hash_json 60 (pos 10) (λ n. stamp (n + 61)) db_waiting db_lapsed lapsed refl
