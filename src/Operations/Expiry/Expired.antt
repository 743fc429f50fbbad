-- ===== src/Operations/Expiry/Expired.antt =====
-- What is listed as due, and what a change to expired leaves.
use opercerta.Common.{
  ℕ, ◌≤◌, ◌≡◌, refl, sym, arith, ==_iff, zero, suc, ℤ, pos, pos_part, ltb_ℤ, true, some, List, [],
  ◌∷◌, length, Memᴰ, inl, inr, Bool-cases,
}
use opercerta.Domain.Status.{OperationStatus}
use opercerta.Domain.Errors.{Uuid, ok}
use opercerta.Domain.Values.{DateTime, aware, naive, require_timezone}
use opercerta.Store.Table.{Table, get, get-update}
use opercerta.Store.Schema.{Operation, Db}
use opercerta.Operations.Transition.{Stamp, changed_operation}
use opercerta.Operations.Transition.Inversion.{transition-ok}
use opercerta.Operations.Arguments
use opercerta.Operations.Methods.{mark_expired}
use opercerta.Operations.Expiry.{
  is_due, place, comes_before, due_rows, limited, list_due_approval_ids,
}

-- a row of the table that is due
abbrev pub IsDue : ℕ → Table Operation → Uuid → Type 0
IsDue now rows id = (op : Operation) × Memᴰ (id, op) rows × (is_due now op ≡ true)

-- rows that are all due, and all of a table
AllDue : ℕ → Table Operation → Table Operation → Type 0
AllDue now table [] = Unit {0}
AllDue now table (r ∷ rows) = Memᴰ r table × (is_due now r.1 ≡ true) × AllDue now table rows

AllDue-place :
    (now : ℕ) (table : Table Operation) (r : Uuid × Operation) (rows : Table Operation)
    → Memᴰ r table
    → is_due now r.1 ≡ true
    → AllDue now table rows
    → AllDue now table (place r rows)
unfolding AllDue place
AllDue-place now table r [] m d h = (m, d, tt)
AllDue-place now table r (q ∷ rows) m d (n, e, h) = elim (Bool-cases (comes_before q r)) [
  | inl first ↦ rw (first, place) (n, e, AllDue-place now table r rows m d h)
  | inr later ↦ rw (later, place) (m, d, (n, e, h))
]

AllDue-due_rows :
    (now : ℕ) (table rows : Table Operation)
    → ((r : Uuid × Operation) → Memᴰ r rows → Memᴰ r table)
    → AllDue now table (due_rows now rows)
unfolding AllDue due_rows
AllDue-due_rows now table [] sub = tt
AllDue-due_rows now table (r ∷ rows) sub =
    let rest = AllDue-due_rows now table rows (λ q m. sub q (Memᴰ.tail m)) in
    elim (Bool-cases (is_due now r.1)) [
      | inl due ↦ rw (due, due_rows) (AllDue-place now table r _ (sub r (Memᴰ.head refl)) due rest)
      | inr not_due ↦ rw (not_due, due_rows) rest
    ]

limited-IsDue :
    (now n : ℕ) (table rows : Table Operation) (id : Uuid)
    → AllDue now table rows
    → Memᴰ id (limited n rows)
    → IsDue now table id
unfolding AllDue limited
limited-IsDue now zero table rows id h m = elim m [ ]
limited-IsDue now (suc n) table [] id h m = elim m [ ]
limited-IsDue now (suc n) table (r ∷ rows) id (k, d, h) (Memᴰ.head e) = (r.1, rw e k, d)
limited-IsDue now (suc n) table (r ∷ rows) id (k, d, h) (Memᴰ.tail m) =
    limited-IsDue now n table rows id h m

length-limited : (n : ℕ) (rows : Table Operation) → length (limited n rows) ≤ n
unfolding limited
length-limited zero rows = omega arith
length-limited (suc n) [] = omega arith
length-limited (suc n) (r ∷ rows) = omega (arith, length-limited n rows)

-- a change to expired leaves the operation expired
pub mark_expired-true :
    (id : Uuid) (now : DateTime) (at : Stamp) (db db' : Db)
    → mark_expired id now at db ≡ ok (true, db')
    → (op : Operation) × (get id db'.operations ≡ some op)
      × (op.status ≡ some OperationStatus.expired)
unfolding mark_expired require_timezone
mark_expired-true id (naive t) at db db' h = absurd (cc)
mark_expired-true id (aware t) at db db' h =
    elim (transition-ok id (Arguments.expired t) at db db' true h) [
      | inr (no_change, _, _) ↦ absurd (cc)
      | inl (_, c) ↦
          let op = changed_operation (Arguments.expired t) c.next at.now c.op in
          let same : c.written ≡ db = ground (arith, c.wrote) in
          (op, rw (c.rows, get-update, same) (ground (arith, c.found, ==_iff id id)), refl)
    ]

pub listed-IsDue :
    (now : ℕ) (limit : ℤ) (db : Db) (ids : List Uuid)
    → list_due_approval_ids (aware now) limit db ≡ ok ids
    → (length ids ≤ pos_part limit) × ((id : Uuid) → Memᴰ id ids → IsDue now db.operations id)
unfolding list_due_approval_ids require_timezone
listed-IsDue now limit db ids h = elim (Bool-cases (ltb_ℤ limit (pos 1))) [
  | inl none_wanted ↦
      let same : ids ≡ [] = ground arith in
      (rw same (omega arith), λ id m. absurd (nobody id (rw (sym same) m)))
  | inr some_wanted ↦
      let rows = due_rows now db.operations in
      let same : ids ≡ limited (pos_part limit) rows = ground arith in
      (
        rw same (length-limited (pos_part limit) rows),
        λ id m.
            limited-IsDue now (pos_part limit) db.operations rows id
              (AllDue-due_rows now db.operations db.operations (λ r k. k)) (rw (sym same) m),
      )
]
  where
    nobody : (id : Uuid) → Memᴰ {A = Uuid} id [] → ⊥
    nobody id m = elim m [ ]
