-- ===== src/Signals/Reconciled.antt =====
-- The reconciliation of the signals with the operations that have ended.
use opercerta.Common.{
  ℕ, ◌≡◌, refl, sym, ap, ◌∙◌, false, Option, none, some, [], ◌∷◌, ◌==◌, arith, decide_iff, inl, inr,
  Bool-cases,
}
use opercerta.Domain.Errors.{Uuid, ok}
use opercerta.Store.Table.{Table, get}
use opercerta.Store.Schema.{Signal, SignalStatus, Db}
use opercerta.Signals.Repository.{
  SignalStatus-discrete, repair, is_repaired, repair_all, repair_count, target_of, linked_status,
  reconcile_terminal_links,
}

-- the target of a signal
abbrev pub target : Db → Signal → Option SignalStatus
target db s = target_of (linked_status s.operation_id db)

repair_link :
    (o : Option SignalStatus) (at : ℕ) (s : Signal) → (repair o at s).operation_id ≡ s.operation_id
repair_link o at s = ground arith

-- a signal has its target's status behind the repair, and is left alone where it had
repair_done :
    (o : Option SignalStatus) (at : ℕ) (s : Signal) → is_repaired o (repair o at s) ≡ false
repair_done none at s = refl
repair_done (some g) at s = ground (
  arith,
  decide_iff (SignalStatus-discrete s.status g),
  decide_iff (SignalStatus-discrete (repair (some g) at s).status g),
)

repair_skip :
    (o : Option SignalStatus) (at : ℕ) (s : Signal) → is_repaired o s ≡ false → repair o at s ≡ s
repair_skip none at s h = refl
repair_skip (some g) at s h = ground arith

is_repaired_status :
    (o : Option SignalStatus) (g : SignalStatus) (s : Signal)
    → o ≡ some g
    → is_repaired o s ≡ false
    → s.status ≡ g
is_repaired_status none g s e h = absurd (cc)
is_repaired_status (some f) g s e h = ground (arith, decide_iff (SignalStatus-discrete s.status f))

-- what holds of each row behind the loop
all_done :
    (db : Db) (at : ℕ) (k : Uuid) (x : Signal) (t : Table Signal)
    → get k (repair_all db at t) ≡ some x
    → is_repaired (target db x) x ≡ false
unfolding get repair_all
all_done db at k x [] h = absurd (cc)
all_done db at k x ((j, s) ∷ t) h = elim (Bool-cases (j == k)) [
  | inr other ↦ all_done db at k x t (ground arith)
  | inl this ↦
      let same = same_row (repair (target db s) at s) x (ground arith) in
      rw (sym same, repair_link (target db s) at s) (repair_done (target db s) at s)
]
  where
    same_row : (a b : Signal) → some a ≡ some b → a ≡ b
    same_row a b e = ground arith

count_done :
    (db db' : Db) (at : ℕ) (t : Table Signal)
    → db'.operations ≡ db.operations
    → repair_count db' (repair_all db at t) ≡ 0
unfolding repair_all repair_count
count_done db db' at [] h = refl
count_done db db' at ((k, s) ∷ t) h =
    rw (repair_link (target db s) at s, h)
      (ground (arith, count_done db db' at t h, repair_done (target db s) at s))

none_repaired :
    (db : Db) (at : ℕ) (t : Table Signal) → repair_count db t ≡ 0 → repair_all db at t ≡ t
unfolding repair_all repair_count
none_repaired db at [] h = refl
none_repaired db at ((k, s) ∷ t) h =
    ground (arith, none_repaired db at t, repair_skip (target db s) at s)

-- the target hangs on the operations alone
target_of_operations :
    (o : Option Uuid) (db db' : Db)
    → db'.operations ≡ db.operations
    → target_of (linked_status o db') ≡ target_of (linked_status o db)
target_of_operations none db db' h = refl
target_of_operations (some id) db db' h = rw h refl

module _ (at n : ℕ) (db db' : Db) (h : reconcile_terminal_links at db ≡ ok (n, db')) where
  pub reconciled_rows :
      (n ≡ repair_count db db.operational_signals)
      × (db' ≡ record db { operational_signals = repair_all db at db.operational_signals })
  unfolding reconcile_terminal_links
  reconciled_rows = ground arith

  idle :
      (at' : ℕ) (d : Db)
      → repair_count d d.operational_signals ≡ 0
      → reconcile_terminal_links at' d ≡ ok (0, d)
  unfolding reconcile_terminal_links
  idle at' d none_left = ground (arith, none_repaired d at' d.operational_signals none_left)

  done :
      db' ≡ record db { operational_signals = repair_all db at db.operational_signals }
      → (k : Uuid) (x : Signal) → get k db'.operational_signals ≡ some x
      → is_repaired (target db' x) x ≡ false
  done rows k x found = rw (target_of_operations x.operation_id db db' (rw rows refl)) (
      all_done db at k x db.operational_signals
        (sym (ap (λ (d : Db). get k d.operational_signals) rows) ∙ found))

  -- After a reconciliation every signal whose operation has ended in a status with a target has
  -- that target as its status, a second reconciliation repairs nothing and leaves the rows
  -- alone, and one that repaired nothing has left the rows alone.
  pub reconcile_terminal_links_lem :
      ((k : Uuid) (x : Signal) (g : SignalStatus)
        → get k db'.operational_signals ≡ some x
        → target db' x ≡ some g
        → x.status ≡ g)
      × ((at' : ℕ) → reconcile_terminal_links at' db' ≡ ok (0, db'))
      × (n ≡ 0 → db' ≡ db)
  reconcile_terminal_links_lem =
      let (count, rows) = reconciled_rows in
      (
        λ k x g found wants. is_repaired_status (target db' x) g x wants (done rows k x found),
        λ at'. idle at' db' (rw rows (count_done db _ at db.operational_signals refl)),
        λ e. ground (arith, none_repaired db at db.operational_signals),
      )
