-- ===== src/System/Retries.antt =====
-- The retries of signals, in the reachable states.
use opercerta.Common.{ℕ, ◌≡◌, refl, sym, ◌∙◌, true, some, none, if◌then◌else◌, arith, inl, inr}
use opercerta.Domain.Errors.{Uuid, ok, err, signal_retry_not_allowed}
use opercerta.Domain.Values.{Digest}
use opercerta.Domain.Facts.{EvidenceContent}
use opercerta.Store.Table.{get}
use opercerta.Store.Schema.{Signal, Db}
use opercerta.Signals.Keys.{IsKeyed}
use opercerta.Signals.Links.{IsLinked}
use opercerta.Signals.Repository.{create_successor, find_successor, needs_attention}
use opercerta.Signals.Retry.{
  retried_row, get-retried, create_successor-attention, create_successor_outcomes,
}
use opercerta.Signals.Retry
use opercerta.System.{Step, Onward, Reachable, then_}
use opercerta.System
use opercerta.System.Kept.{Onward-IsLinked}
use opercerta.System.Reached.{Reachable-IsConsistent}

-- on rows with the signal and its successor `j`, a retry returns the successor as it now is, or
-- raises where the signal requires no attention
abbrev pub ReturnsOnly : Uuid → Uuid → Db → Type 0
ReturnsOnly p j d =
    (s : Signal) × (x : Signal) × (get p d.operational_signals ≡ some s)
    × (find_successor p d.operational_signals ≡ some (j, x))
    × ((now : ℕ) (k : Uuid)
        → create_successor p now k d
          ≡ (if needs_attention s.status then ok ((j, x), d) else err (signal_retry_not_allowed p)))

IsLinked-ReturnsOnly :
    (p j : Uuid) (d : Db)
    → IsKeyed d.operational_signals
    → IsLinked p j d.operational_signals
    → ReturnsOnly p j d
IsLinked-ReturnsOnly p j d keyed m = (
  m.predecessor,
  m.successor,
  m.found,
  m.follows_it,
  λ now k. elim (create_successor_outcomes p now k d keyed) [
    | inl (e, _) ↦ absurd (ground (arith, m.found))
    | inr (s, e, h) ↦
        let same : s ≡ m.predecessor = ground (arith, m.found) in
        rw (sym same) (h ∙ rw m.follows_it refl)
  ],
)

module _ (hash_json : EvidenceContent → Digest) where
  -- In a reachable state, a retry of a signal that requires attention, with an id that is not in
  -- use, succeeds and leaves the successor on record. In every later state of the service, after
  -- any number of transactions, the signal is still there and its successor is still the one of
  -- the same id, and a retry of the signal returns the successor as it then is and changes
  -- nothing where the signal requires attention, and raises that it is not allowed where it does
  -- not.
  pub retry_once :
      (db : Db) (p : Uuid) (s : Signal) (now : ℕ) (k : Uuid)
      → Reachable hash_json db
      → get p db.operational_signals ≡ some s
      → needs_attention s.status ≡ true
      → get k db.operational_signals ≡ none
      → (row : Uuid × Signal) × (db' : Db) × (create_successor p now k db ≡ ok (row, db'))
        × (find_successor p db'.operational_signals ≡ some row)
        × ((d : Db) → Onward hash_json db' d → ReturnsOnly p row.0 d)
  retry_once db p s now k reached found wants new =
      let keyed = (Reachable-IsConsistent hash_json db reached).keyed in
      let o = find_successor p db.operational_signals in
      let (row, db') = Retry.retried p now k s o db in
      let h = create_successor-attention p now k s db keyed found wants in
      let on_record = retried_row p now k s o db refl in
      let m : IsLinked p row.0 db'.operational_signals = record {
        predecessor = s;
        found = get-retried p now k s o db new found;
        successor = row.1;
        follows_it = on_record;
      } in
      (
        row,
        db',
        h,
        on_record,
        λ d onward.
            let reached' = then_ reached (System.retried p now k row new h) in
            let (reached_d, later) = Onward-IsLinked hash_json p row.0 onward reached' m in
            IsLinked-ReturnsOnly p row.0 d (Reachable-IsConsistent hash_json d reached_d).keyed
              later,
      )
