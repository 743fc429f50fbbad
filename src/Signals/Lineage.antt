-- ===== src/Signals/Lineage.antt =====
-- `_ordered_lineage`: the signals of one object, each successor behind its predecessor.
pub mod Chase
pub mod Held
pub mod Complete
use opercerta.Common.{
  ℕ, zero, suc, Bool, true, false, not, ◌||◌, ◌&&◌, Option, none, some, List, [], ◌∷◌, ◌++◌, ◌==◌,
  ltb, if◌then◌else◌, length, any, ◌≡◌,
}
use opercerta.Domain.Errors.{Uuid}
use opercerta.Store.Table.{Table}
use opercerta.Store.Schema.{Signal}
use opercerta.Signals.Repository.{follows}

-- an `OperationalSignal`, with its id
abbrev pub Row : Type 0
Row = Uuid × Signal

module _ {ℓ} {A : Type ℓ} where
  abbrev pub filter : (A → Bool) → List A → List A
  filter p [] = []
  filter p (x ∷ xs) = elim (p x) [ true ↦ x ∷ filter p xs | false ↦ filter p xs ]

  -- the last element that passes the test
  abbrev pub find_last : (A → Bool) → List A → Option A
  find_last p [] = none
  find_last p (x ∷ xs) = elim (find_last p xs) [
    | some y ↦ some y
    | none ↦ if p x then some x else none
  ]

-- `id in …` of the ids of some rows
unfoldable pub has_id : Uuid → List Row → Bool
has_id id rows = any (λ (r : Row). r.0 == id) rows

-- `child_by_predecessor.get(id)`: of two children the later one is in the dictionary
unfoldable pub child_of : Uuid → List Row → Option Row
child_of id signals = find_last (λ (r : Row). follows id r.1) signals

-- `predecessor_signal_id not in by_id`
abbrev pub is_root_of : List Row → Option Uuid → Bool
is_root_of signals none = true
is_root_of signals (some p) = not (has_id p signals)

abbrev pub is_root : List Row → Row → Bool
is_root signals r = is_root_of signals r.1.predecessor_signal_id

-- the key (detected_at, str(id)); the texts of two UUIDs compare as the UUIDs
abbrev pub before : Row → Row → Bool
before (j, s) (k, t) = ltb s.detected_at t.detected_at || s.detected_at == t.detected_at && ltb j k

-- `sorted` is stable
unfoldable pub insert_sorted : Row → List Row → List Row
insert_sorted r [] = r ∷ []
insert_sorted r (x ∷ xs) = elim (before x r) [ true ↦ x ∷ insert_sorted r xs | false ↦ r ∷ x ∷ xs ]

unfoldable pub sort : List Row → List Row
sort [] = []
sort (x ∷ xs) = insert_sorted x (sort xs)

-- the inner loop; the ids of `ordered` are `visited`
unfoldable pub chase : ℕ → List Row → Option Row → List Row → List Row
chase fuel signals none ordered = ordered
chase zero signals (some r) ordered = ordered
chase (suc fuel) signals (some r) ordered = elim (has_id r.0 ordered) [
  | true ↦ ordered
  | false ↦ chase fuel signals (child_of r.0 signals) (ordered ++ r ∷ [])
]

-- the turns of the inner loop itself, for what it starts with and what it ends with
pub data Chased (signals : List Row) : Option Row → List Row → List Row → Type 0 where
  no_current : {ordered : List Row} → Chased signals none ordered ordered
  known :
      {r : Row} {ordered : List Row}
      → has_id r.0 ordered ≡ true
      → Chased signals (some r) ordered ordered
  next :
      {r : Row} {ordered result : List Row}
      → has_id r.0 ordered ≡ false
      → Chased signals (child_of r.0 signals) (ordered ++ r ∷ []) result
      → Chased signals (some r) ordered result

-- the outer loop; each turn of the inner one visits one more signal
unfoldable pub chase_roots : List Row → List Row → List Row → List Row
chase_roots signals [] ordered = ordered
chase_roots signals (r ∷ roots) ordered =
    chase_roots signals roots (chase (length signals) signals (some r) ordered)

unfoldable pub ordered_lineage : List Row → List Row
ordered_lineage signals =
    let ordered = chase_roots signals (sort (filter (is_root signals) signals)) [] in
    ordered ++ sort (filter (λ (r : Row). not (has_id r.0 ordered)) signals)
