-- ===== src/Signals/Lineage/Held.antt =====
-- Rows that are among the signals, through the filter, the sort and the dictionary of the code.
use opercerta.Common.{
  ◌≡◌, Bool, true, false, none, some, List, [], ◌∷◌, ==_iff, if◌then◌else◌, arith, inl, inr,
  Option-cases,
}
use opercerta.Domain.Errors.{Uuid}
use opercerta.Store.Table.{get}
use opercerta.Store.Schema.{Signal}
use opercerta.Signals.Lineage.{Row, filter, find_last, before, insert_sorted, sort}
use opercerta.Signals.Lineage.Chase.{IsTable}

abbrev pub IsHeld : List Row → List Row → Type 0
IsHeld signals [] = Unit {0}
IsHeld signals (r ∷ rows) = (get r.0 signals ≡ some r.1) × IsHeld signals rows

IsHeld-cons :
    (k : Uuid) (s : Signal) (t rows : List Row)
    → get k t ≡ none
    → IsHeld t rows
    → IsHeld ((k, s) ∷ t) rows
unfolding get
IsHeld-cons k s t [] new h = tt
IsHeld-cons k s t (r ∷ rows) new (e, h) =
    (ground (arith, ==_iff k r.0), IsHeld-cons k s t rows new h)

pub IsHeld-self : (t : List Row) → IsTable t → IsHeld t t
unfolding get
IsHeld-self [] u = tt
IsHeld-self ((k, s) ∷ t) (new, u) =
    (ground (arith, ==_iff k k), IsHeld-cons k s t t new (IsHeld-self t u))

module _ (signals : List Row) where
  pub IsHeld-filter :
      (q : Row → Bool) (rows : List Row) → IsHeld signals rows → IsHeld signals (filter q rows)
  IsHeld-filter q [] h = tt
  IsHeld-filter q (r ∷ rows) (e, h) =
      elim (q r)
        as (λ b. IsHeld signals (elim b [ true ↦ r ∷ filter q rows | false ↦ filter q rows ])) [
          | true ↦ (e, IsHeld-filter q rows h)
          | false ↦ IsHeld-filter q rows h
        ]

  IsHeld-insert_sorted :
      (r : Row) (rows : List Row)
      → get r.0 signals ≡ some r.1
      → IsHeld signals rows
      → IsHeld signals (insert_sorted r rows)
  unfolding insert_sorted
  IsHeld-insert_sorted r [] e h = (e, tt)
  IsHeld-insert_sorted r (x ∷ rows) e (f, h) =
      elim (before x r)
        as (λ b.
          IsHeld signals (elim b [ true ↦ x ∷ insert_sorted r rows | false ↦ r ∷ x ∷ rows ])) [
            | true ↦ (f, IsHeld-insert_sorted r rows e h)
            | false ↦ (e, (f, h))
          ]

  pub IsHeld-sort : (rows : List Row) → IsHeld signals rows → IsHeld signals (sort rows)
  unfolding sort
  IsHeld-sort [] h = tt
  IsHeld-sort (r ∷ rows) (e, h) = IsHeld-insert_sorted r (sort rows) e (IsHeld-sort rows h)

  pub find_last-IsHeld :
      (q : Row → Bool) (rows : List Row) (r : Row)
      → IsHeld signals rows
      → find_last q rows ≡ some r
      → get r.0 signals ≡ some r.1
  find_last-IsHeld q [] r h e = absurd (cc)
  find_last-IsHeld q (x ∷ rows) r (f, h) e = elim (Option-cases (find_last q rows)) [
    | inr (y, found) ↦ find_last-IsHeld q rows r h (ground arith)
    | inl missing ↦ let same = only (q x) x r missing e in rw same f
  ]
    where
      same_row : (a b : Row) → some a ≡ some b → b ≡ a
      same_row a b g = ground arith

      only :
          (b : Bool) (a c : Row)
          → find_last q rows ≡ none
          → (elim (find_last q rows) [ some y ↦ some y | none ↦ if q a then some a else none ])
            ≡ some c
          → c ≡ a
      only b a c missing g = ground arith
