-- ===== src/Signals/Lineage/Chase.antt =====
-- The loops of `_ordered_lineage`: what they visit, and that they end.
use opercerta.Common.{
  ℕ, ◌+◌, ◌≡◌, refl, Bool, false, not, ◌||◌, none, some, List, [], ◌∷◌, ◌++◌, ◌==◌, ==_iff,
  if◌then◌else◌, arith,
}
use opercerta.Domain.Errors.{Uuid}
use opercerta.Store.Table.{get}
use opercerta.Signals.Lineage.{Row, filter, has_id, insert_sorted, sort}

-- how many rows pass a test
abbrev pub count : (Row → Bool) → List Row → ℕ
count p [] = 0
count p (r ∷ rs) = (if p r then 1 else 0) + count p rs

-- no two rows share their id
abbrev pub IsTable : List Row → Type 0
IsTable [] = Unit {0}
IsTable ((k, s) ∷ t) = (get k t ≡ none) × IsTable t

abbrev pub visited : List Row → Row → Bool
visited ordered r = has_id r.0 ordered

abbrev pub unvisited : List Row → Row → Bool
unvisited ordered r = not (has_id r.0 ordered)

-- one more id
has_id-snoc :
    (k : Uuid) (r : Row) (ordered : List Row)
    → has_id k (ordered ++ r ∷ []) ≡ (has_id k ordered || r.0 == k)
unfolding has_id
has_id-snoc k r [] = ground arith
has_id-snoc k r (x ∷ xs) = ground (arith, has_id-snoc k r xs)

module _ (p : Row → Bool) where
  pub count-append : (a b : List Row) → count p (a ++ b) ≡ count p a + count p b
  count-append [] b = omega arith
  count-append (r ∷ a) b = omega (arith, count-append a b)

  count-insert_sorted :
      (r : Row) (t : List Row) → count p (insert_sorted r t) ≡ (if p r then 1 else 0) + count p t
  unfolding insert_sorted
  count-insert_sorted r [] = refl
  count-insert_sorted r (x ∷ xs) = ground (arith, count-insert_sorted r xs)

  pub count-sort : (t : List Row) → count p (sort t) ≡ count p t
  unfolding sort
  count-sort [] = refl
  count-sort (x ∷ xs) = ground (arith, count-insert_sorted x (sort xs), count-sort xs)

  -- a filter and its complement share out the rows
  pub count-filter :
      (q : Row → Bool) (t : List Row)
      → count p (filter q t) + count p (filter (λ (r : Row). not (q r)) t) ≡ count p t
  count-filter q [] = refl
  count-filter q (x ∷ xs) = ground (arith, count-filter q xs)

  filter_same :
      (r : Row) (ordered t : List Row)
      → get r.0 t ≡ none
      → count p (filter (visited (ordered ++ r ∷ [])) t) ≡ count p (filter (visited ordered) t)
  unfolding get
  filter_same r ordered [] h = refl
  filter_same r ordered (x ∷ xs) h =
      ground (arith, filter_same r ordered xs, has_id-snoc x.0 r ordered, ==_iff x.0 r.0)

  pub filter_grow :
      (r : Row) (ordered t : List Row)
      → IsTable t
      → get r.0 t ≡ some r.1
      → has_id r.0 ordered ≡ false
      → count p (filter (visited (ordered ++ r ∷ [])) t)
        ≡ count p (filter (visited ordered) t) + (if p r then 1 else 0)
  unfolding get
  filter_grow r ordered [] u h e = absurd (cc)
  filter_grow r ordered ((k, s) ∷ t) (new, u) h e = ground (
    arith,
    filter_grow r ordered t u,
    filter_same r ordered t,
    has_id-snoc k r ordered,
    ==_iff k r.0,
  )
