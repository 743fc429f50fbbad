-- ===== src/Signals/Lineage/Complete.antt =====
-- The lineage against the signals it is made from.
use opercerta.Common.{
  ℕ, zero, suc, ◌+◌, ◌≤◌, ◌≡◌, refl, Bool, true, false, Option, none, some, List, [], ◌∷◌, ◌++◌,
  length, arith, inl, inr, Bool-cases,
}
use opercerta.Domain.Errors.{Uuid}
use opercerta.Store.Table.{get}
use opercerta.Signals.Lineage.{
  Chased, no_current, known, next, Row, filter, has_id, child_of, is_root, sort, chase, chase_roots,
  ordered_lineage,
}
use opercerta.Signals.Lineage.Chase.{
  count, IsTable, visited, unvisited, count-append, count-sort, count-filter, filter_grow,
}
use opercerta.Signals.Lineage.Held.{
  IsHeld, IsHeld-self, IsHeld-filter, IsHeld-sort, find_last-IsHeld,
}

count_all : (t : List Row) → count (λ (r : Row). true) t ≡ length t
count_all [] = refl
count_all (r ∷ t) = omega (arith, count_all t)

-- the two ways of a turn
chase_stop :
    (fuel : ℕ) (signals : List Row) (r : Row) (ordered : List Row)
    → has_id r.0 ordered ≡ true
    → chase fuel signals (some r) ordered ≡ ordered
unfolding chase
chase_stop zero signals r ordered old = refl
chase_stop (suc fuel) signals r ordered old = ground arith

chase_step :
    (fuel : ℕ) (signals : List Row) (r : Row) (ordered : List Row)
    → has_id r.0 ordered ≡ false
    → chase (suc fuel) signals (some r) ordered
      ≡ chase fuel signals (child_of r.0 signals) (ordered ++ r ∷ [])
unfolding chase
chase_step fuel signals r ordered new = ground arith

module _ (signals : List Row) (u : IsTable signals) where
  -- what was put in order is what was visited, each row once
  Collects : List Row → Type 0
  Collects ordered = (p : Row → Bool) → count p ordered ≡ count p (filter (visited ordered) signals)

  child_of-held : (k : Uuid) (r : Row) → child_of k signals ≡ some r → get r.0 signals ≡ some r.1
  unfolding child_of
  child_of-held k r e = find_last-IsHeld signals _ signals r (IsHeld-self signals u) e

  Collects-snoc :
      (r : Row) (ordered : List Row)
      → get r.0 signals ≡ some r.1
      → has_id r.0 ordered ≡ false
      → Collects ordered
      → Collects (ordered ++ r ∷ [])
  unfolding Collects
  Collects-snoc r ordered held new h p =
      omega
        (arith, count-append p ordered (r ∷ []), h p, filter_grow p r ordered signals u held new)

  -- one turn of the loop, given what its rest does
  turn :
      (fuel : ℕ) (r : Row) (ordered : List Row)
      → Collects ordered
      → (has_id r.0 ordered ≡ false
          → Collects (chase fuel signals (child_of r.0 signals) (ordered ++ r ∷ [])))
      → Collects (chase (suc fuel) signals (some r) ordered)
  turn fuel r ordered h rest = elim (Bool-cases (has_id r.0 ordered)) [
    | inl old ↦ rw (chase_stop (suc fuel) signals r ordered old) h
    | inr new ↦ rw (chase_step fuel signals r ordered new) (rest new)
  ]

  Collects-chase :
      (fuel : ℕ) (current : Option Row) (ordered : List Row)
      → ((r : Row) → current ≡ some r → get r.0 signals ≡ some r.1)
      → Collects ordered
      → Collects (chase fuel signals current ordered)
  unfolding chase
  Collects-chase fuel none ordered held h = h
  Collects-chase zero (some r) ordered held h = h
  Collects-chase (suc fuel) (some r) ordered held h = turn fuel r ordered h (λ new.
      Collects-chase fuel (child_of r.0 signals) (ordered ++ r ∷ []) (child_of-held r.0)
        (Collects-snoc r ordered (held r refl) new h))

  Collects-chase_roots :
      (roots ordered : List Row)
      → IsHeld signals roots
      → Collects ordered
      → Collects (chase_roots signals roots ordered)
  unfolding chase_roots
  Collects-chase_roots [] ordered held h = h
  Collects-chase_roots (r ∷ roots) ordered (e, held) h =
      Collects-chase_roots roots (chase (length signals) signals (some r) ordered) held
        (Collects-chase (length signals) (some r) ordered (λ x g. held_row x r e g) h)
    where
      held_row :
          (x y : Row) → get y.0 signals ≡ some y.1 → some y ≡ some x → get x.0 signals ≡ some x.1
      held_row x y e g = ground arith

  -- the signals that are still to be visited
  pub left : List Row → ℕ
  left ordered = count (λ (r : Row). true) (filter (unvisited ordered) signals)

  left-snoc :
      (r : Row) (ordered : List Row)
      → get r.0 signals ≡ some r.1
      → has_id r.0 ordered ≡ false
      → left (ordered ++ r ∷ []) + 1 ≡ left ordered
  unfolding left
  left-snoc r ordered held new =
      let all = λ (x : Row). true in
      omega (
        arith,
        filter_grow all r ordered signals u held new,
        count-filter all (visited ordered) signals,
        count-filter all (visited (ordered ++ r ∷ [])) signals,
      )

  left-le-length : (ordered : List Row) → left ordered ≤ length signals
  unfolding left
  left-le-length ordered =
      let all = λ (x : Row). true in
      omega (arith, count-filter all (visited ordered) signals, count_all signals)

  chased :
      (fuel : ℕ) (current : Option Row) (ordered : List Row)
      → ((r : Row) → current ≡ some r → get r.0 signals ≡ some r.1)
      → left ordered ≤ fuel
      → Chased signals current ordered (chase fuel signals current ordered)
  unfolding chase
  chased fuel none ordered held enough = no_current
  chased zero (some r) ordered held enough = elim (Bool-cases (has_id r.0 ordered)) [
    | inl old ↦ known old
    | inr new ↦ absurd (omega (arith, left-snoc r ordered (held r refl) new))
  ]
  chased (suc fuel) (some r) ordered held enough = elim (Bool-cases (has_id r.0 ordered)) [
    | inl old ↦ rw (chase_stop (suc fuel) signals r ordered old) (known old)
    | inr new ↦ rw (chase_step fuel signals r ordered new) (
        next new (
          chased fuel (child_of r.0 signals) (ordered ++ r ∷ []) (child_of-held r.0)
            (omega (arith, left-snoc r ordered (held r refl) new))))
  ]

  -- For signals with distinct ids and a start that is one of them, if there is one, the inner
  -- loop of the lineage ends after at most as many turns as there are signals, with the result
  -- that the fuelled loop computes.
  pub chase-Chased :
      (current : Option Row) (ordered : List Row)
      → ((r : Row) → current ≡ some r → get r.0 signals ≡ some r.1)
      → Chased signals current ordered (chase (length signals) signals current ordered)
  chase-Chased current ordered held =
      chased (length signals) current ordered held (left-le-length ordered)

  nothing_visited : (t : List Row) → filter (visited []) t ≡ []
  unfolding has_id
  nothing_visited [] = refl
  nothing_visited (r ∷ t) = nothing_visited t

  -- For signals with distinct ids, the ordered lineage has as many signals with any given
  -- property as the signals that it was made from, so each signal stands in it once, also when
  -- predecessors form a loop.
  pub ordered_lineage-count : (p : Row → Bool) → count p (ordered_lineage signals) ≡ count p signals
  unfolding ordered_lineage Collects
  ordered_lineage-count p =
      let roots = sort (filter (is_root signals) signals) in
      let ordered = chase_roots signals roots [] in
      let rest = filter (unvisited ordered) signals in
      let collected =
        Collects-chase_roots roots []
          (IsHeld-sort signals _
            (IsHeld-filter signals (is_root signals) signals (IsHeld-self signals u)))
          (λ q. rw (nothing_visited signals) refl) p in
      omega (
        arith,
        count-append p ordered (sort rest),
        count-sort p rest,
        collected,
        count-filter p (visited ordered) signals,
      )
