-- ===== src/Cycles/Unique.antt =====
-- The unique constraint of the approvals, (operation_id, approval_cycle), kept by the code's own
-- check.
use opercerta.Common.{
  ℕ, ◌≡◌, ◌≢◌, refl, ◌&&◌, none, some, [], ◌∷◌, ◌==◌, ==_iff, arith, if◌then◌else◌,
}
use opercerta.Domain.Errors.{Uuid}
use opercerta.Domain.Facts.{approved}
use opercerta.Store.Table.{Table, get, insert, find_row}
use opercerta.Store.Schema.{Approval}
use opercerta.Approvals.{find_approval}
use opercerta.WorkOrders.{find_approved}
use opercerta.Cycles.{IsUnique, decision_in}

-- no two rows share their key, or their operation and cycle
abbrev pub NoClash : Table Approval → Type 0
NoClash [] = Unit {0}
NoClash ((k, a) ∷ t) =
    (get k t ≡ none) × (find_approval a.operation_id a.approval_cycle t ≡ none) × NoClash t

find_approval-get :
    (k : Uuid) (a : Approval) (t : Table Approval)
    → get k t ≡ some a
    → find_approval a.operation_id a.approval_cycle t ≢ none
unfolding get find_approval find_row
find_approval-get k a [] h e = cc
find_approval-get k a ((j, b) ∷ t) h e = ground (arith, find_approval-get k a t)

unique_row :
    (k : Uuid) (a : Approval) (t : Table Approval)
    → NoClash t
    → get k t ≡ some a
    → find_approval a.operation_id a.approval_cycle t ≡ some (k, a)
unfolding find_approval get find_row
unique_row k a [] u h = cc
unique_row k a ((j, b) ∷ t) u h = ground (
  arith,
  unique_row k a t,
  find_approval-get k a t,
  ==_iff b.operation_id a.operation_id,
  ==_iff b.approval_cycle a.approval_cycle,
  ==_iff j k,
)

pub NoClash-IsUnique : (t : Table Approval) → NoClash t → IsUnique t
NoClash-IsUnique t u = record { row = λ k a h. unique_row k a t u h }

find_approved_none :
    (id : Uuid) (c : ℕ) (t : Table Approval)
    → find_approval id c t ≡ none
    → find_approved id c t ≡ none
unfolding find_approval find_approved find_row
find_approved_none id c [] h = refl
find_approved_none id c ((j, b) ∷ t) h = ground (arith, find_approved_none id c t)

-- An approved decision that the work orders find is the decision of its cycle.
pub find_approved-decision_in :
    (id k : Uuid) (c : ℕ) (a : Approval) (t : Table Approval)
    → NoClash t
    → find_approved id c t ≡ some (k, a)
    → decision_in id c t ≡ some approved
unfolding find_approval find_approved find_row
find_approved-decision_in id k c a [] u h = cc
find_approved-decision_in id k c a ((j, b) ∷ t) u h = ground (
  arith,
  find_approved-decision_in id k c a t,
  find_approved_none id c t,
  ==_iff b.operation_id id,
  ==_iff b.approval_cycle c,
)

-- the decisions after one more row
pub find_approval-insert :
    (id k : Uuid) (c : ℕ) (a : Approval) (t : Table Approval)
    → find_approval id c (insert k a t) ≡ (
        if a.operation_id == id && a.approval_cycle == c then some (k, a) else find_approval id c t)
unfolding find_approval insert find_row
find_approval-insert id k c a t = refl
