-- ===== src/Domain/Replenishment/Policy.antt =====
-- The assessment of domain/replenishment.py against its policy.
use opercerta.Common.{
  ℕ, ◌+◌, ◌-◌, ◌≤◌, ◌<◌, pos, ◌-ℤ◌, ◌≡◌, ◌⊎◌, inl, inr, dec_lt, true, false, none, some, arith,
}
use opercerta.Domain.Errors.{ok, err, Error, evidence_expired, replenishment_quantity_out_of_policy}
use opercerta.Domain.Values.{aware, seconds, Runtime}
use opercerta.Domain.Replenishment.{
  EvidenceBundle, ReplenishmentAssessment, require_safe_policy_relationships, assess_replenishment,
}

-- the stock that the policy wants is not there
abbrev pub IsShort : EvidenceBundle → Type 0
IsShort b = b.inventory.on_hand_quantity < b.inventory.reserved_quantity + b.policy.reorder_point

-- the order that brings the available stock to the target
abbrev pub shortfall : EvidenceBundle → ℕ
shortfall b = b.inventory.reserved_quantity + b.policy.target_stock - b.inventory.on_hand_quantity

-- an order of `k` brings the available stock to the target
abbrev pub Restores : EvidenceBundle → ℕ → Type 0
Restores b k =
    b.inventory.on_hand_quantity + k ≡ b.inventory.reserved_quantity + b.policy.target_stock

abbrev pub Stale : EvidenceBundle → ℕ → Type 0
Stale b now =
    (b.inventory.captured_at + seconds b.policy.evidence_ttl_seconds ≤ now)
    ⊎ (b.policy.captured_at + seconds b.policy.evidence_ttl_seconds ≤ now)

-- what an assessment says of a bundle
abbrev pub Assesses : EvidenceBundle → ReplenishmentAssessment → Type 0
Assesses b a =
    (IsShort b
      × (a.replenishment_required ≡ true)
      × (a.recommended_quantity ≡ some (pos (shortfall b)))
      × Restores b (shortfall b)
      × (b.policy.minimum_order_quantity ≤ shortfall b)
      × (shortfall b ≤ b.policy.maximum_order_quantity)
      × (0 < shortfall b))
    ⊎ (¬ IsShort b × (a.replenishment_required ≡ false) × (a.recommended_quantity ≡ none))

module _ (py : Runtime) (b : EvidenceBundle) (now : ℕ) where
  -- With a valid policy, an assessment that succeeds orders stock exactly when the available
  -- stock is below the reorder point, and then orders what brings it to the target, a positive
  -- quantity within the policy's limits.
  pub assess_replenishment-Assesses :
      {a : ReplenishmentAssessment}
      → require_safe_policy_relationships b.policy ≡ ok b.policy
      → assess_replenishment py b (aware now) ≡ ok a
      → Assesses b a
  unfolding assess_replenishment require_safe_policy_relationships ◌-ℤ◌
  assess_replenishment-Assesses v h =
      elim (dec_lt b.inventory.on_hand_quantity
        (b.inventory.reserved_quantity + b.policy.reorder_point)) [
          | yes short ↦ inl (ground arith)
          | no enough ↦ inr (ground arith)
        ]

  -- With a valid policy and a time with a zone, a replenishment assessment fails only because a
  -- part of the evidence is older than the policy allows, or because the stock is short and the
  -- order that restores it lies outside the policy's limits.
  pub assess_replenishment-err :
      {e : Error}
      → require_safe_policy_relationships b.policy ≡ ok b.policy
      → assess_replenishment py b (aware now) ≡ err e
      → ((e ≡ evidence_expired) × Stale b now)
        ⊎ ((e ≡ replenishment_quantity_out_of_policy)
            × IsShort b
            × ((shortfall b < b.policy.minimum_order_quantity)
                ⊎ (b.policy.maximum_order_quantity < shortfall b)))
  unfolding assess_replenishment require_safe_policy_relationships ◌-ℤ◌
  assess_replenishment-err v h = ground arith
