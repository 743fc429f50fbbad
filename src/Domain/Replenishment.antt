-- ===== src/Domain/Replenishment.antt =====
-- domain/replenishment.py: is a stock to be replenished, and by how much.
pub mod Policy
pub mod Binding
use opercerta.Common.{
  ℕ, ◌+◌, ℤ, pos, sub_ℕ, ◌-ℤ◌, ltb_ℤ, String, String-discrete, Bool, true, false, not, ◌||◌, ◌&&◌,
  Option, none, some, [], ◌∷◌, ltb, leb, ite, if◌then◌else◌,
}
use opercerta.Domain.Errors.{
  Uuid, Result, ok, err, value_error, evidence_expired, replenishment_quantity_out_of_policy,
  raise_if, ◌>>=◌, ◌>>◌,
}
use opercerta.Domain.Values.{
  DateTime, require_timezone, seconds, non_negative, JsonValue, null, bool, number, text,
  JsonObject, Digest, Runtime, hash_payload,
}
use opercerta.Domain.Scenarios.{InventoryBinding}

-- The fields of a value that pydantic has validated hold what its validators let through: natural
-- numbers, and instants.
pub record InventoryEvidence : Type 0 where
  pub evidence_id : Uuid
  pub sku : String
  pub on_hand_quantity : ℕ
  pub reserved_quantity : ℕ
  pub captured_at : ℕ
  pub source_version : String

unfoldable pub inventory_evidence :
    Uuid → String → ℤ → ℤ → DateTime → String → Result InventoryEvidence
inventory_evidence id sku on_hand reserved at version = do
  n ← non_negative on_hand "inventory quantities must be non-negative"
  m ← non_negative reserved "inventory quantities must be non-negative"
  t ← require_timezone at
  ok (record {
    evidence_id = id;
    sku = sku;
    on_hand_quantity = n;
    reserved_quantity = m;
    captured_at = t;
    source_version = version;
  })

pub record PolicyEvidence : Type 0 where
  pub evidence_id : Uuid
  pub sku : String
  pub reorder_point : ℕ
  pub target_stock : ℕ
  pub minimum_order_quantity : ℕ
  pub maximum_order_quantity : ℕ
  pub evidence_ttl_seconds : ℕ
  pub rule_version : String
  pub captured_at : ℕ

-- the validator of the whole model
unfoldable pub require_safe_policy_relationships : PolicyEvidence → Result PolicyEvidence
require_safe_policy_relationships p = do
  raise_if (leb p.target_stock p.reorder_point)
      (value_error "target_stock must be greater than reorder_point")
  raise_if (ltb p.minimum_order_quantity 1) (value_error "minimum_order_quantity must be positive")
  raise_if (ltb p.maximum_order_quantity p.minimum_order_quantity)
      (value_error "maximum_order_quantity must be at least minimum_order_quantity")
  raise_if (ltb p.evidence_ttl_seconds 1) (value_error "evidence_ttl_seconds must be positive")
  ok p

pub record EvidenceBundle : Type 0 where
  pub inventory : InventoryEvidence
  pub policy : PolicyEvidence

unfoldable pub require_matching_sku : EvidenceBundle → Result EvidenceBundle
require_matching_sku b =
    ite (String-discrete b.inventory.sku b.policy.sku) (ok b)
      (err (value_error "inventory and policy SKU must match"))

pub record ReplenishmentAssessment : Type 0 where
  pub sku : String
  pub available_quantity : ℤ
  pub reorder_point : ℕ
  pub target_stock : ℕ
  pub replenishment_required : Bool
  pub recommended_quantity : Option ℤ
  pub decision_facts_hash : Digest

pub record ModelPlanExplanation : Type 0 where
  pub summary : String
  pub rationale : String

pub record ReplenishmentPlan : Type 0 where
  pub sku : String
  pub recommended_quantity : ℤ
  pub decision_facts_hash : Digest
  pub rule_version : String
  pub summary : String
  pub rationale : String
  pub plan_hash : Digest

-- an optional integer in JSON
abbrev pub number_or_null : Option ℤ → JsonValue
number_or_null none = null
number_or_null (some q) = number q

abbrev pub decision_facts : ℤ → Option ℤ → ℕ → Bool → String → ℕ → JsonObject
decision_facts available recommended reorder required sku target =
    ("available_quantity", number available)
    ∷ ("recommended_quantity", number_or_null recommended)
    ∷ ("reorder_point", number (pos reorder))
    ∷ ("replenishment_required", bool required)
    ∷ ("sku", text sku)
    ∷ ("target_stock", number (pos target))
    ∷ []

-- `quantity is not None and not (minimum <= quantity <= maximum)`
abbrev pub out_of_policy : ℕ → ℕ → Option ℤ → Bool
out_of_policy minimum maximum none = false
out_of_policy minimum maximum (some q) = ltb_ℤ q (pos minimum) || ltb_ℤ (pos maximum) q

-- `bundle.inventory.on_hand_quantity - bundle.inventory.reserved_quantity`
abbrev pub available : EvidenceBundle → ℤ
available b = sub_ℕ b.inventory.on_hand_quantity b.inventory.reserved_quantity

-- some part of the bundle is older than the policy allows
abbrev pub is_expired : EvidenceBundle → ℕ → Bool
is_expired b now =
    let ttl = seconds b.policy.evidence_ttl_seconds in
    leb (b.inventory.captured_at + ttl) now || leb (b.policy.captured_at + ttl) now

abbrev pub recommended : EvidenceBundle → Option ℤ
recommended b =
    if ltb_ℤ (available b) (pos b.policy.reorder_point)
    then some (pos b.policy.target_stock -ℤ available b)
    else none

unfoldable pub assess_replenishment :
    Runtime → EvidenceBundle → DateTime → Result ReplenishmentAssessment
unfolding require_timezone
assess_replenishment py b at = do
  now ← require_timezone at
  raise_if (is_expired b now) evidence_expired
  let required = ltb_ℤ (available b) (pos b.policy.reorder_point)
  raise_if
      (out_of_policy b.policy.minimum_order_quantity b.policy.maximum_order_quantity
        (recommended b))
      replenishment_quantity_out_of_policy
  ok (record {
    sku = b.inventory.sku;
    available_quantity = available b;
    reorder_point = b.policy.reorder_point;
    target_stock = b.policy.target_stock;
    replenishment_required = required;
    recommended_quantity = recommended b;
    decision_facts_hash = hash_payload py (
        decision_facts (available b) (recommended b) b.policy.reorder_point required b.inventory.sku
          b.policy.target_stock);
  })

abbrev pub plan_facts : Digest → ℤ → String → String → JsonObject
plan_facts facts_hash quantity version sku =
    ("action", text "replenish_inventory")
    ∷ ("decision_facts_hash", text facts_hash)
    ∷ ("recommended_quantity", number quantity)
    ∷ ("rule_version", text version)
    ∷ ("sku", text sku)
    ∷ []

-- the last part of `build_plan`, for a quantity that is there
abbrev plan_for :
    Runtime → ReplenishmentAssessment → ModelPlanExplanation → String → ℤ → ReplenishmentPlan
plan_for py a explanation version quantity = record {
  sku = a.sku;
  recommended_quantity = quantity;
  decision_facts_hash = a.decision_facts_hash;
  rule_version = version;
  summary = explanation.summary;
  rationale = explanation.rationale;
  plan_hash = hash_payload py (plan_facts a.decision_facts_hash quantity version a.sku);
}

unfoldable pub build_plan :
    Runtime → ReplenishmentAssessment → ModelPlanExplanation → String → Result ReplenishmentPlan
build_plan py a explanation rule_version = elim a.recommended_quantity [
  | none ↦ err (value_error "recommended quantity is required")
  | some quantity ↦ ok (plan_for py a explanation (py.strip rule_version) quantity)
]

unfoldable pub build_approval_binding : EvidenceBundle → ReplenishmentPlan → InventoryBinding
build_approval_binding b plan = record {
  inventory_evidence_id = b.inventory.evidence_id;
  policy_evidence_id = b.policy.evidence_id;
  rule_version = plan.rule_version;
  decision_facts_hash = plan.decision_facts_hash;
  plan_hash = plan.plan_hash;
  recommended_quantity = plan.recommended_quantity;
}
