-- ===== src/Domain/Errors.antt =====
-- The exceptions of domain/errors.py, with the values that they carry, and the `Result` of a call
-- that may raise one.
use opercerta.Common.{ℕ, String, Bool, true, false, Option, ◌≡◌, ◌⊎◌, refl, inl, inr}
use opercerta.Domain.Status.{OperationStatus}

-- a UUID; the program compares them and prints them, and never computes with them
abbrev pub Uuid : Type 0
Uuid = ℕ

pub data Error : Type 0 where
  invalid_recovery_facts : String → Error
  operation_not_found : Uuid → Error
  signal_not_found : Uuid → Error
  signal_already_claimed : Uuid → Error
  signal_object_mismatch : Uuid → Error
  signal_retry_not_allowed : Uuid → Error
  approval_already_decided : Uuid → Error
  -- the idempotency key is that of the operation
  idempotency_conflict : Uuid → Error
  -- the text of the status column; `none` is a text that is no `OperationStatus`
  write_not_authorized : Uuid → Option OperationStatus → Error
  invalid_operation_snapshot : Uuid → String → Error
  operation_transition_conflict : Uuid → OperationStatus → OperationStatus → Error
  recovery_state_conflict : Uuid → String → Error
  inventory_not_found equipment_not_found task_not_found : Error
  evidence_unavailable evidence_conflict evidence_expired : Error
  invalid_inventory_evidence invalid_policy_evidence : Error
  invalid_equipment_evidence invalid_maintenance_policy_evidence : Error
  replenishment_quantity_out_of_policy task_recovery_out_of_policy : Error
  invalid_task_evidence invalid_task_recovery_policy_evidence : Error
  approval_expired approval_snapshot_mismatch : Error
  unknown_tool tool_policy_violation object_binding_mismatch : Error
  duplicate_tool_call tool_budget_exceeded invalid_agent_tool_arguments : Error
  work_order_not_found work_order_verification_failed work_order_storage_failed : Error
  dependency_unavailable : Error
  knowledge_version_conflict knowledge_insufficient knowledge_unavailable : Error
  -- Python's `ValueError` with its message, pydantic's `ValidationError` among them, its
  -- `TypeError`, and SQLAlchemy's `IntegrityError`
  value_error : String → Error
  type_error : String → Error
  integrity_error : Error

-- what a call returns or raises
pub data Result {ℓ} (A : Type ℓ) : Type ℓ where
  err : Error → Result A
  ok : A → Result A

-- `if b: raise e`
abbrev pub raise_if : Bool → Error → Result (Unit {0})
raise_if false e = ok tt
raise_if true e = err e

-- a call, and what follows it
module _ {ℓ κ} {A : Type ℓ} {B : Type κ} where
  infixl 5 ◌>>=◌
  abbrev pub ◌>>=◌ : Result A → (A → Result B) → Result B
  err e >>= next = err e
  ok x >>= next = next x

-- a call whose value is not looked at
module _ {ℓ} {B : Type ℓ} where
  infixl 5 ◌>>◌
  abbrev pub ◌>>◌ : Result (Unit {0}) → Result B → Result B
  check >> next = check >>= (λ _. next)

module _ {ℓ} {A : Type ℓ} where
  abbrev Returned : Result A → Type ℓ
  Returned r = (x : A) × (r ≡ ok x)

  abbrev Raised : Result A → Type ℓ
  Raised r = (e : Error) × (r ≡ err e)

  -- To split on what a call does and keep the equation.
  pub Result-cases : (r : Result A) → Returned r ⊎ Raised r
  Result-cases (err e) = inr (e, refl)
  Result-cases (ok x) = inl (x, refl)

-- What calls that return have returned.
pub ok_same {ℓ} : {A : Type ℓ} (a b : A) → ok a ≡ ok b → a ≡ b
ok_same a b e = cc

module _ {ℓ κ} {A : Type ℓ} {B : Type κ} where
  pub bind-ok :
      (r : Result A) (f : A → Result B) (b : B)
      → (r >>= f) ≡ ok b
      → (a : A) × (r ≡ ok a) × (f a ≡ ok b)
  bind-ok (ok a) f b h = (a, refl, h)
  bind-ok (err e) f b h = absurd (cc)
