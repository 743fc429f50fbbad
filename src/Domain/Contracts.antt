-- ===== src/Domain/Contracts.antt =====
-- domain/contracts.py: a request to the system.
use opercerta.Common.{String, Bool, true, false, Option, none, some, not}
use opercerta.Domain.Errors.{Uuid, Result, ok, value_error, raise_if, ◌>>◌}

pub data ActionType : Type 0 where
  query create_work_order : ActionType

pub data ObjectType : Type 0 where
  inventory equipment task : ObjectType

unfoldable pub ObjectType-discrete : Discrete ObjectType
ObjectType-discrete = hlevel

pub record OperationRequest : Type 0 where
  pub message : String
  pub requested_action : Option ActionType
  pub object_type : Option ObjectType
  pub object_id : Option String
  pub trigger_signal_id : Option Uuid

abbrev pub is_none {ℓ} : {A : Type ℓ} → Option A → Bool
is_none none = true
is_none (some _) = false

-- `!=` on Booleans
abbrev pub differ : Bool → Bool → Bool
differ true b = not b
differ false b = b

-- the validator that runs when a request is built
unfoldable pub require_complete_object_reference : OperationRequest → Result OperationRequest
require_complete_object_reference r = do
  raise_if (differ (is_none r.object_type) (is_none r.object_id))
      (value_error "object_type and object_id must be provided together")
  ok r
