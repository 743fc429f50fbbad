-- ===== src/Agent/Policy.antt =====
-- agent/tool_policy.py: which tool calls a goal allows.
pub mod Budget
use Prim.Native.String.{◌++◌}
use opercerta.Common.{
  ℕ, String, String-discrete, Bool, true, false, not, ◌||◌, ◌&&◌, Option, none, some, List, [], ◌∷◌,
  leb, ltb, decide, any, length, if◌then◌else◌,
}
use opercerta.Domain.Errors.{
  Result, ok, err, value_error, tool_budget_exceeded, tool_policy_violation,
  object_binding_mismatch, duplicate_tool_call, raise_if, ◌>>=◌, ◌>>◌,
}
use opercerta.Domain.Values.{JsonValue, null, text, JsonObject}
use opercerta.Domain.Scenarios.{ScenarioKind}
use opercerta.Agent.Contracts.{
  ReadToolName, ReadToolName-discrete, GoalEncoding, ToolCallProposal, JsonObject-discrete,
  inventory_snapshot, equipment_status, task_status, policy_constraints, knowledge_search,
}

-- `_SUBJECT_TOOLS`, `_SUBJECT_KEYS`, `_ACTIONS` and `_KNOWLEDGE_QUERIES`
abbrev pub subject_tool : ScenarioKind → ReadToolName
subject_tool ScenarioKind.inventory = inventory_snapshot
subject_tool ScenarioKind.equipment = equipment_status
subject_tool ScenarioKind.task = task_status

abbrev pub subject_key : ScenarioKind → String
subject_key ScenarioKind.inventory = "sku"
subject_key ScenarioKind.equipment = "equipment_id"
subject_key ScenarioKind.task = "task_id"

abbrev pub action : ScenarioKind → String
action ScenarioKind.inventory = "replenish_inventory"
action ScenarioKind.equipment = "repair_equipment"
action ScenarioKind.task = "recover_task"

abbrev pub scenario_value : ScenarioKind → String
scenario_value ScenarioKind.inventory = "inventory"
scenario_value ScenarioKind.equipment = "equipment"
scenario_value ScenarioKind.task = "task"

abbrev query_prefix : ScenarioKind → String
query_prefix ScenarioKind.inventory = "库存补货 "
query_prefix ScenarioKind.equipment = "设备维修 "
query_prefix ScenarioKind.task = "任务恢复 "

abbrev knowledge_query : ScenarioKind → String → String
knowledge_query s object_id = query_prefix s ++ (object_id ++ " 审批复核 SOP")

abbrev pub subject_arguments : GoalEncoding → JsonObject
subject_arguments g = (subject_key g.scenario, text g.object_id) ∷ []

abbrev pub policy_arguments : GoalEncoding → JsonObject
policy_arguments g =
    ("action", text (action g.scenario)) ∷ (subject_key g.scenario, text g.object_id) ∷ []

abbrev pub knowledge_arguments : GoalEncoding → JsonObject
knowledge_arguments g =
    ("query", text (knowledge_query g.scenario g.object_id))
    ∷ ("scenario", text (scenario_value g.scenario))
    ∷ []

-- `_build_expected_arguments`, as the lookup in its result
unfoldable pub expected_arguments : GoalEncoding → Bool → ReadToolName → Option JsonObject
expected_arguments g include_knowledge policy_constraints = some (policy_arguments g)
expected_arguments g include_knowledge knowledge_search =
    if include_knowledge then some (knowledge_arguments g) else none
expected_arguments g include_knowledge tool =
    if decide (ReadToolName-discrete tool (subject_tool g.scenario))
    then some (subject_arguments g)
    else none

-- `ReadToolName(text)`
unfoldable pub read_tool_name : String → Option ReadToolName
read_tool_name s =
    if decide (String-discrete s "inventory.get_snapshot")
    then some inventory_snapshot
    else if decide (String-discrete s "equipment.get_status")
    then some equipment_status
    else if decide (String-discrete s "task.get_status")
    then some task_status
    else if decide (String-discrete s "policy.list_constraints")
    then some policy_constraints
    else if decide (String-discrete s "knowledge.search_sop")
    then some knowledge_search
    else none

-- `arguments.get(key)`
abbrev pub lookup : String → JsonObject → Option JsonValue
lookup key [] = none
lookup key ((k, v) ∷ rest) = if decide (String-discrete k key) then some v else lookup key rest

-- `supplied is not None and supplied != object_id`; a null is `None` too
abbrev pub is_other : String → Option JsonValue → Bool
is_other object_id none = false
is_other object_id (some null) = false
is_other object_id (some (text s)) = not (decide (String-discrete s object_id))
is_other object_id (some _) = true

abbrev pub or_violation {ℓ} : {A : Type ℓ} → Option A → Result A
or_violation none = err tool_policy_violation
or_violation (some a) = ok a

abbrev pub is_duplicate : ToolCallProposal → ToolCallProposal → Bool
is_duplicate p previous =
    decide (String-discrete previous.tool_call_id p.tool_call_id)
    || decide (ReadToolName-discrete previous.tool_name p.tool_name)
      && decide (JsonObject-discrete previous.arguments p.arguments)

pub record ToolPolicy : Type 0 where
  pub goal : GoalEncoding
  pub max_tool_calls : ℕ
  pub include_knowledge : Bool

-- the construction
unfoldable pub tool_policy : GoalEncoding → ℕ → Bool → Result ToolPolicy
tool_policy g max include_knowledge = do
  raise_if (ltb max 1) (value_error "max_tool_calls must be a positive integer")
  ok (record { goal = g; max_tool_calls = max; include_knowledge = include_knowledge })

-- `safe_identifier` is pydantic's validation of a `SafeIdentifier`: the stripped text, or nothing
module _ (safe_identifier : String → Option String) where
  unfoldable pub authorize :
      ToolPolicy → String → String → JsonObject → List ToolCallProposal → Result ToolCallProposal
  authorize policy tool_call_id tool_name arguments prior_calls = do
    raise_if (leb policy.max_tool_calls (length prior_calls)) tool_budget_exceeded
    read_name ← or_violation (read_tool_name tool_name)
    expected ← or_violation (expected_arguments policy.goal policy.include_knowledge read_name)
    raise_if (is_other policy.goal.object_id (lookup (subject_key policy.goal.scenario) arguments))
        object_binding_mismatch
    raise_if (not (decide (JsonObject-discrete arguments expected))) tool_policy_violation
    id ← or_violation (safe_identifier tool_call_id)
    let proposal : ToolCallProposal = record {
      tool_call_id = id;
      tool_name = read_name;
      arguments = arguments;
    }
    raise_if (any (is_duplicate proposal) prior_calls) duplicate_tool_call
    ok proposal
