-- ===== src/Agent/Loop.antt =====
-- The loop of workflow/inventory_agent_root_graph.py, from the encoded goal to the final analysis:
-- its nodes, its routes, and the graph that they make.
pub mod Nodes
pub mod Turns
pub mod Budget
pub mod Within
pub mod Ends
pub mod Run
pub mod Total
pub mod Returned
use opercerta.Common.{
  ℕ, zero, suc, ◌+◌, pos, String, String-discrete, Bool, true, false, not, ◌||◌, ◌&&◌, Option, none,
  some, List, [], ◌∷◌, ◌++◌, ◌==◌, map, ltb, decide, any, find, length, if◌then◌else◌,
}
use opercerta.Domain.Errors.{Error, Result, ok, err, value_error, raise_if, ◌>>=◌, ◌>>◌}
use opercerta.Domain.Contracts.{is_none}
use opercerta.Domain.Scenarios.{ScenarioKind}
use opercerta.Domain.Values.{JsonObject, Digest}
use opercerta.Agent.Contracts.{
  ReadToolName, ReadToolName-discrete, EvidenceRequirement, GoalEncoding, ToolCallProposal,
  AgentToolCall, FinalAnalysis, AgentTurn, AgentBudget, IntentEnvelope, tool_decision,
  final_analysis, inventory_snapshot, equipment_status, task_status, policy_constraints,
  knowledge_search,
}
use opercerta.Agent.Policy.{
  ToolPolicy, tool_policy, authorize, subject_tool, subject_arguments, policy_arguments,
  knowledge_arguments,
}
use opercerta.Agent.Harness.{Checked, accepted, violation, validate_goal, validate_turn}
use opercerta.Agent.Executor.{
  ToolObservation, ObservationStatus, succeeded, errored, ReadResult, execute,
}

-- the values of `status`
pub data RunStatus : Type 0 where
  running query_completed awaiting_approval needs_reapproval : RunStatus
  completed rejected aborted failed : RunStatus

pub record AgentAnalysis : Type 0 where
  pub summary : String
  pub recommendation : String

-- the fields of `InventoryAgentRootState` that the loop reads or writes
pub record State : Type 0 where
  pub intent : IntentEnvelope
  pub goal : Option GoalEncoding
  pub last_turn : Option AgentTurn
  pub authorized_calls : List ToolCallProposal
  pub observations : List ToolObservation
  pub final : Option FinalAnalysis
  pub agent_analysis : Option AgentAnalysis
  pub model_call_count : ℕ
  pub tool_call_count : ℕ
  pub status : RunStatus
  pub error_code : Option String

-- `build_controlled_agent_root_initial_state`, of those fields
abbrev pub initial_state : IntentEnvelope → State
initial_state intent = record {
  intent = intent;
  goal = none;
  last_turn = none;
  authorized_calls = [];
  observations = [];
  final = none;
  agent_analysis = none;
  model_call_count = 0;
  tool_call_count = 0;
  status = running;
  error_code = none;
}

abbrev pub fail : String → State → State
fail code s = record s { status = RunStatus.failed; error_code = some code }

-- what the model's gateway does: it answers, raises one of `_LOOP_ERRORS`, or another exception
pub data Answer {ℓ} (A : Type ℓ) : Type ℓ where
  answered : A → Answer A
  refused : String → Answer A
  broken : Error → Answer A

pub record ToolDefinition : Type 0 where
  pub name : ReadToolName
  pub description : String
  -- the keys of the input schema with the constants that they are to have
  pub properties : JsonObject

-- `_build_definitions`
abbrev pub definitions : GoalEncoding → Bool → List ToolDefinition
definitions g include_knowledge =
    (record {
      name = subject_tool g.scenario;
      description = "读取当前业务对象的合成事实快照。";
      properties = subject_arguments g;
    })
    ∷ (record {
      name = policy_constraints;
      description = "读取当前业务对象适用的确定性规则约束。";
      properties = policy_arguments g;
    })
    ∷ (if include_knowledge
        then (record {
          name = knowledge_search;
          description = "检索当前场景已激活的合成中文 SOP。";
          properties = knowledge_arguments g;
        })
          ∷ []
        else [])

pub record AgentDecisionContext : Type 0 where
  pub goal : GoalEncoding
  pub tools : List ToolDefinition
  pub observations : List ToolObservation
  pub model_call_count : ℕ
  pub tool_call_count : ℕ

-- a value of the state that a node parses
abbrev pub parsed {ℓ} : {A : Type ℓ} → Option A → Result A
parsed none = err (value_error "validation")
parsed (some x) = ok x

abbrev is_observed : List ToolObservation → ReadToolName → Bool
is_observed os t = any (λ (o : ToolObservation). decide (ReadToolName-discrete o.tool_name t)) os

abbrev unobserved : List ToolObservation → List ToolDefinition → List ToolDefinition
unobserved os [] = []
unobserved os (d ∷ ds) = if is_observed os d.name then unobserved os ds else d ∷ unobserved os ds

-- the values of `ReadToolName`
abbrev pub read_tool_value : ReadToolName → String
read_tool_value inventory_snapshot = "inventory.get_snapshot"
read_tool_value equipment_status = "equipment.get_status"
read_tool_value task_status = "task.get_status"
read_tool_value policy_constraints = "policy.list_constraints"
read_tool_value knowledge_search = "knowledge.search_sop"

-- the text of an error of the policy that is among `_LOOP_ERRORS`
abbrev pub loop_error : Error → Option String
loop_error Error.duplicate_tool_call = some "duplicate_tool_call"
loop_error Error.object_binding_mismatch = some "object_binding_mismatch"
loop_error Error.tool_budget_exceeded = some "tool_budget_exceeded"
loop_error Error.tool_policy_violation = some "tool_policy_violation"
loop_error _ = none

-- `required_fact_tools` of application/scenario_runtime.py, and the tool for the knowledge
abbrev pub required_tools : GoalEncoding → Bool → List ReadToolName
required_tools g knowledge_required =
    subject_tool g.scenario
    ∷ policy_constraints
    ∷ (if knowledge_required then knowledge_search ∷ [] else [])

-- `successful.get(name)`; the policy lets each tool be read once
abbrev pub successful : List ToolObservation → ReadToolName → Option ToolObservation
successful [] t = none
successful (o ∷ os) t = elim (successful os t) [
  | some later ↦ some later
  | none ↦ elim o.status [
    | succeeded ↦ if decide (ReadToolName-discrete o.tool_name t) then some o else none
    | errored ↦ none
  ]
]

-- the ids of the calls behind the required tools, and `none` where one has not succeeded
abbrev pub references : List ToolObservation → List ReadToolName → Option (List String)
references os [] = some []
references os (t ∷ ts) = elim (successful os t) [
  | none ↦ none
  | some o ↦ elim (references os ts) [ none ↦ none | some ids ↦ some (o.tool_call_id ∷ ids) ]
]

abbrev pub is_empty {ℓ} : {A : Type ℓ} → List A → Bool
is_empty [] = true
is_empty (_ ∷ _) = false

-- `sorted`, the lineage of the analysis and the analysis itself
abbrev pub with_final : FinalAnalysis → State → State
with_final f s = record s {
  final = some f;
  agent_analysis = some (record { summary = f.finding; recommendation = f.explanation });
}
