-- ===== src/Agent/Contracts.antt =====
-- domain/agent.py: the goals, plans, turns and tool calls of the agent. The arguments of a call are
-- an object of JSON scalars, with its keys in order, so that equal dictionaries are equal here.
use opercerta.Common.{ℕ, ℕ_discrete, String, String-discrete, List}
use opercerta.Domain.Values.{JsonObject}
use opercerta.Domain.Contracts.{ActionType}
use opercerta.Domain.Scenarios.{ScenarioKind}

pub data ReadToolName : Type 0 where
  inventory_snapshot equipment_status task_status : ReadToolName
  policy_constraints knowledge_search : ReadToolName

unfoldable pub ReadToolName-discrete : Discrete ReadToolName
ReadToolName-discrete = hlevel

pub data EvidenceRequirement : Type 0 where
  subject policy knowledge : EvidenceRequirement

pub data ConfidenceBand : Type 0 where
  low medium high : ConfidenceBand

pub record IntentEnvelope : Type 0 where
  pub goal : ActionType
  pub scenario : ScenarioKind
  pub object_id : String
  pub trigger_reason : String
  pub expected_action : String

pub record GoalEncoding : Type 0 where
  pub goal : ActionType
  pub scenario : ScenarioKind
  pub object_id : String
  pub required_evidence : List EvidenceRequirement
  pub success_condition : String
  pub uncertainties : List String

unfoldable pub GoalEncoding-discrete : Discrete GoalEncoding
GoalEncoding-discrete = hlevel String-discrete

pub record InvestigationStep : Type 0 where
  pub tool_name : ReadToolName
  pub arguments : JsonObject
  pub purpose : String

pub record InvestigationPlan : Type 0 where
  pub goal : GoalEncoding
  pub steps : List InvestigationStep
  pub replan_count : ℕ

pub record ToolCallProposal : Type 0 where
  pub tool_call_id : String
  pub tool_name : ReadToolName
  pub arguments : JsonObject

unfoldable pub JsonObject-discrete : Discrete JsonObject
JsonObject-discrete = hlevel (ℕ_discrete, String-discrete)

pub record AgentToolCall : Type 0 where
  pub tool_call_id : String
  pub tool_name : ReadToolName
  pub arguments : JsonObject
  pub purpose : String

pub record FinalAnalysis : Type 0 where
  pub finding : String
  pub evidence_refs : List String
  pub missing_evidence : List EvidenceRequirement
  pub recommended_action : String
  pub confidence_band : ConfidenceBand
  pub explanation : String

pub data AgentTurn : Type 0 where
  tool_decision : List AgentToolCall → AgentTurn
  final_analysis : FinalAnalysis → AgentTurn

-- `max_replans` has one value, 1
pub record AgentBudget : Type 0 where
  pub max_model_calls : ℕ
  pub max_tool_calls : ℕ
  pub max_input_tokens : ℕ
  pub timeout_seconds : ℕ

abbrev pub max_replans : AgentBudget → ℕ
max_replans b = 1
