-- ===== src/Agent/Harness.antt =====
-- agent/harness.py: the checks of what a model returns against the goal and the budget.
use opercerta.Common.{
  ℕ, ℤ, pos, ltb_ℤ, ◌+ℤ◌, String, String-discrete, Bool, true, false, not, ◌&&◌, length, ltb,
  decide,
}
use opercerta.Domain.Contracts.{ActionType}
use opercerta.Domain.Scenarios.{ScenarioKind}
use opercerta.Agent.Contracts.{
  IntentEnvelope, GoalEncoding, GoalEncoding-discrete, InvestigationPlan, AgentTurn, AgentBudget,
  max_replans, tool_decision, final_analysis,
}

-- `AgentContractViolation`, with its code
pub data Checked {ℓ} (A : Type ℓ) : Type ℓ where
  accepted : A → Checked A
  violation : String → Checked A

abbrev pub check {ℓ} : {A : Type ℓ} → Bool → String → Checked A → Checked A
check true code rest = violation code
check false code rest = rest

unfoldable pub ActionType-discrete : Discrete ActionType
ActionType-discrete = hlevel

unfoldable pub ScenarioKind-discrete : Discrete ScenarioKind
ScenarioKind-discrete = hlevel

abbrev same_trust : IntentEnvelope → GoalEncoding → Bool
same_trust intent candidate =
    decide (ActionType-discrete candidate.goal intent.goal)
    && decide (ScenarioKind-discrete candidate.scenario intent.scenario)
    && decide (String-discrete candidate.object_id intent.object_id)

unfoldable pub validate_goal : IntentEnvelope → GoalEncoding → Checked GoalEncoding
validate_goal intent candidate =
    check (not (same_trust intent candidate)) "trusted_goal_mismatch" (accepted candidate)

unfoldable pub validate_plan :
    AgentBudget → GoalEncoding → InvestigationPlan → Checked InvestigationPlan
validate_plan budget goal plan =
    check (not (decide (GoalEncoding-discrete plan.goal goal))) "plan_goal_mismatch" (
      check (ltb budget.max_tool_calls (length plan.steps)) "tool_budget_exceeded" (
        check (ltb (max_replans budget) plan.replan_count) "replan_budget_exceeded"
          (accepted plan)))

abbrev tool_calls : AgentTurn → ℕ
tool_calls (tool_decision calls) = length calls
tool_calls (final_analysis _) = 0

-- a final analysis is not held against the budget of the tools
abbrev pub over_tool_budget : AgentBudget → AgentTurn → ℤ → Bool
over_tool_budget budget (final_analysis _) prior = false
over_tool_budget budget (tool_decision calls) prior =
    ltb_ℤ (pos budget.max_tool_calls) (prior +ℤ pos (length calls))

unfoldable pub validate_turn : AgentBudget → AgentTurn → ℤ → ℤ → Checked AgentTurn
validate_turn budget turn model_call_count prior_tool_call_count =
    check (ltb_ℤ model_call_count (pos 1)) "invalid_model_call_count" (
      check (ltb_ℤ prior_tool_call_count (pos 0)) "invalid_tool_call_count" (
        check (ltb_ℤ (pos budget.max_model_calls) model_call_count) "model_budget_exceeded" (
          check (over_tool_budget budget turn prior_tool_call_count) "tool_budget_exceeded"
            (accepted turn))))
