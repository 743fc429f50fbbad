-- ===== src/Tests/Agent.antt =====
-- The theorems on the agent, at a model that reads two tools and concludes.
use mathlib.Core.Bool.{decide}
use opercerta.Common.Tests.{String-discrete}
use opercerta.Common.{
  ◌≡◌, ◌≤◌, refl, false, none, some, List, [], ◌∷◌, length, if◌then◌else◌, arith,
}
use opercerta.Domain.Errors.{ok}
use opercerta.Domain.Values.{text}
use opercerta.Domain.Contracts.{ActionType}
use opercerta.Domain.Scenarios.{ScenarioKind}
use opercerta.Agent.Contracts.{
  ReadToolName, ReadToolName-discrete, JsonObject-discrete, EvidenceRequirement, IntentEnvelope,
  GoalEncoding, ToolCallProposal, AgentToolCall, ConfidenceBand, AgentTurn, AgentBudget,
  tool_decision, final_analysis,
}
use opercerta.Agent.Policy.{
  ToolPolicy, authorize, expected_arguments, read_tool_name, subject_arguments, policy_arguments,
}
use opercerta.Agent.Policy.Budget.{Authorized, no_calls, then_, count_uses, Authorized_lem}
use opercerta.Agent.Executor.{ToolObservation, scalar, bare, execute}
use opercerta.Agent.Loop.{answered}
use opercerta.Agent.Loop.Nodes.{Setup, Outcome, investigate}
use opercerta.Agent.Loop.Run.{IsInvestigated, investigate_lem}
use opercerta.Agent.Loop.Total.{IsCalm}
use opercerta.Agent.Loop.Returned.{investigate_total}

abbrev intent : IntentEnvelope
intent = record {
  goal = ActionType.create_work_order;
  scenario = ScenarioKind.inventory;
  object_id = "SKU-1";
  trigger_reason = "below_reorder_point";
  expected_action = "replenish_inventory";
}

abbrev goal : GoalEncoding
goal = record {
  goal = ActionType.create_work_order;
  scenario = ScenarioKind.inventory;
  object_id = "SKU-1";
  required_evidence = EvidenceRequirement.subject ∷ EvidenceRequirement.policy ∷ [];
  success_condition = "stock_restored";
  uncertainties = [];
}

abbrev budget : AgentBudget
budget = record {
  max_model_calls = 6;
  max_tool_calls = 4;
  max_input_tokens = 4000;
  timeout_seconds = 30;
}

abbrev stock_call : AgentToolCall
stock_call = record {
  tool_call_id = "call-1";
  tool_name = ReadToolName.inventory_snapshot;
  arguments = subject_arguments goal;
  purpose = "stock";
}

abbrev policy_call : AgentToolCall
policy_call = record {
  tool_call_id = "call-2";
  tool_name = ReadToolName.policy_constraints;
  arguments = policy_arguments goal;
  purpose = "rules";
}

abbrev asks : AgentTurn
asks = tool_decision (stock_call ∷ policy_call ∷ [])

abbrev concludes : AgentTurn
concludes = final_analysis (record {
  finding = "short of stock";
  evidence_refs = [];
  missing_evidence = [];
  recommended_action = "replenish_inventory";
  confidence_band = ConfidenceBand.high;
  explanation = "below the reorder point";
})

abbrev chosen : List ToolObservation → AgentTurn
chosen [] = asks
chosen (_ ∷ _) = concludes

abbrev setup : Setup
setup = record {
  budget = budget;
  knowledge_enabled = false;
  knowledge_required = false;
  encode = λ _. answered goal;
  choose = λ c. answered (chosen c.observations);
  read = λ _ _. ok (bare (record { evidence_id = some 11; dumped = scalar (text "facts") }));
  sha256 = λ _. "d1";
  safe_identifier = λ s. some s;
  marked = ok tt;
  sorted = λ ids. ids;
}

setup-IsCalm : IsCalm setup
unfolding execute
setup-IsCalm = record {
  encoded = λ i e h. cc;
  chosen = λ c e h. cc;
  executed = λ p. (_, refl);
  tool_budget = omega arith;
}

investigate_total_example :
    (o : Outcome) × (investigate setup intent ≡ ok (some o)) × IsInvestigated setup intent o
investigate_total_example = investigate_total setup setup-IsCalm intent

investigate_lem_example :
    (o : Outcome) × (some (investigate_total setup setup-IsCalm intent).0 ≡ some o)
    × IsInvestigated setup intent o
investigate_lem_example =
    investigate_lem setup intent (some (investigate_total setup setup-IsCalm intent).0)
      (investigate_total setup setup-IsCalm intent).1

abbrev policy : ToolPolicy
policy = record { goal = goal; max_tool_calls = 4; include_knowledge = false }

abbrev stock_proposal : ToolCallProposal
stock_proposal = record {
  tool_call_id = "call-1";
  tool_name = ReadToolName.inventory_snapshot;
  arguments = subject_arguments goal;
}

abbrev policy_proposal : ToolCallProposal
policy_proposal = record {
  tool_call_id = "call-2";
  tool_name = ReadToolName.policy_constraints;
  arguments = policy_arguments goal;
}

two_calls : Authorized (λ s. some s) policy (stock_proposal ∷ policy_proposal ∷ [])
unfolding authorize expected_arguments read_tool_name ReadToolName-discrete JsonObject-discrete
    String-discrete decide
two_calls =
    then_ (then_ no_calls "call-1" "inventory.get_snapshot" (subject_arguments goal) refl) "call-2"
      "policy.list_constraints" (policy_arguments goal) refl

Authorized_lem_example :
    (length (stock_proposal ∷ policy_proposal ∷ []) ≤ 4)
    × ((t : ReadToolName) → count_uses t (stock_proposal ∷ policy_proposal ∷ []) ≤ 1)
    × ((t : ReadToolName)
        → expected_arguments goal false t ≡ none
        → count_uses t (stock_proposal ∷ policy_proposal ∷ []) ≡ 0)
    × (length (stock_proposal ∷ policy_proposal ∷ []) ≤ (if false then 3 else 2))
Authorized_lem_example =
    Authorized_lem (λ s. some s) policy (stock_proposal ∷ policy_proposal ∷ []) two_calls
