-- ===== src/Agent/Loop/Nodes.antt =====
-- The nodes of the loop, the routes between them, and a run from the trusted intent.
use opercerta.Common.{
  ℕ, zero, suc, ◌+◌, pos, String, String-discrete, Bool, true, false, not, ◌&&◌, Option, none, some,
  List, [], ◌∷◌, ◌++◌, ◌==◌, ltb, decide, any, length, if◌then◌else◌,
}
use opercerta.Domain.Errors.{Error, Result, ok, err, value_error, raise_if, ◌>>=◌, ◌>>◌}
use opercerta.Domain.Values.{JsonObject, Digest}
use opercerta.Agent.Contracts.{
  ReadToolName, EvidenceRequirement, knowledge, GoalEncoding, ToolCallProposal, AgentToolCall,
  FinalAnalysis, AgentTurn, AgentBudget, IntentEnvelope, tool_decision, final_analysis,
}
use opercerta.Agent.Policy.{ToolPolicy, tool_policy, authorize}
use opercerta.Agent.Harness.{Checked, accepted, violation, validate_goal, validate_turn}
use opercerta.Agent.Executor.{ToolObservation, ReadResult, execute}
use opercerta.Agent.Loop.{
  State, RunStatus, fail, initial_state, Answer, answered, refused, broken, AgentDecisionContext,
  definitions, parsed, unobserved, read_tool_value, loop_error, required_tools, references,
  is_empty, with_final,
}

-- the arguments of `build_controlled_agent_root_graph`, with what lies behind them
pub record Setup : Type 0 where
  pub budget : AgentBudget
  pub knowledge_enabled : Bool
  pub knowledge_required : Bool
  -- the model's gateway
  pub encode : IntentEnvelope → Answer GoalEncoding
  pub choose : AgentDecisionContext → Answer AgentTurn
  -- the gateway of the reads, and the hash of their arguments
  pub read : ReadToolName → JsonObject → Result ReadResult
  pub sha256 : JsonObject → Digest
  -- pydantic's validation of a `SafeIdentifier`
  pub safe_identifier : String → Option String
  -- what `operations.mark_gathering_evidence` comes to, and fine where there are no operations
  pub marked : Result (Unit {0})
  -- `sorted` of a set of texts
  pub sorted : List String → List String

unfoldable pub EvidenceRequirement-discrete : Discrete EvidenceRequirement
EvidenceRequirement-discrete = hlevel

abbrev requires_knowledge : GoalEncoding → Bool
requires_knowledge g =
    any (λ (r : EvidenceRequirement). decide (EvidenceRequirement-discrete r knowledge))
      g.required_evidence

-- the goal with the evidence that the graph is set to require
abbrev pub with_knowledge : Bool → GoalEncoding → GoalEncoding
with_knowledge required g =
    if required && not (requires_knowledge g)
    then record g { required_evidence = g.required_evidence ++ knowledge ∷ [] }
    else g

abbrev pub is_failed : RunStatus → Bool
is_failed RunStatus.failed = true
is_failed _ = false

-- the ways out of `route_turn`
pub data Route : Type 0 where
  to_tools : List AgentToolCall → Route
  to_final : FinalAnalysis → Route
  to_failed : Route

-- how a turn of the loop ends, and how the loop does
pub data Outcome : Type 0 where
  analysed given_up : State → Outcome

pub data Turned : Type 0 where
  stopped : Outcome → Turned
  again : State → Turned

-- an answer that the harness has checked, with the `except` clause
abbrev pub checked {ℓ} : {A : Type ℓ} → Checked A → State → (A → State) → Result State
checked (violation code) s f = ok (fail code s)
checked (accepted x) s f = ok (f x)

abbrev pub asked {ℓ} :
    {A : Type ℓ} → Answer A → (A → Checked A) → State → (A → State) → Result State
asked (refused code) validate s f = ok (fail code s)
asked (broken e) validate s f = err e
asked (answered x) validate s f = checked (validate x) s f

abbrev pub caught : Error → Option String → State → Result State
caught e none s = err e
caught e (some code) s = ok (fail code s)

abbrev pub try_ {ℓ} : {A : Type ℓ} → Result A → State → (A → State) → Result State
try_ (err e) s f = caught e (loop_error e) s
try_ (ok x) s f = ok (f x)

module _ (x : Setup) where
  abbrev pub encode_goal : State → Result State
  encode_goal s =
      asked (x.encode s.intent) (validate_goal s.intent) s (λ g. record s {
        goal = some (with_knowledge x.knowledge_required g);
        model_call_count = 1;
      })

  abbrev pub begun : Result (Unit {0}) → State → State
  begun (err e) s = fail "dependency_unavailable" s
  begun (ok _) s = s

  abbrev pub begin_operation : State → Result State
  begin_operation s = ok (begun x.marked s)

  abbrev pub policy_of : GoalEncoding → Result ToolPolicy
  policy_of g = tool_policy g x.budget.max_tool_calls x.knowledge_enabled

  abbrev pub decision_context : GoalEncoding → State → AgentDecisionContext
  decision_context g s = record {
    goal = g;
    tools = unobserved s.observations (definitions g x.knowledge_enabled);
    observations = s.observations;
    model_call_count = s.model_call_count;
    tool_call_count = s.tool_call_count;
  }

  abbrev pub ask_turn : GoalEncoding → State → Result State
  ask_turn g s =
      asked (x.choose (decision_context g s))
        (λ turn. validate_turn x.budget turn (pos (s.model_call_count + 1)) (pos s.tool_call_count))
        s (λ turn. record s { last_turn = some turn; model_call_count = s.model_call_count + 1 })

  -- behind the guard; the context wants a positive count of model calls
  abbrev pub decided : State → Result State
  decided s = do
    g ← parsed s.goal
    policy ← policy_of g
    raise_if (s.model_call_count == 0) (value_error "validation")
    ask_turn g s

  unfoldable pub model_decide : State → Result State
  model_decide s = elim (ltb x.budget.max_model_calls (s.model_call_count + 1)) [
    | true ↦ ok (fail "model_budget_exceeded" s)
    | false ↦ decided s
  ]

  abbrev pub route_of : Option AgentTurn → Result Route
  route_of none = err (value_error "validation")
  route_of (some (tool_decision calls)) = ok (to_tools calls)
  route_of (some (final_analysis f)) = ok (to_final f)

  abbrev pub route_turn : State → Result Route
  route_turn s = if is_failed s.status then ok to_failed else route_of s.last_turn

  unfoldable pub authorize_all :
      ToolPolicy → List AgentToolCall → List ToolCallProposal → Result (List ToolCallProposal)
  authorize_all policy [] authorized = ok authorized
  authorize_all policy (call ∷ calls) authorized =
      authorize x.safe_identifier policy call.tool_call_id (read_tool_value call.tool_name)
        call.arguments authorized
      >>= λ p. authorize_all policy calls (authorized ++ p ∷ [])

  -- the turn is the one that was routed here
  unfoldable pub authorize_tools : List AgentToolCall → State → Result State
  authorize_tools calls s = do
    g ← parsed s.goal
    policy ← policy_of g
    try_ (authorize_all policy calls s.authorized_calls) s (λ authorized. record s {
      authorized_calls = authorized;
      tool_call_count = length authorized;
    })

  -- `completed` holds the ids of the observations that the node starts with
  abbrev pub is_completed : List ToolObservation → ToolCallProposal → Bool
  is_completed completed p =
      any (λ (o : ToolObservation). decide (String-discrete o.tool_call_id p.tool_call_id))
        completed

  unfoldable pub execute_all :
      List ToolObservation
      → List ToolCallProposal
      → List ToolObservation
      → Result (List ToolObservation)
  execute_all completed [] updated = ok updated
  execute_all completed (p ∷ ps) updated = elim (is_completed completed p) [
    | true ↦ execute_all completed ps updated
    | false ↦ execute x.sha256 x.read p >>= λ o. execute_all completed ps (updated ++ o ∷ [])
  ]

  unfoldable pub execute_read_tools : State → Result State
  execute_read_tools s = execute_all s.observations s.authorized_calls s.observations >>= λ updated.
      ok (record s { observations = updated; last_turn = none })

  abbrev pub bound_final : FinalAnalysis → List String → FinalAnalysis
  bound_final f ids = record f { evidence_refs = x.sorted ids }

  abbrev pub concluded : FinalAnalysis → Option (List String) → State → State
  concluded f none s = fail "required_evidence_incomplete" s
  concluded f (some ids) s =
      if is_empty f.missing_evidence
      then with_final (bound_final f ids) s
      else fail "required_evidence_incomplete" s

  unfoldable pub validate_final_analysis : FinalAnalysis → State → Result State
  validate_final_analysis f s = do
    g ← parsed s.goal
    ok (concluded f (references s.observations (required_tools g x.knowledge_required)) s)

  -- the edges behind `validate_final_analysis` and `authorize_tools`
  abbrev pub after_final : State → Turned
  after_final s = stopped (if is_failed s.status then given_up s else analysed s)

  abbrev pub after_authorize : State → Result Turned
  after_authorize s = elim (is_failed s.status) [
    | true ↦ ok (stopped (given_up s))
    | false ↦ execute_read_tools s >>= λ s'. ok (again s')
  ]

  abbrev pub follow : State → Route → Result Turned
  follow s to_failed = ok (stopped (given_up s))
  follow s (to_tools calls) = authorize_tools calls s >>= after_authorize
  follow s (to_final f) = validate_final_analysis f s >>= λ s'. ok (after_final s')

  unfoldable pub turn : State → Result Turned
  turn s = model_decide s >>= λ s'. route_turn s' >>= follow s'

  -- `none` where the fuel is used up
  unfoldable pub run_loop : ℕ → State → Result (Option Outcome)
  run_loop zero s = ok none
  run_loop (suc fuel) s = elim (turn s) [
    | err e ↦ err e
    | ok (stopped o) ↦ ok (some o)
    | ok (again s') ↦ run_loop fuel s'
  ]

  abbrev pub unless_failed : State → (State → Result (Option Outcome)) → Result (Option Outcome)
  unless_failed s rest = elim (is_failed s.status) [
    | true ↦ ok (some (given_up s))
    | false ↦ rest s
  ]

  -- from `model_decide`; a turn of the loop asks the model once, so the last of the turns that the
  -- fuel allows is beyond the budget
  unfoldable pub looped : State → Result (Option Outcome)
  looped s = run_loop (suc x.budget.max_model_calls) s

  -- from `begin_operation`
  abbrev pub started : State → Result (Option Outcome)
  started s = begin_operation s >>= λ s'. unless_failed s' looped

  -- from the start of the graph to `calculate_policy` or `mark_failed`
  unfoldable pub investigate : IntentEnvelope → Result (Option Outcome)
  investigate intent = encode_goal (initial_state intent) >>= λ s. unless_failed s started
