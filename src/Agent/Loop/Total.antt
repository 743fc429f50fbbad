-- ===== src/Agent/Loop/Total.antt =====
-- Where nothing behind the graph raises, a run returns.
use opercerta.Common.{
  ◌+◌, ◌≤◌, ◌≡◌, ◌≢◌, refl, sym, ap, ◌∙◌, arith, true, Option, none, some, List, [], ◌∷◌, ◌++◌,
  ◌==◌, inl, inr, ltb, Bool-cases, Option-cases, String,
}
use opercerta.Domain.Errors.{ok_same, Error, Result, ok, err, raise_if, ◌>>=◌}
use opercerta.Agent.Contracts.{
  GoalEncoding, IntentEnvelope, ToolCallProposal, AgentToolCall, AgentTurn, tool_decision,
  final_analysis,
}
use opercerta.Agent.Policy.{ToolPolicy, tool_policy, authorize, read_tool_name, expected_arguments}
use opercerta.Domain.Values.{JsonObject}
use opercerta.Agent.Harness.{Checked, accepted, violation}
use opercerta.Agent.Executor.{ToolObservation, execute}
use opercerta.Agent.Loop.{
  State, parsed, loop_error, read_tool_value, Answer, answered, refused, broken,
  AgentDecisionContext,
}
use opercerta.Agent.Loop.Nodes.{
  Setup, asked, checked, try_, Route, to_tools, to_final, to_failed, is_failed, decided,
  decision_context, model_decide, route_turn, route_of, follow, policy_of, authorize_all,
  authorize_tools, is_completed, execute_all, execute_read_tools, validate_final_analysis,
  after_authorize, turn,
}
use opercerta.Agent.Loop.Turns.{with_turn, model_decide-ok}
use opercerta.Agent.Loop.Budget.{policy_with}

abbrev pub Returns {ℓ} : {A : Type ℓ} → Result A → Type ℓ
Returns {A = A} r = (a : A) × (r ≡ ok a)

-- the gateways answer, and the budget of the tools is a positive integer
pub record IsCalm (x : Setup) : Type 0 where
  pub encoded : (i : IntentEnvelope) (e : Error) → x.encode i ≢ broken e
  pub chosen : (c : AgentDecisionContext) (e : Error) → x.choose c ≢ broken e
  pub executed : (p : ToolCallProposal) → Returns (execute x.sha256 x.read p)
  pub tool_budget : 1 ≤ x.budget.max_tool_calls

-- a call that raises nothing but errors that the loop catches
abbrev IsCaught {ℓ} : {A : Type ℓ} → Result A → Type ℓ
IsCaught r = (e : Error) → r ≡ err e → loop_error e ≢ none

module _ {ℓ κ} {A : Type ℓ} {B : Type κ} where
  pub bind-Returns :
      (r : Result A) (f : A → Result B)
      → Returns r
      → ((a : A) → r ≡ ok a → Returns (f a))
      → Returns (r >>= f)
  bind-Returns (ok a) f h k = k a refl
  bind-Returns (err e) f (a, h) k = absurd (cc)

module _ {ℓ} {A : Type ℓ} (s : State) (f : A → State) where
  checked-Returns : (c : Checked A) → Returns (checked c s f)
  checked-Returns (violation code) = (_, refl)
  checked-Returns (accepted y) = (_, refl)

  pub asked-Returns :
      (a : Answer A) (validate : A → Checked A)
      → ((e : Error) → a ≢ broken e)
      → Returns (asked a validate s f)
  asked-Returns (refused code) validate h = (_, refl)
  asked-Returns (broken e) validate h = absurd (h e refl)
  asked-Returns (answered t) validate h = checked-Returns (validate t)

  try_-Returns : (r : Result A) → IsCaught r → Returns (try_ r s f)
  try_-Returns (ok y) h = (_, refl)
  try_-Returns (err e) h = elim (Option-cases (loop_error e)) [
    | inl uncaught ↦ absurd (h e refl uncaught)
    | inr (code, q) ↦ rw q (_, refl)
  ]

module _ {ℓ κ} {A : Type ℓ} {B : Type κ} where
  bind-IsCaught :
      (r : Result A) (f : A → Result B)
      → IsCaught r
      → ((a : A) → IsCaught (f a))
      → IsCaught (r >>= f)
  bind-IsCaught (ok a) f h k e q = k a e q
  bind-IsCaught (err g) f h k e q = h e (cc)

authorize-IsCaught :
    (safe_identifier : String → Option String) (policy : ToolPolicy) (id name : String)
    (arguments : JsonObject) (ps : List ToolCallProposal)
    → IsCaught (authorize safe_identifier policy id name arguments ps)
unfolding authorize
authorize-IsCaught safe_identifier policy id name arguments ps e h uncaught =
    elim (Option-cases (read_tool_name name)) [
      | inl unknown ↦ absurd (ground arith)
      | inr (t, named) ↦
          elim (Option-cases (expected_arguments policy.goal policy.include_knowledge t)) [
            | inl unexpected ↦ absurd (ground arith)
            | inr (a, expected) ↦ elim (Option-cases (safe_identifier id)) [
              | inl unsafe ↦ absurd (ground arith)
              | inr (i, safe) ↦ absurd (ground arith)
            ]
          ]
    ]

module _ (x : Setup) (calm : IsCalm x) where
  authorize_all-IsCaught :
      (policy : ToolPolicy) (calls : List AgentToolCall) (ps : List ToolCallProposal)
      → IsCaught (authorize_all x policy calls ps)
  unfolding authorize_all
  authorize_all-IsCaught policy [] ps = λ e h. absurd (cc)
  authorize_all-IsCaught policy (c ∷ cs) ps =
      bind-IsCaught _ _
        (authorize-IsCaught x.safe_identifier policy c.tool_call_id (read_tool_value c.tool_name)
          c.arguments ps)
        (λ p. authorize_all-IsCaught policy cs (ps ++ p ∷ []))

  execute_all-Returns :
      (completed : List ToolObservation) (ps : List ToolCallProposal) (os : List ToolObservation)
      → Returns (execute_all x completed ps os)
  unfolding execute_all
  execute_all-Returns completed [] os = (_, refl)
  execute_all-Returns completed (p ∷ ps) os = elim (Bool-cases (is_completed x completed p)) [
    | inl done ↦ rw (done, execute_all) (execute_all-Returns completed ps os)
    | inr fresh ↦
        rw (fresh, execute_all)
          (bind-Returns (execute x.sha256 x.read p) _ (calm.executed p)
            (λ o _. execute_all-Returns completed ps (os ++ o ∷ [])))
  ]

  policy_of-Returns : (h : GoalEncoding) → policy_of x h ≡ ok (policy_with x h)
  unfolding tool_policy
  policy_of-Returns h = let bound = calm.tool_budget in ground arith

  authorize_tools-Returns :
      (g : GoalEncoding) (calls : List AgentToolCall) (s : State)
      → s.goal ≡ some g
      → Returns (authorize_tools x calls s)
  unfolding authorize_tools
  authorize_tools-Returns g calls s goal =
      bind-Returns (parsed s.goal) _ (g, rw goal refl)
        (λ h e.
          bind-Returns (policy_of x h) _ (policy_with x h, policy_of-Returns h)
            (λ policy f.
              try_-Returns s _ (authorize_all x policy calls s.authorized_calls)
                (authorize_all-IsCaught policy calls s.authorized_calls)))

  execute_read_tools-Returns : (s : State) → Returns (execute_read_tools x s)
  unfolding execute_read_tools
  execute_read_tools-Returns s =
      bind-Returns _ _ (execute_all-Returns s.observations s.authorized_calls s.observations)
        (λ os _. (_, refl))

  decided-Returns :
      (g : GoalEncoding) (s : State)
      → s.goal ≡ some g
      → 1 ≤ s.model_call_count
      → Returns (decided x s)
  decided-Returns g s goal positive =
      bind-Returns (parsed s.goal) _ (g, rw goal refl)
        (λ h e.
          bind-Returns (policy_of x h) _ (policy_with x h, policy_of-Returns h)
            (λ policy f.
              bind-Returns (raise_if (s.model_call_count == 0) _) _ (tt, ground arith)
                (λ _ _.
                  asked-Returns s _ (x.choose (decision_context x h s)) _
                    (calm.chosen (decision_context x h s)))))

  model_decide-Returns :
      (g : GoalEncoding) (s : State)
      → s.goal ≡ some g
      → 1 ≤ s.model_call_count
      → Returns (model_decide x s)
  unfolding model_decide
  model_decide-Returns g s goal positive =
      elim (Bool-cases (ltb x.budget.max_model_calls (s.model_call_count + 1))) [
        | inl over ↦ rw (over, model_decide) (_, refl)
        | inr within ↦ rw (within, model_decide) (decided-Returns g s goal positive)
      ]

  after_authorize-Returns : (s : State) → Returns (after_authorize x s)
  after_authorize-Returns s = elim (Bool-cases (is_failed s.status)) [
    | inl failed_ ↦ rw (failed_, after_authorize) (_, refl)
    | inr live ↦
        rw (live, after_authorize)
          (bind-Returns _ _ (execute_read_tools-Returns s) (λ s' _. (_, refl)))
  ]

  follow-Returns :
      (g : GoalEncoding) (s : State) (r : Route) → s.goal ≡ some g → Returns (follow x s r)
  unfolding validate_final_analysis
  follow-Returns g s to_failed goal = (_, refl)
  follow-Returns g s (to_tools calls) goal =
      bind-Returns _ _ (authorize_tools-Returns g calls s goal) (λ s' _. after_authorize-Returns s')
  follow-Returns g s (to_final f) goal =
      bind-Returns _ _ (bind-Returns (parsed s.goal) _ (g, rw goal refl) (λ h _. (_, refl)))
        (λ s' _. (_, refl))

  pub turn-Returns :
      (g : GoalEncoding) (s : State) → s.goal ≡ some g → 1 ≤ s.model_call_count → Returns (turn x s)
  unfolding turn
  turn-Returns g s goal positive =
      bind-Returns _ _ (model_decide-Returns g s goal positive) (λ s_1 e.
        elim (model_decide-ok x s s_1 e) [
          | inl failed_ ↦
              bind-Returns (route_turn x s_1) _ (to_failed, rw failed_ refl)
                (λ r f. failing s_1 r failed_ f)
          | inr (a, same, _) ↦ rw same (answering a)
        ])
    where
      failing :
          (z : State) (r : Route)
          → is_failed z.status ≡ true
          → route_turn x z ≡ ok r
          → Returns (follow x z r)
      failing z r failed_ e =
          rw (ap (λ (q : Route). follow x z q) (ok_same r to_failed (sym e ∙ rw failed_ refl)))
            (_, refl)

      routed : (a : AgentTurn) → Returns (route_of x (some a))
      routed (tool_decision calls) = (_, refl)
      routed (final_analysis f) = (_, refl)

      routes : (a : AgentTurn) → Returns (route_turn x (with_turn a s))
      routes a = elim (Bool-cases (is_failed s.status)) [
        | inl failed_ ↦ rw failed_ (_, refl)
        | inr live ↦ rw live (routed a)
      ]

      answering :
          (a : AgentTurn) → Returns (route_turn x (with_turn a s) >>= follow x (with_turn a s))
      answering a =
          bind-Returns (route_turn x (with_turn a s)) _ (routes a)
            (λ r _. follow-Returns g (with_turn a s) r goal)
