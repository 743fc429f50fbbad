-- ===== src/Agent/Loop/Run.antt =====
-- A run from the trusted intent: it ends, within its budget.
use opercerta.Common.{
  suc, ◌≤◌, ◌≡◌, refl, sym, ap, ◌∙◌, arith, decide_iff, Bool, true, false, Option, some,
  String-discrete, ◌⊎◌, inl, inr, Bool-cases,
}
use opercerta.Domain.Errors.{bind-ok, Result, ok, err}
use opercerta.Agent.Contracts.{GoalEncoding, IntentEnvelope}
use opercerta.Agent.Policy.Budget.{no_calls, Authorized_lem}
use opercerta.Agent.Harness.{accepted, validate_goal, ActionType-discrete, ScenarioKind-discrete}
use opercerta.Agent.Loop.{State, initial_state}
use opercerta.Agent.Loop.Nodes.{
  Setup, Outcome, analysed, given_up, is_failed, encode_goal, begun, unless_failed, with_knowledge,
  looped, started, investigate,
}
use opercerta.Agent.Loop.Turns.{asked-ok}
use opercerta.Agent.Loop.Budget.{no_reads, policy_with}
use opercerta.Agent.Loop.Within.{IsWithin, IsComplete}
use opercerta.Agent.Loop.Ends.{IsEnd, run_loop-IsEnd}

-- a goal that is the one of the intent
abbrev pub IsTrusted : IntentEnvelope → GoalEncoding → Type 0
IsTrusted intent g =
    (g.goal ≡ intent.goal) × (g.scenario ≡ intent.scenario) × (g.object_id ≡ intent.object_id)

trusted :
    (intent : IntentEnvelope) (candidate g : GoalEncoding)
    → validate_goal intent candidate ≡ accepted g
    → IsTrusted intent g
unfolding validate_goal
trusted intent candidate g h = ground (
  arith,
  decide_iff (ActionType-discrete candidate.goal intent.goal),
  decide_iff (ScenarioKind-discrete candidate.scenario intent.scenario),
  decide_iff (String-discrete candidate.object_id intent.object_id),
)

IsTrusted-with_knowledge :
    (b : Bool) (intent : IntentEnvelope) (g : GoalEncoding)
    → IsTrusted intent g
    → IsTrusted intent (with_knowledge b g)
IsTrusted-with_knowledge b intent g h = ground arith

module _ (x : Setup) (intent : IntentEnvelope) where
  -- what a run ends with
  abbrev pub IsInvestigated : Outcome → Type 0
  IsInvestigated (analysed s) =
      (g : GoalEncoding) × IsTrusted intent g
      × IsWithin x g s
      × IsComplete x g s
      × (s.model_call_count ≤ x.budget.max_model_calls)
      × (s.tool_call_count ≤ x.budget.max_tool_calls)
  IsInvestigated (given_up s) = is_failed s.status ≡ true

  pub encode_goal-ok :
      (s : State)
      → encode_goal x (initial_state intent) ≡ ok s
      → (is_failed s.status ≡ true)
        ⊎ ((g : GoalEncoding) × IsTrusted intent g × IsWithin x g s × (s.model_call_count ≡ 1))
  encode_goal-ok s h =
      elim (asked-ok (initial_state intent) s _ (x.encode intent) (validate_goal intent) h) [
        | inl failed_ ↦ inl failed_
        | inr (c, g, _, e, same) ↦ inr (
          with_knowledge x.knowledge_required g,
          IsTrusted-with_knowledge x.knowledge_required intent g (trusted intent c g e),
          rw same (record { goal = refl; calls = no_calls; counted = refl; reads = no_reads }),
          rw same refl,
        )
      ]

  unless_failed-ok :
      (s : State) (rest : State → Result (Option Outcome)) (r : Option Outcome)
      → unless_failed x s rest ≡ ok r
      → ((r ≡ some (given_up s)) × (is_failed s.status ≡ true))
        ⊎ ((is_failed s.status ≡ false) × (rest s ≡ ok r))
  unless_failed-ok s rest r h = elim (Bool-cases (is_failed s.status)) [
    | inl failed_ ↦ inl (ground arith, failed_)
    | inr live ↦ inr (live, ground arith)
  ]

  pub begun-same :
      (m : Result (Unit {0})) (s : State)
      → (is_failed (begun x m s).status ≡ true) ⊎ (begun x m s ≡ s)
  begun-same (err e) s = inl refl
  begun-same (ok _) s = inr refl

  ended-IsInvestigated :
      (g : GoalEncoding) (o : Outcome) → IsTrusted intent g → IsEnd x g o → IsInvestigated o
  ended-IsInvestigated g (analysed s) t (w, complete, l) =
      let few = (Authorized_lem x.safe_identifier (policy_with x g) s.authorized_calls w.calls).0 in
      (g, t, w, complete, l, omega (arith, few, w.counted))
  ended-IsInvestigated g (given_up s) t failed_ = failed_

  loop_run :
      (g : GoalEncoding) (s : State) (r : Option Outcome)
      → IsTrusted intent g
      → IsWithin x g s
      → s.model_call_count ≡ 1
      → unless_failed x s (looped x) ≡ ok r
      → (o : Outcome) × (r ≡ some o) × IsInvestigated o
  unfolding looped
  loop_run g s r t w count h = elim (unless_failed-ok s (looped x) r h) [
    | inl (e, failed_) ↦ (given_up s, e, failed_)
    | inr (_, h') ↦
        let (o, e, end) =
          run_loop-IsEnd x g (suc x.budget.max_model_calls) s r w (omega (arith, count))
            (omega (arith, count)) h' in
        (o, e, ended-IsInvestigated g o t end)
  ]

  -- Whatever the gateways answer, a run of the agent's graph up to the analysis that returns has
  -- ended within its fuel, either failed, or with an analysis of the trusted goal with its
  -- required evidence, authorized calls only, observations of those calls only, and both counts
  -- within the budget.
  pub investigate_lem :
      (r : Option Outcome)
      → investigate x intent ≡ ok r
      → (o : Outcome) × (r ≡ some o) × IsInvestigated o
  unfolding investigate
  investigate_lem r h =
      let (s, e, h_1) = bind-ok (encode_goal x (initial_state intent)) _ r h in
      elim (unless_failed-ok s (started x) r h_1) [
        | inl (f, failed_) ↦ (given_up s, f, failed_)
        | inr (live, h_2) ↦ elim (begun-same x.marked s) [
          | inl failed_ ↦ elim (unless_failed-ok (begun x x.marked s) (looped x) r h_2) [
            | inl (f, _) ↦ (given_up (begun x x.marked s), f, failed_)
            | inr (live', _) ↦ absurd (cc)
          ]
          | inr same ↦ elim (encode_goal-ok s e) [
            | inl failed_ ↦ absurd (cc)
            | inr (g, t, w, count) ↦
                loop_run g s r t w count
                  (ap (λ (z : State). unless_failed x z (looped x)) (sym same) ∙ h_2)
          ]
        ]
      ]
