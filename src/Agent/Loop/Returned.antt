-- ===== src/Agent/Loop/Returned.antt =====
-- A run returns where nothing behind the graph raises.
use opercerta.Common.{
  ℕ, zero, suc, ◌≤◌, ◌≡◌, refl, ap, ◌∙◌, arith, true, Option, some, ◌⊎◌, inl, inr, Bool-cases,
}
use opercerta.Domain.Errors.{Result, ok}
use opercerta.Agent.Contracts.{GoalEncoding, IntentEnvelope}
use opercerta.Agent.Harness.{validate_goal}
use opercerta.Agent.Loop.{State, initial_state}
use opercerta.Agent.Loop.Nodes.{
  Setup, Outcome, given_up, Turned, stopped, again, is_failed, turn, run_loop, encode_goal,
  unless_failed, looped, started, investigate, begun,
}
use opercerta.Agent.Loop.Within.{IsWithin, IsTurn}
use opercerta.Agent.Loop.Ends.{turn-IsTurn}
use opercerta.Agent.Loop.Run.{IsInvestigated, investigate_lem, encode_goal-ok, begun-same}
use opercerta.Agent.Loop.Total.{Returns, IsCalm, turn-Returns, asked-Returns, bind-Returns}

module _ (x : Setup) (calm : IsCalm x) where
  run_loop-Returns :
      (g : GoalEncoding) (fuel : ℕ) (s : State)
      → IsWithin x g s
      → 1 ≤ s.model_call_count
      → Returns (run_loop x fuel s)
  unfolding run_loop
  run_loop-Returns g zero s w positive = (_, refl)
  run_loop-Returns g (suc fuel) s w positive =
      let (t, f) = turn-Returns x calm g s w.goal positive in
      turned t f (turn-IsTurn x g s t w f) (λ s' w' more. run_loop-Returns g fuel s' w' more)
    where
      turned :
          (t : Turned)
          → turn x s ≡ ok t
          → IsTurn x g s t
          → ((s' : State)
              → IsWithin x g s'
              → 1 ≤ s'.model_call_count
              → Returns (run_loop x fuel s'))
          → Returns (run_loop x (suc fuel) s)
      turned (stopped o) f kept rest = (some o, ground arith)
      turned (again s') f (w', count, l) rest =
          let (r, e) = rest s' w' (omega (arith, count)) in (r, ground arith)

  unless_failed-Returns :
      (s : State) (rest : State → Result (Option Outcome))
      → ((is_failed s.status ≡ true) ⊎ Returns (rest s))
      → Returns (unless_failed x s rest)
  unless_failed-Returns s rest h = elim (Bool-cases (is_failed s.status)) [
    | inl failed_ ↦ (some (given_up s), ground arith)
    | inr live ↦ elim h [ inl failed_ ↦ absurd (cc) | inr (r, e) ↦ (r, ground arith) ]
  ]

  -- Where the gateways of the model and of the reads raise nothing beyond what the graph catches
  -- and the budget of the tools is positive, the graph from its start to the end of the agent's
  -- loop always returns within the fuel of one turn beyond the budget, either failed, or with an
  -- analysis of the trusted goal for which every required tool was read with success, no
  -- evidence is missing, every call was authorized, every observation is what an authorized call
  -- came to, and both counts are within the budget.
  pub investigate_total :
      (intent : IntentEnvelope)
      → (o : Outcome) × (investigate x intent ≡ ok (some o)) × IsInvestigated x intent o
  unfolding looped investigate
  investigate_total intent =
      let (r, e) = returned in
      let (o, same, end) = investigate_lem x intent r e in
      (o, e ∙ ap (λ (z : Option Outcome). ok z) same, end)
    where
      looped_from :
          (s : State)
          → encode_goal x (initial_state intent) ≡ ok s
          → (is_failed s.status ≡ true) ⊎ Returns (looped x s)
      looped_from s e = elim (encode_goal-ok x intent s e) [
        | inl failed_ ↦ inl failed_
        | inr (g, _, w, count) ↦
            inr (run_loop-Returns g (suc x.budget.max_model_calls) s w (omega (arith, count)))
      ]

      started_from :
          (s : State) → encode_goal x (initial_state intent) ≡ ok s → Returns (started x s)
      started_from s e = elim (begun-same x intent x.marked s) [
        | inl failed_ ↦ unless_failed-Returns (begun x x.marked s) (looped x) (inl failed_)
        | inr same ↦ rw same (unless_failed-Returns s (looped x) (looped_from s e))
      ]

      returned : Returns (investigate x intent)
      returned =
          bind-Returns (encode_goal x (initial_state intent)) _
            (asked-Returns (initial_state intent) _ (x.encode intent) (validate_goal intent)
              (calm.encoded intent))
            (λ s e. unless_failed-Returns s (started x) (inr (started_from s e)))
