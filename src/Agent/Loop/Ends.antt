-- ===== src/Agent/Loop/Ends.antt =====
-- A turn of the loop, and all of its turns.
use opercerta.Common.{
  ℕ, zero, suc, ◌+◌, ◌≤◌, ◌<◌, ◌≡◌, sym, ap, ◌∙◌, arith, true, false, Option, some, List, ◌⊎◌, inl,
  inr, Bool-cases,
}
use opercerta.Domain.Errors.{bind-ok, ok_same, ok, ◌>>=◌, Result-cases}
use opercerta.Agent.Contracts.{
  GoalEncoding, AgentToolCall, FinalAnalysis, AgentTurn, tool_decision, final_analysis,
}
use opercerta.Agent.Loop.{State}
use opercerta.Agent.Loop.Nodes.{
  Setup, Outcome, analysed, given_up, Turned, stopped, again, is_failed, model_decide, route_turn,
  authorize_tools, execute_read_tools, validate_final_analysis, after_authorize, after_final,
  follow, route_of, turn, run_loop,
}
use opercerta.Agent.Loop.Turns.{with_turn, model_decide-ok}
use opercerta.Agent.Loop.Within.{
  IsWithin, IsComplete, IsTurn, authorize_tools-ok, execute_read_tools-ok,
  validate_final_analysis-ok,
}

module _ (x : Setup) (g : GoalEncoding) where
  -- behind a turn that asks for tools
  tools_turn :
      (calls : List AgentToolCall) (s : State) (t : Turned)
      → IsWithin x g s
      → (authorize_tools x calls s >>= after_authorize x) ≡ ok t
      → ((s' : State) × (t ≡ stopped (given_up s')) × (is_failed s'.status ≡ true))
        ⊎ ((s' : State) × (t ≡ again s')
            × IsWithin x g s'
            × (s'.model_call_count ≡ s.model_call_count))
  tools_turn calls s t w h =
      let (s_1, e, h_1) = bind-ok (authorize_tools x calls s) _ t h in
      elim (Bool-cases (is_failed s_1.status)) [
        | inl failed_ ↦ inl (s_1, ground arith, failed_)
        | inr live ↦ elim (authorize_tools-ok x g calls s s_1 w e) [
          | inl failed_ ↦ absurd (ground arith)
          | inr (w_1, count) ↦
              let (s_2, e_2, h_2) =
                bind-ok (execute_read_tools x s_1) (λ z. ok (again z)) t (read_on s_1 live h_1) in
              let (w_2, count_2) = execute_read_tools-ok x g s_1 s_2 w_1 e_2 in
              inr (s_2, sym (ok_same _ t h_2), w_2, count_2 ∙ count)
        ]
      ]
    where
      read_on :
          (z : State)
          → is_failed z.status ≡ false
          → after_authorize x z ≡ ok t
          → (execute_read_tools x z >>= λ z'. ok (again z')) ≡ ok t
      read_on z live e = ground arith

  -- behind a final analysis
  final_turn :
      (f : FinalAnalysis) (s : State) (t : Turned)
      → IsWithin x g s
      → (validate_final_analysis x f s >>= λ z. ok (after_final x z)) ≡ ok t
      → ((s' : State) × (t ≡ stopped (given_up s')) × (is_failed s'.status ≡ true))
        ⊎ ((s' : State) × (t ≡ stopped (analysed s'))
            × IsWithin x g s'
            × IsComplete x g s'
            × (s'.model_call_count ≡ s.model_call_count))
  final_turn f s t w h =
      let (s_1, e, h_1) = bind-ok (validate_final_analysis x f s) _ t h in
      elim (Bool-cases (is_failed s_1.status)) [
        | inl failed_ ↦ inl (s_1, ground arith, failed_)
        | inr live ↦ elim (validate_final_analysis-ok x g f s s_1 w e) [
          | inl failed_ ↦ absurd (ground arith)
          | inr (w_1, complete, count) ↦ inr (s_1, ground arith, w_1, complete, count)
        ]
      ]

  -- behind an answer of the model that was accepted
  routed :
      (a : AgentTurn) (s : State) (t : Turned)
      → IsWithin x g s
      → s.model_call_count < x.budget.max_model_calls
      → (route_turn x (with_turn a s) >>= follow x (with_turn a s)) ≡ ok t
      → IsTurn x g s t
  routed a s t w l h = elim (Bool-cases (is_failed s.status)) [
    | inl failed_ ↦ rw (given_up_t failed_) failed_
    | inr live ↦ answered a (live_t live)
  ]
    where
      within : IsWithin x g (with_turn a s)
      within = record { goal = w.goal; calls = w.calls; counted = w.counted; reads = w.reads }

      given_up_t : is_failed s.status ≡ true → t ≡ stopped (given_up (with_turn a s))
      given_up_t e = ground arith

      live_t :
          is_failed s.status ≡ false → (route_of x (some a) >>= follow x (with_turn a s)) ≡ ok t
      live_t e = ground arith

      answered :
          (b : AgentTurn)
          → (route_of x (some b) >>= follow x (with_turn a s)) ≡ ok t
          → IsTurn x g s t
      answered (tool_decision calls) e = elim (tools_turn calls (with_turn a s) t within e) [
        | inl (s', same, failed_) ↦ rw same failed_
        | inr (s', same, w', count) ↦ rw same (w', count, l)
      ]
      answered (final_analysis f) e = elim (final_turn f (with_turn a s) t within e) [
        | inl (s', same, failed_) ↦ rw same failed_
        | inr (s', same, w', complete, count) ↦ rw same (w', complete, count, l)
      ]

  pub turn-IsTurn : (s : State) (t : Turned) → IsWithin x g s → turn x s ≡ ok t → IsTurn x g s t
  unfolding turn
  turn-IsTurn s t w h =
      let (s_1, e, h_1) = bind-ok (model_decide x s) _ t h in
      elim (model_decide-ok x s s_1 e) [
        | inl failed_ ↦ rw (over s_1 failed_ h_1) failed_
        | inr (a, same, l) ↦
            routed a s t w l (ap (λ (z : State). route_turn x z >>= follow x z) (sym same) ∙ h_1)
      ]
    where
      over :
          (z : State)
          → is_failed z.status ≡ true
          → (route_turn x z >>= follow x z) ≡ ok t
          → t ≡ stopped (given_up z)
      over z failed_ e = ground arith

  -- what the loop ends with
  abbrev pub IsEnd : Outcome → Type 0
  IsEnd (analysed s) =
      IsWithin x g s × IsComplete x g s × (s.model_call_count ≤ x.budget.max_model_calls)
  IsEnd (given_up s) = is_failed s.status ≡ true

  stopped-IsEnd : (s : State) (o : Outcome) → IsTurn x g s (stopped o) → IsEnd o
  stopped-IsEnd s (analysed s') (w, complete, count, l) = (w, complete, omega (arith, count, l))
  stopped-IsEnd s (given_up s') failed_ = failed_

  pub run_loop-IsEnd :
      (fuel : ℕ) (s : State) (r : Option Outcome)
      → IsWithin x g s
      → x.budget.max_model_calls + 2 ≤ fuel + s.model_call_count
      → s.model_call_count ≤ x.budget.max_model_calls + 1
      → run_loop x fuel s ≡ ok r
      → (o : Outcome) × (r ≡ some o) × IsEnd o
  unfolding run_loop
  run_loop-IsEnd zero s r w enough within h = absurd (omega arith)
  run_loop-IsEnd (suc fuel) s r w enough within h = elim (Result-cases (turn x s)) [
    | inr (e, f) ↦ absurd (ground arith)
    | inl (t, f) ↦
        turned t f (turn-IsTurn s t w f)
          (λ s' w' more few h'. run_loop-IsEnd fuel s' r w' more few h')
  ]
    where
      turned :
          (t : Turned)
          → turn x s ≡ ok t
          → IsTurn x g s t
          → ((s' : State)
              → IsWithin x g s'
              → x.budget.max_model_calls + 2 ≤ fuel + s'.model_call_count
              → s'.model_call_count ≤ x.budget.max_model_calls + 1
              → run_loop x fuel s' ≡ ok r
              → (o : Outcome) × (r ≡ some o) × IsEnd o)
          → (o : Outcome) × (r ≡ some o) × IsEnd o
      turned (stopped o) f kept rest = (o, ground arith, stopped-IsEnd s o kept)
      turned (again s') f (w', count, l) rest =
          rest s' w' (omega arith) (omega arith) (ground arith)
