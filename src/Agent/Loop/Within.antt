-- ===== src/Agent/Loop/Within.antt =====
-- The turns of the loop keep to the policy and to the budget.
use opercerta.Common.{
  String, ◌+◌, ◌<◌, ◌≡◌, refl, sym, ap, ◌∙◌, arith, true, false, Option, none, some, List, [], ◌∷◌,
  ◌⊎◌, inl, inr, length,
}
use opercerta.Domain.Errors.{bind-ok, ok_same, Result, ok, ◌>>=◌}
use opercerta.Agent.Contracts.{GoalEncoding, AgentToolCall, FinalAnalysis}
use opercerta.Agent.Policy.{ToolPolicy, tool_policy}
use opercerta.Agent.Policy.Budget.{Authorized}
use opercerta.Agent.Loop.{State, parsed, references, required_tools, is_empty, with_final}
use opercerta.Agent.Loop.Nodes.{
  Setup, analysed, given_up, Turned, stopped, again, is_failed, policy_of, authorize_all,
  authorize_tools, execute_all, execute_read_tools, validate_final_analysis, concluded, bound_final,
}
use opercerta.Agent.Loop.Turns.{try_-ok}
use opercerta.Agent.Loop.Budget.{
  policy_with, Reads, Reads-append, execute_all-Reads, authorize_all-Authorized,
}

empty_or_not {ℓ} : {A : Type ℓ} (xs : List A) → (xs ≡ []) ⊎ (is_empty xs ≡ false)
empty_or_not [] = inl refl
empty_or_not (y ∷ ys) = inr refl

same_goal : (o : Option GoalEncoding) (g h : GoalEncoding) → o ≡ some g → parsed o ≡ ok h → h ≡ g
same_goal none g h e f = absurd (cc)
same_goal (some k) g h e f = cc

same_policy :
    (x : Setup) (g h : GoalEncoding) (p : ToolPolicy)
    → h ≡ g
    → policy_of x h ≡ ok p
    → p ≡ policy_with x g
unfolding tool_policy
same_policy x g h p e f = ground arith

-- what a node works with
pub bound_policy :
    {B : Type 0} (x : Setup) (g : GoalEncoding) (s : State) (rest : ToolPolicy → Result B) (b : B)
    → s.goal ≡ some g
    → (parsed s.goal >>= λ h. policy_of x h >>= rest) ≡ ok b
    → rest (policy_with x g) ≡ ok b
bound_policy x g s rest b goal h =
    let (k, e, h_1) = bind-ok (parsed s.goal) _ b h in
    let (p, f, h_2) = bind-ok (policy_of x k) _ b h_1 in
    rw (sym (same_policy x g k p (same_goal s.goal g k goal e) f)) h_2

module _ (x : Setup) (g : GoalEncoding) where
  -- what holds of the state between two turns
  pub record IsWithin (s : State) : Type 0 where
    pub goal : s.goal ≡ some g
    pub calls : Authorized x.safe_identifier (policy_with x g) s.authorized_calls
    pub counted : s.tool_call_count ≡ length s.authorized_calls
    pub reads : Reads x s.authorized_calls s.observations

  -- a final analysis with the evidence that it is to have
  pub record IsComplete (s : State) : Type 0 where
    pub ids : List String
    pub analysis : FinalAnalysis
    pub referred : references s.observations (required_tools g x.knowledge_required) ≡ some ids
    pub final : s.final ≡ some analysis
    pub lineage : analysis.evidence_refs ≡ x.sorted ids
    pub nothing_missing : analysis.missing_evidence ≡ []

  abbrev pub IsTurn : State → Turned → Type 0
  IsTurn s (again s') =
      IsWithin s'
      × (s'.model_call_count ≡ s.model_call_count + 1)
      × (s.model_call_count < x.budget.max_model_calls)
  IsTurn s (stopped (analysed s')) =
      IsWithin s'
      × IsComplete s'
      × (s'.model_call_count ≡ s.model_call_count + 1)
      × (s.model_call_count < x.budget.max_model_calls)
  IsTurn s (stopped (given_up s')) = is_failed s'.status ≡ true

  -- the calls are let through, or the run fails
  pub authorize_tools-ok :
      (calls : List AgentToolCall) (s s' : State)
      → IsWithin s
      → authorize_tools x calls s ≡ ok s'
      → (is_failed s'.status ≡ true) ⊎ (IsWithin s' × (s'.model_call_count ≡ s.model_call_count))
  unfolding authorize_tools
  authorize_tools-ok calls s s' w h =
      let step = bound_policy x g s _ s' w.goal h in
      elim (try_-ok s s' _ (authorize_all x (policy_with x g) calls s.authorized_calls) step) [
        | inl failed_ ↦ inl failed_
        | inr (ps, e, same) ↦
            let (a, (qs, more)) =
              authorize_all-Authorized x g calls s.authorized_calls ps w.calls e in
            inr (
              rw same (record {
                goal = w.goal;
                calls = a;
                counted = refl;
                reads = rw more (Reads-append x qs w.reads);
              }),
              rw same refl,
            )
      ]

  pub execute_read_tools-ok :
      (s s' : State)
      → IsWithin s
      → execute_read_tools x s ≡ ok s'
      → IsWithin s' × (s'.model_call_count ≡ s.model_call_count)
  unfolding execute_read_tools
  execute_read_tools-ok s s' w h =
      let (os, e, h_1) =
        bind-ok (execute_all x s.observations s.authorized_calls s.observations) _ s' h in
      let same = ok_same _ s' h_1 in
      let kept =
        execute_all-Reads x s.observations s.authorized_calls s.authorized_calls s.observations os
          (λ p c. c) w.reads e in
      (
        rw (sym same)
            (record { goal = w.goal; calls = w.calls; counted = w.counted; reads = kept }),
        rw (sym same) refl,
      )

  pub validate_final_analysis-ok :
      (f : FinalAnalysis) (s s' : State)
      → IsWithin s
      → validate_final_analysis x f s ≡ ok s'
      → (is_failed s'.status ≡ true)
        ⊎ (IsWithin s' × IsComplete s' × (s'.model_call_count ≡ s.model_call_count))
  unfolding validate_final_analysis
  validate_final_analysis-ok f s s' w h =
      let (k, e, h_1) = bind-ok (parsed s.goal) _ s' h in
      settled (references s.observations (required_tools g x.knowledge_required)) refl (
        rw
          (ap
            (λ (z : GoalEncoding).
              concluded x f (references s.observations (required_tools z x.knowledge_required)) s)
            (sym (same_goal s.goal g k w.goal e)))
          (ok_same _ s' h_1))
    where
      settled :
          (o : Option (List String))
          → references s.observations (required_tools g x.knowledge_required) ≡ o
          → concluded x f o s ≡ s'
          → (is_failed s'.status ≡ true)
            ⊎ (IsWithin s' × IsComplete s' × (s'.model_call_count ≡ s.model_call_count))
      settled none e same = inl (rw (sym same) refl)
      settled (some ids) e same = elim (empty_or_not f.missing_evidence) [
        | inr more ↦ inl (ap (λ (z : State). is_failed z.status) (sym same) ∙ rw more refl)
        | inl nothing ↦
            let final = with_final (bound_final x f ids) s in
            let same' : s' ≡ final = sym same ∙ rw nothing refl in
            inr (
              rw same'
                  (record { goal = w.goal; calls = w.calls; counted = w.counted; reads = w.reads }),
              rw same' (record {
                ids = ids;
                analysis = bound_final x f ids;
                referred = e;
                final = refl;
                lineage = refl;
                nothing_missing = nothing;
              }),
              rw same' refl,
            )
      ]
