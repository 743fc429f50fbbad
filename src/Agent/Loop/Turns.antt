-- ===== src/Agent/Loop/Turns.antt =====
-- What one turn of the loop comes to.
use opercerta.Common.{
  ◌==◌, ◌+◌, ◌<◌, ◌≡◌, refl, sym, arith, true, some, ◌⊎◌, inl, inr, ltb, Bool-cases, Option-cases,
  String,
}
use opercerta.Domain.Errors.{bind-ok, ok_same, Result, ok, err, raise_if}
use opercerta.Agent.Contracts.{AgentTurn}
use opercerta.Agent.Harness.{Checked, accepted, violation}
use opercerta.Agent.Loop.{State, fail, parsed, Answer, answered, refused, broken, loop_error}
use opercerta.Agent.Loop.Nodes.{
  Setup, asked, checked, try_, is_failed, decision_context, decided, model_decide, policy_of,
}

-- the state with a turn of the model
abbrev pub with_turn : AgentTurn → State → State
with_turn t s = record s { last_turn = some t; model_call_count = s.model_call_count + 1 }

failed_lem : (code : String) (s s' : State) → ok (fail code s) ≡ ok s' → is_failed s'.status ≡ true
failed_lem code s s' h = rw (sym (ok_same (fail code s) s' h)) refl

module _ {ℓ} {A : Type ℓ} (s s' : State) (f : A → State) where
  checked-ok :
      (c : Checked A)
      → checked c s f ≡ ok s'
      → (is_failed s'.status ≡ true) ⊎ ((y : A) × (c ≡ accepted y) × (s' ≡ f y))
  checked-ok (violation code) h = inl (failed_lem code s s' h)
  checked-ok (accepted y) h = inr (y, refl, sym (ok_same (f y) s' h))

  pub asked-ok :
      (a : Answer A) (validate : A → Checked A)
      → asked a validate s f ≡ ok s'
      → (is_failed s'.status ≡ true)
        ⊎ ((t y : A) × (a ≡ answered t) × (validate t ≡ accepted y) × (s' ≡ f y))
  asked-ok (refused code) validate h = inl (failed_lem code s s' h)
  asked-ok (broken e) validate h = absurd (cc)
  asked-ok (answered t) validate h = elim (checked-ok (validate t) h) [
    | inl e ↦ inl e
    | inr (y, e, same) ↦ inr (t, y, refl, e, same)
  ]

  pub try_-ok :
      (r : Result A)
      → try_ r s f ≡ ok s'
      → (is_failed s'.status ≡ true) ⊎ ((y : A) × (r ≡ ok y) × (s' ≡ f y))
  try_-ok (ok y) h = inr (y, refl, sym (ok_same (f y) s' h))
  try_-ok (err e) h = elim (Option-cases (loop_error e)) [
    | inl none_ ↦ absurd (ground arith)
    | inr (code, some_) ↦ inl (failed_lem code s s' (ground arith))
  ]

module _ (x : Setup) where
  pub model_decide-ok :
      (s s' : State)
      → model_decide x s ≡ ok s'
      → (is_failed s'.status ≡ true)
        ⊎ ((t : AgentTurn) × (s' ≡ with_turn t s) × (s.model_call_count < x.budget.max_model_calls))
  unfolding model_decide
  model_decide-ok s s' h =
      elim (Bool-cases (ltb x.budget.max_model_calls (s.model_call_count + 1))) [
        | inl over ↦ inl (failed_lem "model_budget_exceeded" s s' (ground arith))
        | inr within ↦ elim (decided-ok (ground arith)) [
          | inl e ↦ inl e
          | inr (t, same) ↦ inr (t, same, ground arith)
        ]
      ]
    where
      decided-ok :
          decided x s ≡ ok s'
          → (is_failed s'.status ≡ true) ⊎ ((t : AgentTurn) × (s' ≡ with_turn t s))
      decided-ok e =
          let (g, _, e_1) = bind-ok (parsed s.goal) _ s' e in
          let (policy, _, e_2) = bind-ok (policy_of x g) _ s' e_1 in
          let (_, _, e_3) = bind-ok (raise_if (s.model_call_count == 0) _) _ s' e_2 in
          elim (asked-ok s s' (λ t. with_turn t s) (x.choose (decision_context x g s)) _ e_3) [
            | inl e ↦ inl e
            | inr (_, t, _, _, same) ↦ inr (t, same)
          ]
