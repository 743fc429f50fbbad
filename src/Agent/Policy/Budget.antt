-- ===== src/Agent/Policy/Budget.antt =====
-- The calls that a policy lets through, one after the other.
use opercerta.Common.{
  ℕ, ◌+◌, ◌≤◌, ◌<◌, ◌≡◌, ◌≢◌, refl, Bool, false, Option, none, some, List, [], ◌∷◌, ◌++◌, String,
  decide, decide_iff, any, length, arith, inl, inr, Option-cases, if◌then◌else◌,
}
use opercerta.Domain.Errors.{ok}
use opercerta.Domain.Values.{JsonObject}
use opercerta.Domain.Scenarios.{ScenarioKind}
use opercerta.Agent.Contracts.{
  ReadToolName, ReadToolName-discrete, ToolCallProposal, JsonObject-discrete, GoalEncoding,
  inventory_snapshot, equipment_status, task_status, policy_constraints, knowledge_search,
}
use opercerta.Agent.Policy.{
  ToolPolicy, authorize, expected_arguments, is_duplicate, subject_tool, read_tool_name,
}

abbrev pub uses : ReadToolName → ToolCallProposal → Bool
uses t p = decide (ReadToolName-discrete p.tool_name t)

-- how often a tool was called
abbrev pub count_uses : ReadToolName → List ToolCallProposal → ℕ
count_uses t [] = 0
count_uses t (p ∷ ps) = (if uses t p then 1 else 0) + count_uses t ps

count_tools :
    (ps : List ToolCallProposal)
    → length ps
      ≡ count_uses inventory_snapshot ps
        + count_uses equipment_status ps
        + count_uses task_status ps
        + count_uses policy_constraints ps
        + count_uses knowledge_search ps
count_tools [] = refl
count_tools (p ∷ ps) = ground (
  arith,
  count_tools ps,
  decide_iff (ReadToolName-discrete p.tool_name inventory_snapshot),
  decide_iff (ReadToolName-discrete p.tool_name equipment_status),
  decide_iff (ReadToolName-discrete p.tool_name task_status),
  decide_iff (ReadToolName-discrete p.tool_name policy_constraints),
  decide_iff (ReadToolName-discrete p.tool_name knowledge_search),
)

count_uses-snoc :
    (t : ReadToolName) (ps : List ToolCallProposal) (p : ToolCallProposal)
    → count_uses t (ps ++ p ∷ []) ≡ count_uses t ps + (if uses t p then 1 else 0)
count_uses-snoc t [] p = omega arith
count_uses-snoc t (q ∷ ps) p = omega (arith, count_uses-snoc t ps p)

pub length-snoc {ℓ} : {A : Type ℓ} (xs : List A) (x : A) → length (xs ++ x ∷ []) ≡ length xs + 1
length-snoc [] x = refl
length-snoc (y ∷ xs) x = omega (arith, length-snoc xs x)

-- the tools that a goal does not ask for
expected_tools :
    (g : GoalEncoding) (k : Bool) (t : ReadToolName)
    → t ≢ policy_constraints
    → t ≢ knowledge_search
    → t ≢ subject_tool g.scenario
    → expected_arguments g k t ≡ none
unfolding expected_arguments
expected_tools g k t a b c =
    ground (arith, decide_iff (ReadToolName-discrete t (subject_tool g.scenario)))

module _ (safe_identifier : String → Option String) (policy : ToolPolicy) where
  -- the calls that were let through, the oldest first
  pub data Authorized : List ToolCallProposal → Type 0 where
    no_calls : Authorized []
    then_ :
        {ps : List ToolCallProposal} {p : ToolCallProposal}
        → Authorized ps
        → (id name : String) (arguments : JsonObject)
        → authorize safe_identifier policy id name arguments ps ≡ ok p
        → Authorized (ps ++ p ∷ [])

  abbrev expected : ReadToolName → Option JsonObject
  expected t = expected_arguments policy.goal policy.include_knowledge t

  -- what a call that was let through has passed
  pub authorize-ok :
      (id name : String) (arguments : JsonObject) (ps : List ToolCallProposal)
      (p : ToolCallProposal)
      → authorize safe_identifier policy id name arguments ps ≡ ok p
      → (length ps < policy.max_tool_calls)
        × (expected_arguments policy.goal policy.include_knowledge p.tool_name ≡ some p.arguments)
        × (any (is_duplicate p) ps ≡ false)
        × (safe_identifier id ≡ some p.tool_call_id)
  unfolding authorize
  authorize-ok id name arguments ps p h = elim (Option-cases (read_tool_name name)) [
    | inl e ↦ absurd (ground arith)
    | inr (t, named) ↦
        elim (Option-cases (expected_arguments policy.goal policy.include_knowledge t)) [
          | inl e ↦ absurd (ground arith)
          | inr (x, known) ↦ elim (Option-cases (safe_identifier id)) [
            | inl e ↦ absurd (ground arith)
            | inr (i, safe) ↦ ground (arith, decide_iff (JsonObject-discrete arguments x))
          ]
        ]
  ]

  -- every call has the arguments that its tool is to have
  Granted : List ToolCallProposal → Type 0
  Granted [] = Unit {0}
  Granted (p ∷ ps) = (expected p.tool_name ≡ some p.arguments) × Granted ps

  first_use :
      (p : ToolCallProposal) (ps : List ToolCallProposal)
      → expected p.tool_name ≡ some p.arguments
      → Granted ps
      → any (is_duplicate p) ps ≡ false
      → count_uses p.tool_name ps ≡ 0
  unfolding Granted
  first_use p [] e g h = refl
  first_use p (q ∷ ps) e (f, g) h = ground (
    arith,
    first_use p ps e g,
    decide_iff (ReadToolName-discrete q.tool_name p.tool_name),
    decide_iff (JsonObject-discrete q.arguments p.arguments),
  )

  Granted-snoc :
      (p : ToolCallProposal) (ps : List ToolCallProposal)
      → expected p.tool_name ≡ some p.arguments
      → Granted ps
      → Granted (ps ++ p ∷ [])
  unfolding Granted
  Granted-snoc p [] e g = (e, tt)
  Granted-snoc p (q ∷ ps) e (f, g) = (f, Granted-snoc p ps e g)

  Authorized-Granted : {ps : List ToolCallProposal} → Authorized ps → Granted ps
  unfolding Granted
  Authorized-Granted no_calls = tt
  Authorized-Granted (then_ {ps} {p} a id name arguments h) =
      Granted-snoc p ps (authorize-ok id name arguments ps p h).1 (Authorized-Granted a)

  used_once :
      {ps : List ToolCallProposal} → Authorized ps → (t : ReadToolName) → count_uses t ps ≤ 1
  used_once no_calls t = omega arith
  used_once (then_ {ps} {p} a id name arguments h) t =
      let (_, known, fresh, _) = authorize-ok id name arguments ps p h in
      let first = first_use p ps known (Authorized-Granted a) fresh in
      ground (
        arith,
        used_once a t,
        count_uses-snoc t ps p,
        decide_iff (ReadToolName-discrete p.tool_name t),
      )

  not_used :
      (t : ReadToolName) (ps : List ToolCallProposal)
      → expected t ≡ none
      → Granted ps
      → count_uses t ps ≡ 0
  unfolding Granted
  not_used t [] e g = refl
  not_used t (p ∷ ps) e (f, g) =
      ground (arith, not_used t ps e g, decide_iff (ReadToolName-discrete p.tool_name t))

  within_budget : {ps : List ToolCallProposal} → Authorized ps → length ps ≤ policy.max_tool_calls
  within_budget no_calls = omega arith
  within_budget (then_ {ps} {p} a id name arguments h) =
      omega (arith, (authorize-ok id name arguments ps p h).0, length-snoc ps p)

  -- The calls that a policy has let through one after the other are no more than its budget, use
  -- no tool twice, use no tool that the goal does not ask for, and are at most three with the
  -- knowledge tool and at most two without it.
  pub Authorized_lem :
      (ps : List ToolCallProposal)
      → Authorized ps
      → (length ps ≤ policy.max_tool_calls)
        × ((t : ReadToolName) → count_uses t ps ≤ 1)
        × ((t : ReadToolName)
            → expected_arguments policy.goal policy.include_knowledge t ≡ none
            → count_uses t ps ≡ 0)
        × (length ps ≤ (if policy.include_knowledge then 3 else 2))
  unfolding expected_arguments
  Authorized_lem ps a =
      let g = Authorized-Granted a in
      (within_budget a, used_once a, λ t e. not_used t ps e g, sums policy.goal.scenario refl)
    where
      sums :
          (s : ScenarioKind)
          → policy.goal.scenario ≡ s
          → length ps ≤ (if policy.include_knowledge then 3 else 2)
      sums s e = ground (
        arith,
        count_tools ps,
        expected_tools policy.goal policy.include_knowledge inventory_snapshot,
        expected_tools policy.goal policy.include_knowledge equipment_status,
        expected_tools policy.goal policy.include_knowledge task_status,
        used_once a inventory_snapshot,
        used_once a equipment_status,
        used_once a task_status,
        used_once a policy_constraints,
        used_once a knowledge_search,
        λ (e : expected inventory_snapshot ≡ none).
            not_used inventory_snapshot ps e (Authorized-Granted a),
        λ (e : expected equipment_status ≡ none).
            not_used equipment_status ps e (Authorized-Granted a),
        λ (e : expected task_status ≡ none). not_used task_status ps e (Authorized-Granted a),
        λ (e : expected knowledge_search ≡ none).
            not_used knowledge_search ps e (Authorized-Granted a),
      )
