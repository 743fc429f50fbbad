-- ===== src/Domain/TaskRecovery/Limits.antt =====
-- The assessment of domain/task_recovery.py against its policy.
use opercerta.Common.{ℕ, ◌+◌, ◌≤◌, ◌<◌, ◌≡◌, ◌≢◌, ◌↔◌, ◌⊎◌, true, false, some, none, arith}
use opercerta.Domain.Errors.{ok, err, Error, evidence_expired, task_recovery_out_of_policy, ◌>>=◌}
use opercerta.Domain.Values.{aware, seconds, Runtime}
use opercerta.Domain.Scenarios.{ApprovalBinding, ScenarioKind, ActionParameters}
use opercerta.Domain.Replenishment.{ModelPlanExplanation}
use opercerta.Domain.TaskRecovery.{
  completed, TaskRecoveryEvidenceBundle, TaskRecoveryAssessment, assess_task_recovery,
  build_task_recovery_plan, build_task_recovery_approval_binding, require_safe_blocked_states,
  contains_state, blocked, overdue, manual_requeue, recovery_plan_facts,
}

-- the task is in a state that the policy counts as blocked
abbrev pub IsBlocked : TaskRecoveryEvidenceBundle → Type 0
IsBlocked b = contains_state b.task.state b.policy.blocked_states ≡ true

-- the task is past its due date and the policy's grace
abbrev pub IsOverdue : TaskRecoveryEvidenceBundle → ℕ → Type 0
IsOverdue b now =
    (b.task.state ≢ completed) × (b.task.due_at + seconds b.policy.overdue_grace_seconds < now)

abbrev pub Stale : TaskRecoveryEvidenceBundle → ℕ → Type 0
Stale b now =
    (b.task.captured_at + seconds b.policy.evidence_ttl_seconds ≤ now)
    ⊎ (b.policy.captured_at + seconds b.policy.evidence_ttl_seconds ≤ now)

-- the binding that a recovery comes to
abbrev pub recovery_binding :
    Runtime → TaskRecoveryEvidenceBundle → TaskRecoveryAssessment → ApprovalBinding
recovery_binding py b a = record {
  scenario = ScenarioKind.task;
  subject_evidence_id = b.task.evidence_id;
  policy_evidence_id = b.policy.evidence_id;
  rule_version = b.policy.rule_version;
  decision_facts_hash = a.decision_facts_hash;
  plan_hash = py.sha256 (
      recovery_plan_facts a.blocker_code a.decision_facts_hash manual_requeue a.retry_count
        b.policy.rule_version a.task_id);
  parameters = ActionParameters.task_recovery;
}

module _ (py : Runtime) (b : TaskRecoveryEvidenceBundle) (now : ℕ) where
  -- A task assessment that succeeds requires recovery exactly when the task is blocked or
  -- overdue, gives blocked as the reason exactly for a blocked task and overdue exactly for one
  -- that is overdue only, and requires recovery only within the policy's limit of retries.
  pub assess_task_recovery-reason :
      (a : TaskRecoveryAssessment)
      → assess_task_recovery py b (aware now) ≡ ok a
      → ((a.recovery_required ≡ true) ↔ (IsBlocked b ⊎ IsOverdue b now))
        × ((a.reason ≡ some blocked) ↔ IsBlocked b)
        × ((a.reason ≡ some overdue) ↔ (¬ IsBlocked b × IsOverdue b now))
        × (a.recovery_required ≡ true → a.retry_count ≤ b.policy.maximum_retry_count)
  unfolding assess_task_recovery
  assess_task_recovery-reason a h = ground arith

  -- With a time that has a zone, a task assessment fails only because a part of the evidence is
  -- older than the policy allows, or because the task is blocked or overdue and was retried more
  -- often than the policy allows.
  pub assess_task_recovery-err :
      {e : Error}
      → assess_task_recovery py b (aware now) ≡ err e
      → ((e ≡ evidence_expired) × Stale b now)
        ⊎ ((e ≡ task_recovery_out_of_policy)
            × (IsBlocked b ⊎ IsOverdue b now)
            × (b.policy.maximum_retry_count < b.task.retry_count))
  unfolding assess_task_recovery
  assess_task_recovery-err h = ground arith

  -- Under a policy whose blocked states are valid, an assessment of a completed task that
  -- succeeds requires no recovery, and has neither a reason nor an action.
  pub assess_task_recovery_terminal :
      (a : TaskRecoveryAssessment)
      → require_safe_blocked_states b.policy.blocked_states ≡ ok b.policy.blocked_states
      → b.task.state ≡ completed
      → assess_task_recovery py b (aware now) ≡ ok a
      → (a.recovery_required ≡ false) × (a.reason ≡ none) × (a.recovery_action ≡ none)
  unfolding assess_task_recovery require_safe_blocked_states
  assess_task_recovery_terminal a v s h = ground arith

  -- A task assessment that succeeds and requires recovery always gives a plan and a binding,
  -- with the evidence's ids, the policy's version and the hash of the plan.
  pub build_task_recovery_plan_total :
      (a : TaskRecoveryAssessment) (x : ModelPlanExplanation)
      → assess_task_recovery py b (aware now) ≡ ok a
      → a.recovery_required ≡ true
      → (do
        plan ← build_task_recovery_plan py a x b.policy
        build_task_recovery_approval_binding b plan)
        ≡ ok (recovery_binding py b a)
  unfolding assess_task_recovery build_task_recovery_plan build_task_recovery_approval_binding
  build_task_recovery_plan_total a x h required = ground arith
