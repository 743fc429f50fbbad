-- ===== src/Domain/TaskRecovery.antt =====
-- domain/task_recovery.py: is a task to be put back into its queue.
pub mod Limits
use opercerta.Common.{
  ℕ, ◌+◌, ℤ, pos, String, String-discrete, Bool, true, false, not, ◌||◌, ◌&&◌, Option, none, some,
  List, [], ◌∷◌, ltb, leb, ◌==◌, ite, if◌then◌else◌,
}
use opercerta.Domain.Errors.{
  Uuid, Result, ok, err, value_error, evidence_expired, task_recovery_out_of_policy, raise_if,
  ◌>>=◌, ◌>>◌,
}
use opercerta.Domain.Values.{
  DateTime, require_timezone, seconds, JsonValue, null, bool, number, text, JsonObject, Digest,
  Runtime, hash_payload,
}
use opercerta.Domain.Contracts.{is_none, differ}
use opercerta.Domain.Scenarios.{
  ScenarioKind, ActionParameters, ApprovalBinding, require_matching_scenario,
}
use opercerta.Domain.Replenishment.{ModelPlanExplanation}

pub data TaskState : Type 0 where
  running blocked completed : TaskState

pub record TaskEvidence : Type 0 where
  pub evidence_id : Uuid
  pub task_id : String
  pub state : TaskState
  pub due_at : ℕ
  pub last_progress_at : ℕ
  pub blocker_code : Option String
  pub retry_count : ℕ
  pub captured_at : ℕ
  pub source_version : String

abbrev pub is_blocked : TaskState → Bool
is_blocked blocked = true
is_blocked _ = false

unfoldable pub require_consistent_state : TaskEvidence → Result TaskEvidence
require_consistent_state e = do
  raise_if (differ (is_blocked e.state) (not (is_none e.blocker_code)))
      (value_error "only blocked tasks may contain a blocker code")
  raise_if (ltb e.captured_at e.last_progress_at)
      (value_error "last progress cannot be later than capture time")
  ok e

-- `recovery_action` has one value, "manual_requeue", and `approval_required` is `True`
pub record TaskRecoveryPolicyEvidence : Type 0 where
  pub evidence_id : Uuid
  pub task_id : String
  pub blocked_states : List TaskState
  pub overdue_grace_seconds : ℕ
  pub maximum_retry_count : ℕ
  pub evidence_ttl_seconds : ℕ
  pub rule_version : String
  pub captured_at : ℕ

abbrev same_state : TaskState → TaskState → Bool
same_state running running = true
same_state blocked blocked = true
same_state completed completed = true
same_state _ _ = false

-- `state in states`
abbrev pub contains_state : TaskState → List TaskState → Bool
contains_state s [] = false
contains_state s (x ∷ rest) = same_state s x || contains_state s rest

abbrev has_duplicates : List TaskState → Bool
has_duplicates [] = false
has_duplicates (x ∷ rest) = contains_state x rest || has_duplicates rest

abbrev is_empty : List TaskState → Bool
is_empty [] = true
is_empty (_ ∷ _) = false

unfoldable pub require_safe_blocked_states : List TaskState → Result (List TaskState)
require_safe_blocked_states states = do
  raise_if (is_empty states || has_duplicates states || contains_state completed states)
      (value_error "blocked states must be non-empty, unique and non-terminal")
  ok states

pub record TaskRecoveryEvidenceBundle : Type 0 where
  pub task : TaskEvidence
  pub policy : TaskRecoveryPolicyEvidence

unfoldable pub require_matching_task :
    TaskRecoveryEvidenceBundle → Result TaskRecoveryEvidenceBundle
require_matching_task b =
    ite (String-discrete b.task.task_id b.policy.task_id)
      (do
        raise_if (b.task.evidence_id == b.policy.evidence_id)
            (value_error "task and policy evidence IDs must differ")
        ok b)
      (err (value_error "task and policy task ID must match"))

pub data TaskRecoveryReason : Type 0 where
  blocked overdue : TaskRecoveryReason

-- the one value of `recovery_action`
pub data TaskRecoveryAction : Type 0 where
  manual_requeue : TaskRecoveryAction

pub record TaskRecoveryAssessment : Type 0 where
  pub task_id : String
  pub state : TaskState
  pub blocker_code : Option String
  pub retry_count : ℕ
  pub recovery_required : Bool
  pub reason : Option TaskRecoveryReason
  pub recovery_action : Option TaskRecoveryAction
  pub decision_facts_hash : Digest

pub record TaskRecoveryPlan : Type 0 where
  pub task_id : String
  pub blocker_code : Option String
  pub retry_count : ℕ
  pub recovery_action : TaskRecoveryAction
  pub decision_facts_hash : Digest
  pub rule_version : String
  pub summary : String
  pub rationale : String
  pub plan_hash : Digest

abbrev pub is_expired : TaskRecoveryEvidenceBundle → ℕ → Bool
is_expired b now =
    let ttl = seconds b.policy.evidence_ttl_seconds in
    leb (b.task.captured_at + ttl) now || leb (b.policy.captured_at + ttl) now

abbrev pub counts_as_blocked : TaskRecoveryEvidenceBundle → Bool
counts_as_blocked b = contains_state b.task.state b.policy.blocked_states

abbrev is_completed : TaskState → Bool
is_completed completed = true
is_completed _ = false

abbrev pub is_overdue : TaskRecoveryEvidenceBundle → ℕ → Bool
is_overdue b now =
    not (is_completed b.task.state)
    && ltb (b.task.due_at + seconds b.policy.overdue_grace_seconds) now

abbrev pub recovery_reason : Bool → Bool → Option TaskRecoveryReason
recovery_reason true _ = some TaskRecoveryReason.blocked
recovery_reason false true = some overdue
recovery_reason false false = none

abbrev pub recovery_action : Bool → Option TaskRecoveryAction
recovery_action true = some manual_requeue
recovery_action false = none

abbrev text_or_null : Option String → JsonValue
text_or_null none = null
text_or_null (some s) = text s

abbrev reason_or_null : Option TaskRecoveryReason → JsonValue
reason_or_null none = null
reason_or_null (some TaskRecoveryReason.blocked) = text "blocked"
reason_or_null (some overdue) = text "overdue"

abbrev pub action_or_null : Option TaskRecoveryAction → JsonValue
action_or_null none = null
action_or_null (some manual_requeue) = text "manual_requeue"

abbrev pub task_state_value : TaskState → String
task_state_value running = "running"
task_state_value TaskState.blocked = "blocked"
task_state_value completed = "completed"

abbrev pub recovery_decision_facts :
    TaskEvidence → Option TaskRecoveryReason → Option TaskRecoveryAction → Bool → JsonObject
recovery_decision_facts task reason action required =
    ("blocker_code", text_or_null task.blocker_code)
    ∷ ("reason", reason_or_null reason)
    ∷ ("recovery_action", action_or_null action)
    ∷ ("recovery_required", bool required)
    ∷ ("retry_count", number (pos task.retry_count))
    ∷ ("state", text (task_state_value task.state))
    ∷ ("task_id", text task.task_id)
    ∷ []

abbrev pub is_required : TaskRecoveryEvidenceBundle → ℕ → Bool
is_required b now = counts_as_blocked b || is_overdue b now

abbrev pub reason_of : TaskRecoveryEvidenceBundle → ℕ → Option TaskRecoveryReason
reason_of b now = recovery_reason (counts_as_blocked b) (is_overdue b now)

unfoldable pub assess_task_recovery :
    Runtime → TaskRecoveryEvidenceBundle → DateTime → Result TaskRecoveryAssessment
unfolding require_timezone
assess_task_recovery py b at = do
  now ← require_timezone at
  raise_if (is_expired b now) evidence_expired
  raise_if (is_required b now && ltb b.policy.maximum_retry_count b.task.retry_count)
      task_recovery_out_of_policy
  ok (record {
    task_id = b.task.task_id;
    state = b.task.state;
    blocker_code = b.task.blocker_code;
    retry_count = b.task.retry_count;
    recovery_required = is_required b now;
    reason = reason_of b now;
    recovery_action = recovery_action (is_required b now);
    decision_facts_hash = hash_payload py (
        recovery_decision_facts b.task (reason_of b now) (recovery_action (is_required b now))
          (is_required b now));
  })

abbrev pub recovery_plan_facts :
    Option String → Digest → TaskRecoveryAction → ℕ → String → String → JsonObject
recovery_plan_facts code facts_hash action retries version task =
    ("action", text "recover_task")
    ∷ ("blocker_code", text_or_null code)
    ∷ ("decision_facts_hash", text facts_hash)
    ∷ ("recovery_action", action_or_null (some action))
    ∷ ("retry_count", number (pos retries))
    ∷ ("rule_version", text version)
    ∷ ("task_id", text task)
    ∷ []

abbrev recovery_plan_for :
    Runtime
    → TaskRecoveryAssessment
    → ModelPlanExplanation
    → String
    → TaskRecoveryAction
    → TaskRecoveryPlan
recovery_plan_for py a explanation version action = record {
  task_id = a.task_id;
  blocker_code = a.blocker_code;
  retry_count = a.retry_count;
  recovery_action = action;
  decision_facts_hash = a.decision_facts_hash;
  rule_version = version;
  summary = explanation.summary;
  rationale = explanation.rationale;
  plan_hash = hash_payload py (
      recovery_plan_facts a.blocker_code a.decision_facts_hash action a.retry_count version
        a.task_id);
}

-- the guard of `build_task_recovery_plan`
abbrev required_action : Bool → Option TaskRecoveryAction → Result TaskRecoveryAction
required_action true (some action) = ok action
required_action _ _ = err (value_error "task recovery plan requires a recovery assessment")

unfoldable pub build_task_recovery_plan :
    Runtime
    → TaskRecoveryAssessment
    → ModelPlanExplanation
    → TaskRecoveryPolicyEvidence
    → Result TaskRecoveryPlan
build_task_recovery_plan py a explanation policy = do
  action ← required_action a.recovery_required a.recovery_action
  ok (recovery_plan_for py a explanation policy.rule_version action)

unfoldable pub build_task_recovery_approval_binding :
    TaskRecoveryEvidenceBundle → TaskRecoveryPlan → Result ApprovalBinding
unfolding require_matching_scenario
build_task_recovery_approval_binding b plan = require_matching_scenario (record {
  scenario = ScenarioKind.task;
  subject_evidence_id = b.task.evidence_id;
  policy_evidence_id = b.policy.evidence_id;
  rule_version = plan.rule_version;
  decision_facts_hash = plan.decision_facts_hash;
  plan_hash = plan.plan_hash;
  parameters = ActionParameters.task_recovery;
})
