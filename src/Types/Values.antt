-- ===== src/Types/Values.antt =====
-- The enumerations of companyos_runtime/types.py. Constructors are the members in lower case, and
-- `T.value` is the text that Python stores. `parse` is the constructor call `T(text)`, which fails
-- on a text that is no member.
use company_os.Prelude.{String, Option, none, some, if◌then◌else◌, ◌==◌}

pub data GoalState : Type 0 where
  compiled : GoalState

pub data LoopState : Type 0 where
  intake compiled ready running suspended evidence_pending integration_pending ci_pending :
      LoopState
  deploy_dir_updated runtime_stale runtime_check_pending runtime_fresh improvement_pending :
      LoopState
  delivered blocked_decision blocked_missing_state blocked_capability : LoopState

pub data LoopEvent : Type 0 where
  owner_intent_received goal_compiled run_ready task_started human_approval_requested : LoopEvent
  human_approval_received evidence_submitted evaluator_verdict_received ci_check_started : LoopEvent
  ci_check_completed deploy_directory_updated service_restart_attempted : LoopEvent
  runtime_freshness_verified runtime_drift_detected capability_gap_detected : LoopEvent
  missing_state_detected circuit_breaker_triggered improvement_requested delivery_confirmed :
      LoopEvent
  resume_requested : LoopEvent

pub data TaskState : Type 0 where
  ready leased running suspended evidence_pending evaluator_pending integration_pending : TaskState
  delivered retry_pending failed blocked canceled deleted retired : TaskState

pub data EvidenceState : Type 0 where
  structure runtime provider_smoke human_acceptance business_validation : EvidenceState
  durable_memory_promotion active_rule_promotion : EvidenceState

pub data Capability : Type 0 where
  read_local write_local network external_download repo_remote server_read server_write : Capability
  provider_cost public_release destructive durable_memory_promotion active_rule_promotion :
      Capability
  control_resume : Capability

pub data IntegrationState : Type 0 where
  review_pending evaluator_pending push_pr_pending ci_pending ci_failed merge_pending :
      IntegrationState
  deploy_pending deploy_dir_updated service_restart_required runtime_check_pending :
      IntegrationState
  runtime_stale delete_pending retire_pending delivered defer_with_owner superseded :
      IntegrationState

pub data EvaluatorVerdict : Type 0 where
  not_required pending pass fail pass_with_risk blocked : EvaluatorVerdict

-- identity.py
pub data Role : Type 0 where
  owner worker evaluator release observer : Role
  provider_attestor human_acceptor business_reviewer system : Role

abbrev pub role_value : Role → String
role_value Role.owner = "owner"
role_value Role.worker = "worker"
role_value Role.evaluator = "evaluator"
role_value Role.release = "release"
role_value Role.observer = "observer"
role_value Role.provider_attestor = "provider_attestor"
role_value Role.human_acceptor = "human_acceptor"
role_value Role.business_reviewer = "business_reviewer"
role_value Role.system = "system"

abbrev pub goal_state_value : GoalState → String
goal_state_value GoalState.compiled = "compiled"

abbrev pub loop_state_value : LoopState → String
loop_state_value LoopState.intake = "intake"
loop_state_value LoopState.compiled = "compiled"
loop_state_value LoopState.ready = "ready"
loop_state_value LoopState.running = "running"
loop_state_value LoopState.suspended = "suspended_for_input"
loop_state_value LoopState.evidence_pending = "evidence_pending"
loop_state_value LoopState.integration_pending = "integration_pending"
loop_state_value LoopState.ci_pending = "ci_pending"
loop_state_value LoopState.deploy_dir_updated = "deploy_dir_updated"
loop_state_value LoopState.runtime_stale = "runtime_stale"
loop_state_value LoopState.runtime_check_pending = "runtime_check_pending"
loop_state_value LoopState.runtime_fresh = "runtime_freshness_verified"
loop_state_value LoopState.improvement_pending = "improvement_pending"
loop_state_value LoopState.delivered = "delivered"
loop_state_value LoopState.blocked_decision = "blocked_with_decision"
loop_state_value LoopState.blocked_missing_state = "blocked_with_missing_state"
loop_state_value LoopState.blocked_capability = "blocked_with_capability_gap"

abbrev pub loop_event_value : LoopEvent → String
loop_event_value LoopEvent.owner_intent_received = "owner_intent_received"
loop_event_value LoopEvent.goal_compiled = "goal_compiled"
loop_event_value LoopEvent.run_ready = "run_ready"
loop_event_value LoopEvent.task_started = "task_started"
loop_event_value LoopEvent.human_approval_requested = "human_approval_requested"
loop_event_value LoopEvent.human_approval_received = "human_approval_received"
loop_event_value LoopEvent.evidence_submitted = "evidence_submitted"
loop_event_value LoopEvent.evaluator_verdict_received = "evaluator_verdict_received"
loop_event_value LoopEvent.ci_check_started = "ci_check_started"
loop_event_value LoopEvent.ci_check_completed = "ci_check_completed"
loop_event_value LoopEvent.deploy_directory_updated = "deploy_directory_updated"
loop_event_value LoopEvent.service_restart_attempted = "service_restart_attempted"
loop_event_value LoopEvent.runtime_freshness_verified = "runtime_freshness_verified"
loop_event_value LoopEvent.runtime_drift_detected = "runtime_drift_detected"
loop_event_value LoopEvent.capability_gap_detected = "capability_gap_detected"
loop_event_value LoopEvent.missing_state_detected = "missing_state_detected"
loop_event_value LoopEvent.circuit_breaker_triggered = "circuit_breaker_triggered"
loop_event_value LoopEvent.improvement_requested = "improvement_requested"
loop_event_value LoopEvent.delivery_confirmed = "delivery_confirmed"
loop_event_value LoopEvent.resume_requested = "resume_requested"

abbrev pub task_state_value : TaskState → String
task_state_value TaskState.ready = "ready"
task_state_value TaskState.leased = "leased"
task_state_value TaskState.running = "running"
task_state_value TaskState.suspended = "suspended_for_input"
task_state_value TaskState.evidence_pending = "evidence_pending"
task_state_value TaskState.evaluator_pending = "evaluator_pending"
task_state_value TaskState.integration_pending = "integration_pending"
task_state_value TaskState.delivered = "delivered"
task_state_value TaskState.retry_pending = "retry_pending"
task_state_value TaskState.failed = "failed"
task_state_value TaskState.blocked = "blocked_with_decision"
task_state_value TaskState.canceled = "canceled"
task_state_value TaskState.deleted = "deleted"
task_state_value TaskState.retired = "retired"

abbrev pub evidence_state_value : EvidenceState → String
evidence_state_value EvidenceState.structure = "structure_verification"
evidence_state_value EvidenceState.runtime = "runtime_verification"
evidence_state_value EvidenceState.provider_smoke = "provider_smoke"
evidence_state_value EvidenceState.human_acceptance = "human_acceptance"
evidence_state_value EvidenceState.business_validation = "business_validation"
evidence_state_value EvidenceState.durable_memory_promotion = "durable_memory_promotion"
evidence_state_value EvidenceState.active_rule_promotion = "active_rule_promotion"

abbrev pub capability_value : Capability → String
capability_value Capability.read_local = "read_local"
capability_value Capability.write_local = "write_local"
capability_value Capability.network = "network"
capability_value Capability.external_download = "external_download"
capability_value Capability.repo_remote = "repo_remote"
capability_value Capability.server_read = "server_read"
capability_value Capability.server_write = "server_write"
capability_value Capability.provider_cost = "provider_cost"
capability_value Capability.public_release = "public_release"
capability_value Capability.destructive = "destructive"
capability_value Capability.durable_memory_promotion = "durable_memory_promotion"
capability_value Capability.active_rule_promotion = "active_rule_promotion"
capability_value Capability.control_resume = "control_resume"

abbrev pub integration_state_value : IntegrationState → String
integration_state_value IntegrationState.review_pending = "review_pending"
integration_state_value IntegrationState.evaluator_pending = "evaluator_pending"
integration_state_value IntegrationState.push_pr_pending = "push_pr_pending"
integration_state_value IntegrationState.ci_pending = "ci_pending"
integration_state_value IntegrationState.ci_failed = "ci_failed"
integration_state_value IntegrationState.merge_pending = "merge_pending"
integration_state_value IntegrationState.deploy_pending = "deploy_pending"
integration_state_value IntegrationState.deploy_dir_updated = "deploy_dir_updated"
integration_state_value IntegrationState.service_restart_required = "service_restart_required"
integration_state_value IntegrationState.runtime_check_pending = "runtime_check_pending"
integration_state_value IntegrationState.runtime_stale = "runtime_stale"
integration_state_value IntegrationState.delete_pending = "delete_pending"
integration_state_value IntegrationState.retire_pending = "retire_pending"
integration_state_value IntegrationState.delivered = "delivered"
integration_state_value IntegrationState.defer_with_owner = "defer_with_owner"
integration_state_value IntegrationState.superseded = "superseded"

abbrev pub evaluator_verdict_value : EvaluatorVerdict → String
evaluator_verdict_value EvaluatorVerdict.not_required = "not_required"
evaluator_verdict_value EvaluatorVerdict.pending = "pending"
evaluator_verdict_value EvaluatorVerdict.pass = "pass"
evaluator_verdict_value EvaluatorVerdict.fail = "fail"
evaluator_verdict_value EvaluatorVerdict.pass_with_risk = "pass_with_residual_risk"
evaluator_verdict_value EvaluatorVerdict.blocked = "blocked_with_decision"

unfoldable pub parse_loop_state : String → Option LoopState
parse_loop_state text =
    if text == "intake"
    then some LoopState.intake
    else if text == "compiled"
    then some LoopState.compiled
    else if text == "ready"
    then some LoopState.ready
    else if text == "running"
    then some LoopState.running
    else if text == "suspended_for_input"
    then some LoopState.suspended
    else if text == "evidence_pending"
    then some LoopState.evidence_pending
    else if text == "integration_pending"
    then some LoopState.integration_pending
    else if text == "ci_pending"
    then some LoopState.ci_pending
    else if text == "deploy_dir_updated"
    then some LoopState.deploy_dir_updated
    else if text == "runtime_stale"
    then some LoopState.runtime_stale
    else if text == "runtime_check_pending"
    then some LoopState.runtime_check_pending
    else if text == "runtime_freshness_verified"
    then some LoopState.runtime_fresh
    else if text == "improvement_pending"
    then some LoopState.improvement_pending
    else if text == "delivered"
    then some LoopState.delivered
    else if text == "blocked_with_decision"
    then some LoopState.blocked_decision
    else if text == "blocked_with_missing_state"
    then some LoopState.blocked_missing_state
    else if text == "blocked_with_capability_gap"
    then some LoopState.blocked_capability
    else none

unfoldable pub parse_loop_event : String → Option LoopEvent
parse_loop_event text =
    if text == "owner_intent_received"
    then some LoopEvent.owner_intent_received
    else if text == "goal_compiled"
    then some LoopEvent.goal_compiled
    else if text == "run_ready"
    then some LoopEvent.run_ready
    else if text == "task_started"
    then some LoopEvent.task_started
    else if text == "human_approval_requested"
    then some LoopEvent.human_approval_requested
    else if text == "human_approval_received"
    then some LoopEvent.human_approval_received
    else if text == "evidence_submitted"
    then some LoopEvent.evidence_submitted
    else if text == "evaluator_verdict_received"
    then some LoopEvent.evaluator_verdict_received
    else if text == "ci_check_started"
    then some LoopEvent.ci_check_started
    else if text == "ci_check_completed"
    then some LoopEvent.ci_check_completed
    else if text == "deploy_directory_updated"
    then some LoopEvent.deploy_directory_updated
    else if text == "service_restart_attempted"
    then some LoopEvent.service_restart_attempted
    else if text == "runtime_freshness_verified"
    then some LoopEvent.runtime_freshness_verified
    else if text == "runtime_drift_detected"
    then some LoopEvent.runtime_drift_detected
    else if text == "capability_gap_detected"
    then some LoopEvent.capability_gap_detected
    else if text == "missing_state_detected"
    then some LoopEvent.missing_state_detected
    else if text == "circuit_breaker_triggered"
    then some LoopEvent.circuit_breaker_triggered
    else if text == "improvement_requested"
    then some LoopEvent.improvement_requested
    else if text == "delivery_confirmed"
    then some LoopEvent.delivery_confirmed
    else if text == "resume_requested"
    then some LoopEvent.resume_requested
    else none

unfoldable pub parse_task_state : String → Option TaskState
parse_task_state text =
    if text == "ready"
    then some TaskState.ready
    else if text == "leased"
    then some TaskState.leased
    else if text == "running"
    then some TaskState.running
    else if text == "suspended_for_input"
    then some TaskState.suspended
    else if text == "evidence_pending"
    then some TaskState.evidence_pending
    else if text == "evaluator_pending"
    then some TaskState.evaluator_pending
    else if text == "integration_pending"
    then some TaskState.integration_pending
    else if text == "delivered"
    then some TaskState.delivered
    else if text == "retry_pending"
    then some TaskState.retry_pending
    else if text == "failed"
    then some TaskState.failed
    else if text == "blocked_with_decision"
    then some TaskState.blocked
    else if text == "canceled"
    then some TaskState.canceled
    else if text == "deleted"
    then some TaskState.deleted
    else if text == "retired"
    then some TaskState.retired
    else none

unfoldable pub parse_integration_state : String → Option IntegrationState
parse_integration_state text =
    if text == "review_pending"
    then some IntegrationState.review_pending
    else if text == "evaluator_pending"
    then some IntegrationState.evaluator_pending
    else if text == "push_pr_pending"
    then some IntegrationState.push_pr_pending
    else if text == "ci_pending"
    then some IntegrationState.ci_pending
    else if text == "ci_failed"
    then some IntegrationState.ci_failed
    else if text == "merge_pending"
    then some IntegrationState.merge_pending
    else if text == "deploy_pending"
    then some IntegrationState.deploy_pending
    else if text == "deploy_dir_updated"
    then some IntegrationState.deploy_dir_updated
    else if text == "service_restart_required"
    then some IntegrationState.service_restart_required
    else if text == "runtime_check_pending"
    then some IntegrationState.runtime_check_pending
    else if text == "runtime_stale"
    then some IntegrationState.runtime_stale
    else if text == "delete_pending"
    then some IntegrationState.delete_pending
    else if text == "retire_pending"
    then some IntegrationState.retire_pending
    else if text == "delivered"
    then some IntegrationState.delivered
    else if text == "defer_with_owner"
    then some IntegrationState.defer_with_owner
    else if text == "superseded"
    then some IntegrationState.superseded
    else none
