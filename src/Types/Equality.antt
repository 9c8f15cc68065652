-- ===== src/Types/Equality.antt =====
-- Equality of the enumeration members of companyos_runtime/types.py and identity.py. Python compares
-- members by identity; here each member has its position in the enumeration.
use company_os.Prelude.{Bool, ℕ, true, ◌≡◌, eqb, arith}
use company_os.Types.Values.{
  LoopState, LoopEvent, TaskState, EvidenceState, Capability, IntegrationState, EvaluatorVerdict,
  Role,
}

abbrev pub loop_state_index : LoopState → ℕ
loop_state_index LoopState.intake = 0
loop_state_index LoopState.compiled = 1
loop_state_index LoopState.ready = 2
loop_state_index LoopState.running = 3
loop_state_index LoopState.suspended = 4
loop_state_index LoopState.evidence_pending = 5
loop_state_index LoopState.integration_pending = 6
loop_state_index LoopState.ci_pending = 7
loop_state_index LoopState.deploy_dir_updated = 8
loop_state_index LoopState.runtime_stale = 9
loop_state_index LoopState.runtime_check_pending = 10
loop_state_index LoopState.runtime_fresh = 11
loop_state_index LoopState.improvement_pending = 12
loop_state_index LoopState.delivered = 13
loop_state_index LoopState.blocked_decision = 14
loop_state_index LoopState.blocked_missing_state = 15
loop_state_index LoopState.blocked_capability = 16

abbrev pub same_loop_state : LoopState → LoopState → Bool
same_loop_state a b = eqb (loop_state_index a) (loop_state_index b)

abbrev pub loop_event_index : LoopEvent → ℕ
loop_event_index LoopEvent.owner_intent_received = 0
loop_event_index LoopEvent.goal_compiled = 1
loop_event_index LoopEvent.run_ready = 2
loop_event_index LoopEvent.task_started = 3
loop_event_index LoopEvent.human_approval_requested = 4
loop_event_index LoopEvent.human_approval_received = 5
loop_event_index LoopEvent.evidence_submitted = 6
loop_event_index LoopEvent.evaluator_verdict_received = 7
loop_event_index LoopEvent.ci_check_started = 8
loop_event_index LoopEvent.ci_check_completed = 9
loop_event_index LoopEvent.deploy_directory_updated = 10
loop_event_index LoopEvent.service_restart_attempted = 11
loop_event_index LoopEvent.runtime_freshness_verified = 12
loop_event_index LoopEvent.runtime_drift_detected = 13
loop_event_index LoopEvent.capability_gap_detected = 14
loop_event_index LoopEvent.missing_state_detected = 15
loop_event_index LoopEvent.circuit_breaker_triggered = 16
loop_event_index LoopEvent.improvement_requested = 17
loop_event_index LoopEvent.delivery_confirmed = 18
loop_event_index LoopEvent.resume_requested = 19

abbrev pub same_loop_event : LoopEvent → LoopEvent → Bool
same_loop_event a b = eqb (loop_event_index a) (loop_event_index b)

abbrev pub task_state_index : TaskState → ℕ
task_state_index TaskState.ready = 0
task_state_index TaskState.leased = 1
task_state_index TaskState.running = 2
task_state_index TaskState.suspended = 3
task_state_index TaskState.evidence_pending = 4
task_state_index TaskState.evaluator_pending = 5
task_state_index TaskState.integration_pending = 6
task_state_index TaskState.delivered = 7
task_state_index TaskState.retry_pending = 8
task_state_index TaskState.failed = 9
task_state_index TaskState.blocked = 10
task_state_index TaskState.canceled = 11
task_state_index TaskState.deleted = 12
task_state_index TaskState.retired = 13

abbrev pub same_task_state : TaskState → TaskState → Bool
same_task_state a b = eqb (task_state_index a) (task_state_index b)

abbrev pub evidence_state_index : EvidenceState → ℕ
evidence_state_index EvidenceState.structure = 0
evidence_state_index EvidenceState.runtime = 1
evidence_state_index EvidenceState.provider_smoke = 2
evidence_state_index EvidenceState.human_acceptance = 3
evidence_state_index EvidenceState.business_validation = 4
evidence_state_index EvidenceState.durable_memory_promotion = 5
evidence_state_index EvidenceState.active_rule_promotion = 6

abbrev pub same_evidence_state : EvidenceState → EvidenceState → Bool
same_evidence_state a b = eqb (evidence_state_index a) (evidence_state_index b)

abbrev pub capability_index : Capability → ℕ
capability_index Capability.read_local = 0
capability_index Capability.write_local = 1
capability_index Capability.network = 2
capability_index Capability.external_download = 3
capability_index Capability.repo_remote = 4
capability_index Capability.server_read = 5
capability_index Capability.server_write = 6
capability_index Capability.provider_cost = 7
capability_index Capability.public_release = 8
capability_index Capability.destructive = 9
capability_index Capability.durable_memory_promotion = 10
capability_index Capability.active_rule_promotion = 11
capability_index Capability.control_resume = 12

abbrev pub same_capability : Capability → Capability → Bool
same_capability a b = eqb (capability_index a) (capability_index b)

abbrev pub integration_state_index : IntegrationState → ℕ
integration_state_index IntegrationState.review_pending = 0
integration_state_index IntegrationState.evaluator_pending = 1
integration_state_index IntegrationState.push_pr_pending = 2
integration_state_index IntegrationState.ci_pending = 3
integration_state_index IntegrationState.ci_failed = 4
integration_state_index IntegrationState.merge_pending = 5
integration_state_index IntegrationState.deploy_pending = 6
integration_state_index IntegrationState.deploy_dir_updated = 7
integration_state_index IntegrationState.service_restart_required = 8
integration_state_index IntegrationState.runtime_check_pending = 9
integration_state_index IntegrationState.runtime_stale = 10
integration_state_index IntegrationState.delete_pending = 11
integration_state_index IntegrationState.retire_pending = 12
integration_state_index IntegrationState.delivered = 13
integration_state_index IntegrationState.defer_with_owner = 14
integration_state_index IntegrationState.superseded = 15

abbrev pub same_integration_state : IntegrationState → IntegrationState → Bool
same_integration_state a b = eqb (integration_state_index a) (integration_state_index b)

abbrev pub evaluator_verdict_index : EvaluatorVerdict → ℕ
evaluator_verdict_index EvaluatorVerdict.not_required = 0
evaluator_verdict_index EvaluatorVerdict.pending = 1
evaluator_verdict_index EvaluatorVerdict.pass = 2
evaluator_verdict_index EvaluatorVerdict.fail = 3
evaluator_verdict_index EvaluatorVerdict.pass_with_risk = 4
evaluator_verdict_index EvaluatorVerdict.blocked = 5

abbrev pub same_evaluator_verdict : EvaluatorVerdict → EvaluatorVerdict → Bool
same_evaluator_verdict a b = eqb (evaluator_verdict_index a) (evaluator_verdict_index b)

abbrev pub role_index : Role → ℕ
role_index Role.owner = 0
role_index Role.worker = 1
role_index Role.evaluator = 2
role_index Role.release = 3
role_index Role.observer = 4
role_index Role.provider_attestor = 5
role_index Role.human_acceptor = 6
role_index Role.business_reviewer = 7
role_index Role.system = 8

abbrev pub same_role : Role → Role → Bool
same_role a b = eqb (role_index a) (role_index b)

pub eq_of_same_role : (a b : Role) → same_role a b ≡ true → a ≡ b
eq_of_same_role a b h = ground arith

pub eq_of_same_evidence_state : (a b : EvidenceState) → same_evidence_state a b ≡ true → a ≡ b
eq_of_same_evidence_state a b h = ground arith

pub eq_of_same_evaluator_verdict :
    (a b : EvaluatorVerdict) → same_evaluator_verdict a b ≡ true → a ≡ b
eq_of_same_evaluator_verdict a b h = ground arith

pub eq_of_same_task_state : (a b : TaskState) → same_task_state a b ≡ true → a ≡ b
eq_of_same_task_state a b h = ground arith

pub eq_of_same_integration_state :
    (a b : IntegrationState) → same_integration_state a b ≡ true → a ≡ b
eq_of_same_integration_state a b h = ground arith
