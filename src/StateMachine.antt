-- ===== src/StateMachine.antt =====
-- companyos_runtime/state_machine.py: run and task transitions, and the immutable goal projection.
pub mod Loop
pub mod Tasks
mod Samples
use company_os.Prelude.{
  Bool, true, false, not, String, Option, none, some, List, [], ◌∷◌, any, select, if◌then◌else◌,
}
use company_os.Result.{Result, ok, err, transition_error}
use company_os.Types.Values.{GoalState, LoopState, LoopEvent, TaskState, IntegrationState}
use company_os.Types.Equality.{same_task_state}

pub record LoopTransitionRule : Type 0 where
  pub target : LoopState
  pub guards : List String

-- `LOOP_TRANSITIONS.get((state, event))`
unfoldable pub loop_transitions : LoopState → LoopEvent → Option LoopTransitionRule
loop_transitions LoopState.intake LoopEvent.goal_compiled =
    some (record { target = LoopState.compiled; guards = "contract_valid" ∷ [] })
loop_transitions LoopState.intake LoopEvent.missing_state_detected =
    some (record { target = LoopState.blocked_missing_state; guards = [] })
loop_transitions LoopState.compiled LoopEvent.run_ready =
    some (record { target = LoopState.ready; guards = "readiness_gate_passed" ∷ [] })
loop_transitions LoopState.compiled LoopEvent.capability_gap_detected =
    some (record { target = LoopState.blocked_capability; guards = [] })
loop_transitions LoopState.ready LoopEvent.task_started =
    some (record { target = LoopState.running; guards = "lease_valid" ∷ [] })
loop_transitions LoopState.ready LoopEvent.capability_gap_detected =
    some (record { target = LoopState.blocked_capability; guards = [] })
loop_transitions LoopState.running LoopEvent.human_approval_requested =
    some (record { target = LoopState.suspended; guards = [] })
loop_transitions LoopState.running LoopEvent.evidence_submitted =
    some (record { target = LoopState.evidence_pending; guards = [] })
loop_transitions LoopState.running LoopEvent.circuit_breaker_triggered =
    some (record { target = LoopState.blocked_decision; guards = [] })
loop_transitions LoopState.running LoopEvent.capability_gap_detected =
    some (record { target = LoopState.blocked_capability; guards = [] })
loop_transitions LoopState.suspended LoopEvent.human_approval_received =
    some (record { target = LoopState.running; guards = "approval_valid" ∷ [] })
loop_transitions LoopState.suspended LoopEvent.resume_requested =
    some (record { target = LoopState.running; guards = "resume_authorized" ∷ [] })
loop_transitions LoopState.evidence_pending LoopEvent.evaluator_verdict_received = some (record {
  target = LoopState.integration_pending;
  guards = "evidence_satisfied" ∷ "evaluator_satisfied" ∷ [];
})
loop_transitions LoopState.evidence_pending LoopEvent.task_started =
    some (record { target = LoopState.running; guards = "repair_route_selected" ∷ [] })
loop_transitions LoopState.integration_pending LoopEvent.ci_check_started =
    some (record { target = LoopState.ci_pending; guards = [] })
loop_transitions LoopState.integration_pending LoopEvent.deploy_directory_updated =
    some (record { target = LoopState.deploy_dir_updated; guards = [] })
loop_transitions LoopState.integration_pending LoopEvent.delivery_confirmed = some (record {
  target = LoopState.delivered;
  guards =
      "evidence_satisfied" ∷ "evaluator_satisfied" ∷ "integration_satisfied" ∷ "freshness_satisfied"
      ∷ "tasks_terminal" ∷ [];
})
loop_transitions LoopState.ci_pending LoopEvent.ci_check_completed =
    some (record { target = LoopState.integration_pending; guards = "ci_green" ∷ [] })
loop_transitions LoopState.ci_pending LoopEvent.circuit_breaker_triggered =
    some (record { target = LoopState.blocked_decision; guards = [] })
loop_transitions LoopState.deploy_dir_updated LoopEvent.service_restart_attempted =
    some (record { target = LoopState.runtime_check_pending; guards = [] })
loop_transitions LoopState.deploy_dir_updated LoopEvent.runtime_drift_detected =
    some (record { target = LoopState.runtime_stale; guards = [] })
loop_transitions LoopState.runtime_stale LoopEvent.service_restart_attempted =
    some (record { target = LoopState.runtime_check_pending; guards = [] })
loop_transitions LoopState.runtime_check_pending LoopEvent.runtime_freshness_verified =
    some (record { target = LoopState.runtime_fresh; guards = "freshness_satisfied" ∷ [] })
loop_transitions LoopState.runtime_check_pending LoopEvent.runtime_drift_detected =
    some (record { target = LoopState.runtime_stale; guards = [] })
loop_transitions LoopState.runtime_fresh LoopEvent.delivery_confirmed = some (record {
  target = LoopState.delivered;
  guards =
      "evidence_satisfied" ∷ "evaluator_satisfied" ∷ "integration_satisfied" ∷ "freshness_satisfied"
      ∷ "tasks_terminal" ∷ [];
})
loop_transitions LoopState.delivered LoopEvent.improvement_requested =
    some (record { target = LoopState.improvement_pending; guards = [] })
loop_transitions LoopState.blocked_missing_state LoopEvent.owner_intent_received =
    some (record { target = LoopState.intake; guards = [] })
loop_transitions LoopState.blocked_capability LoopEvent.resume_requested =
    some (record { target = LoopState.ready; guards = "capability_available" ∷ [] })
loop_transitions LoopState.blocked_decision LoopEvent.resume_requested =
    some (record { target = LoopState.ready; guards = "owner_decision_recorded" ∷ [] })
loop_transitions LoopState.improvement_pending LoopEvent.delivery_confirmed =
    some (record { target = LoopState.delivered; guards = "improvement_routed" ∷ [] })
loop_transitions _ _ = none

-- `guard_results`, a dict from guard names to Booleans, and `results.get(guard) is True`
abbrev pub GuardResults : Type 0
GuardResults = String → Option Bool

abbrev pub passed : GuardResults → String → Bool
passed results guard = elim (results guard) [ none ↦ false | some b ↦ b ]

abbrev pub decide_guards : LoopTransitionRule → List String → Result LoopState
decide_guards rule [] = ok rule.target
decide_guards rule (guard ∷ failed) = err transition_error

abbrev pub apply_rule : Option LoopTransitionRule → GuardResults → Result LoopState
apply_rule none results = err transition_error
apply_rule (some rule) results =
    decide_guards rule (select (λ guard. not (passed results guard)) rule.guards)

unfoldable pub apply_loop_event : LoopState → LoopEvent → GuardResults → Result LoopState
apply_loop_event current event results = apply_rule (loop_transitions current event) results

abbrev pub goal_transitions : GoalState → List GoalState
goal_transitions GoalState.compiled = []

abbrev pub same_goal_state : GoalState → GoalState → Bool
same_goal_state GoalState.compiled GoalState.compiled = true

unfoldable pub task_transitions : TaskState → List TaskState
task_transitions TaskState.ready =
    TaskState.leased ∷ TaskState.canceled ∷ TaskState.blocked ∷ TaskState.deleted ∷ []
task_transitions TaskState.leased =
    TaskState.running ∷ TaskState.ready ∷ TaskState.retry_pending ∷ TaskState.blocked ∷ []
task_transitions TaskState.running =
    TaskState.suspended ∷ TaskState.evidence_pending ∷ TaskState.retry_pending ∷ TaskState.failed
    ∷ TaskState.blocked ∷ []
task_transitions TaskState.suspended =
    TaskState.leased ∷ TaskState.canceled ∷ TaskState.blocked ∷ []
task_transitions TaskState.evidence_pending =
    TaskState.evaluator_pending ∷ TaskState.integration_pending ∷ TaskState.running
    ∷ TaskState.blocked ∷ []
task_transitions TaskState.evaluator_pending =
    TaskState.integration_pending ∷ TaskState.running ∷ TaskState.blocked ∷ []
task_transitions TaskState.integration_pending =
    TaskState.delivered ∷ TaskState.running ∷ TaskState.blocked ∷ []
task_transitions TaskState.retry_pending =
    TaskState.ready ∷ TaskState.failed ∷ TaskState.blocked ∷ []
task_transitions TaskState.blocked =
    TaskState.ready ∷ TaskState.canceled ∷ TaskState.deleted ∷ TaskState.retired ∷ []
task_transitions TaskState.delivered = TaskState.retired ∷ []
task_transitions TaskState.failed = TaskState.retry_pending ∷ TaskState.retired ∷ []
task_transitions TaskState.canceled = TaskState.retired ∷ []
task_transitions TaskState.deleted = []
task_transitions TaskState.retired = []

-- `target in TASK_TRANSITIONS[current]`
unfoldable pub task_allows : TaskState → TaskState → Bool
unfolding task_transitions
task_allows current target = any (same_task_state target) (task_transitions current)

-- A value of some state enumeration: `require_transition` takes any two, and looks at their types.
pub data AnyState : Type 0 where
  goal : GoalState → AnyState
  loop : LoopState → AnyState
  task : TaskState → AnyState
  integration : IntegrationState → AnyState

unfoldable pub require_transition : AnyState → AnyState → Result (Unit {0})
unfolding task_allows
require_transition (goal current) (goal target) =
    if any (same_goal_state target) (goal_transitions current) then ok tt else err transition_error
require_transition (task current) (task target) =
    if task_allows current target then ok tt else err transition_error
require_transition _ _ = err transition_error
