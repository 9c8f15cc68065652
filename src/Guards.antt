-- ===== src/Guards.antt =====
-- companyos_runtime/gates.py: the guards of a run's transitions, computed from the database. The order
-- of the rows of a query is that of the table, since each guard asks the same of every row.
pub mod Readings
pub mod Delivery
use Prim.Native.Nat.{◌/◌, ◌-◌}
use company_os.Prelude.{
  ℕ, String, Bool, true, false, not, ◌&&◌, ◌||◌, Option, none, some, List, [], ◌∷◌, all, any, elem,
  select, head?, ltb, leb, eqb, is_text, is_none, if◌then◌else◌, ◌==◌,
}
use company_os.Result.{Error, Result, ok, err, contract_error}
use company_os.Types.Values.{
  LoopEvent, LoopState, TaskState, IntegrationState, EvidenceState, EvaluatorVerdict, Capability,
}
use company_os.Types.Equality.{
  same_task_state, same_integration_state, same_evidence_state, same_evaluator_verdict,
  same_capability,
}
use company_os.Types.Specs.{RuntimeSurfaceSpec, GoalSpec}
use company_os.StateMachine.{LoopTransitionRule, loop_transitions, GuardResults}
use company_os.Db.{World, Env}
use company_os.Db.Payload.{Json, get, as_text, as_number}
use company_os.Db.Rows.{
  Run, Goal, Task, Lease, Approval, Grant, EvidenceClaim, Observation, IntegrationItem,
  NegativeResult, ImprovementProposal, Event,
}
use company_os.Exec.{
  Exec, pure, raise, lift, gets, or_raise, read_now, and_then, every, ◌>>=◌, ◌>>◌,
}
use company_os.Integration.{final}
use company_os.Policy.Gates.{required_decision_gates_satisfied, is_after}
use company_os.Scope.{TextLibrary, validate_goal_scope, validate_task_within_goal}
use company_os.Verdicts.{
  passing_evaluator, passing_evidence, tasks_of, no_tasks, goal_of, claims_at_target, some_claim,
  states_covered, evidence_ok, evaluator_ok, evidence_status, items_final,
}
use company_os.Freshness.{newest_first, acceptable, current, latest_of, agree_at}

abbrev pub nonempty_text : Option String → Option String
nonempty_text none = none
nonempty_text (some t) = if t == "" then none else some t

module _ (env : Env) (lib : TextLibrary) where
  -- `_contract_valid`: any exception is a no
  abbrev within_all : GoalSpec → List Task → Bool
  within_all goal [] = true
  within_all goal (t ∷ ts) = elim (validate_task_within_goal lib goal t.spec) [
    | err e ↦ false
    | ok u ↦ within_all goal ts
  ]

  abbrev goal_valid : GoalSpec → Bool
  goal_valid goal = elim (validate_goal_scope lib goal) [ err e ↦ false | ok u ↦ true ]

  abbrev contract_for : Option Goal → List Task → Bool
  contract_for none tasks = false
  contract_for (some g) tasks =
      goal_valid g.spec
      && not (no_tasks tasks)
      && within_all g.spec tasks
      && all (λ s. any (λ (t : Task). same_evidence_state s t.spec.evidence_target) tasks)
          g.spec.success_evidence_states

  unfoldable pub contract_valid : Run → List Task → List Goal → Bool
  unfolding validate_task_within_goal validate_goal_scope
  contract_valid run tasks goals = contract_for (goal_of run goals) (tasks_of run tasks)

  -- the lease that the payload names, held by the actor
  abbrev lease_holds : Run → String → String → String → ℕ → ℕ → World → Bool
  lease_holds run actor task_id resource_key fence now w =
      any
        (λ (l : Lease).
          l.task_id == task_id
          && l.project_id == run.project_id
          && l.resource_key == resource_key
          && l.holder == actor
          && eqb l.fence fence
          && is_none l.released_at
          && any
              (λ (t : Task).
                t.task_id == l.task_id
                && t.project_id == run.project_id
                && is_text t.run_id run.run_id)
              w.tasks
          && ltb now l.expires_at)
        w.leases

  abbrev pub lease_named :
      Run → String → Option String → Option String → Option String → Option ℕ → Exec Bool
  lease_named run actor (some task_id) (some resource_key) (some holder) (some fence) =
      if holder == actor
      then (do now ← read_now env; gets (lease_holds run actor task_id resource_key fence now))
      else pure false
  lease_named run actor task_id resource_key holder fence = pure false

  unfoldable pub lease_valid : Run → Json → String → Exec Bool
  unfolding ◌>>=◌ get
  lease_valid run payload actor =
      lease_named run actor (as_text (get "task_id" payload)) (as_text (get "resource_key" payload))
        (as_text (get "holder" payload)) (as_number (get "fence" payload))

  abbrev resume_approved : Run → String → ℕ → Approval → Bool
  resume_approved run approval_id now a =
      a.approval_id == approval_id
      && a.project_id == run.project_id
      && a.run_id == run.run_id
      && same_capability a.capability Capability.control_resume
      && a.action == "resume_run"
      && a.resource == Prim.Native.String.◌++◌ "run:" run.run_id
      && a.decision == "approved"
      && is_after a.expires_at now

  abbrev pub resume_named : Run → Option String → Exec Bool
  resume_named run none = pure false
  resume_named run (some approval_id) = do
    now ← read_now env
    gets (λ w. any (resume_approved run approval_id now) w.approvals)

  unfoldable pub resume_approval_valid : Run → Json → Exec Bool
  unfolding ◌>>=◌ get
  resume_approval_valid run payload =
      resume_named run (nonempty_text (as_text (get "approval_id" payload)))

  -- a task that was delivered, with its decision gates satisfied
  abbrev pub task_delivered : Task → Exec Bool
  task_delivered t =
      if same_task_state t.state TaskState.delivered
      then required_decision_gates_satisfied env t.task_id none none
      else pure false

  abbrev pub tasks_delivered : List Task → Exec Bool
  tasks_delivered tasks = if no_tasks tasks then pure false else every task_delivered tasks

  unfoldable pub tasks_terminal : Run → Exec Bool
  unfolding ◌>>=◌ required_decision_gates_satisfied every
  tasks_terminal run = do tasks ← gets (λ w. tasks_of run w.tasks); tasks_delivered tasks

  abbrev pub task_integrated : Task → Exec Bool
  task_integrated t = do
    gates ← required_decision_gates_satisfied env t.task_id none none
    and_then gates
        (gets (λ w. not t.spec.integration_required || items_final t w.integration_items))

  abbrev pub tasks_integrated : List Task → Exec Bool
  tasks_integrated tasks = if no_tasks tasks then pure false else every task_integrated tasks

  unfoldable pub integration_satisfied : Run → Exec Bool
  unfolding ◌>>=◌ required_decision_gates_satisfied every
  integration_satisfied run = do tasks ← gets (λ w. tasks_of run w.tasks); tasks_integrated tasks

  abbrev pub fresh_latest : Run → RuntimeSurfaceSpec → Option Observation → Exec Bool
  fresh_latest run requirement none = pure false
  fresh_latest run requirement (some latest) = do
    trusted ← gets (acceptable run requirement latest)
    and_then trusted (do
      now ← read_now env
      gets (λ w. current env latest now && agree_at run requirement latest w.observations))

  abbrev pub surface_fresh : Run → RuntimeSurfaceSpec → Exec Bool
  surface_fresh run requirement = do
    latest ← gets (λ w. latest_of run requirement w.observations)
    fresh_latest run requirement latest

  unfoldable pub freshness_satisfied : Run → Exec Bool
  unfolding ◌>>=◌ acceptable newest_first every
  freshness_satisfied run = do
    found ← gets (λ w. goal_of run w.goals)
    goal ← or_raise found contract_error
    every (surface_fresh run) goal.spec.required_runtime_surfaces

  abbrev ci_passed : IntegrationState → Bool
  ci_passed IntegrationState.merge_pending = true
  ci_passed IntegrationState.deploy_pending = true
  ci_passed IntegrationState.delivered = true
  ci_passed _ = false

  abbrev ci_green_for : Run → Option String → List IntegrationItem → Bool
  ci_green_for run none items = false
  ci_green_for run (some integration_id) items =
      any
        (λ (i : IntegrationItem).
          i.integration_id == integration_id && i.run_id == run.run_id && ci_passed i.state)
        items

  unfoldable pub ci_green : Run → Json → List IntegrationItem → Bool
  unfolding get
  ci_green run payload items = ci_green_for run (as_text (get "integration_id" payload)) items

  abbrev repair_for : Run → Option String → List NegativeResult → Bool
  repair_for run none results = false
  repair_for run (some task_id) results =
      any
        (λ (n : NegativeResult).
          n.task_id == task_id && is_text n.run_id run.run_id && not (n.repair_route == ""))
        results

  unfoldable pub repair_route_selected : Run → Json → List NegativeResult → Bool
  unfolding get
  repair_route_selected run payload results =
      repair_for run (as_text (get "task_id" payload)) results

  abbrev grant_usable : Run → String → ℕ → Grant → Bool
  grant_usable run grant_id now g =
      g.grant_id == grant_id
      && g.run_id == run.run_id
      && is_none g.revoked_at
      && leb g.not_before now
      && ltb now g.expires_at
      && ltb g.used_count g.max_uses
      && leb g.cost_used g.cost_limit

  abbrev pub grant_named : Run → Option String → Exec Bool
  grant_named run none = pure false
  grant_named run (some grant_id) = do
    now ← read_now env
    gets (λ w. any (grant_usable run grant_id now) w.grants)

  unfoldable pub capability_available : Run → Json → Exec Bool
  unfolding ◌>>=◌ get
  capability_available run payload = grant_named run (as_text (get "grant_id" payload))

  abbrev pub status_of : Run → World → Result (Bool × Bool)
  status_of run w = evidence_status run w.tasks w.goals w.evidence_claims

  -- `_resolve_one`
  unfoldable pub resolve_one : Run → String → Json → String → Exec Bool
  unfolding ◌>>=◌ contract_valid lease_valid resume_approval_valid evidence_status
      integration_satisfied freshness_satisfied tasks_terminal ci_green repair_route_selected
      capability_available
  resolve_one run name payload actor =
      if elem name ("contract_valid" ∷ "readiness_gate_passed" ∷ [])
      then gets (λ w. contract_valid run w.tasks w.goals)
      else if name == "lease_valid"
      then lease_valid run payload actor
      else if elem name ("approval_valid" ∷ "resume_authorized" ∷ "owner_decision_recorded" ∷ [])
      then resume_approval_valid run payload
      else if name == "evidence_satisfied"
      then (do status ← gets (status_of run); both ← lift status; pure both.0)
      else if name == "evaluator_satisfied"
      then (do status ← gets (status_of run); both ← lift status; pure both.1)
      else if name == "integration_satisfied"
      then integration_satisfied run
      else if name == "freshness_satisfied"
      then freshness_satisfied run
      else if name == "tasks_terminal"
      then tasks_terminal run
      else if name == "ci_green"
      then gets (λ w. ci_green run payload w.integration_items)
      else if name == "repair_route_selected"
      then gets (λ w. repair_route_selected run payload w.negative_results)
      else if name == "capability_available"
      then capability_available run payload
      else if name == "improvement_routed"
      then gets (λ w.
        any (λ (p : ImprovementProposal). p.source_run_id == run.run_id) w.improvement_proposals)
      else raise contract_error

  -- the dict of the rule's guards
  unfoldable pub resolve_names : Run → List String → Json → String → Exec (List (String × Bool))
  unfolding ◌>>=◌ resolve_one
  resolve_names run [] payload actor = pure []
  resolve_names run (name ∷ names) payload actor = do
    answer ← resolve_one run name payload actor
    others ← resolve_names run names payload actor
    pure ((name, answer) ∷ others)

  abbrev pub guards_of : Option LoopTransitionRule → List String
  guards_of none = []
  guards_of (some rule) = rule.guards

  unfoldable pub resolve : Run → LoopEvent → Json → String → Exec (List (String × Bool))
  unfolding resolve_names loop_transitions
  resolve run event payload actor =
      resolve_names run (guards_of (loop_transitions run.loop_state event)) payload actor

-- `results.get(guard)`
unfoldable pub result_at : List (String × Bool) → GuardResults
result_at [] guard = none
result_at ((name, answer) ∷ rest) guard =
    if name == guard then some answer else result_at rest guard
