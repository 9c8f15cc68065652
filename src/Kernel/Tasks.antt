-- ===== src/Kernel/Tasks.antt =====
-- kernel.py: `accept_task_evidence` and `confirm_task_delivery`.
use Prim.Native.String.{◌++◌ as append_text}
use company_os.Prelude.{
  ℕ, ◌+◌, String, Bool, true, false, not, ◌&&◌, ◌||◌, Option, none, some, List, [], ◌∷◌, all, any,
  elem, map, select, head?, row, modify, ◌==◌,
}
use company_os.Result.{not_found, transition_error, contract_error}
use company_os.Types.Values.{Role, TaskState, task_state_value}
use company_os.Types.Equality.{same_task_state, same_evidence_state}
use company_os.Types.Specs.{WorkflowStep}
use company_os.StateMachine.{require_transition, task}
use company_os.Db.{World, Env}
use company_os.Db.Payload.{Json, text, obj, fields}
use company_os.Db.Rows.{Run, Task, EvidenceClaim, WorkflowStepRow}
use company_os.Identity.{VerifiedPrincipal}
use company_os.Exec.{
  Exec, pure, lift, gets, or_raise, change, assert, read_now, fresh_id, ◌>>=◌, ◌>>◌,
}
use company_os.Store.Append.{append_event}
use company_os.Store.Idempotency.{once}
use company_os.Leases.{correlation}
use company_os.Policy.Authority.{task_id_of}
use company_os.Policy.Gates.{required_decision_gates_satisfied}
use company_os.Integration.{run_id_of, verdict_accepted}
use company_os.Scope.{TextLibrary}
use company_os.Guards.{freshness_satisfied}
use company_os.Verdicts.{some_claim, passing_evidence, passing_evaluator, items_final}
use company_os.Kernel.{RuntimeKernel, command_text, command_entry, actor_id}

-- `_task_evidence_status`
abbrev pub task_evidence_ok : Task → List EvidenceClaim → Bool
task_evidence_ok t claims = some_claim passing_evidence t claims

abbrev pub task_evaluator_ok : Task → List EvidenceClaim → Bool
task_evaluator_ok t claims = not t.spec.evaluator_required || some_claim passing_evaluator t claims

-- the rows of the declared steps are there, and no others, and each has succeeded
abbrev pub step_rows : Task → List WorkflowStepRow → List WorkflowStepRow
step_rows t rows = select (λ (r : WorkflowStepRow). r.task_id == t.task_id) rows

abbrev step_names : List WorkflowStep → List String
step_names steps = map (λ (s : WorkflowStep). s.step_id) steps

unfoldable pub steps_done : Task → List WorkflowStepRow → Bool
steps_done t rows =
    all (λ n. any (λ (r : WorkflowStepRow). r.step_id == n) (step_rows t rows))
      (step_names t.spec.workflow_steps)
    && all
        (λ (r : WorkflowStepRow).
          elem r.step_id (step_names t.spec.workflow_steps) && r.status == "succeeded")
        (step_rows t rows)

abbrev pub no_steps : List WorkflowStep → Bool
no_steps [] = true
no_steps (s ∷ ss) = false

abbrev pub core_fields : List String
core_fields = "from" ∷ "target" ∷ "reason" ∷ []

module _ (env : Env) (kernel : RuntimeKernel) where
  abbrev pub task_digest : Json → String
  task_digest payload = env.sha256 (env.canonical_json payload)

  -- the event of `_transition_task_projection`
  unfoldable pub task_event :
      Task
      → TaskState
      → String
      → String
      → String
      → VerifiedPrincipal
      → List (String × Json)
      → Exec String
  unfolding ◌>>=◌ append_event
  task_event t target actor reason idempotency_key session event_fields = do
    command_id ← fresh_id env
    appended ← append_event env (
        command_entry kernel "task" t.task_id t.aggregate_version t.project_id t.run_id
          (some t.task_id) "task_state_changed" actor session command_id
          (correlation t.run_id t.goal_id) kernel.policy_version
          (obj (
            fields (
              ("from", text (task_state_value t.state))
              ∷ ("target", text (task_state_value target))
              ∷ ("reason", text reason)
              ∷ event_fields)))
          idempotency_key none)
    pure appended.event_id

  abbrev pub set_state : String → TaskState → ℕ → ℕ → World → World
  set_state task_id target version now w = record w {
    tasks =
        modify task_id_of task_id (λ t. true)
          (λ t. record t { state = target; aggregate_version = version; updated_at = now }) w.tasks;
  }

  unfoldable pub move_task : Task → TaskState → String → Exec (Json × String)
  unfolding ◌>>=◌
  move_task t target event_id = do
    now ← read_now env
    change (set_state t.task_id target (t.aggregate_version + 1) now)
    pure (
      obj (
          fields (
            ("task_id", text t.task_id)
            ∷ ("previous_state", text (task_state_value t.state))
            ∷ ("state", text (task_state_value target))
            ∷ ("event_id", text event_id)
            ∷ [])),
      event_id,
    )

  -- `_transition_task_projection`, with the result's event beside it
  unfoldable pub transition_task :
      Task
      → TaskState
      → String
      → String
      → String
      → VerifiedPrincipal
      → List (String × Json)
      → Exec (Json × String)
  unfolding ◌>>=◌ require_transition task_event move_task
  transition_task t target actor reason idempotency_key session event_fields = do
    lift (require_transition (task t.state) (task target))
    assert (not (any (λ f. elem f.0 core_fields) event_fields)) contract_error
    event_id ← task_event t target actor reason idempotency_key session event_fields
    move_task t target event_id

  abbrev accepts : Task → EvidenceClaim → Bool
  accepts t c =
      same_evidence_state c.evidence_state t.spec.evidence_target
      && verdict_accepted t.spec c.evaluator_verdict

  -- the state that accepted evidence leads to
  abbrev pub evidence_target_state : TaskState → Bool → Option TaskState
  evidence_target_state TaskState.evidence_pending false = some TaskState.evaluator_pending
  evidence_target_state TaskState.evidence_pending true = some TaskState.integration_pending
  evidence_target_state TaskState.evaluator_pending true = some TaskState.integration_pending
  evidence_target_state _ evaluated = none

  unfoldable pub accept_for :
      Task → String → VerifiedPrincipal → String → String → Exec (Json × String)
  unfolding ◌>>=◌ transition_task
  accept_for t actor session idempotency_key evidence_id = do
    found ← gets (λ w.
        head?
          (select (λ c. c.evidence_id == evidence_id && c.task_id == t.task_id) w.evidence_claims))
    claim ← or_raise found transition_error
    assert (accepts t claim) transition_error
    evidence ← gets (λ w. task_evidence_ok t w.evidence_claims)
    assert evidence transition_error
    evaluated ← gets (λ w. task_evaluator_ok t w.evidence_claims)
    target ← or_raise (evidence_target_state t.state evaluated) transition_error
    transition_task t target actor (append_text "authoritative evidence accepted: " evidence_id)
        idempotency_key session (("accepted_evidence_id", text evidence_id) ∷ [])

  unfoldable pub accept_task_evidence :
      (task_id : String) (actor : VerifiedPrincipal) (idempotency_key evidence_id : String)
      → Exec Json
  unfolding ◌>>=◌ command_text actor_id accept_for once
  accept_task_evidence task_id actor idempotency_key evidence_id = do
    task_id ← lift (command_text task_id)
    idempotency_key ← lift (command_text idempotency_key)
    evidence_id ← lift (command_text evidence_id)
    by ← actor_id env actor (Role.evaluator ∷ Role.system ∷ [])
    found ← gets (λ w. row task_id_of task_id w.tasks)
    t ← or_raise found not_found
    once env t.project_id (append_text "task.evidence." task_id) idempotency_key
        (task_digest (obj (fields (("evidence_id", text evidence_id) ∷ []))))
        (accept_for t by actor idempotency_key evidence_id)

  module _ (lib : TextLibrary) where
    abbrev pub run_fresh : Option Run → Exec Bool
    run_fresh none = pure false
    run_fresh (some run) = freshness_satisfied env lib run

    abbrev pub run_of : Task → World → Option Run
    run_of t w = elim t.run_id [ none ↦ none | some r ↦ row run_id_of r w.runs ]

    -- what `confirm_task_delivery` checks
    unfoldable pub check_delivery : Task → Exec Unit
    unfolding ◌>>=◌ required_decision_gates_satisfied steps_done freshness_satisfied
    check_delivery t = do
      assert (same_task_state t.state TaskState.integration_pending) transition_error
      evidence ←
          gets (λ w. task_evidence_ok t w.evidence_claims && task_evaluator_ok t w.evidence_claims)
      assert evidence transition_error
      gates ← required_decision_gates_satisfied env t.task_id none none
      assert gates transition_error
      steps ← gets (λ w. no_steps t.spec.workflow_steps || steps_done t w.workflow_steps)
      assert steps transition_error
      integrated ← gets (λ w. not t.spec.integration_required || items_final t w.integration_items)
      assert integrated transition_error
      run ← gets (run_of t)
      fresh ← run_fresh run
      assert fresh transition_error

    unfoldable pub deliver : Task → String → VerifiedPrincipal → String → Exec (Json × String)
    unfolding ◌>>=◌ check_delivery transition_task
    deliver t actor session idempotency_key = do
      check_delivery t
      transition_task t TaskState.delivered actor
          "persisted evidence, evaluator, integration and freshness satisfied" idempotency_key
          session []

    unfoldable pub confirm_task_delivery :
        (task_id : String) (actor : VerifiedPrincipal) (idempotency_key : String) → Exec Json
    unfolding ◌>>=◌ command_text actor_id deliver once
    confirm_task_delivery task_id actor idempotency_key = do
      task_id ← lift (command_text task_id)
      idempotency_key ← lift (command_text idempotency_key)
      by ← actor_id env actor (Role.release ∷ [])
      found ← gets (λ w. row task_id_of task_id w.tasks)
      t ← or_raise found not_found
      once env t.project_id (append_text "task.delivery." task_id) idempotency_key
          (task_digest (obj (fields (("command", text "confirm_task_delivery") ∷ []))))
          (deliver t by actor idempotency_key)
