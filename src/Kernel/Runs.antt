-- ===== src/Kernel/Runs.antt =====
-- kernel.py: `create_run` and `advance_loop`.
use Prim.Native.String.{◌++◌ as append_text}
use company_os.Prelude.{
  ℕ, ◌+◌, String, Bool, true, false, not, ◌&&◌, Option, none, some, List, [], ◌∷◌, any, row, modify,
  ltb, if◌then◌else◌, ◌==◌,
}
use company_os.Result.{Result, ok, err, not_found, transition_error, type_error}
use company_os.Types.Values.{Role, LoopEvent, LoopState, loop_event_value, loop_state_value}
use company_os.StateMachine.{GuardResults, apply_loop_event}
use company_os.Db.{World, Env}
use company_os.Db.Payload.{Json, Fields, text, bool, obj, fields, field, end}
use company_os.Db.Rows.{Run, Goal, Event, EvidenceClaim}
use company_os.Identity.{VerifiedPrincipal}
use company_os.Exec.{
  Exec, pure, lift, gets, or_raise, change, assert, read_now, fresh_id, ◌>>=◌, ◌>>◌,
}
use company_os.Store.Append.{append_event}
use company_os.Store.Idempotency.{once}
use company_os.Integration.{run_id_of}
use company_os.Scope.{TextLibrary}
use company_os.Guards.{resolve, result_at}
use company_os.Kernel.{RuntimeKernel, command_text, command_entry, loop_roles, actor_id}

abbrev pub goal_id_of : Goal → String
goal_id_of g = g.goal_id

-- MAX(created_at) over the run's claims
abbrev later_of : Option ℕ → ℕ → Option ℕ
later_of none n = some n
later_of (some m) n = if ltb m n then some n else some m

abbrev last_evidence : String → List EvidenceClaim → Option ℕ
last_evidence run_id [] = none
last_evidence run_id (c ∷ cs) =
    let rest = last_evidence run_id cs in
    if c.run_id == run_id then later_of rest c.created_at else rest

-- `julianday(occurred_at) > julianday(?)`, with NULL for no instant
abbrev since : Env → Option ℕ → ℕ → Bool
since env none t = true
since env (some at) t = ltb (env.julianday at) (env.julianday t)

abbrev started_since : Env → String → Option ℕ → List Event → ℕ
started_since env run_id at [] = 0
started_since env run_id at (e ∷ es) =
    let rest = started_since env run_id at es in
    if e.aggregate_type == "run"
      && e.aggregate_id == run_id
      && e.event_type == "task_started"
      && since env at e.occurred_at
    then rest + 1
    else rest

-- how often a task was started since the run's last evidence
unfoldable pub attempts_without_evidence : Env → String → List EvidenceClaim → List Event → ℕ
attempts_without_evidence env run_id claims events =
    started_since env run_id (last_evidence run_id claims) events

-- a guard that the caller supplied and the database contradicts
abbrev same_answer : Option Bool → Bool → Bool
same_answer none supplied = true
same_answer (some true) supplied = supplied
same_answer (some false) supplied = not supplied

abbrev pub contradicted : GuardResults → List (String × Bool) → Bool
contradicted results supplied = any (λ s. not (same_answer (results s.0) s.1)) supplied

abbrev guard_fields : List (String × Bool) → Fields
guard_fields [] = end
guard_fields ((name, answer) ∷ rest) = field name (bool answer) (guard_fields rest)

abbrev is_task_started : LoopEvent → Bool
is_task_started LoopEvent.task_started = true
is_task_started _ = false

abbrev pub or_empty : Option Json → Json
or_empty none = obj end
or_empty (some payload) = payload

abbrev pub checked_causation : Option String → Result (Option String)
checked_causation none = ok none
checked_causation (some c) = elim (command_text c) [ err e ↦ err e | ok t ↦ ok (some t) ]

abbrev pub set_run : String → LoopState → ℕ → ℕ → World → World
set_run run_id target version now w = record w {
  runs =
      modify run_id_of run_id (λ r. true)
        (λ r. record r { loop_state = target; aggregate_version = version; updated_at = now })
        w.runs;
}

module _ (env : Env) (kernel : RuntimeKernel) where
  abbrev new_run : String → String → String → ℕ → Run
  new_run project_id goal_id run_id now = record {
    run_id = run_id;
    goal_id = goal_id;
    project_id = project_id;
    loop_state = LoopState.intake;
    policy_version = kernel.policy_version;
    aggregate_version = 1;
    updated_at = now;
  }

  abbrev in_project : String → Option Goal → Bool
  in_project project_id none = false
  in_project project_id (some g) = g.project_id == project_id

  unfoldable pub insert_run :
      (project_id goal_id run_id actor : String) (session : VerifiedPrincipal)
      (idempotency_key : String) (payload : Json)
      → Exec (Json × String)
  unfolding ◌>>=◌ append_event
  insert_run project_id goal_id run_id actor session idempotency_key payload = do
    goal ← gets (λ w. row goal_id_of goal_id w.goals)
    assert (in_project project_id goal) not_found
    command_id ← fresh_id env
    event ← append_event env (
        command_entry kernel "run" run_id 0 project_id (some run_id) none "owner_intent_received"
          actor session command_id run_id kernel.policy_version payload idempotency_key none)
    now ← read_now env
    change (λ w. record w { runs = new_run project_id goal_id run_id now ∷ w.runs })
    pure (
      obj (
          fields (
            ("run_id", text run_id)
            ∷ ("goal_id", text goal_id)
            ∷ ("loop_state", text "intake")
            ∷ ("event_id", text event.event_id)
            ∷ [])),
      event.event_id,
    )

  abbrev pub create_payload : String → String → Json
  create_payload goal_id run_id = obj (
      fields (
        ("goal_id", text goal_id)
        ∷ ("run_id", text run_id)
        ∷ ("policy_version", text kernel.policy_version)
        ∷ []))

  unfoldable pub create_run :
      (project_id goal_id run_id : String) (actor : VerifiedPrincipal) (idempotency_key : String)
      → Exec Json
  unfolding ◌>>=◌ command_text actor_id insert_run once
  create_run project_id goal_id run_id actor idempotency_key = do
    project_id ← lift (command_text project_id)
    goal_id ← lift (command_text goal_id)
    run_id ← lift (command_text run_id)
    idempotency_key ← lift (command_text idempotency_key)
    by ← actor_id env actor (Role.owner ∷ Role.system ∷ [])
    let payload = create_payload goal_id run_id
    once env project_id "run.create" idempotency_key (env.sha256 (env.canonical_json payload))
        (insert_run project_id goal_id run_id by actor idempotency_key payload)

  -- the circuit breaker of `advance_loop`
  unfoldable pub check_iterations : Run → LoopEvent → Exec Unit
  unfolding ◌>>=◌ attempts_without_evidence
  check_iterations run event =
      if is_task_started event
      then (do
        found ← gets (λ w. row goal_id_of run.goal_id w.goals)
        goal ← or_raise found type_error
        attempts ← gets (λ w. attempts_without_evidence env run.run_id w.evidence_claims w.events)
        assert (ltb attempts goal.spec.max_iterations_without_evidence) transition_error)
      else pure tt

  module _ (lib : TextLibrary) where
    -- the guards and the transition of `advance_loop`, and what it writes
    unfoldable pub decide_event :
        Run
        → LoopEvent
        → String
        → List (String × Bool)
        → Json
        → Exec (List (String × Bool) × LoopState)
    unfolding ◌>>=◌ resolve result_at apply_loop_event
    decide_event run event actor supplied payload = do
      answers ← resolve env lib run event payload actor
      assert (not (contradicted (result_at answers) supplied)) transition_error
      target ← lift (apply_loop_event run.loop_state event (result_at answers))
      pure (answers, target)

    unfoldable pub write_event :
        Run
        → LoopEvent
        → String
        → VerifiedPrincipal
        → String
        → Option String
        → Json
        → List (String × Bool)
        → Exec String
    unfolding ◌>>=◌ append_event
    write_event run event actor session idempotency_key causation_id payload answers = do
      command_id ← fresh_id env
      appended ← append_event env (
          command_entry kernel "run" run.run_id run.aggregate_version run.project_id
            (some run.run_id) none (loop_event_value event) actor session command_id run.run_id
            run.policy_version
            (obj (
              fields (
                ("event", text (loop_event_value event))
                ∷ ("guards", obj (guard_fields answers))
                ∷ ("payload", payload)
                ∷ [])))
            idempotency_key causation_id)
      pure appended.event_id

    unfoldable pub move_run : Run → LoopState → String → Exec (Json × String)
    unfolding ◌>>=◌
    move_run run target event_id = do
      now ← read_now env
      change (set_run run.run_id target (run.aggregate_version + 1) now)
      pure (
        obj (
            fields (
              ("run_id", text run.run_id)
              ∷ ("previous_state", text (loop_state_value run.loop_state))
              ∷ ("loop_state", text (loop_state_value target))
              ∷ ("event_id", text event_id)
              ∷ [])),
        event_id,
      )

    unfoldable pub apply_event :
        Run
        → LoopEvent
        → String
        → VerifiedPrincipal
        → String
        → List (String × Bool)
        → Json
        → Option String
        → Exec (Json × String)
    unfolding ◌>>=◌ decide_event write_event move_run
    apply_event run event actor session idempotency_key supplied payload causation_id = do
      decided ← decide_event run event actor supplied payload
      event_id ← write_event run event actor session idempotency_key causation_id payload decided.0
      move_run run decided.1 event_id

    -- `advance_loop` from the run's row on
    unfoldable pub advance_run :
        Run
        → LoopEvent
        → String
        → VerifiedPrincipal
        → String
        → List (String × Bool)
        → Json
        → Option String
        → Exec Json
    unfolding ◌>>=◌ check_iterations apply_event once
    advance_run run event actor session idempotency_key supplied payload causation_id = do
      check_iterations run event
      once env run.project_id (append_text "run.event." run.run_id) idempotency_key
          (env.sha256 (
            env.canonical_json (
              obj (fields (("event", text (loop_event_value event)) ∷ ("payload", payload) ∷ [])))))
          (apply_event run event actor session idempotency_key supplied payload causation_id)

    unfoldable pub advance_loop :
        (run_id : String) (event : LoopEvent) (actor : VerifiedPrincipal) (idempotency_key : String)
        (guard_results : List (String × Bool)) (payload : Option Json)
        (causation_id : Option String)
        → Exec Json
    unfolding ◌>>=◌ command_text actor_id advance_run
    advance_loop run_id event actor idempotency_key guard_results payload causation_id = do
      run_id ← lift (command_text run_id)
      idempotency_key ← lift (command_text idempotency_key)
      causation_id ← lift (checked_causation causation_id)
      by ← actor_id env actor (loop_roles event)
      found ← gets (λ w. row run_id_of run_id w.runs)
      run ← or_raise found not_found
      advance_run run event by actor idempotency_key guard_results (or_empty payload) causation_id
