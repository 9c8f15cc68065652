-- ===== src/StateMachine/Samples.antt =====
-- Examples of state machine.
use company_os.Prelude.{◌≡◌, ◌⊎◌, refl, true, some, List, [], ◌∷◌, any}
use company_os.Result.{ok}
use company_os.Types.Values.{LoopState, LoopEvent, TaskState}
use company_os.Types.Equality.{same_task_state}
use company_os.StateMachine.{
  GuardResults, passed, apply_loop_event, loop_transitions, require_transition,
}
use company_os.StateMachine.Loop.{
  delivered_needs_guards, delivered_has_verdict, every_state_delivers, History, replay_loop,
  is_verdict,
}
use company_os.StateMachine.Tasks.{delivered_task_was_leased, terminal_only_retires, walk_task}

abbrev all_true : GuardResults
all_true guard = some true

delivered_needs_guards_example :
    (LoopEvent.delivery_confirmed ≡ LoopEvent.delivery_confirmed)
    × (((LoopState.runtime_fresh ≡ LoopState.improvement_pending)
          × (passed all_true "improvement_routed" ≡ true))
        ⊎ (((LoopState.runtime_fresh ≡ LoopState.integration_pending)
              ⊎ (LoopState.runtime_fresh ≡ LoopState.runtime_fresh))
            × (passed all_true "evidence_satisfied" ≡ true)
            × (passed all_true "evaluator_satisfied" ≡ true)
            × (passed all_true "integration_satisfied" ≡ true)
            × (passed all_true "freshness_satisfied" ≡ true)
            × (passed all_true "tasks_terminal" ≡ true)))
unfolding apply_loop_event loop_transitions
delivered_needs_guards_example =
    delivered_needs_guards LoopState.runtime_fresh LoopEvent.delivery_confirmed all_true refl

abbrev sample_history : History
sample_history =
    (LoopEvent.goal_compiled, all_true)
    ∷ (LoopEvent.run_ready, all_true)
    ∷ (LoopEvent.task_started, all_true)
    ∷ (LoopEvent.evidence_submitted, all_true)
    ∷ (LoopEvent.evaluator_verdict_received, all_true)
    ∷ (LoopEvent.delivery_confirmed, all_true)
    ∷ []

delivered_has_verdict_example : any is_verdict sample_history ≡ true
unfolding replay_loop apply_loop_event loop_transitions
delivered_has_verdict_example = delivered_has_verdict sample_history refl

every_state_delivers_example :
    (h : History) × (replay_loop LoopState.runtime_stale h ≡ ok LoopState.delivered)
every_state_delivers_example = every_state_delivers LoopState.runtime_stale

abbrev sample_path : List TaskState
sample_path =
    TaskState.leased ∷ TaskState.running ∷ TaskState.evidence_pending
    ∷ TaskState.integration_pending ∷ TaskState.delivered ∷ []

delivered_task_was_leased_example :
    (any (same_task_state TaskState.leased) sample_path ≡ true)
    × (any (same_task_state TaskState.evidence_pending) sample_path ≡ true)
unfolding walk_task require_transition
delivered_task_was_leased_example = delivered_task_was_leased sample_path refl

terminal_only_retires_example : TaskState.retired ≡ TaskState.retired
unfolding require_transition
terminal_only_retires_example = terminal_only_retires TaskState.canceled TaskState.retired refl refl
