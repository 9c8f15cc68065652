-- ===== src/StateMachine/Loop.antt =====
-- What an accepted run event guarantees: state_machine.py, `apply_loop_event`.
use company_os.Prelude.{
  ◌≡◌, ◌⊎◌, inl, inr, refl, Bool, true, false, some, List, [], ◌∷◌, arith, ◌&&◌, any, map,
  Bool-cases,
}
use company_os.Result.{Result, ok, ◌>>=◌, >>=-eq-ok}
use company_os.Types.Values.{LoopState, LoopEvent}
use company_os.StateMachine.{loop_transitions, GuardResults, passed, apply_loop_event}

-- A run becomes delivered only by a confirmed delivery: with the five delivery guards true, from
-- `integration_pending` or `runtime_fresh`, or from `improvement_pending` with its improvement routed.
pub delivered_needs_guards :
    (s : LoopState) (e : LoopEvent) (results : GuardResults)
    → apply_loop_event s e results ≡ ok LoopState.delivered
    → (e ≡ LoopEvent.delivery_confirmed)
      × (((s ≡ LoopState.improvement_pending) × (passed results "improvement_routed" ≡ true))
          ⊎ (((s ≡ LoopState.integration_pending) ⊎ (s ≡ LoopState.runtime_fresh))
              × (passed results "evidence_satisfied" ≡ true)
              × (passed results "evaluator_satisfied" ≡ true)
              × (passed results "integration_satisfied" ≡ true)
              × (passed results "freshness_satisfied" ≡ true)
              × (passed results "tasks_terminal" ≡ true)))
unfolding apply_loop_event loop_transitions
delivered_needs_guards s e results h = ground arith

-- A run's history: the events that were offered, each with the guard results computed for it.
abbrev pub History : Type 0
History = List (LoopEvent × GuardResults)

unfoldable pub replay_loop : LoopState → History → Result LoopState
replay_loop s [] = ok s
replay_loop s ((e, results) ∷ h) = do s' ← apply_loop_event s e results; replay_loop s' h

-- The states that lie behind the evaluator's verdict.
abbrev past_verdict : LoopState → Bool
past_verdict LoopState.integration_pending = true
past_verdict LoopState.ci_pending = true
past_verdict LoopState.deploy_dir_updated = true
past_verdict LoopState.runtime_stale = true
past_verdict LoopState.runtime_check_pending = true
past_verdict LoopState.runtime_fresh = true
past_verdict LoopState.delivered = true
past_verdict LoopState.improvement_pending = true
past_verdict _ = false

abbrev pub is_verdict : LoopEvent × GuardResults → Bool
is_verdict (LoopEvent.evaluator_verdict_received, results) =
    passed results "evidence_satisfied" && passed results "evaluator_satisfied"
is_verdict (_, results) = false

verdict_is_the_gate :
    (s t : LoopState) (e : LoopEvent) (results : GuardResults)
    → apply_loop_event s e results ≡ ok t
    → past_verdict s ≡ false
    → past_verdict t ≡ true
    → is_verdict (e, results) ≡ true
unfolding apply_loop_event loop_transitions
verdict_is_the_gate s t e results h p q = ground arith

replay_past_verdict :
    (h : History) (s t : LoopState)
    → replay_loop s h ≡ ok t
    → past_verdict s ≡ false
    → past_verdict t ≡ true
    → any is_verdict h ≡ true
unfolding replay_loop
replay_past_verdict [] s t run p q = cc
replay_past_verdict ((e, results) ∷ h) s t run p q =
    let (s', step, rest) = >>=-eq-ok (apply_loop_event s e results) (λ u. replay_loop u h) run in
    elim (Bool-cases (past_verdict s')) [
      | inl now ↦ rw (verdict_is_the_gate s s' e results step p now)
      | inr later ↦ ground (arith, replay_past_verdict h s' t rest later q)
    ]

-- A run that starts at intake and ends delivered has, among its events, an evaluator's verdict for
-- which both the evidence guard and the evaluator guard were true.
pub delivered_has_verdict :
    (h : History)
    → replay_loop LoopState.intake h ≡ ok LoopState.delivered
    → any is_verdict h ≡ true
delivered_has_verdict h run =
    replay_past_verdict h LoopState.intake LoopState.delivered run refl refl

abbrev all_pass : GuardResults
all_pass guard = some true

with_all_pass : LoopEvent → LoopEvent × GuardResults
with_all_pass e = (e, all_pass)

from_verdict : List LoopEvent
from_verdict = LoopEvent.evaluator_verdict_received ∷ LoopEvent.delivery_confirmed ∷ []

from_ready : List LoopEvent
unfolding from_verdict
from_ready = LoopEvent.task_started ∷ LoopEvent.evidence_submitted ∷ from_verdict

from_intake : List LoopEvent
unfolding from_ready
from_intake = LoopEvent.goal_compiled ∷ LoopEvent.run_ready ∷ from_ready

-- The way on from each state, when every guard can be met.
to_delivery : LoopState → List LoopEvent
unfolding from_intake
to_delivery LoopState.intake = from_intake
to_delivery LoopState.compiled = LoopEvent.run_ready ∷ from_ready
to_delivery LoopState.ready = from_ready
to_delivery LoopState.running = LoopEvent.evidence_submitted ∷ from_verdict
to_delivery LoopState.suspended =
    LoopEvent.resume_requested ∷ LoopEvent.evidence_submitted ∷ from_verdict
to_delivery LoopState.evidence_pending = from_verdict
to_delivery LoopState.integration_pending = LoopEvent.delivery_confirmed ∷ []
to_delivery LoopState.ci_pending = LoopEvent.ci_check_completed ∷ LoopEvent.delivery_confirmed ∷ []
to_delivery LoopState.deploy_dir_updated =
    LoopEvent.service_restart_attempted ∷ LoopEvent.runtime_freshness_verified
    ∷ LoopEvent.delivery_confirmed ∷ []
to_delivery LoopState.runtime_stale =
    LoopEvent.service_restart_attempted ∷ LoopEvent.runtime_freshness_verified
    ∷ LoopEvent.delivery_confirmed ∷ []
to_delivery LoopState.runtime_check_pending =
    LoopEvent.runtime_freshness_verified ∷ LoopEvent.delivery_confirmed ∷ []
to_delivery LoopState.runtime_fresh = LoopEvent.delivery_confirmed ∷ []
to_delivery LoopState.improvement_pending = LoopEvent.delivery_confirmed ∷ []
to_delivery LoopState.delivered = []
to_delivery LoopState.blocked_decision = LoopEvent.resume_requested ∷ from_ready
to_delivery LoopState.blocked_missing_state = LoopEvent.owner_intent_received ∷ from_intake
to_delivery LoopState.blocked_capability = LoopEvent.resume_requested ∷ from_ready

-- No run state is a dead end: from each there is a sequence of events that, with every guard met,
-- takes the run to delivered.
pub every_state_delivers :
    (s : LoopState) → (h : History) × (replay_loop s h ≡ ok LoopState.delivered)
unfolding replay_loop apply_loop_event loop_transitions to_delivery with_all_pass
every_state_delivers LoopState.intake = (map with_all_pass (to_delivery LoopState.intake), refl)
every_state_delivers s = (map with_all_pass (to_delivery s), refl)
