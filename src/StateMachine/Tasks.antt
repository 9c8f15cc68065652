-- ===== src/StateMachine/Tasks.antt =====
-- What an accepted task transition guarantees: state_machine.py, `TASK_TRANSITIONS` and
-- `require_transition`; types.py, `TERMINAL_TASK_STATES` and `TaskState(text)`.
use company_os.Prelude.{
  ◌≡◌, inl, inr, refl, Bool, true, false, List, [], ◌∷◌, any, arith, Bool-cases,
}
use company_os.Result.{Result, ok, ◌>>◌, >>=-eq-ok}
use company_os.Types.Values.{TaskState}
use company_os.Types.Equality.{same_task_state}
use company_os.StateMachine.{task_transitions, task, require_transition}

-- TERMINAL_TASK_STATES
abbrev pub terminal : TaskState → Bool
terminal TaskState.delivered = true
terminal TaskState.canceled = true
terminal TaskState.deleted = true
terminal TaskState.retired = true
terminal _ = false

-- The states that lie behind the completion of an attempt, and those behind a worker's start.
abbrev pub past_completion : TaskState → Bool
past_completion TaskState.evidence_pending = true
past_completion TaskState.evaluator_pending = true
past_completion TaskState.integration_pending = true
past_completion TaskState.delivered = true
past_completion _ = false

-- The states that only a lease opens.
abbrev pub past_lease : TaskState → Bool
past_lease TaskState.leased = true
past_lease TaskState.running = true
past_lease TaskState.suspended = true
past_lease s = past_completion s

unfoldable pub walk_task : TaskState → List TaskState → Result TaskState
walk_task s [] = ok s
walk_task s (t ∷ ts) = do require_transition (task s) (task t); walk_task t ts

-- A set of states with one entrance is entered through it.
gate_passed :
    (past : TaskState → Bool) (gate : TaskState)
    → ((a b : TaskState)
        → require_transition (task a) (task b) ≡ ok tt
        → past a ≡ false
        → past b ≡ true
        → same_task_state gate b ≡ true)
    → (ts : List TaskState) (s t : TaskState) → walk_task s ts ≡ ok t
    → past s ≡ false
    → past t ≡ true
    → any (same_task_state gate) ts ≡ true
unfolding walk_task
gate_passed past gate entrance [] s t walk p q = cc
gate_passed past gate entrance (b ∷ ts) s t walk p q =
    let (done, step, rest) =
      >>=-eq-ok (require_transition (task s) (task b)) (λ _. walk_task b ts) walk in
    elim (Bool-cases (past b)) [
      | inl now ↦ rw (entrance s b step p now)
      | inr later ↦ ground (arith, gate_passed past gate entrance ts b t rest later q)
    ]

lease_entrance :
    (a b : TaskState)
    → require_transition (task a) (task b) ≡ ok tt
    → past_lease a ≡ false
    → past_lease b ≡ true
    → same_task_state TaskState.leased b ≡ true
unfolding require_transition task_transitions
lease_entrance a b h p q = ground arith

completion_entrance :
    (a b : TaskState)
    → require_transition (task a) (task b) ≡ ok tt
    → past_completion a ≡ false
    → past_completion b ≡ true
    → same_task_state TaskState.evidence_pending b ≡ true
unfolding require_transition task_transitions
completion_entrance a b h p q = ground arith

-- A task that goes from ready to delivered by allowed transitions has been leased and has handed in
-- evidence on the way.
pub delivered_task_was_leased :
    (ts : List TaskState)
    → walk_task TaskState.ready ts ≡ ok TaskState.delivered
    → (any (same_task_state TaskState.leased) ts ≡ true)
      × (any (same_task_state TaskState.evidence_pending) ts ≡ true)
delivered_task_was_leased ts walk = (
  gate_passed past_lease TaskState.leased lease_entrance ts TaskState.ready TaskState.delivered walk
      refl refl,
  gate_passed past_completion TaskState.evidence_pending completion_entrance ts TaskState.ready
      TaskState.delivered walk refl refl,
)

-- A terminal task can only be retired.
pub terminal_only_retires :
    (a b : TaskState)
    → terminal a ≡ true
    → require_transition (task a) (task b) ≡ ok tt
    → b ≡ TaskState.retired
unfolding require_transition task_transitions
terminal_only_retires a b h r = ground arith
