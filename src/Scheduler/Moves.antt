-- ===== src/Scheduler/Moves.antt =====
-- What `_transition` (scheduler.py) does to the database: the task's row and the event log.
use company_os.Prelude.{
  ℕ, ◌+◌, ◌≡◌, refl, ap, ◌∙◌, String, true, some, [], ◌∷◌, arith, row, row-modify, eq_refl,
}
use company_os.Result.{ok}
use company_os.Types.Values.{TaskState, task_state_value}
use company_os.StateMachine.{task_allows, require_transition, task}
use company_os.Db.{World, Env}
use company_os.Db.Payload.{text, obj, fields}
use company_os.Db.Rows.{Task, Event}
use company_os.Identity.{VerifiedPrincipal}
use company_os.Exec.{Exec, pure, change, read_now, fresh_id, ◌>>=◌, ◌>>◌}
use company_os.Exec.Steps.{Stepping, after, after_lift}
use company_os.Store.Append.{append_event}
use company_os.Store.Log.{append_event-Appended}
use company_os.Scheduler.Queue.{task_key}
use company_os.Scheduler.{Scheduler, transition, transition_entry, set_task}

-- The tasks are not touched.
abbrev pub SameTasks : World → World → Type 0
SameTasks w w' = w'.tasks ≡ w.tasks

pub SameTasks-Stepping : Stepping SameTasks
SameTasks-Stepping = record {
  stay = λ w. refl;
  both = λ u v w p q. q ∙ p;
  tick = λ w. refl;
  draw = λ w. refl;
}

-- The row of a task after an update of it.
pub set_task-row :
    (id : String) (f : Task → Task) (w : World) (r : Task)
    → ((x : Task) → task_key (f x) ≡ task_key x)
    → row task_key id w.tasks ≡ some r
    → row task_key id (set_task id f w).tasks ≡ some (f r)
set_task-row id f w r same there =
    let moved = row-modify task_key id id (λ x. true) f w.tasks same in
    ground (arith, moved, there, eq_refl id)

module _ (env : Env) (s : Scheduler) where
  abbrev pub moved_row : Task → Task → TaskState → ℕ → Task
  moved_row r t target i = record r {
    state = target;
    aggregate_version = t.aggregate_version + 1;
    updated_at = env.now i;
  }

  -- The event of a transition.
  abbrev pub Logged : Task → TaskState → String → World → World → Type 0
  Logged t target reason w w' =
      (e : Event) × (w'.events ≡ e ∷ w.events)
      × (e.aggregate_type ≡ "task")
      × (e.aggregate_id ≡ t.task_id)
      × (e.aggregate_version ≡ t.aggregate_version + 1)
      × (e.event_type ≡ "task_state_changed")
      × (e.payload
          ≡ obj (
              fields (
                ("from", text (task_state_value t.state))
                ∷ ("target", text (task_state_value target))
                ∷ ("reason", text reason)
                ∷ [])))

  abbrev Written : Task → TaskState → String → World → Task → World → Type 0
  Written t target reason w t' w' =
      (task_allows t.state target ≡ true)
      × (t' ≡ record t { state = target; aggregate_version = t.aggregate_version + 1 })
      × Logged t target reason w w'
      × ((v : World) × (i : ℕ) × (v.tasks ≡ w.tasks)
          × (w'.tasks ≡ (set_task t.task_id (λ r. moved_row r t target i) v).tasks))

  allowed :
      (t : Task) (target : TaskState) (u : Unit {0})
      → require_transition (task t.state) (task target) ≡ ok u
      → task_allows t.state target ≡ true
  unfolding require_transition
  allowed t target u h = ground arith

  -- the end of a transition, once its event is appended
  abbrev close : Task → TaskState → Exec Task
  close t target = do
    now ← read_now env
    change (
        set_task t.task_id (λ r. record r {
          state = target;
          aggregate_version = t.aggregate_version + 1;
          updated_at = now;
        }))
    pure (record t { state = target; aggregate_version = t.aggregate_version + 1 })

  transition-Written :
      (t : Task) (target : TaskState) (by reason : String) (v : VerifiedPrincipal) (w : World)
      (t' : Task) (w' : World)
      → transition env s t target by reason v w ≡ ok (t', w')
      → Written t target reason w t' w'
  unfolding transition
  transition-Written t target by reason v w t' w' h =
      after_lift (require_transition (task t.state) (task target)) _ w t' w' h λ u legal h₁.
        after (fresh_id env)
          (λ id. append_event env (transition_entry s t target by reason v id) >> close t target) w
          t' w' h₁
          λ id w₁ drawn h₂.
            after (append_event env (transition_entry s t target by reason v id))
              (λ e. close t target) w₁ t' w' h₂
              λ e w₂ appended h₃.
                let done =
                  append_event-Appended env (transition_entry s t target by reason v id) w₁ e w₂
                    appended in
                let first : (w₁.events ≡ w.events) × (w₁.tasks ≡ w.tasks) = ground arith in
                let last : (t'
                      ≡ record t { state = target; aggregate_version = t.aggregate_version + 1 })
                    × (w'.events ≡ w₂.events)
                    × (w'.tasks
                        ≡ (set_task t.task_id (λ r. moved_row r t target w₂.ticks) w₂).tasks) =
                  ground arith in
                (
                  allowed t target u legal,
                  last.0,
                  (
                    e,
                    last.1 ∙ ap (λ (q : World). q.events) done.0 ∙ ap (λ es. e ∷ es) first.0,
                    done.2,
                    done.3,
                    done.4,
                    done.5,
                    done.6,
                  ),
                  (w₂, w₂.ticks, ap (λ (q : World). q.tasks) done.0 ∙ first.1, last.2),
                )

  -- A transition of a task that is there, when it succeeds, is one that the table allows; the task's row
  -- then has the new state, the version that follows the one the caller read, the instant that the
  -- clock showed, and nothing else new; the log has one event more, of this task, at that version,
  -- which names the state it came from, the new one and the reason; and the row that is returned is
  -- the caller's with that state and version.
  pub transition_moves :
      (t : Task) (target : TaskState) (by reason : String) (v : VerifiedPrincipal) (w : World)
      (t' : Task) (w' : World) (r : Task)
      → transition env s t target by reason v w ≡ ok (t', w')
      → row task_key t.task_id w.tasks ≡ some r
      → (task_allows t.state target ≡ true)
        × (t' ≡ record t { state = target; aggregate_version = t.aggregate_version + 1 })
        × ((i : ℕ) × (row task_key t.task_id w'.tasks ≡ some (moved_row r t target i)))
        × Logged t target reason w w'
  transition_moves t target by reason v w t' w' r h there =
      let (legal, returned, logged, (x, i, same, table)) =
        transition-Written t target by reason v w t' w' h in
      (
        legal,
        returned,
        (
          i,
          ap (row task_key t.task_id) table
              ∙ set_task-row t.task_id (λ q. moved_row q t target i) x r (λ q. refl)
                  (ap (row task_key t.task_id) same ∙ there),
        ),
        logged,
      )
