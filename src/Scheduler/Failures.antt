-- ===== src/Scheduler/Failures.antt =====
-- companyos_runtime/scheduler.py: failed attempts, and workers whose lease expired.
use company_os.Prelude.{
  ℕ, ◌+◌, String, Bool, true, false, ◌&&◌, Option, none, some, [], ◌∷◌, head?, select, modify,
  update, length, leb, is_none, if◌then◌else◌, ◌==◌,
}
use company_os.Types.Values.{Role, TaskState}
use company_os.Types.Equality.{same_task_state}
use company_os.Db.{World, Env}
use company_os.Db.Payload.{text, obj, fields}
use company_os.Db.Rows.{Task, NegativeResult}
use company_os.Identity.{VerifiedPrincipal, require_role}
use company_os.Exec.{Exec, pure, gets, change, read_now, fresh_id, each, ◌>>=◌, ◌>>◌}
use company_os.Scheduler.Queue.{expired}
use company_os.Scheduler.{
  Scheduler, TaskClaim, FailureOutcome, transition, retry_due, claimed_row, release_claim, set_task,
  attempt_key, failure_key,
}

-- the negative result that `_record_negative` looks for
abbrev pub prior_failure : Task → String → World → Option NegativeResult
prior_failure t fingerprint w = head? (
    select
      (λ (n : NegativeResult).
        n.project_id == t.project_id && n.task_id == t.task_id && n.fingerprint == fingerprint)
      w.negative_results)

abbrev pub circuit_opens : Task → Bool
circuit_opens t = leb t.spec.max_attempts t.attempt_count

module _ (env : Env) where
  abbrev pub failure_fingerprint : String → String → String → String → String
  failure_fingerprint key₁ value₁ key₂ value₂ =
      env.sha256
        (env.canonical_json (obj (fields ((key₁, text value₁) ∷ (key₂, text value₂) ∷ []))))

  unfoldable pub note_failure :
      Option NegativeResult → Task → String → String → String → String → ℕ → Exec String
  unfolding ◌>>=◌
  note_failure (some prior) t fingerprint failure_class severity repair_route now = do
    change (λ w. record w {
      negative_results =
          modify failure_key prior.failure_id (λ n. true)
            (λ n. record n { last_seen = now; recurrence_count = n.recurrence_count + 1 })
            w.negative_results;
    })
    pure prior.failure_id
  note_failure none t fingerprint failure_class severity repair_route now = do
    failure_id ← fresh_id env
    change (λ w. record w {
      negative_results =
          record {
            failure_id = failure_id;
            project_id = t.project_id;
            run_id = t.run_id;
            task_id = t.task_id;
            fingerprint = fingerprint;
            failure_class = failure_class;
            severity = severity;
            repair_route = repair_route;
            first_seen = now;
            last_seen = now;
            recurrence_count = 1;
          }
          ∷ w.negative_results;
    })
    pure failure_id

  -- `_record_negative`
  unfoldable pub record_negative : Task → String → String → String → String → ℕ → Exec String
  unfolding note_failure
  record_negative t fingerprint failure_class severity repair_route now = do
    prior ← gets (prior_failure t fingerprint)
    note_failure prior t fingerprint failure_class severity repair_route now

  module _ (s : Scheduler) where
    -- the retry that `fail` schedules unless the attempts are used up
    abbrev pub schedule_retry :
        Bool → Task → String → VerifiedPrincipal → ℕ → Exec (Task × Option ℕ)
    schedule_retry true t worker_id worker attempt_number = pure (t, none)
    schedule_retry false t worker_id worker attempt_number = do
      waiting ←
          transition env s t TaskState.retry_pending worker_id "bounded retry scheduled" worker
      at ← retry_due env s attempt_number
      pure (waiting, some at)

    unfoldable pub fail :
        TaskClaim
        → VerifiedPrincipal
        → (failure_class message severity repair_route : String) → Exec FailureOutcome
    unfolding claimed_row transition record_negative retry_due
    fail c worker failure_class message severity repair_route = do
      t ← claimed_row env s c worker
      let fingerprint = failure_fingerprint "failure_class" failure_class "message" message
      now ← read_now env
      failure_id ← record_negative t fingerprint failure_class severity repair_route now
      failed ← transition env s t TaskState.failed c.worker_id failure_class worker
      last ← schedule_retry (circuit_opens failed) failed c.worker_id worker c.attempt_number
      change (
          set_task c.task_id
            (λ r. record r { due_at = last.1; last_error_fingerprint = some fingerprint }))
      change (λ w. record w {
        attempts =
            modify attempt_key c.attempt_id (λ a. true)
              (λ a. record a {
                state = "failed";
                ended_at = some now;
                failure_id = some failure_id;
              })
              w.attempts;
      })
      change (release_claim c now)
      pure (record {
        task_id = c.task_id;
        attempt_id = c.attempt_id;
        state = last.0.state;
        retry_due_at = last.1;
        circuit_open = circuit_opens failed;
        fingerprint = fingerprint;
      })

    -- the transition to failed by which `reap_expired` ends a task without attempts left
    abbrev pub exhaust : Bool → Task → ℕ → String → VerifiedPrincipal → Exec (Option ℕ)
    exhaust false t at actor_id actor = pure (some at)
    exhaust true t at actor_id actor = do
      transition env s t TaskState.failed actor_id "attempt limit exhausted" actor
      pure none

    -- the body of the loop of `reap_expired`
    unfoldable pub reap : ℕ → String → VerifiedPrincipal → Task → Exec Unit
    unfolding transition record_negative retry_due
    reap now actor_id actor t = do
      let fingerprint = failure_fingerprint "failure_class" "WorkerLeaseExpired" "task_id" t.task_id
      failure_id ←
          record_negative t fingerprint "WorkerLeaseExpired" "error" "scheduler_reclaim" now
      waiting ←
          transition env s t TaskState.retry_pending actor_id
            (if same_task_state TaskState.running t.state
              then "worker lease expired"
              else "worker lease expired before start")
            actor
      at ← retry_due env s waiting.attempt_count
      due ← exhaust (circuit_opens t) waiting at actor_id actor
      change (
          set_task t.task_id
            (λ r. record r { due_at = due; last_error_fingerprint = some fingerprint }))
      change (λ w. record w {
        attempts =
            update (λ a. a.task_id == t.task_id && is_none a.ended_at)
              (λ a. record a {
                state = "abandoned";
                ended_at = some now;
                failure_id = some failure_id;
              })
              w.attempts;
      })

    unfoldable pub reap_expired : String → VerifiedPrincipal → ℕ → Exec ℕ
    unfolding reap require_role expired
    reap_expired project_id actor limit = do
      by ← require_role env actor Role.system
      queried ← read_now env
      rows ← gets (expired project_id limit queried)
      now ← read_now env
      each (reap now by.principal_id actor) rows
      pure (length rows)
