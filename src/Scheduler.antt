-- ===== src/Scheduler.antt =====
-- companyos_runtime/scheduler.py: tasks are claimed, started, completed, failed and reaped.
pub mod Queue
pub mod Setup
pub mod Failures
pub mod Fencing
pub mod Claims
pub mod Moves
pub mod Outcomes
pub mod Grants
mod Samples
use Prim.Native.Nat.{◌^◌, min, ◌-◌}
use Prim.Native.String.{◌++◌ as append_text}
use company_os.Prelude.{
  ℕ, suc, ◌+◌, ◌*◌, String, Bool, true, false, not, ◌&&◌, ◌||◌, Option, none, some, List, [], ◌∷◌,
  any, head?, select, row, modify, update, length, ltb, leb, eqb, is_none, if◌then◌else◌, ◌==◌,
}
use company_os.Result.{
  Result, ok, guard, lease_error, value_error, type_error, constraint, ◌>>=◌ as result_bind,
  ◌>>◌ as result_then,
}
use company_os.Types.Values.{Role, TaskState, task_state_value}
use company_os.Types.Equality.{same_task_state}
use company_os.StateMachine.{require_transition, task}
use company_os.Db.{World, Env}
use company_os.Db.Payload.{Json, text, obj, fields}
use company_os.Db.Rows.{Lease, Task, Attempt, NegativeResult}
use company_os.Identity.{VerifiedPrincipal, require_role}
use company_os.Exec.{
  Exec, pure, lift, gets, or_raise, change, assert, read_now, fresh_id, each, ◌>>=◌, ◌>>◌,
}
use company_os.Store.Entry.{Entry}
use company_os.Store.Append.{append_event}
use company_os.Leases.{lease_key, find_lease, lease_ok, is_active, seconds, correlation}
use company_os.Scheduler.Queue.{
  str, task_resource, task_key, executable, due_retries, next_ready, expired,
}

pub record TaskClaim : Type 0 where
  pub task_id : String
  pub run_id : Option String
  pub attempt_id : String
  pub attempt_number : ℕ
  pub worker_id : String
  pub resource_key : String
  pub fence : ℕ
  pub expires_at : ℕ

pub record FailureOutcome : Type 0 where
  pub task_id : String
  pub attempt_id : String
  pub state : TaskState
  pub retry_due_at : Option ℕ
  pub circuit_open : Bool
  pub fingerprint : String

-- the attributes of a `TaskScheduler`
pub record Scheduler : Type 0 where
  pub command_authority : ℕ
  pub policy_version : String
  pub retry_base_seconds : ℕ
  pub retry_max_seconds : ℕ

abbrev pub find_task : String → World → Option Task
find_task task_id w = row task_key task_id w.tasks

-- the two queries of `_require_claim`
abbrev pub claim_lives : TaskClaim → ℕ → Option Lease → Bool
claim_lives c now none = false
claim_lives c now (some l) =
    l.task_id == c.task_id
    && l.holder == c.worker_id
    && eqb l.fence c.fence
    && is_none l.released_at
    && ltb now l.expires_at

abbrev pub attempt_lives : TaskClaim → World → Bool
attempt_lives c w =
    any
      (λ (a : Attempt).
        a.attempt_id == c.attempt_id
        && a.task_id == c.task_id
        && a.worker_id == c.worker_id
        && is_none a.ended_at)
      w.attempts

abbrev pub upsert_lease : Lease → List Lease → List Lease
upsert_lease l ls =
    if is_none (row lease_key l.resource_key ls)
    then l ∷ ls
    else modify lease_key l.resource_key (λ r. true)
        (λ r. record l { resource_key = r.resource_key }) ls

abbrev attempt_clash : Attempt → World → Bool
attempt_clash a w =
    any
      (λ (b : Attempt).
        b.attempt_id == a.attempt_id
        || b.task_id == a.task_id && eqb b.attempt_number a.attempt_number)
      w.attempts

abbrev pub attempt_key : Attempt → String
attempt_key a = a.attempt_id

abbrev pub failure_key : NegativeResult → String
failure_key n = n.failure_id

-- the lease's release by `complete` and `fail`
abbrev pub release_claim : TaskClaim → ℕ → World → World
release_claim c now w = record w {
  leases =
      modify lease_key c.resource_key (λ r. eqb r.fence c.fence)
        (λ r. record r { released_at = some now }) w.leases;
}

abbrev pub set_task : String → (Task → Task) → World → World
set_task task_id f w = record w { tasks = modify task_key task_id (λ t. true) f w.tasks }

abbrev pub transition_entry :
    Scheduler → Task → TaskState → String → String → VerifiedPrincipal → String → Entry
transition_entry s t target actor reason auth_session command_id = record {
  aggregate_type = "task";
  aggregate_id = t.task_id;
  expected_version = t.aggregate_version;
  project_id = t.project_id;
  event_type = "task_state_changed";
  actor = actor;
  command_id = command_id;
  correlation_id = correlation t.run_id t.goal_id;
  policy_version = s.policy_version;
  payload = obj (
      fields (
        ("from", text (task_state_value t.state))
        ∷ ("target", text (task_state_value target))
        ∷ ("reason", text reason)
        ∷ []));
  auth_context = [];
  auth_session = some auth_session;
  command_authority = some s.command_authority;
  command_owner = none;
  run_id = t.run_id;
  task_id = some t.task_id;
  idempotency_key = none;
  causation_id = none;
  confidentiality = "internal";
  occurred_at = none;
}

abbrev pub claimed_lease : Option Lease → String → Task → String → ℕ → ℕ → Lease
claimed_lease old project_id t worker_id issued_at expires_at = record {
  resource_key = task_resource t.task_id;
  project_id = project_id;
  task_id = t.task_id;
  holder = worker_id;
  fence = elim old [ none ↦ 1 | some l ↦ l.fence + 1 ];
  issued_at = issued_at;
  expires_at = expires_at;
  released_at = none;
}

-- the seconds that a retry waits
unfoldable pub retry_seconds : Scheduler → ℕ → ℕ
retry_seconds s attempt_number =
    min (s.retry_base_seconds * 2 ^ (attempt_number - 1)) s.retry_max_seconds

module _ (env : Env) (s : Scheduler) where
  -- `_retry_due`
  unfoldable pub retry_due : ℕ → Exec ℕ
  unfolding ◌>>=◌ retry_seconds
  retry_due attempt_number = do
    now ← read_now env
    pure (now + seconds (retry_seconds s attempt_number))

  -- `_transition`
  unfoldable pub transition : Task → TaskState → String → String → VerifiedPrincipal → Exec Task
  unfolding ◌>>=◌ require_transition append_event
  transition t target actor reason auth_session = do
    lift (require_transition (task t.state) (task target))
    command_id ← fresh_id env
    append_event env (transition_entry s t target actor reason auth_session command_id)
    now ← read_now env
    change (
        set_task t.task_id (λ r. record r {
          state = target;
          aggregate_version = t.aggregate_version + 1;
          updated_at = now;
        }))
    pure (record t { state = target; aggregate_version = t.aggregate_version + 1 })

  unfoldable pub promote_due_retries : String → VerifiedPrincipal → ℕ → Exec ℕ
  unfolding transition require_role due_retries
  promote_due_retries project_id actor limit = do
    by ← require_role env actor Role.system
    now ← read_now env
    rows ← gets (due_retries project_id limit now)
    each
        (λ t. do
          transition t TaskState.ready by.principal_id "retry backoff elapsed" actor
          pure tt)
        rows
    pure (length rows)

  -- the lease that `claim_next` writes for the task that it selects, once its lease is free
  unfoldable pub lease_task : Option Lease → String → Task → String → ℕ → Exec Lease
  unfolding ◌>>=◌
  lease_task old project_id t worker_id ttl_seconds = do
    issued_at ← read_now env
    now ← read_now env
    let l = claimed_lease old project_id t worker_id issued_at (now + seconds ttl_seconds)
    assert (lease_ok l) constraint
    change (λ w. record w { leases = upsert_lease l w.leases })
    pure l

  -- the attempt, and the task's transition; the task has a run
  unfoldable pub record_claim : Lease → Task → String → VerifiedPrincipal → Exec TaskClaim
  unfolding transition
  record_claim l t worker_id worker = do
    attempt_id ← fresh_id env
    let a : Attempt = record {
      attempt_id = attempt_id;
      task_id = t.task_id;
      run_id = correlation t.run_id "";
      attempt_number = t.attempt_count + 1;
      worker_id = worker_id;
      state = "leased";
      started_at = l.issued_at;
      ended_at = none;
      failure_id = none;
    }
    clash ← gets (attempt_clash a)
    assert (not clash) constraint
    change (λ w. record w { attempts = a ∷ w.attempts })
    updated ←
        transition t TaskState.leased worker_id (append_text "scheduler claim fence " (str l.fence))
          worker
    change (
        set_task updated.task_id
          (λ r. record r { attempt_count = t.attempt_count + 1; due_at = none }))
    pure (record {
      task_id = t.task_id;
      run_id = t.run_id;
      attempt_id = attempt_id;
      attempt_number = t.attempt_count + 1;
      worker_id = worker_id;
      resource_key = l.resource_key;
      fence = l.fence;
      expires_at = l.expires_at;
    })

  abbrev pub lease_in_use : Option Lease → Exec Bool
  lease_in_use none = pure false
  lease_in_use (some l) = is_active env l

  abbrev pub claim_if_free :
      Bool → Option Lease → String → Task → String → VerifiedPrincipal → ℕ → Exec (Option TaskClaim)
  claim_if_free true old project_id t worker_id worker ttl_seconds = pure none
  claim_if_free false old project_id t worker_id worker ttl_seconds = do
    l ← lease_task old project_id t worker_id ttl_seconds
    claim ← record_claim l t worker_id worker
    pure (some claim)

  abbrev pub claim_selected :
      Option Task → String → String → VerifiedPrincipal → ℕ → Exec (Option TaskClaim)
  claim_selected none project_id worker_id worker ttl_seconds = pure none
  claim_selected (some t) project_id worker_id worker ttl_seconds = do
    old ← gets (find_lease (task_resource t.task_id))
    active ← lease_in_use old
    claim_if_free active old project_id t worker_id worker ttl_seconds

  unfoldable pub claim_next : String → VerifiedPrincipal → ℕ → Exec (Option TaskClaim)
  unfolding lease_task record_claim require_role is_active next_ready
  claim_next project_id worker ttl_seconds = do
    by ← require_role env worker Role.worker
    assert (not (ltb ttl_seconds 1)) lease_error
    now ← read_now env
    selected ← gets (next_ready project_id now)
    claim_selected selected project_id by.principal_id worker ttl_seconds

  -- `_require_claim`
  unfoldable pub require_claim : TaskClaim → Exec Unit
  unfolding ◌>>=◌
  require_claim c = do
    now ← read_now env
    found ← gets (find_lease c.resource_key)
    assert (claim_lives c now found) lease_error
    lives ← gets (attempt_lives c)
    assert lives lease_error

  -- what `start`, `complete` and `fail` begin with: the task of a claim that the worker still has
  unfoldable pub claimed_row : TaskClaim → VerifiedPrincipal → Exec Task
  unfolding require_role require_claim
  claimed_row c worker = do
    by ← require_role env worker Role.worker
    assert (by.principal_id == c.worker_id) lease_error
    require_claim c
    found ← gets (find_task c.task_id)
    or_raise found type_error

  unfoldable pub start : TaskClaim → VerifiedPrincipal → Exec Unit
  unfolding claimed_row transition
  start c worker = do
    t ← claimed_row c worker
    runs ← gets (λ w. executable w t)
    assert runs lease_error
    transition t TaskState.running c.worker_id
        (append_text "attempt " (append_text (str c.attempt_number) " started")) worker
    change (λ w. record w {
      attempts =
          modify attempt_key c.attempt_id (λ a. a.state == "leased")
            (λ a. record a { state = "running" }) w.attempts;
    })

  unfoldable pub complete : TaskClaim → VerifiedPrincipal → Exec Unit
  unfolding claimed_row transition
  complete c worker = do
    t ← claimed_row c worker
    transition t TaskState.evidence_pending c.worker_id
        (append_text "attempt " (append_text (str c.attempt_number) " completed; evidence pending"))
        worker
    now ← read_now env
    change (λ w. record w {
      attempts =
          modify attempt_key c.attempt_id (λ a. true)
            (λ a. record a { state = "succeeded"; ended_at = some now }) w.attempts;
    })
    change (release_claim c now)
