-- ===== src/Leases.antt =====
-- companyos_runtime/leases.py: leases with fencing tokens. `LeaseOperationResult` is a lease row with
-- the flag `replayed`.
pub mod Claims
pub mod Audit
pub mod Fencing
pub mod History
pub mod Exclusion
mod Samples
use mathlib.Core.Option
use company_os.Prelude.{
  ℕ, ◌+◌, ◌*◌, String, Bool, true, false, not, ◌&&◌, Option, none, some, List, [], ◌∷◌, row, modify,
  ltb, eqb, head?, select, if◌then◌else◌, ◌==◌, is_none,
}
use company_os.Result.{Error, lease_error, constraint}
use company_os.Types.Values.{Role}
use company_os.Text.{required_text, positive}
use company_os.Db.{World, Env}
use company_os.Db.Payload.{Json, text, num, instant, obj, fields}
use company_os.Db.Rows.{Lease, Task, Event}
use company_os.Identity.{VerifiedPrincipal, PrincipalRecord, verify_in_transaction, shares_role}
use company_os.Exec.{
  Exec, pure, raise, lift, gets, or_raise, change, assert, read_now, fresh_id, ◌>>=◌, ◌>>◌,
}
use company_os.Store.Entry.{Entry, max_version}
use company_os.Store.Append.{append_event}

abbrev pub lease_key : Lease → String
lease_key l = l.resource_key

abbrev pub find_lease : String → World → Option Lease
find_lease key w = row lease_key key w.leases

pub record LeaseOperationResult : Type 0 where
  pub lease : Lease
  pub replayed : Bool

abbrev pub seconds : ℕ → ℕ
seconds n = n * 1000000

abbrev pub correlation : Option String → String → String
correlation none goal_id = goal_id
correlation (some run_id) goal_id = run_id

abbrev policy_version : String
policy_version = "companyos-policy-v1"

-- project, task, holder and fence as the caller claims them
abbrev pub matches : Lease → String → String → String → ℕ → Bool
matches l project_id task_id holder fence =
    l.project_id == project_id && l.task_id == task_id && l.holder == holder && eqb l.fence fence

-- the CHECK constraint on the table
abbrev pub lease_ok : Lease → Bool
lease_ok l = ltb 0 l.fence && ltb l.issued_at l.expires_at

-- a new row, or the row of a lease that is taken over
abbrev pub taken : Option Lease → String → String → String → String → ℕ → ℕ → Lease
taken old key project_id task_id holder issued_at expires_at = record {
  resource_key = key;
  project_id = project_id;
  task_id = task_id;
  holder = holder;
  fence = elim old [ none ↦ 1 | some l ↦ l.fence + 1 ];
  issued_at = issued_at;
  expires_at = expires_at;
  released_at = none;
}

abbrev pub put_lease : Option Lease → Lease → List Lease → List Lease
put_lease none l ls = l ∷ ls
put_lease (some old) l ls =
    modify lease_key l.resource_key (λ r. true)
      (λ r. record l { resource_key = r.resource_key; fence = r.fence + 1 }) ls

-- the event that every operation appends
abbrev pub audit_entry : String → Task → String → ℕ → String → ℕ → ℕ → String → Entry
audit_entry resource_key task holder fence event_type expires_at version command_id = record {
  aggregate_type = "lease";
  aggregate_id = resource_key;
  expected_version = version;
  project_id = task.project_id;
  event_type = event_type;
  actor = holder;
  command_id = command_id;
  correlation_id = correlation task.run_id task.goal_id;
  policy_version = policy_version;
  payload = obj (
      fields
        (("holder", text holder) ∷ ("fence", num fence) ∷ ("expires_at", instant expires_at) ∷ []));
  auth_context = [];
  auth_session = none;
  command_authority = none;
  command_owner = none;
  run_id = task.run_id;
  task_id = some task.task_id;
  idempotency_key = none;
  causation_id = none;
  confidentiality = "internal";
  occurred_at = none;
}

module _ (env : Env) where
  unfoldable pub holder_id : VerifiedPrincipal → Exec String
  unfolding ◌>>=◌
  holder_id holder = do
    principal ← verify_in_transaction env holder
    assert (shares_role principal.roles (Role.worker ∷ Role.system ∷ [])) lease_error
    pure principal.principal_id

  abbrev pub released_or_expired : Option ℕ → ℕ → Exec Bool
  released_or_expired (some t) expires_at = pure false
  released_or_expired none expires_at = do now ← read_now env; pure (ltb now expires_at)

  -- `_is_active`; the clock is read only for a lease that was not released
  unfoldable pub is_active : Lease → Exec Bool
  unfolding ◌>>=◌
  is_active l = released_or_expired l.released_at l.expires_at

  unfoldable pub assert_task_scope : String → String → Exec Task
  unfolding ◌>>=◌
  assert_task_scope project_id task_id = do
    found ←
        gets (λ w. head? (select (λ t. t.task_id == task_id && t.project_id == project_id) w.tasks))
    or_raise found lease_error

  unfoldable pub append_audit : String → Task → String → ℕ → String → ℕ → Exec Event
  unfolding ◌>>=◌
  append_audit resource_key task holder fence event_type expires_at = do
    version ← gets (λ w. max_version "lease" resource_key w.events)
    command_id ← fresh_id env
    append_event env
        (audit_entry resource_key task holder fence event_type expires_at version command_id)

  -- INSERT for a new key, UPDATE … SET fence = fence + 1 for one that is there
  unfoldable pub write_lease : Option Lease → String → String → String → String → ℕ → Exec Lease
  unfolding ◌>>=◌
  write_lease old key project_id task_id holder ttl_seconds = do
    issued_at ← read_now env
    now ← read_now env
    let l = taken old key project_id task_id holder issued_at (now + seconds ttl_seconds)
    assert (lease_ok l) constraint
    change (λ w. record w { leases = put_lease old l w.leases })
    acquired ← gets (find_lease key)
    or_raise acquired constraint

  unfoldable pub take :
      Option Lease → String → String → String → String → ℕ → Task → Exec LeaseOperationResult
  unfolding write_lease append_audit
  take old key project_id task_id holder ttl_seconds task = do
    acquired ← write_lease old key project_id task_id holder ttl_seconds
    append_audit key task holder acquired.fence
        (if is_none old then "lease_acquired" else "lease_taken_over") acquired.expires_at
    pure (record { lease = acquired; replayed = false })

  abbrev pub replay_or_refuse : Lease → Bool → Exec LeaseOperationResult
  replay_or_refuse l true = pure (record { lease = l; replayed = true })
  replay_or_refuse l false = raise lease_error

  abbrev pub acquire_at :
      Option Lease → Bool → String → String → String → String → ℕ → Task → Exec LeaseOperationResult
  acquire_at none active key project_id task_id holder ttl_seconds task =
      take none key project_id task_id holder ttl_seconds task
  acquire_at (some l) true key project_id task_id holder ttl_seconds task =
      replay_or_refuse l (l.project_id == project_id && l.task_id == task_id && l.holder == holder)
  acquire_at (some l) false key project_id task_id holder ttl_seconds task =
      take (some l) key project_id task_id holder ttl_seconds task

  abbrev pub active_row : Option Lease → Exec Bool
  active_row none = pure false
  active_row (some l) = is_active l

  unfoldable pub acquire :
      String → String → String → VerifiedPrincipal → ℕ → Exec LeaseOperationResult
  unfolding ◌>>=◌ holder_id is_active assert_task_scope take required_text positive
  acquire resource_key project_id task_id holder ttl_seconds = do
    key ← lift (required_text lease_error resource_key)
    project ← lift (required_text lease_error project_id)
    task_key ← lift (required_text lease_error task_id)
    ttl ← lift (positive lease_error ttl_seconds)
    by ← holder_id holder
    task ← assert_task_scope project task_key
    found ← gets (find_lease key)
    active ← active_row found
    acquire_at found active key project task_key by ttl task

  -- `_require_match`
  unfoldable pub require_match : Option Lease → String → String → String → ℕ → Bool → Exec Lease
  unfolding is_active
  require_match found project_id task_id holder fence require_active = do
    l ← or_raise found lease_error
    assert (matches l project_id task_id holder fence) lease_error
    active ← if require_active then is_active l else pure true
    assert active lease_error
    pure l

  unfoldable pub renew :
      String → String → String → VerifiedPrincipal → ℕ → ℕ → Exec LeaseOperationResult
  unfolding ◌>>=◌ holder_id require_match assert_task_scope append_audit required_text positive
  renew resource_key project_id task_id holder fence ttl_seconds = do
    key ← lift (required_text lease_error resource_key)
    project ← lift (required_text lease_error project_id)
    task_key ← lift (required_text lease_error task_id)
    token ← lift (positive lease_error fence)
    ttl ← lift (positive lease_error ttl_seconds)
    by ← holder_id holder
    found ← gets (find_lease key)
    l ← require_match found project task_key by token true
    now ← read_now env
    let expires_at = now + seconds ttl
    assert (lease_ok (record l { expires_at = expires_at })) constraint
    change (λ w. record w {
      leases =
          modify lease_key key (λ r. eqb r.fence token) (λ r. record r { expires_at = expires_at })
            w.leases;
    })
    updated ← gets (find_lease key)
    renewed ← or_raise updated constraint
    task ← assert_task_scope project task_key
    append_audit key task by token "lease_renewed" renewed.expires_at
    pure (record { lease = renewed; replayed = false })

  unfoldable pub release_row :
      Lease → Bool → String → String → String → String → ℕ → Exec LeaseOperationResult
  unfolding ◌>>=◌ is_active assert_task_scope append_audit
  release_row l true key project task_key by token = pure (record { lease = l; replayed = true })
  release_row l false key project task_key by token = do
    active ← is_active l
    assert active lease_error
    now ← read_now env
    change (λ w. record w {
      leases =
          modify lease_key key (λ r. eqb r.fence token) (λ r. record r { released_at = some now })
            w.leases;
    })
    updated ← gets (find_lease key)
    released ← or_raise updated constraint
    task ← assert_task_scope project task_key
    append_audit key task by token "lease_released" released.expires_at
    pure (record { lease = released; replayed = false })

  unfoldable pub release :
      String → String → String → VerifiedPrincipal → ℕ → Exec LeaseOperationResult
  unfolding ◌>>=◌ holder_id require_match release_row required_text positive
  release resource_key project_id task_id holder fence = do
    key ← lift (required_text lease_error resource_key)
    project ← lift (required_text lease_error project_id)
    task_key ← lift (required_text lease_error task_id)
    token ← lift (positive lease_error fence)
    by ← holder_id holder
    found ← gets (find_lease key)
    l ← require_match found project task_key by token false
    release_row l (not (is_none l.released_at)) key project task_key by token

  unfoldable pub current_fence : String → Exec (Option ℕ)
  unfolding ◌>>=◌ required_text
  current_fence resource_key = do
    key ← lift (required_text lease_error resource_key)
    found ← gets (find_lease key)
    pure (Option.map (λ (l : Lease). l.fence) found)

  unfoldable pub require_current_fence :
      String → String → String → VerifiedPrincipal → ℕ → Bool → Exec Lease
  unfolding ◌>>=◌ holder_id require_match required_text positive
  require_current_fence resource_key project_id task_id holder fence require_active = do
    key ← lift (required_text lease_error resource_key)
    project ← lift (required_text lease_error project_id)
    task_key ← lift (required_text lease_error task_id)
    token ← lift (positive lease_error fence)
    by ← holder_id holder
    found ← gets (find_lease key)
    require_match found project task_key by token require_active
