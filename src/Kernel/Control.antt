-- ===== src/Kernel/Control.antt =====
-- kernel.py: `control_task`.
use Prim.Native.String.{◌++◌ as append_text}
use company_os.Prelude.{
  ℕ, String, Bool, true, false, ◌&&◌, Option, none, some, [], ◌∷◌, any, row, update, ltb, is_none,
  if◌then◌else◌, ◌==◌,
}
use company_os.Result.{not_found, transition_error, contract_error}
use company_os.Types.Values.{Role, TaskState, task_state_value}
use company_os.Text.{required_text}
use company_os.Db.{World, Env}
use company_os.Db.Payload.{Json, text, obj, fields}
use company_os.Db.Rows.{Task, Lease, Attempt}
use company_os.Identity.{VerifiedPrincipal}
use company_os.Exec.{Exec, pure, raise, lift, gets, or_raise, change, assert, read_now, ◌>>=◌, ◌>>◌}
use company_os.Store.Idempotency.{once}
use company_os.Policy.Authority.{task_id_of}
use company_os.Scope.{TextLibrary}
use company_os.Kernel.{RuntimeKernel, command_text, actor_id}
use company_os.Kernel.Tasks.{transition_task, task_digest}

-- an action of `_TASK_CONTROL_TARGETS`, or `resume`
pub data Action : Type 0 where
  to : (target : TaskState) → Action
  resume : Action

unfoldable pub parse_action : String → Option Action
parse_action a =
    if a == "block"
    then some (to TaskState.blocked)
    else if a == "cancel"
    then some (to TaskState.canceled)
    else if a == "delete"
    then some (to TaskState.deleted)
    else if a == "retire"
    then some (to TaskState.retired)
    else if a == "suspend"
    then some (to TaskState.suspended)
    else if a == "resume"
    then some resume
    else none

-- the states in which a task's claims end
abbrev pub ends_claims : TaskState → Bool
ends_claims TaskState.blocked = true
ends_claims TaskState.canceled = true
ends_claims TaskState.deleted = true
ends_claims TaskState.retired = true
ends_claims _ = false

abbrev live_claim : Task → ℕ → World → Bool
live_claim t now w =
    any
      (λ (l : Lease).
        l.resource_key == append_text "task://" t.task_id
        && l.project_id == t.project_id
        && l.task_id == t.task_id
        && is_none l.released_at
        && ltb now l.expires_at)
      w.leases

-- UPDATE leases, UPDATE attempts
abbrev pub end_claims : String → TaskState → ℕ → World → World
end_claims task_id target ended_at w = record w {
  leases =
      update (λ (l : Lease). l.task_id == task_id && is_none l.released_at)
        (λ l. record l { released_at = some ended_at }) w.leases;
  attempts =
      update (λ (a : Attempt). a.task_id == task_id && is_none a.ended_at)
        (λ a. record a { state = task_state_value target; ended_at = some ended_at }) w.attempts;
}

module _ (env : Env) (kernel : RuntimeKernel) where
  abbrev pub resume_target : Task → TaskState → Exec TaskState
  resume_target t TaskState.blocked = pure TaskState.ready
  resume_target t TaskState.suspended = do
    now ← read_now env
    live ← gets (live_claim t now)
    assert live transition_error
    pure TaskState.leased
  resume_target t other = raise transition_error

  abbrev pub control_target : Task → Action → Exec TaskState
  control_target t (to target) = pure target
  control_target t resume = resume_target t t.state

  unfoldable pub finish_claims : Task → TaskState → Exec Unit
  unfolding ◌>>=◌
  finish_claims t target =
      if ends_claims target
      then (do ended_at ← read_now env; change (end_claims t.task_id target ended_at))
      else pure tt

  unfoldable pub control :
      Task → Action → String → String → VerifiedPrincipal → String → Exec (Json × String)
  unfolding ◌>>=◌ transition_task finish_claims
  control t action actor reason session idempotency_key = do
    target ← control_target t action
    made ← transition_task env kernel t target actor reason idempotency_key session []
    finish_claims t target
    pure made

  unfoldable pub control_task :
      TextLibrary
      → (task_id action reason : String) (actor : VerifiedPrincipal) (idempotency_key : String)
      → Exec Json
  unfolding ◌>>=◌ command_text actor_id required_text parse_action control once
  control_task lib task_id action reason actor idempotency_key = do
    task_id ← lift (command_text task_id)
    idempotency_key ← lift (command_text idempotency_key)
    by ← actor_id env actor (Role.owner ∷ Role.system ∷ [])
    action ← lift (required_text contract_error action)
    let name = lib.lower action
    parsed ← or_raise (parse_action name) contract_error
    reason ← lift (required_text contract_error reason)
    found ← gets (λ w. row task_id_of task_id w.tasks)
    t ← or_raise found not_found
    once env t.project_id (append_text "task.control." task_id) idempotency_key
        (task_digest env kernel
          (obj (fields (("action", text name) ∷ ("reason", text reason) ∷ []))))
        (control t parsed by (append_text "control:" (append_text name (append_text ": " reason)))
          actor idempotency_key)
