-- ===== src/Store/Authority.antt =====
-- store.py: opaque command authorities, the roles that each core event wants, and the checks that
-- `append_event` makes of a core or a protected event.
use mathlib.Core.Option
use company_os.Prelude.{
  ℕ, String, Bool, ◌&&◌, ◌||◌, Option, none, some, List, [], ◌∷◌, ◌++◌, select, elem, head?, eqb,
  ltb, leb, is_none, if◌then◌else◌, ◌==◌,
}
use company_os.Result.{Result, ok, err, integrity_error}
use company_os.Types.Values.{
  Role, owner, worker, evaluator, release, observer, system, provider_attestor, human_acceptor,
  business_reviewer, LoopEvent, TaskState, parse_loop_event, parse_task_state,
}
use company_os.Db.{World, Binding, Env}
use company_os.Db.Payload.{Json, get, as_text}
use company_os.Db.Rows.{Session, Principal}
use company_os.Identity.{session_join, role_set, has_role}

-- `_RUN_EVENT_ROLES`
abbrev pub run_event_roles : LoopEvent → List Role
run_event_roles LoopEvent.owner_intent_received = owner ∷ system ∷ []
run_event_roles LoopEvent.goal_compiled = system ∷ []
run_event_roles LoopEvent.run_ready = system ∷ []
run_event_roles LoopEvent.task_started = worker ∷ system ∷ []
run_event_roles LoopEvent.human_approval_requested = worker ∷ system ∷ []
run_event_roles LoopEvent.human_approval_received = owner ∷ system ∷ []
run_event_roles LoopEvent.evidence_submitted = worker ∷ system ∷ []
run_event_roles LoopEvent.evaluator_verdict_received = evaluator ∷ []
run_event_roles LoopEvent.ci_check_started = release ∷ system ∷ []
run_event_roles LoopEvent.ci_check_completed = release ∷ system ∷ []
run_event_roles LoopEvent.deploy_directory_updated = release ∷ []
run_event_roles LoopEvent.service_restart_attempted = release ∷ []
run_event_roles LoopEvent.runtime_freshness_verified = observer ∷ []
run_event_roles LoopEvent.runtime_drift_detected = observer ∷ system ∷ []
run_event_roles LoopEvent.delivery_confirmed = release ∷ []
run_event_roles LoopEvent.improvement_requested = owner ∷ system ∷ []
run_event_roles LoopEvent.resume_requested = owner ∷ system ∷ []
run_event_roles LoopEvent.capability_gap_detected = system ∷ []
run_event_roles LoopEvent.missing_state_detected = system ∷ []
run_event_roles LoopEvent.circuit_breaker_triggered = worker ∷ system ∷ []

-- `_TASK_TARGET_ROLES`
abbrev pub task_target_roles : TaskState → List Role
task_target_roles TaskState.leased = worker ∷ system ∷ []
task_target_roles TaskState.running = worker ∷ system ∷ []
task_target_roles TaskState.evidence_pending = worker ∷ system ∷ []
task_target_roles TaskState.evaluator_pending = evaluator ∷ system ∷ []
task_target_roles TaskState.integration_pending = evaluator ∷ system ∷ []
task_target_roles TaskState.delivered = release ∷ []
task_target_roles TaskState.retry_pending = worker ∷ system ∷ []
task_target_roles TaskState.failed = worker ∷ system ∷ []
task_target_roles TaskState.blocked = owner ∷ system ∷ []
task_target_roles TaskState.canceled = owner ∷ system ∷ []
task_target_roles TaskState.deleted = owner ∷ system ∷ []
task_target_roles TaskState.retired = owner ∷ system ∷ []
task_target_roles TaskState.suspended = owner ∷ worker ∷ system ∷ []
task_target_roles TaskState.ready = system ∷ []

-- the owner may lease a task, or make it ready, through the kernel
abbrev kernel_owner : String → TaskState → List Role
kernel_owner handler TaskState.leased = if handler == "runtime_kernel" then owner ∷ [] else []
kernel_owner handler TaskState.ready = if handler == "runtime_kernel" then owner ∷ [] else []
kernel_owner handler _ = []

abbrev task_roles : String → Option TaskState → Result (List Role)
task_roles handler none = err integrity_error
task_roles handler (some target) = ok (task_target_roles target ++ kernel_owner handler target)

abbrev parse_target : Option String → Option TaskState
parse_target none = none
parse_target (some t) = parse_task_state t

abbrev run_roles : Option LoopEvent → Result (List Role)
run_roles none = err integrity_error
run_roles (some e) = ok (run_event_roles e)

-- `_core_roles`; the aggregate types are those of `_CORE_HANDLERS`, so what is no goal or run is a task
unfoldable pub core_roles : String → String → Json → String → Result (List Role)
core_roles aggregate_type event_type payload handler =
    if aggregate_type == "goal"
    then (if event_type == "goal_created" then ok (owner ∷ []) else err integrity_error)
    else if aggregate_type == "run"
    then run_roles (parse_loop_event event_type)
    else if event_type == "task_added"
    then ok (owner ∷ system ∷ [])
    else if event_type == "task_state_changed"
    then task_roles handler (parse_target (as_text (get "target" payload)))
    else err integrity_error

-- the keys of `_CORE_HANDLERS`, and its handlers for a type
abbrev pub is_core : String → Bool
is_core t = elem t ("goal" ∷ "run" ∷ "task" ∷ [])

abbrev pub core_handlers : String → List String
core_handlers t =
    if t == "task" then "runtime_kernel" ∷ "task_scheduler" ∷ [] else "runtime_kernel" ∷ []

-- `_handler_supports_event`
unfoldable pub handler_supports_event : String → String → String → Bool
handler_supports_event handler aggregate_type event_type =
    if handler == "runtime_kernel"
    then is_core aggregate_type
    else handler == "task_scheduler"
      && aggregate_type == "task"
      && event_type == "task_state_changed"

-- `_PROTECTED_EVENT_HANDLERS.get((type, event))`: each protected event has one handler
unfoldable pub protected_handler : String → String → Option String
protected_handler t e =
    if t == "approval" && e == "approval_decided"
    then some "policy_engine"
    else if t == "artifact" && e == "artifact_registered"
        || t == "evidence" && e == "evidence_claim_recorded"
    then some "evidence_registry"
    else if t == "eval" && e == "eval_recorded"
        || t == "improvement"
          && elem e
              ("improvement_proposed" ∷ "improvement_eval_attached" ∷ "improvement_promoted" ∷ [])
        || t == "sealed_custody" && e == "sealed_custody_attested"
    then some "evaluation_registry"
    else none

-- `_PROTECTED_AGGREGATES`
abbrev pub is_protected : String → Bool
is_protected t =
    elem t ("approval" ∷ "artifact" ∷ "evidence" ∷ "eval" ∷ "improvement" ∷ "sealed_custody" ∷ [])

-- `self.__command_authorities.get(authority)`
abbrev pub find_authority : ℕ → List Binding → Option Binding
find_authority a bs = head? (select (λ b. eqb b.authority a) bs)

-- every role in the order of its text, as `ORDER BY r.role` lists them
abbrev pub roles_by_text : List Role
roles_by_text =
    business_reviewer ∷ evaluator ∷ human_acceptor ∷ observer ∷ owner ∷ provider_attestor ∷ release
    ∷ system ∷ worker ∷ []

-- the conditions of the query on the session and its principal
unfoldable pub session_live : Env → String → ℕ → Session × Principal → Bool
session_live env actor now (s, p) =
    s.principal_id == actor
    && is_none s.revoked_at
    && p.enabled
    && eqb s.credential_version p.credential_version
    && leb (env.julianday s.issued_at) (env.julianday now)
    && ltb (env.julianday now) (env.julianday s.expires_at)

-- the first role of the actor that is allowed
unfoldable pub first_role : String → List Role → World → Option Role
first_role actor allowed w =
    head? (select (λ r. has_role allowed r && has_role (role_set actor w) r) roles_by_text)

abbrev role_and_token :
    Env → String → ℕ → List Role → World → Option (Session × Principal) → Option (Role × String)
role_and_token env actor now allowed w none = none
role_and_token env actor now allowed w (some sp) =
    if session_live env actor now sp
    then Option.map (λ r. (r, sp.0.session_token_hash)) (first_role actor allowed w)
    else none

-- the role under which the core event is authorized, and the session's token
unfoldable pub session_role : Env → String → String → ℕ → List Role → World → Option (Role × String)
unfolding session_live first_role
session_role env session_id actor now allowed w =
    role_and_token env actor now allowed w (session_join session_id w)
