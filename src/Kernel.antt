-- ===== src/Kernel.antt =====
-- companyos_runtime/kernel.py: the commands on runs and tasks. A command's result, a dict, is JSON.
pub mod Runs
pub mod Tasks
pub mod Control
pub mod Roles
pub mod Delivery
pub mod Creation
pub mod Claims
mod Samples
pub mod Confirmation
use company_os.Prelude.{
  ℕ, ◌≡◌, arith, String, Bool, not, ◌||◌, Option, none, some, List, [], ◌∷◌, any, row,
  if◌then◌else◌, ◌==◌,
}
use company_os.Result.{Result, ok, err, contract_error, transition_error}
use company_os.Types.Values.{Role, LoopEvent}
use company_os.Text.{strip}
use company_os.Db.{World, Env}
use company_os.Db.Payload.{Json}
use company_os.Db.Rows.{Run, Task}
use company_os.Identity.{VerifiedPrincipal, verify, shares_role}
use company_os.Exec.{Exec, pure, assert, ◌>>=◌, ◌>>◌}
use company_os.Store.Entry.{Entry}

pub record RuntimeKernel : Type 0 where
  pub command_authority : ℕ
  pub policy_version : String

-- `_command_text`
unfoldable pub command_text : String → Result String
unfolding strip
command_text value =
    if value == "" || not (value == strip value) then err contract_error else ok value

-- What is accepted is the text itself.
pub command_text-ok : (value t : String) → command_text value ≡ ok t → t ≡ value
unfolding command_text
command_text-ok value t h = ground arith

-- the event of a command, under the kernel's authority and the caller's session
abbrev pub command_entry :
    (kernel : RuntimeKernel) (aggregate_type aggregate_id : String) (expected_version : ℕ)
    (project_id : String) (run_id task_id : Option String) (event_type actor : String)
    (auth_session : VerifiedPrincipal) (command_id correlation_id policy_version : String)
    (payload : Json) (idempotency_key : String) (causation_id : Option String)
    → Entry
command_entry kernel aggregate_type aggregate_id expected_version project_id run_id task_id
      event_type actor auth_session command_id correlation_id policy_version payload idempotency_key
      causation_id =
    record {
      aggregate_type = aggregate_type;
      aggregate_id = aggregate_id;
      expected_version = expected_version;
      project_id = project_id;
      event_type = event_type;
      actor = actor;
      command_id = command_id;
      correlation_id = correlation_id;
      policy_version = policy_version;
      payload = payload;
      auth_context = [];
      auth_session = some auth_session;
      command_authority = some kernel.command_authority;
      command_owner = none;
      run_id = run_id;
      task_id = task_id;
      idempotency_key = some idempotency_key;
      causation_id = causation_id;
      confidentiality = "internal";
      occurred_at = none;
    }

-- the table in `_loop_actor_id`
abbrev pub loop_roles : LoopEvent → List Role
loop_roles LoopEvent.goal_compiled = Role.system ∷ []
loop_roles LoopEvent.run_ready = Role.system ∷ []
loop_roles LoopEvent.task_started = Role.worker ∷ Role.system ∷ []
loop_roles LoopEvent.human_approval_requested = Role.worker ∷ Role.system ∷ []
loop_roles LoopEvent.human_approval_received = Role.owner ∷ Role.system ∷ []
loop_roles LoopEvent.evidence_submitted = Role.worker ∷ Role.system ∷ []
loop_roles LoopEvent.evaluator_verdict_received = Role.evaluator ∷ []
loop_roles LoopEvent.ci_check_started = Role.release ∷ Role.system ∷ []
loop_roles LoopEvent.ci_check_completed = Role.release ∷ Role.system ∷ []
loop_roles LoopEvent.deploy_directory_updated = Role.release ∷ []
loop_roles LoopEvent.service_restart_attempted = Role.release ∷ []
loop_roles LoopEvent.runtime_freshness_verified = Role.observer ∷ []
loop_roles LoopEvent.runtime_drift_detected = Role.observer ∷ Role.system ∷ []
loop_roles LoopEvent.delivery_confirmed = Role.release ∷ []
loop_roles LoopEvent.improvement_requested = Role.owner ∷ Role.system ∷ []
loop_roles LoopEvent.resume_requested = Role.owner ∷ Role.system ∷ []
loop_roles _ = Role.system ∷ []

module _ (env : Env) where
  -- `_actor_id`
  unfoldable pub actor_id : VerifiedPrincipal → List Role → Exec String
  unfolding ◌>>=◌ verify
  actor_id actor roles = do
    principal ← verify env actor
    assert (shares_role principal.roles roles) transition_error
    pure principal.principal_id
