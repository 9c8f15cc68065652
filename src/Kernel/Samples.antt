-- ===== src/Kernel/Samples.antt =====
-- Examples of the kernel's commands and of the guards of a run.
use company_os.Types.Values.{parse_task_state}
use company_os.Db.Payload.{get}
use company_os.Prelude.{arith, modify}
use company_os.Store.Entry.{envelope}
use company_os.Samples.{encode}
use company_os.Store.Authority.{session_role}
use company_os.Types.Values.{parse_loop_event}
use company_os.Store.Authority.{handler_supports_event}
use company_os.Policy.Authority.{validated_task_authority_binding}
use company_os.Prelude.{
  arith, ◌≡◌, refl, true, false, ◌⊎◌, none, some, List, [], ◌∷◌, all, any, row, ◌==◌, Bool, String,
}
use company_os.Result.{ok, err}
use company_os.Types.Values.{Role, LoopState, LoopEvent, TaskState}
use company_os.Db.{World}
use company_os.Db.Payload.{Json, null}
use company_os.Db.Rows.{Run, Task, ImprovementProposal}
use company_os.Identity.{has_role}
use company_os.Exec.Reads.{OnlyReads}
use company_os.Store.Authority.{core_roles}
use company_os.StateMachine.{apply_loop_event}
use company_os.Policy.Authority.{task_id_of}
use company_os.Guards.{resolve, result_at}
use company_os.Guards.Delivery.{Deliverable, delivered_run_is_finished}
use company_os.Kernel.{RuntimeKernel}
use company_os.Kernel.Runs.{advance_loop, create_run}
use company_os.Kernel.Tasks.{confirm_task_delivery}
use company_os.Kernel.Control.{control_task}
use company_os.Kernel.Delivery.{advance_loop_delivers}
use company_os.Kernel.Roles.{kernel_roles_authorized}
use company_os.Kernel.Creation.{create_run_once}
use company_os.Kernel.Confirmation.{Deserved, confirmed_task-Deserved}
use company_os.Kernel.Claims.{NoClaims, control_task-ends_claims}
use company_os.Samples.{sample_env, sample_world, sample_task, ada_holder, returned, left_behind}
use company_os.Integration.Samples.{claim}
use company_os.Scope.Samples.{plain_text, goal}

abbrev kernel : RuntimeKernel
kernel = record { command_authority = 0; policy_version = "companyos-policy-v1" }

abbrev run : Run
run = record {
  run_id = "r";
  goal_id = "g";
  project_id = "p";
  loop_state = LoopState.integration_pending;
  policy_version = "companyos-policy-v1";
  aggregate_version = 0;
  updated_at = 0;
}

abbrev releasing_world : World
releasing_world = record sample_world {
  principal_roles =
      record { principal_id = "ada"; role = Role.release } ∷ sample_world.principal_roles;
  goals = record { goal_id = "g"; project_id = "p"; spec = goal } ∷ [];
  runs = run ∷ [];
  tasks = record sample_task { state = TaskState.delivered } ∷ [];
  evidence_claims = claim ∷ [];
}

abbrev answers : List (String × Bool)
unfolding resolve
answers =
    returned []
      (resolve sample_env plain_text run LoopEvent.delivery_confirmed null "ada" releasing_world)

abbrev resolved_world : World
unfolding resolve
resolved_world =
    left_behind
      (resolve sample_env plain_text run LoopEvent.delivery_confirmed null "ada" releasing_world)

delivered_run_is_finished_example :
    (LoopEvent.delivery_confirmed ≡ LoopEvent.delivery_confirmed)
    × (((LoopState.integration_pending ≡ LoopState.improvement_pending)
          × (any (λ (p : ImprovementProposal). p.source_run_id == "r") [] ≡ true))
        ⊎ Deliverable sample_env plain_text 0 releasing_world run)
unfolding resolve apply_loop_event validated_task_authority_binding result_at
delivered_run_is_finished_example =
    delivered_run_is_finished sample_env plain_text 0 run LoopEvent.delivery_confirmed null "ada"
      releasing_world answers resolved_world (omega arith) refl refl

kernel_roles_authorized_example :
    (elim (core_roles "run" "delivery_confirmed" null "runtime_kernel") [
      | err raised ↦ false
      | ok roles ↦ all (has_role roles) (Role.release ∷ [])
    ])
    ≡ true
unfolding core_roles
kernel_roles_authorized_example =
    kernel_roles_authorized LoopEvent.delivery_confirmed null "runtime_kernel"

abbrev result : Json
unfolding advance_loop
result = returned null (
    advance_loop sample_env kernel plain_text "r" LoopEvent.delivery_confirmed ada_holder "k" []
      none none releasing_world)

abbrev world_after : World
unfolding advance_loop
world_after = left_behind (
    advance_loop sample_env kernel plain_text "r" LoopEvent.delivery_confirmed ada_holder "k" []
      none none releasing_world)

advance_loop_delivers_example :
    (LoopState.integration_pending ≡ LoopState.delivered)
    ⊎ (((LoopState.integration_pending ≡ LoopState.improvement_pending)
          × (any (λ (p : ImprovementProposal). p.source_run_id == "r") [] ≡ true))
        ⊎ Deliverable sample_env plain_text 0 releasing_world run)
unfolding advance_loop row validated_task_authority_binding handler_supports_event core_roles
    parse_loop_event session_role encode envelope modify
advance_loop_delivers_example =
    advance_loop_delivers sample_env kernel plain_text "r" LoopEvent.delivery_confirmed ada_holder
      "k" [] none none releasing_world result world_after run
      (record run { loop_state = LoopState.delivered; aggregate_version = 1; updated_at = 3 }) refl
      refl refl refl

abbrev adopting_world : World
adopting_world = record releasing_world { runs = [] }

abbrev first_result : Json
unfolding create_run
first_result =
    returned null (create_run sample_env kernel "p" "g" "r" ada_holder "k" adopting_world)

abbrev first_world : World
unfolding create_run
first_world = left_behind (create_run sample_env kernel "p" "g" "r" ada_holder "k" adopting_world)

abbrev second_world : World
unfolding create_run
second_world = left_behind (create_run sample_env kernel "p" "g" "r" ada_holder "k" first_world)

create_run_once_example : (first_result ≡ first_result) × OnlyReads first_world second_world
unfolding create_run row handler_supports_event core_roles parse_loop_event session_role encode
    envelope
create_run_once_example =
    create_run_once sample_env kernel "p" "g" "r" ada_holder "k" adopting_world first_result
      first_world first_result second_world refl refl

abbrev pending_task : Task
pending_task = record sample_task { state = TaskState.integration_pending }

abbrev pending_world : World
pending_world = record releasing_world { tasks = pending_task ∷ [] }

abbrev confirmed : Json
unfolding confirm_task_delivery
confirmed =
    returned null
      (confirm_task_delivery sample_env kernel plain_text "t" ada_holder "k" pending_world)

abbrev confirmed_world : World
unfolding confirm_task_delivery
confirmed_world =
    left_behind
      (confirm_task_delivery sample_env kernel plain_text "t" ada_holder "k" pending_world)

confirmed_task-Deserved_example :
    OnlyReads pending_world confirmed_world
    ⊎ ((t : Task) × (row task_id_of "t" pending_world.tasks ≡ some t)
        × Deserved sample_env kernel plain_text 0 pending_world t)
unfolding confirm_task_delivery row validated_task_authority_binding handler_supports_event
    core_roles get parse_task_state session_role encode envelope
confirmed_task-Deserved_example =
    confirmed_task-Deserved sample_env kernel plain_text "t" ada_holder "k" pending_world confirmed
      confirmed_world refl

abbrev leased_world : World
leased_world = record sample_world {
  leases =
      record {
        resource_key = "task:t";
        project_id = "p";
        task_id = "t";
        holder = "ada";
        fence = 1;
        issued_at = 0;
        expires_at = 900;
        released_at = none;
      }
      ∷ [];
}

abbrev canceled : Json
unfolding control_task
canceled =
    returned null
      (control_task sample_env kernel plain_text "t" "cancel" "why" ada_holder "k" leased_world)

abbrev canceled_world : World
unfolding control_task
canceled_world =
    left_behind
      (control_task sample_env kernel plain_text "t" "cancel" "why" ada_holder "k" leased_world)

control_task-ends_claims_example :
    OnlyReads leased_world canceled_world ⊎ NoClaims "t" canceled_world
unfolding control_task row handler_supports_event core_roles get parse_task_state session_role
    encode envelope modify
control_task-ends_claims_example =
    control_task-ends_claims sample_env kernel plain_text "t" "cancel" "why" ada_holder "k"
      leased_world canceled canceled_world
      (record sample_task { state = TaskState.canceled; aggregate_version = 1; updated_at = 3 })
      refl refl refl
