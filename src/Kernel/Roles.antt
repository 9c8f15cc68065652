-- ===== src/Kernel/Roles.antt =====
-- The roles that kernel.py wants of the caller of a command, and the check of them.
use company_os.Prelude.{◌≡◌, refl, String, true, false, List, all}
use company_os.Result.{ok, err}
use company_os.Types.Values.{Role, LoopEvent, loop_event_value, parse_loop_event}
use company_os.Db.{Env}
use company_os.Db.Payload.{Json}
use company_os.Identity.{VerifiedPrincipal, verify, has_role}
use company_os.Identity.Reads.{identity_rules}
use company_os.Exec.Steps.{Steps, steps_rules}
use company_os.Exec.Reads.{OnlyReads, OnlyReads-Stepping}
use company_os.Store.Authority.{core_roles}
use company_os.Kernel.{RuntimeKernel, loop_roles, actor_id}

-- Every role that the kernel accepts for a run's event is one under which the store authorizes it.
pub kernel_roles_authorized :
    (e : LoopEvent) (payload : Json) (handler : String)
    → (elim (core_roles "run" (loop_event_value e) payload handler) [
      | err raised ↦ false
      | ok roles ↦ all (has_role roles) (loop_roles e)
    ])
      ≡ true
unfolding core_roles parse_loop_event
kernel_roles_authorized LoopEvent.owner_intent_received payload handler = refl
kernel_roles_authorized e payload handler = refl

module _ (env : Env) (kernel : RuntimeKernel) where
  pub actor_id-OnlyReads :
      (v : VerifiedPrincipal) (roles : List Role) → Steps OnlyReads (actor_id env v roles)
  unfolding actor_id verify
  actor_id-OnlyReads v roles = search (steps_rules, OnlyReads-Stepping, identity_rules) depth 20
