-- ===== src/Scheduler/Setup.antt =====
-- companyos_runtime/scheduler.py: the constructor of `TaskScheduler`.
use company_os.Prelude.{ℕ, String, not, ◌||◌, ltb}
use company_os.Result.{Result, ok, guard, value_error, ◌>>=◌, ◌>>◌}
use company_os.Db.{AuthorityDomain}
use company_os.Store.Domain.{Owner, bind_core_command_authority}
use company_os.Scheduler.{Scheduler}

-- The bounds are checked, and then the object is bound as a core command authority.
unfoldable pub new_scheduler :
    Owner
    → (policy_version : String) (retry_base_seconds retry_max_seconds : ℕ)
    → (binding_id config_digest : String) → AuthorityDomain
    → Result (Scheduler × AuthorityDomain)
unfolding bind_core_command_authority
new_scheduler self policy_version retry_base_seconds retry_max_seconds binding_id config_digest d =
    do
      guard (not (ltb retry_base_seconds 1 || ltb retry_max_seconds retry_base_seconds)) value_error
      bound ← bind_core_command_authority self "task_scheduler" binding_id config_digest d
      ok (
        record {
          command_authority = bound.0;
          policy_version = policy_version;
          retry_base_seconds = retry_base_seconds;
          retry_max_seconds = retry_max_seconds;
        },
        bound.1,
      )
