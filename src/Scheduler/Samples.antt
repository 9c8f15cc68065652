-- ===== src/Scheduler/Samples.antt =====
-- Examples of the task scheduler.
use company_os.Prelude.{
  true, ℕ, ◌≤◌, ◌≡◌, ◌≢◌, refl, false, Option, none, some, List, [], ◌∷◌, arith, row, modify,
}
use company_os.Result.{ok}
use company_os.Types.Values.{TaskState, parse_task_state}
use company_os.Db.Payload.{get}
use company_os.Db.{World}
use company_os.Db.Rows.{Lease, Task}
use company_os.Exec.{each}
use company_os.Identity.{session_join, role_set}
use company_os.Store.Authority.{handler_supports_event, core_roles, session_role}
use company_os.Store.Entry.{envelope}
use company_os.Leases.{find_lease}
use company_os.Leases.Claims.{Later}
use company_os.Scheduler.{
  Scheduler, TaskClaim, FailureOutcome, claim_next, start, complete, transition, retry_seconds,
}
use company_os.Scheduler.Failures.{fail}
use company_os.Scheduler.Claims.{
  Call, completing, perform, scheduler_keeps_claims, stale_claim_refused,
}
use company_os.Scheduler.Grants.{Chosen, claim_next_grants}
use company_os.Scheduler.Outcomes.{Ended, fail_outcome, retry_seconds_bounds}
use company_os.Scheduler.Moves.{moved_row, Logged, transition_moves}
use company_os.Scheduler.Queue.{task_key}
use company_os.StateMachine.{task_allows}
use company_os.Samples.{
  sample_env, sample_world, sample_task, ada_holder, returned, left_behind, encode,
}

abbrev sample_scheduler : Scheduler
sample_scheduler = record {
  command_authority = 1;
  policy_version = "companyos-policy-v1";
  retry_base_seconds = 5;
  retry_max_seconds = 300;
}

abbrev no_claim_made : TaskClaim
no_claim_made = record {
  task_id = "";
  run_id = none;
  attempt_id = "";
  attempt_number = 0;
  worker_id = "";
  resource_key = "";
  fence = 0;
  expires_at = 0;
}

abbrev claim_of : Option TaskClaim → TaskClaim
claim_of none = no_claim_made
claim_of (some c) = c

abbrev the_claim : TaskClaim
unfolding claim_next
the_claim =
    claim_of (returned none (claim_next sample_env sample_scheduler "p" ada_holder 60 sample_world))

abbrev claimed : World
unfolding claim_next
claimed = left_behind (claim_next sample_env sample_scheduler "p" ada_holder 60 sample_world)

was_claimed :
    claim_next sample_env sample_scheduler "p" ada_holder 60 sample_world
    ≡ ok (some the_claim, claimed)
unfolding claim_next row handler_supports_event core_roles get parse_task_state session_role
    session_join role_set encode envelope
was_claimed = refl

claim_next_grants_example :
    Chosen sample_env sample_scheduler "p" "ada" sample_world the_claim claimed
claim_next_grants_example =
    claim_next_grants sample_env sample_scheduler "p" ada_holder 60 sample_world the_claim claimed
      was_claimed

-- the task under way, as a claim and a start leave it
abbrev held : Lease
held = record {
  resource_key = "task://t";
  project_id = "p";
  task_id = "t";
  holder = "ada";
  fence = 1;
  issued_at = 0;
  expires_at = 60000000;
  released_at = none;
}

abbrev held_claim : TaskClaim
held_claim = record {
  task_id = "t";
  run_id = some "r";
  attempt_id = "id-0";
  attempt_number = 1;
  worker_id = "ada";
  resource_key = "task://t";
  fence = 1;
  expires_at = 60000000;
}

abbrev under_way : World
under_way = record sample_world {
  leases = held ∷ [];
  tasks = record sample_task { state = TaskState.running; attempt_count = 1 } ∷ [];
  attempts =
      record {
        attempt_id = "id-0";
        task_id = "t";
        run_id = "r";
        attempt_number = 1;
        worker_id = "ada";
        state = "running";
        started_at = 0;
        ended_at = none;
        failure_id = none;
      }
      ∷ [];
}

abbrev failure : FailureOutcome
failure = record {
  task_id = "t";
  attempt_id = "id-0";
  state = TaskState.retry_pending;
  retry_due_at = some 5000009;
  circuit_open = false;
  fingerprint = "0";
}

abbrev after_failure : World
unfolding fail
after_failure =
    left_behind
      (fail sample_env sample_scheduler held_claim ada_holder "e" "m" "error" "r" under_way)

abbrev found_task : Option Task → Task
found_task none = sample_task
found_task (some t) = t

abbrev claimed_task : Task
unfolding row
claimed_task = found_task (row task_key "t" under_way.tasks)

fail_outcome_example :
    (r' : Task) × (row task_key "t" after_failure.tasks ≡ some r')
    × Ended sample_env sample_scheduler held_claim claimed_task failure r'
unfolding fail after_failure row handler_supports_event core_roles get parse_task_state session_role
    session_join role_set encode envelope
fail_outcome_example =
    fail_outcome sample_env sample_scheduler held_claim ada_holder "e" "m" "error" "r" under_way
      failure after_failure claimed_task refl refl

abbrev one_call : List Call
one_call = completing held_claim ada_holder ∷ []

abbrev completed : World
unfolding perform
completed = left_behind (each (perform sample_env sample_scheduler) one_call under_way)

scheduler_keeps_claims_example :
    (l' : Lease) × (find_lease "task://t" completed ≡ some l') × Later held l'
unfolding perform each completed modify row handler_supports_event core_roles get parse_task_state
    session_role session_join role_set encode envelope
scheduler_keeps_claims_example =
    scheduler_keeps_claims sample_env sample_scheduler one_call under_way completed tt "task://t"
      held refl refl

-- a claim with the fence before the one that is held
stale_claim_refused_example :
    (start sample_env sample_scheduler (record held_claim { fence = 0 }) ada_holder under_way
      ≢ ok (tt, under_way))
    × (complete sample_env sample_scheduler (record held_claim { fence = 0 }) ada_holder under_way
        ≢ ok (tt, under_way))
    × (fail sample_env sample_scheduler
          (record held_claim { fence = 0 })
          ada_holder
          "e"
          "m"
          "error"
          "r"
          under_way
        ≢ ok (failure, under_way))
unfolding row each
stale_claim_refused_example =
    stale_claim_refused sample_env sample_scheduler [] under_way under_way tt
      (record held_claim { fence = 0 }) ada_holder held "e" "m" "error" "r" tt failure under_way
      refl (omega arith) refl

abbrev moved_task : Task
moved_task = record sample_task { state = TaskState.leased; aggregate_version = 1 }

abbrev moved_world : World
unfolding transition
moved_world = left_behind (
    transition sample_env sample_scheduler sample_task TaskState.leased "ada" "r" ada_holder
      sample_world)

transition_moves_example :
    (task_allows sample_task.state TaskState.leased ≡ true)
    × (moved_task ≡ record sample_task { state = TaskState.leased; aggregate_version = 1 })
    × ((i : ℕ) × (row task_key "t" moved_world.tasks
          ≡ some
              (moved_row sample_env sample_scheduler sample_task sample_task TaskState.leased i)))
    × Logged sample_env sample_scheduler sample_task TaskState.leased "r" sample_world moved_world
unfolding transition moved_world row handler_supports_event core_roles get parse_task_state
    session_role session_join role_set encode envelope
transition_moves_example =
    transition_moves sample_env sample_scheduler sample_task TaskState.leased "ada" "r" ada_holder
      sample_world moved_task moved_world sample_task refl refl

retry_seconds_bounds_example :
    (5 ≤ retry_seconds sample_scheduler 3) × (retry_seconds sample_scheduler 3 ≤ 300)
retry_seconds_bounds_example = retry_seconds_bounds sample_scheduler 3 (omega arith)
