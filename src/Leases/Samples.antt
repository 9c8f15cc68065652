-- ===== src/Leases/Samples.antt =====
-- Examples of leases.
use company_os.Prelude.{
  ◌≡◌, ◌≢◌, refl, true, false, Option, none, some, List, [], ◌∷◌, arith, row, modify,
}
use company_os.Result.{ok}
use company_os.Text.{strip}
use company_os.Db.{World}
use company_os.Db.Rows.{Lease}
use company_os.Identity.{verify_in_transaction}
use company_os.Store.Append.{append_event}
use company_os.Store.Entry.{envelope}
use company_os.Exec.{each}
use company_os.Leases.{find_lease, LeaseOperationResult, acquire, require_current_fence}
use company_os.Leases.Claims.{Later}
use company_os.Leases.History.{
  Call, acquiring, releasing, perform, calls_keep_claims, stale_fence_refused,
}
use company_os.Leases.Exclusion.{Granted, acquire_excludes, acquire_grants}
use company_os.Samples.{sample_env, sample_world, ada_holder, returned, left_behind, encode}

abbrev no_lease : LeaseOperationResult
no_lease = record {
  lease = record {
    resource_key = "";
    project_id = "";
    task_id = "";
    holder = "";
    fence = 0;
    issued_at = 0;
    expires_at = 0;
    released_at = none;
  };
  replayed = false;
}

abbrev first : LeaseOperationResult
unfolding acquire
first = returned no_lease (acquire sample_env " res" "p" "t" ada_holder 60 sample_world)

abbrev leased : World
unfolding acquire
leased = left_behind (acquire sample_env " res" "p" "t" ada_holder 60 sample_world)

acquired : acquire sample_env " res" "p" "t" ada_holder 60 sample_world ≡ ok (first, leased)
unfolding acquire row strip verify_in_transaction append_event encode envelope
acquired = refl

acquire_grants_example : Granted sample_env none "res" "p" "t" "ada" sample_world first leased
unfolding acquire row strip verify_in_transaction append_event encode envelope
acquire_grants_example =
    acquire_grants sample_env " res" "p" "t" ada_holder 60 sample_world first leased acquired refl

abbrev again : World
unfolding acquire
again = left_behind (acquire sample_env "res" "p" "t" ada_holder 60 leased)

acquire_excludes_example :
    (first.lease.holder ≡ ada_holder.principal_id)
    × (first.lease.project_id ≡ strip "p")
    × (first.lease.task_id ≡ strip "t")
    × (first.lease ≡ first.lease)
    × (true ≡ true)
    × (again.leases ≡ leased.leases)
    × (again.events ≡ leased.events)
unfolding acquire again first leased row strip verify_in_transaction append_event encode envelope
acquire_excludes_example =
    acquire_excludes sample_env "res" "p" "t" ada_holder 60 leased first.lease
      (record { lease = first.lease; replayed = true }) again refl refl (omega arith) refl

abbrev later_calls : List Call
later_calls = releasing "res" "p" "t" ada_holder 1 ∷ acquiring "res" "p" "t" ada_holder 60 ∷ []

abbrev taken_over : World
unfolding perform
taken_over = left_behind (each (perform sample_env) later_calls leased)

both_done : each (perform sample_env) later_calls leased ≡ ok (tt, taken_over)
unfolding perform each modify row strip verify_in_transaction append_event encode envelope
both_done = refl

calls_keep_claims_example :
    (l' : Lease) × (find_lease "res" taken_over ≡ some l') × Later first.lease l'
unfolding first leased row strip verify_in_transaction append_event encode envelope
calls_keep_claims_example =
    calls_keep_claims sample_env later_calls leased taken_over tt "res" first.lease both_done refl

abbrev lease_or_none : Option Lease → Lease
lease_or_none none = no_lease.lease
lease_or_none (some l) = l

abbrev current : Lease
unfolding taken_over
current = lease_or_none (find_lease "res" taken_over)

-- the lease of fence 1 once it was taken over, when all that follows is a replayed acquisition
stale_fence_refused_example :
    require_current_fence sample_env "res" "p" "t" ada_holder 1 false taken_over
    ≢ ok (first.lease, taken_over)
unfolding taken_over current first leased each modify row strip verify_in_transaction append_event
    encode envelope
stale_fence_refused_example =
    stale_fence_refused sample_env [] taken_over taken_over tt "res" "p" "t" ada_holder current 1
      false first.lease taken_over refl (omega arith) refl
