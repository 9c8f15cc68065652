-- ===== src/Scheduler/Fencing.antt =====
-- Fencing tokens under the task scheduler (scheduler.py): its operations keep every lease's claims in
-- order, as those of the lease manager do.
use company_os.Prelude.{
  ℕ, suc, ◌+◌, ◌≡◌, inl, inr, Bool-cases, refl, ap, String, Bool, true, false, Option, none, some,
  List, arith, eqb,
}
use company_os.Result.{ok}
use company_os.Types.Values.{TaskState}
use company_os.Db.{World, Env}
use company_os.Db.Rows.{Lease, Task, NegativeResult}
use company_os.Identity.{VerifiedPrincipal}
use company_os.Identity.Reads.{identity_rules}
use company_os.Exec.{pure, ◌>>=◌}
use company_os.Exec.Steps.{Steps, Steps-change, Steps-query, Steps-pure, after}
use company_os.Store.Entry.{Entry}
use company_os.Store.Append.{append_event}
use company_os.Store.Log.{Steps-append_event}
use company_os.Leases.{find_lease, lease_ok, seconds}
use company_os.Leases.Fencing.{is_active-Fenced, active_row-reads}
use company_os.Leases.Claims.{
  Fenced, Fenced-same, Fenced-Stepping, fenced_rules, Fenced-modify, Fenced-insert,
}
use company_os.Scheduler.Queue.{task_resource}
use company_os.Scheduler.{
  Scheduler, TaskClaim, transition, promote_due_retries, lease_task, record_claim, claim_next,
  claim_selected, claim_if_free, lease_in_use, require_claim, claimed_row, start, complete,
  retry_due, claimed_lease, upsert_lease, release_claim,
}
use company_os.Scheduler.Failures.{
  note_failure, record_negative, schedule_retry, fail, exhaust, reap, reap_expired,
}

module _ (env : Env) (s : Scheduler) where
  transition-Fenced :
      (t : Task) (target : TaskState) (by reason : String) (v : VerifiedPrincipal)
      → Steps Fenced (transition env s t target by reason v)
  unfolding transition
  transition-Fenced t target by reason v =
      search (fenced_rules, append-Fenced, Steps-change, same_leases) depth 30
    where
      append-Fenced : (y : Entry) → Steps Fenced (append_event env y)
      append-Fenced y = Steps-append_event env y (λ w e t i. Fenced-same w _ refl)

      same_leases : (w : World) (ts : List Task) → Fenced w (record w { tasks = ts })
      same_leases w ts = Fenced-same w _ refl

  retry_due-Fenced : (n : ℕ) → Steps Fenced (retry_due env s n)
  unfolding retry_due
  retry_due-Fenced n = search fenced_rules depth 20

  pub promote-Fenced :
      (p : String) (v : VerifiedPrincipal) (n : ℕ) → Steps Fenced (promote_due_retries env s p v n)
  unfolding promote_due_retries
  promote-Fenced p v n = search (fenced_rules, identity_rules, transition-Fenced) depth 30

  upsert-Fenced :
      (old : Option Lease) (p : String) (t : Task) (h : String) (i x : ℕ) (w : World)
      → find_lease (task_resource t.task_id) w ≡ old
      → Fenced w (record w { leases = upsert_lease (claimed_lease old p t h i x) w.leases })
  upsert-Fenced none p t h i x w found =
      rw found (Fenced-insert w (claimed_lease none p t h i x) found)
  upsert-Fenced (some l) p t h i x w found = rw found (
      Fenced-modify w (task_resource t.task_id) (λ r. true)
        (λ r. record (claimed_lease (some l) p t h i x) { resource_key = r.resource_key })
        (λ r. refl) (λ r same _. inl (ground (arith, found, same))))

  -- The lease that a claim writes, and the database with it.
  pub lease_task-exact :
      (old : Option Lease) (p : String) (t : Task) (h : String) (n : ℕ) (w : World) (l : Lease)
      (w' : World)
      → lease_task env s old p t h n w ≡ ok (l, w')
      → (l ≡ claimed_lease old p t h (env.now w.ticks) (env.now (suc w.ticks) + seconds n))
        × (w' ≡ record w {
          leases =
              upsert_lease
                (claimed_lease old p t h (env.now w.ticks) (env.now (suc w.ticks) + seconds n))
                w.leases;
          ticks = suc (suc w.ticks);
        })
  unfolding lease_task
  lease_task-exact old p t h n w l w' r =
      let made = claimed_lease old p t h (env.now w.ticks) (env.now (suc w.ticks) + seconds n) in
      elim (Bool-cases (lease_ok made)) [ inl yes' ↦ ground arith | inr no' ↦ ground arith ]

  lease_task-Fenced :
      (old : Option Lease) (p : String) (t : Task) (h : String) (n : ℕ) (w : World) (l : Lease)
      (w' : World)
      → find_lease (task_resource t.task_id) w ≡ old
      → lease_task env s old p t h n w ≡ ok (l, w')
      → Fenced w w'
  lease_task-Fenced old p t h n w l w' found r = rw (lease_task-exact old p t h n w l w' r).1 (
      Fenced-Stepping.both w _ _
        (upsert-Fenced old p t h (env.now w.ticks) (env.now (suc w.ticks) + seconds n) w found)
        (Fenced-same _ _ refl))

  record_claim-Fenced :
      (l : Lease) (t : Task) (h : String) (v : VerifiedPrincipal)
      → Steps Fenced (record_claim env s l t h v)
  unfolding record_claim
  record_claim-Fenced l t h v =
      search (fenced_rules, transition-Fenced, Steps-change, Fenced-same) depth 40

  require_claim-Fenced : (c : TaskClaim) → Steps Fenced (require_claim env s c)
  unfolding require_claim
  require_claim-Fenced c = search fenced_rules depth 20

  claimed_row-Fenced :
      (c : TaskClaim) (v : VerifiedPrincipal) → Steps Fenced (claimed_row env s c v)
  unfolding claimed_row
  claimed_row-Fenced c v = search (fenced_rules, identity_rules, require_claim-Fenced) depth 30

  pub start-Fenced : (c : TaskClaim) (v : VerifiedPrincipal) → Steps Fenced (start env s c v)
  unfolding start
  start-Fenced c v =
      search (fenced_rules, claimed_row-Fenced, transition-Fenced, Steps-change, Fenced-same) depth
        30

  release_claim-Fenced : (c : TaskClaim) (now : ℕ) (w : World) → Fenced w (release_claim c now w)
  release_claim-Fenced c now w =
      Fenced-modify w c.resource_key (λ r. eqb r.fence c.fence)
        (λ r. record r { released_at = some now }) (λ r. refl) (λ r _ _. ground arith)

  pub complete-Fenced : (c : TaskClaim) (v : VerifiedPrincipal) → Steps Fenced (complete env s c v)
  unfolding complete
  complete-Fenced c v =
      search
        (
          fenced_rules, claimed_row-Fenced, transition-Fenced, Steps-change, release_claim-Fenced,
          Fenced-same,
        )
        depth 30

  lease_in_use-Fenced : (old : Option Lease) → Steps Fenced (lease_in_use env s old)
  lease_in_use-Fenced none = search fenced_rules
  lease_in_use-Fenced (some l) = is_active-Fenced env l

  claim_if_free-Fenced :
      (active : Bool) (old : Option Lease) (p : String) (t : Task) (h : String)
      (v : VerifiedPrincipal) (n : ℕ) (w : World) (c : Option TaskClaim) (w' : World)
      → find_lease (task_resource t.task_id) w ≡ old
      → claim_if_free env s active old p t h v n w ≡ ok (c, w')
      → Fenced w w'
  claim_if_free-Fenced true old p t h v n w c w' found r =
      (Steps-pure Fenced-Stepping none).at w c w' r
  claim_if_free-Fenced false old p t h v n w c w' found r =
      after (lease_task env s old p t h n) _ w c w' r λ l u first second.
        Fenced-Stepping.both w u w' (lease_task-Fenced old p t h n w l u found first)
          ((claimed l).at u c w' second)
    where
      claimed :
          (l : Lease) → Steps Fenced (do claim ← record_claim env s l t h v; pure (some claim))
      claimed l = search (fenced_rules, record_claim-Fenced) depth 20

  claim_selected-Fenced :
      (found : Option Task) (p h : String) (v : VerifiedPrincipal) (n : ℕ)
      → Steps Fenced (claim_selected env s found p h v n)
  claim_selected-Fenced none p h v n = search fenced_rules
  claim_selected-Fenced (some t) p h v n = Steps-query _ _ λ w c w' r.
      let old = find_lease (task_resource t.task_id) w in
      after (lease_in_use env s old) _ w c w' r λ active u first second.
        Fenced-Stepping.both w u w' ((lease_in_use-Fenced old).at w active u first)
          (claim_if_free-Fenced active old p t h v n u c w' (kept old w u active first) second)
    where
      kept :
          (old : Option Lease) (w u : World) (active : Bool)
          → lease_in_use env s old w ≡ ok (active, u)
          → find_lease (task_resource t.task_id) u ≡ find_lease (task_resource t.task_id) w
      kept none w u active first =
          ap (λ (x : World). find_lease (task_resource t.task_id) x)
            (((active_row-reads env none).at w active u first).0)
      kept (some l) w u active first =
          ap (λ (x : World). find_lease (task_resource t.task_id) x)
            (((active_row-reads env (some l)).at w active u first).0)

  pub claim_next-Fenced :
      (p : String) (v : VerifiedPrincipal) (n : ℕ) → Steps Fenced (claim_next env s p v n)
  unfolding claim_next
  claim_next-Fenced p v n = search (fenced_rules, identity_rules, claim_selected-Fenced) depth 30

  record_negative-Fenced :
      (t : Task) (f c e r : String) (now : ℕ) → Steps Fenced (record_negative env t f c e r now)
  unfolding record_negative note_failure
  record_negative-Fenced t f c e r now = search (fenced_rules, noted) depth 20
    where
      noted : (o : Option NegativeResult) → Steps Fenced (note_failure env o t f c e r now)
      noted none = search (fenced_rules, Steps-change, Fenced-same) depth 20
      noted (some prior) = search (fenced_rules, Steps-change, Fenced-same) depth 20

  schedule_retry-Fenced :
      (b : Bool) (t : Task) (h : String) (v : VerifiedPrincipal) (n : ℕ)
      → Steps Fenced (schedule_retry env s b t h v n)
  schedule_retry-Fenced true t h v n = search fenced_rules
  schedule_retry-Fenced false t h v n =
      search (fenced_rules, transition-Fenced, retry_due-Fenced) depth 20

  pub fail-Fenced :
      (c : TaskClaim) (v : VerifiedPrincipal) (a b d r : String)
      → Steps Fenced (fail env s c v a b d r)
  unfolding fail
  fail-Fenced c v a b d r =
      search
        (
          fenced_rules, claimed_row-Fenced, record_negative-Fenced, transition-Fenced,
          schedule_retry-Fenced, Steps-change, release_claim-Fenced, Fenced-same,
        )
        depth 40

  exhaust-Fenced :
      (b : Bool) (t : Task) (n : ℕ) (h : String) (v : VerifiedPrincipal)
      → Steps Fenced (exhaust env s b t n h v)
  exhaust-Fenced true t n h v = search (fenced_rules, transition-Fenced) depth 20
  exhaust-Fenced false t n h v = search fenced_rules

  reap-Fenced :
      (now : ℕ) (h : String) (v : VerifiedPrincipal) (t : Task)
      → Steps Fenced (reap env s now h v t)
  unfolding reap
  reap-Fenced now h v t =
      search
        (
          fenced_rules, record_negative-Fenced, transition-Fenced, retry_due-Fenced, exhaust-Fenced,
          Steps-change, Fenced-same,
        )
        depth 40

  pub reap_expired-Fenced :
      (p : String) (v : VerifiedPrincipal) (n : ℕ) → Steps Fenced (reap_expired env s p v n)
  unfolding reap_expired
  reap_expired-Fenced p v n = search (fenced_rules, identity_rules, reap-Fenced) depth 30
