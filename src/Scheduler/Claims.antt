-- ===== src/Scheduler/Claims.antt =====
-- Claims of tasks (scheduler.py): sequences of calls of the scheduler and of the lease manager, and
-- the workers whose claim was passed over.
use company_os.Prelude.{
  ℕ, ◌<◌, ◌≡◌, ◌≢◌, String, Bool, none, some, List, arith, inl, inr, Bool-cases, ◌==◌, ◌∙◌, ap,
}
use company_os.Result.{ok, Error, lease_error}
use company_os.Types.Values.{Role}
use company_os.Db.{World, Env}
use company_os.Db.Rows.{Lease, Task}
use company_os.Identity.{VerifiedPrincipal, require_role}
use company_os.Identity.Reads.{identity_rules}
use company_os.Exec.{Exec, each, assert, pure, ◌>>=◌, ◌>>◌}
use company_os.Exec.Steps.{Steps, after, steps_rules}
use company_os.Exec.Reads.{OnlyReads, OnlyReads-Stepping}
use company_os.Leases.{find_lease}
use company_os.Leases.Claims.{Later, Fenced, fenced_rules}
use company_os.Leases.History.{
  Call as LeaseCall, perform as perform_lease, perform-Fenced as perform_lease-Fenced,
}
use company_os.Scheduler.{
  Scheduler, TaskClaim, FailureOutcome, promote_due_retries, claim_next, require_claim, claimed_row,
  start, complete, claim_lives,
}
use company_os.Scheduler.Failures.{fail, reap_expired}
use company_os.Scheduler.Fencing.{
  promote-Fenced, start-Fenced, complete-Fenced, claim_next-Fenced, fail-Fenced,
  reap_expired-Fenced,
}

-- one call of the scheduler or of the lease manager, by any caller
pub data Call : Type 0 where
  leasing : LeaseCall → Call
  claiming : (project_id : String) (worker : VerifiedPrincipal) (ttl : ℕ) → Call
  starting completing : (claim : TaskClaim) (worker : VerifiedPrincipal) → Call
  failing :
      (claim : TaskClaim) (worker : VerifiedPrincipal) (class message severity route : String)
      → Call
  promoting reaping : (project_id : String) (actor : VerifiedPrincipal) (limit : ℕ) → Call

module _ (env : Env) (s : Scheduler) where
  unfoldable pub perform : Call → Exec Unit
  unfolding ◌>>=◌ perform_lease claim_next start complete fail promote_due_retries reap_expired
  perform (leasing c) = perform_lease env c
  perform (claiming p v n) = do claim_next env s p v n; pure tt
  perform (starting c v) = start env s c v
  perform (completing c v) = complete env s c v
  perform (failing c v a b d r) = do fail env s c v a b d r; pure tt
  perform (promoting p v n) = do promote_due_retries env s p v n; pure tt
  perform (reaping p v n) = do reap_expired env s p v n; pure tt

  perform-Fenced : (c : Call) → Steps Fenced (perform c)
  unfolding perform
  perform-Fenced (leasing c) = perform_lease-Fenced env c
  perform-Fenced (claiming p v n) = search (fenced_rules, claim_next-Fenced) depth 20
  perform-Fenced (starting c v) = start-Fenced env s c v
  perform-Fenced (completing c v) = complete-Fenced env s c v
  perform-Fenced (failing c v a b d r) = search (fenced_rules, fail-Fenced) depth 20
  perform-Fenced (promoting p v n) = search (fenced_rules, promote-Fenced) depth 20
  perform-Fenced (reaping p v n) = search (fenced_rules, reap_expired-Fenced) depth 20

  -- Whatever sequence of scheduler and lease manager calls runs, a resource that had a lease row still
  -- has one, and its claim is later: the fence rose, or it is the same claim with the same fence,
  -- project, task and holder, and a released one has stayed released.
  pub scheduler_keeps_claims :
      (cs : List Call) (w w' : World) (u : Unit {0}) (key : String) (l : Lease)
      → each perform cs w ≡ ok (u, w')
      → find_lease key w ≡ some l
      → (l' : Lease) × (find_lease key w' ≡ some l') × Later l l'
  scheduler_keeps_claims cs w w' u key l run found = (all_Fenced.at w u w' run).later key l found
    where
      all_Fenced : Steps Fenced (each perform cs)
      all_Fenced = search (fenced_rules, perform-Fenced) depth 20

  require_role-reads : (v : VerifiedPrincipal) (r : Role) → Steps OnlyReads (require_role env v r)
  require_role-reads v r = search (steps_rules, OnlyReads-Stepping, identity_rules) depth 20

  assert-same :
      (b : Bool) (e : Error) (w : World) (u : Unit {0}) (w' : World)
      → assert b e w ≡ ok (u, w')
      → w' ≡ w
  unfolding assert
  assert-same b e w u w' h = ground arith

  -- a claim that holds is the lease's
  claim_fence :
      (c : TaskClaim) (w : World) (u : Unit {0}) (w' : World) (l : Lease)
      → require_claim env s c w ≡ ok (u, w')
      → find_lease c.resource_key w ≡ some l
      → (l.fence ≡ c.fence) × (l.released_at ≡ none)
  unfolding require_claim
  claim_fence c w u w' l r found = elim (Bool-cases (claim_lives c (env.now w.ticks) (some l))) [
    | inl live ↦ ground arith
    | inr dead ↦ ground arith
  ]

  claimed_fence :
      (c : TaskClaim) (v : VerifiedPrincipal) (w : World) (t : Task) (w' : World) (l : Lease)
      → claimed_row env s c v w ≡ ok (t, w')
      → find_lease c.resource_key w ≡ some l
      → (l.fence ≡ c.fence) × (l.released_at ≡ none)
  unfolding claimed_row
  claimed_fence c v w t w' l r found =
      after (require_role env v Role.worker) _ w t w' r λ by w₁ role h₁.
        after (assert (by.principal_id == c.worker_id) lease_error) _ w₁ t w' h₁ λ _ w₂ own h₂.
          after (require_claim env s c) _ w₂ t w' h₂ λ u w₃ claim h₃.
            let same : w₂ ≡ record w { ticks = w₁.ticks; ids = w₁.ids } =
              assert-same _ _ _ _ _ own ∙ ((require_role-reads v Role.worker).at w by w₁ role).0 in
            claim_fence c w₂ u w₃ l claim
              (ap (λ (x : World). find_lease c.resource_key x) same ∙ found)

  stale_row :
      (cs : List Call) (w w' : World) (u : Unit {0}) (c : TaskClaim) (v : VerifiedPrincipal)
      (l : Lease) (t : Task) (x : World)
      → find_lease c.resource_key w ≡ some l
      → c.fence < l.fence
      → each perform cs w ≡ ok (u, w')
      → claimed_row env s c v w' ≢ ok (t, x)
  stale_row cs w w' u c v l t x found lower run row =
      let (l', found', later) = scheduler_keeps_claims cs w w' u c.resource_key l run found in
      ground (arith, claimed_fence c v w' t x l' row found')

  -- A worker whose claim was passed over stays shut out: if a database's lease row for the claimed
  -- resource has a fence above the claim's, then after any successful sequence of scheduler and
  -- lease manager calls on it the claim can neither be started, nor completed, nor failed.
  pub stale_claim_refused :
      (cs : List Call) (w w' : World) (u : Unit {0}) (c : TaskClaim) (v : VerifiedPrincipal)
      (l : Lease) (a b d r : String) (done : Unit {0}) (o : FailureOutcome) (w'' : World)
      → find_lease c.resource_key w ≡ some l
      → c.fence < l.fence
      → each perform cs w ≡ ok (u, w')
      → (start env s c v w' ≢ ok (done, w''))
        × (complete env s c v w' ≢ ok (done, w''))
        × (fail env s c v a b d r w' ≢ ok (o, w''))
  unfolding start complete fail
  stale_claim_refused cs w w' u c v l a b d r done o w'' found lower run = (
    (λ h.
        after (claimed_row env s c v) _ w' done w'' h
          λ t x row rest. stale_row cs w w' u c v l t x found lower run row),
    (λ h.
        after (claimed_row env s c v) _ w' done w'' h
          λ t x row rest. stale_row cs w w' u c v l t x found lower run row),
    (λ h.
        after (claimed_row env s c v) _ w' o w'' h
          λ t x row rest. stale_row cs w w' u c v l t x found lower run row),
  )
