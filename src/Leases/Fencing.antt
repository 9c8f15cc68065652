-- ===== src/Leases/Fencing.antt =====
-- Fencing tokens (leases.py): a resource's fence never falls, and one fence means one claim.
use company_os.Prelude.{
  ℕ, suc, ◌+◌, ◌≡◌, inl, refl, ap, String, Bool, true, false, Option, none, some, arith, modify,
  eqb, if◌then◌else◌, ◌==◌, ◌&&◌, is_none,
}
use company_os.Result.{ok}
use company_os.Db.{World, Env}
use company_os.Db.Rows.{Lease, Task}
use company_os.Identity.Reads.{identity_rules}
use company_os.Store.Entry.{Entry}
use company_os.Store.Append.{append_event}
use company_os.Identity.{VerifiedPrincipal}
use company_os.Exec.{pure, ◌>>◌, ◌>>=◌}
use company_os.Exec.Steps.{Steps, Steps-change, Steps-query, steps_rules, continue-ok}
use company_os.Exec.Reads.{OnlyReads, OnlyReads-Stepping}
use company_os.Store.Log.{Steps-append_event}
use company_os.Leases.Claims.{
  Fenced, Fenced-same, Fenced-Stepping, fenced_rules, Fenced-modify, Fenced-insert,
}
use company_os.Leases.{
  lease_key, find_lease, LeaseOperationResult, holder_id, is_active, released_or_expired,
  active_row, assert_task_scope, append_audit, taken, put_lease, write_lease, take, acquire_at,
  acquire, replay_or_refuse, require_match, renew, release_row, release, seconds, lease_ok,
}

module _ (env : Env) where
  holder_id-Fenced : (v : VerifiedPrincipal) → Steps Fenced (holder_id env v)
  unfolding holder_id
  holder_id-Fenced v = search (fenced_rules, identity_rules) depth 20

  pub is_active-Fenced : (l : Lease) → Steps Fenced (is_active env l)
  unfolding is_active
  is_active-Fenced l = go l.released_at
    where
      go : (t : Option ℕ) → Steps Fenced (released_or_expired env t l.expires_at)
      go none = search fenced_rules depth 20
      go (some t) = search fenced_rules depth 20

  append_audit-Fenced :
      (key : String) (t : Task) (h : String) (f : ℕ) (e : String) (x : ℕ)
      → Steps Fenced (append_audit env key t h f e x)
  unfolding append_audit
  append_audit-Fenced key t h f e x = search (fenced_rules, audit) depth 20
    where
      audit : (y : Entry) → Steps Fenced (append_event env y)
      audit y = Steps-append_event env y (λ w e t i. Fenced-same w _ refl)

  assert_task_scope-Fenced : (p t : String) → Steps Fenced (assert_task_scope env p t)
  unfolding assert_task_scope
  assert_task_scope-Fenced p t = search fenced_rules depth 20

  -- What the write of a new or a taken over lease does.
  pub write_lease-exact :
      (old : Option Lease) (key p t h : String) (ttl : ℕ) (w : World) (a : Lease) (w' : World)
      → write_lease env old key p t h ttl w ≡ ok (a, w')
      → let l = taken old key p t h (env.now w.ticks) (env.now (suc w.ticks) + seconds ttl) in
        (w' ≡ record w { leases = put_lease old l w.leases; ticks = suc (suc w.ticks) })
        × (find_lease key w' ≡ some a)
        × (lease_ok l ≡ true)
  unfolding write_lease
  write_lease-exact old key p t h ttl w a w' r = ground arith

  put_lease-Fenced :
      (old : Option Lease) (key p t h : String) (i x : ℕ) (w : World)
      → find_lease key w ≡ old
      → Fenced w (record w { leases = put_lease old (taken old key p t h i x) w.leases })
  put_lease-Fenced none key p t h i x w found = Fenced-insert w (taken none key p t h i x) found
  put_lease-Fenced (some l) key p t h i x w found =
      Fenced-modify w key (λ r. true)
        (λ r. record (taken (some l) key p t h i x) {
          resource_key = r.resource_key;
          fence = r.fence + 1;
        })
        (λ r. refl) (λ r _ _. inl (omega arith))

  write_lease-Fenced :
      (old : Option Lease) (key p t h : String) (ttl : ℕ) (w : World) (a : Lease) (w' : World)
      → find_lease key w ≡ old
      → write_lease env old key p t h ttl w ≡ ok (a, w')
      → Fenced w w'
  write_lease-Fenced old key p t h ttl w a w' found r =
      rw (write_lease-exact old key p t h ttl w a w' r).0 (
        Fenced-Stepping.both w _ _
          (put_lease-Fenced old key p t h (env.now w.ticks) (env.now (suc w.ticks) + seconds ttl) w
            found)
          (Fenced-same _ _ refl))

  take-Fenced :
      (old : Option Lease) (key p t h : String) (ttl : ℕ) (task : Task) (w : World)
      (a : LeaseOperationResult) (w' : World)
      → find_lease key w ≡ old
      → take env old key p t h ttl task w ≡ ok (a, w')
      → Fenced w w'
  unfolding take
  take-Fenced old key p t h ttl task w a w' found r =
      let (l, v, first, second) = continue-ok (write_lease env old key p t h ttl w) _ a w' r in
      Fenced-Stepping.both w v w' (write_lease-Fenced old key p t h ttl w l v found first)
        ((audited l).at v a w' second)
    where
      audited :
          (l : Lease)
          → Steps {A = LeaseOperationResult} Fenced (do
            append_audit env key task h l.fence
                (if is_none old then "lease_acquired" else "lease_taken_over")
                l.expires_at
            pure (record { lease = l; replayed = false }))
      audited l = search (fenced_rules, append_audit-Fenced) depth 20

  active_row-Fenced : (found : Option Lease) → Steps Fenced (active_row env found)
  active_row-Fenced none = search fenced_rules
  active_row-Fenced (some l) = is_active-Fenced l

  pub active_row-reads : (found : Option Lease) → Steps OnlyReads (active_row env found)
  unfolding is_active
  active_row-reads none = search (steps_rules, OnlyReads-Stepping)
  active_row-reads (some l) = go l.released_at
    where
      go : (t : Option ℕ) → Steps OnlyReads (released_or_expired env t l.expires_at)
      go none = search (steps_rules, OnlyReads-Stepping) depth 20
      go (some t) = search (steps_rules, OnlyReads-Stepping) depth 20

  replay_or_refuse-Fenced : (l : Lease) (b : Bool) → Steps Fenced (replay_or_refuse env l b)
  replay_or_refuse-Fenced l true = search fenced_rules
  replay_or_refuse-Fenced l false = search fenced_rules

  acquire_at-Fenced :
      (found : Option Lease) (active : Bool) (key p t h : String) (ttl : ℕ) (task : Task)
      (w : World) (a : LeaseOperationResult) (w' : World)
      → find_lease key w ≡ found
      → acquire_at env found active key p t h ttl task w ≡ ok (a, w')
      → Fenced w w'
  acquire_at-Fenced none active key p t h ttl task w a w' e r =
      take-Fenced none key p t h ttl task w a w' e r
  acquire_at-Fenced (some l) true key p t h ttl task w a w' e r =
      (replay_or_refuse-Fenced l (l.project_id == p && l.task_id == t && l.holder == h)).at w a w' r
  acquire_at-Fenced (some l) false key p t h ttl task w a w' e r =
      take-Fenced (some l) key p t h ttl task w a w' e r

  -- from the query for the lease on
  acquire_found-Fenced :
      (key p t h : String) (ttl : ℕ) (task : Task) (w : World) (a : LeaseOperationResult)
      (w' : World)
      → (do
        active ← active_row env (find_lease key w)
        acquire_at env (find_lease key w) active key p t h ttl task)
          w
        ≡ ok (a, w')
      → Fenced w w'
  unfolding ◌>>=◌
  acquire_found-Fenced key p t h ttl task w a w' r =
      let (active, v, first, second) = continue-ok (active_row env (find_lease key w) w) _ a w' r in
      let same = (active_row-reads (find_lease key w)).at w active v first in
      Fenced-Stepping.both w v w' ((active_row-Fenced (find_lease key w)).at w active v first) (
        acquire_at-Fenced (find_lease key w) active key p t h ttl task v a w'
          (ap (λ (x : World). find_lease key x) same.0) second)

  -- Acquiring a lease, whatever its outcome, keeps every resource's claims in order.
  pub acquire-Fenced :
      (key p t : String) (holder : VerifiedPrincipal) (ttl : ℕ)
      → Steps Fenced (acquire env key p t holder ttl)
  unfolding acquire
  acquire-Fenced key p t holder ttl =
      search
        (
          fenced_rules, holder_id-Fenced, assert_task_scope-Fenced, Steps-query,
          acquire_found-Fenced,
        )
        depth 40

  require_match-Fenced :
      (found : Option Lease) (p t h : String) (f : ℕ) (b : Bool)
      → Steps Fenced (require_match env found p t h f b)
  unfolding require_match
  require_match-Fenced found p t h f b = search (fenced_rules, is_active-Fenced) depth 20

  -- The updates of a renewal and of a release keep the claim.
  expire-Fenced :
      (key : String) (token x : ℕ) (w : World)
      → Fenced w (record w {
        leases =
            modify lease_key key
              (λ r. eqb r.fence token)
              (λ r. record r { expires_at = x })
              w.leases;
      })
  expire-Fenced key token x w =
      Fenced-modify w key (λ r. eqb r.fence token) (λ r. record r { expires_at = x }) (λ r. refl)
        (λ r _ _. ground arith)

  free-Fenced :
      (key : String) (token x : ℕ) (w : World)
      → Fenced w (record w {
        leases =
            modify lease_key key
              (λ r. eqb r.fence token)
              (λ r. record r { released_at = some x })
              w.leases;
      })
  free-Fenced key token x w =
      Fenced-modify w key (λ r. eqb r.fence token) (λ r. record r { released_at = some x })
        (λ r. refl) (λ r _ _. ground arith)

  pub renew-Fenced :
      (key p t : String) (holder : VerifiedPrincipal) (fence ttl : ℕ)
      → Steps Fenced (renew env key p t holder fence ttl)
  unfolding renew
  renew-Fenced key p t holder fence ttl =
      search
        (
          fenced_rules, holder_id-Fenced, assert_task_scope-Fenced, require_match-Fenced,
          append_audit-Fenced, Steps-change, expire-Fenced,
        )
        depth 40

  release_row-Fenced :
      (l : Lease) (done : Bool) (key p t h : String) (fence : ℕ)
      → Steps Fenced (release_row env l done key p t h fence)
  unfolding release_row
  release_row-Fenced l true key p t h fence = search fenced_rules
  release_row-Fenced l false key p t h fence =
      search
        (
          fenced_rules, assert_task_scope-Fenced, is_active-Fenced, append_audit-Fenced,
          Steps-change, free-Fenced,
        )
        depth 40

  pub release-Fenced :
      (key p t : String) (holder : VerifiedPrincipal) (fence : ℕ)
      → Steps Fenced (release env key p t holder fence)
  unfolding release
  release-Fenced key p t holder fence =
      search (fenced_rules, holder_id-Fenced, require_match-Fenced, release_row-Fenced) depth 40
