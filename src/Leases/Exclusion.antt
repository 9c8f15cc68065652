-- ===== src/Leases/Exclusion.antt =====
-- Who gets a lease (leases.py, `acquire`).
use company_os.Prelude.{
  ℕ, suc, ◌+◌, ◌<◌, ◌≡◌, inl, inr, ap, ap₂, sym, ◌∙◌, String, Bool, true, false, Option, none, some,
  ◌∷◌, arith, row, eq_iff, if◌then◌else◌, ◌==◌, ◌&&◌, is_none, Option-cases,
}
use company_os.Result.{ok, lease_error}
use company_os.Text.{required_text, positive, strip, required_text-ok, positive-ok}
use company_os.Db.{World, Env}
use company_os.Db.Rows.{Lease, Task, Event}
use company_os.Identity.{VerifiedPrincipal, verify_in_transaction, session_join}
use company_os.Exec.{pure, ◌>>=◌}
use company_os.Exec.Steps.{after, after_lift}
use company_os.Leases.{
  lease_key, find_lease, LeaseOperationResult, holder_id, is_active, active_row, assert_task_scope,
  append_audit, taken, put_lease, write_lease, take, acquire_at, acquire, replay_or_refuse, seconds,
}
use company_os.Leases.Fencing.{write_lease-exact, active_row-reads}
use company_os.Leases.Audit.{append_audit-Audited, put_lease-row}

abbrev after_reading : World → World
after_reading w = record w { ticks = suc w.ticks }

module _ (env : Env) where
  -- The holder is the session's own principal, and one reading of the clock was made.
  pub holder_id-exact :
      (v : VerifiedPrincipal) (w : World) (h : String) (w' : World)
      → holder_id env v w ≡ ok (h, w')
      → (h ≡ v.principal_id) × (w' ≡ after_reading w)
  unfolding holder_id verify_in_transaction
  holder_id-exact v w h w' r = elim (Option-cases (session_join v.session_id w)) [
    | inl e ↦ ground arith
    | inr (sp, e) ↦ ground (arith, eq_iff sp.0.principal_id v.principal_id)
  ]

  assert_task_scope-reads :
      (p t : String) (w : World) (task : Task) (v : World)
      → assert_task_scope env p t w ≡ ok (task, v)
      → v ≡ w
  unfolding assert_task_scope
  assert_task_scope-reads p t w task v h = ground arith

  -- A successful acquisition, from the query for the lease on.
  acquire-inv :
      {C : Type 0} (resource project task_id : String) (holder : VerifiedPrincipal) (ttl : ℕ)
      (w : World) (r : LeaseOperationResult) (w' : World)
      → acquire env resource project task_id holder ttl w ≡ ok (r, w')
      → ((task : Task) (active : Bool) (v : World)
          → active_row env (find_lease (strip resource) w) (after_reading w) ≡ ok (active, v)
          → acquire_at env
              (find_lease (strip resource) w)
              active
              (strip resource)
              (strip project)
              (strip task_id)
              holder.principal_id
              ttl
              task
              v
            ≡ ok (r, w')
          → C)
      → C
  unfolding acquire
  acquire-inv resource project task_id holder ttl w r w' h use_it =
      after_lift (required_text lease_error resource) _ w r w' h λ key key_ok h₁.
        after_lift (required_text lease_error project) _ w r w' h₁ λ p p_ok h₂.
          after_lift (required_text lease_error task_id) _ w r w' h₂ λ t t_ok h₃.
            after_lift (positive lease_error ttl) _ w r w' h₃ λ n n_ok h₄.
              after (holder_id env holder) _ w r w' h₄ λ by v₁ by_ok h₅.
                after (assert_task_scope env p t) _ v₁ r w' h₅ λ task v₂ task_ok h₆.
                  let world : v₂ ≡ after_reading w =
                    assert_task_scope-reads p t v₁ task v₂ task_ok
                    ∙ (holder_id-exact holder w by v₁ by_ok).1 in
                  let same : find_lease key v₂ ≡ find_lease (strip resource) w =
                    ap₂ find_lease (required_text-ok lease_error resource key key_ok).0 world in
                  after (active_row env (find_lease key v₂)) _ v₂ r w' h₆ λ active v active_ok h₇.
                    use_it task active v (sym (ap₂ (active_row env) same world) ∙ active_ok) (
                      cc (
                        h₇,
                        same,
                        (required_text-ok lease_error resource key key_ok).0,
                        (required_text-ok lease_error project p p_ok).0,
                        (required_text-ok lease_error task_id t t_ok).0,
                        (positive-ok lease_error ttl n n_ok).0,
                        (holder_id-exact holder w by v₁ by_ok).0,
                      ))

  -- An active lease is exclusive. A call that succeeds on a resource whose lease is neither released
  -- nor expired when the call looks at it comes from the holder itself, for the same project and
  -- task; it gets that lease back, with its fence, and writes nothing.
  pub acquire_excludes :
      (resource project task_id : String) (holder : VerifiedPrincipal) (ttl : ℕ) (w : World)
      (l : Lease) (r : LeaseOperationResult) (w' : World)
      → find_lease (strip resource) w ≡ some l
      → l.released_at ≡ none
      → env.now (suc w.ticks) < l.expires_at
      → acquire env resource project task_id holder ttl w ≡ ok (r, w')
      → (l.holder ≡ holder.principal_id)
        × (l.project_id ≡ strip project)
        × (l.task_id ≡ strip task_id)
        × (r.lease ≡ l)
        × (r.replayed ≡ true)
        × (w'.leases ≡ w.leases)
        × (w'.events ≡ w.events)
  unfolding is_active
  acquire_excludes resource project task_id holder ttl w l r w' found unreleased live h =
      acquire-inv resource project task_id holder ttl w r w' h λ task active v row_active done.
        let looked : active_row env (find_lease (strip resource) w) (after_reading w)
            ≡ ok (true, after_reading (after_reading w)) =
          rw found (ground arith) in
        let fresh : (active ≡ true) × (v ≡ after_reading (after_reading w)) = ground arith in
        ground (
          arith,
          eq_iff l.project_id (strip project),
          eq_iff l.task_id (strip task_id),
          eq_iff l.holder holder.principal_id,
        )

  -- The lease that a taken acquisition leaves: the caller's, unreleased, with the fence after the old
  -- one, and one audit event.
  abbrev pub Granted :
      Option Lease
      → String
      → String
      → String
      → String
      → World
      → LeaseOperationResult
      → World
      → Type 0
  Granted old key p t h w r w' =
      (find_lease key w' ≡ some r.lease)
      × (r.replayed ≡ false)
      × (r.lease.fence ≡ (taken old key p t h 0 0).fence)
      × (r.lease.holder ≡ h)
      × (r.lease.project_id ≡ p)
      × (r.lease.task_id ≡ t)
      × (r.lease.released_at ≡ none)
      × ((e : Event) × (w'.events ≡ e ∷ w.events)
          × (e.aggregate_type ≡ "lease")
          × (e.aggregate_id ≡ key))

  take-Granted :
      (old : Option Lease) (key p t h : String) (ttl : ℕ) (task : Task) (w : World)
      (r : LeaseOperationResult) (w' : World)
      → find_lease key w ≡ old
      → take env old key p t h ttl task w ≡ ok (r, w')
      → Granted old key p t h w r w'
  unfolding take
  take-Granted old key p t h ttl task w r w' found done =
      after (write_lease env old key p t h ttl) _ w r w' done λ l v wrote h₁.
        let ev = if is_none old then "lease_acquired" else "lease_taken_over" in
        after (append_audit env key task h l.fence ev l.expires_at)
          (λ _. pure (record { lease = l; replayed = false })) v r w' h₁
          λ e u audited h₂.
            let exact = write_lease-exact env old key p t h ttl w l v wrote in
            let kept = append_audit-Audited env key task h l.fence ev l.expires_at v e u audited in
            let same : (r.lease ≡ l) × (r.replayed ≡ false) × (w' ≡ u) = ground arith in
            let there : row lease_key key (
                  put_lease old
                    (taken old key p t h (env.now w.ticks) (env.now (suc w.ticks) + seconds ttl))
                    w.leases)
                ≡ some l =
              sym (ap (λ (x : World). find_lease key x) exact.0) ∙ exact.1 in
            let facts =
              put_lease-row old key p t h (env.now w.ticks) (env.now (suc w.ticks) + seconds ttl)
                w.leases l found there in
            let still : find_lease key w' ≡ some l =
              ap (find_lease key) same.2 ∙ ap (row lease_key key) kept.0 ∙ exact.1 in
            let log : v.events ≡ w.events = ap (λ (x : World). x.events) exact.0 in
            (
              still ∙ ap some (sym same.0),
              same.1,
              ap (λ (x : Lease). x.fence) same.0 ∙ facts.0,
              ap (λ (x : Lease). x.holder) same.0 ∙ facts.1,
              ap (λ (x : Lease). x.project_id) same.0 ∙ facts.2,
              ap (λ (x : Lease). x.task_id) same.0 ∙ facts.3,
              ap (λ (x : Lease). x.released_at) same.0 ∙ facts.4,
              (
                e,
                ap (λ (x : World). x.events) same.2 ∙ kept.1 ∙ ap (λ es. e ∷ es) log,
                kept.2,
                kept.3,
              ),
            )

  acquire_at-Granted :
      (found : Option Lease) (active : Bool) (key p t h : String) (ttl : ℕ) (task : Task)
      (w : World) (r : LeaseOperationResult) (w' : World)
      → find_lease key w ≡ found
      → acquire_at env found active key p t h ttl task w ≡ ok (r, w')
      → r.replayed ≡ false
      → Granted found key p t h w r w'
  unfolding ◌>>=◌
  acquire_at-Granted none active key p t h ttl task w r w' found done new =
      take-Granted none key p t h ttl task w r w' found done
  acquire_at-Granted (some l) true key p t h ttl task w r w' found done new =
      absurd (never (l.project_id == p && l.task_id == t && l.holder == h) done)
    where
      never : (b : Bool) → replay_or_refuse env l b w ≡ ok (r, w') → ⊥
      never true replayed = ground arith
      never false refused = ground arith
  acquire_at-Granted (some l) false key p t h ttl task w r w' found done new =
      take-Granted (some l) key p t h ttl task w r w' found done

  -- A call that succeeds and is not a replay leaves the resource's row as the call's result: it names
  -- the caller, the trimmed project and task, is not released, and its fence is one when the resource
  -- had no row and one more than the row's otherwise; and one audit event of that lease is added.
  pub acquire_grants :
      (resource project task_id : String) (holder : VerifiedPrincipal) (ttl : ℕ) (w : World)
      (r : LeaseOperationResult) (w' : World)
      → acquire env resource project task_id holder ttl w ≡ ok (r, w')
      → r.replayed ≡ false
      → Granted
          (find_lease (strip resource) w)
          (strip resource)
          (strip project)
          (strip task_id)
          holder.principal_id
          w
          r
          w'
  acquire_grants resource project task_id holder ttl w r w' h new =
      acquire-inv resource project task_id holder ttl w r w' h λ task active v row_active done.
        let same =
          (active_row-reads env (find_lease (strip resource) w)).at (after_reading w) active v
            row_active in
        let granted =
          acquire_at-Granted (find_lease (strip resource) w) active (strip resource) (strip project)
            (strip task_id) holder.principal_id ttl task v r w'
            (ap (λ (x : World). find_lease (strip resource) x) same.0) done new in
        let log : v.events ≡ w.events = ap (λ (x : World). x.events) same.0 in
        let (e, events, type, id) = granted.7 in
        (
          granted.0,
          granted.1,
          granted.2,
          granted.3,
          granted.4,
          granted.5,
          granted.6,
          (e, events ∙ ap (λ es. e ∷ es) log, type, id),
        )
