-- ===== src/Scheduler/Grants.antt =====
-- What a claim is, once `claim_next` (scheduler.py) hands it out.
use mathlib.Core.Path.{subst}
use company_os.Prelude.{
  ℕ, suc, ◌+◌, ◌≤◌, ◌≡◌, inl, inr, refl, sym, ap, ap₂, not, ◌∙◌, String, Bool, true, false, Option,
  none, some, List, arith, row, row-modify, row-cons, key-row, eq_iff, Option-cases, eq_refl, ltb,
}
use company_os.Result.{ok, lease_error}
use company_os.Types.Values.{Role, TaskState}
use company_os.Db.{World, Env}
use company_os.Db.Rows.{Lease, Task}
use company_os.Identity.{VerifiedPrincipal, require_role, PrincipalRecord, session_join}
use company_os.Exec.{pure, read_now, assert, gets, ◌>>=◌}
use company_os.Exec.Steps.{Steps, Stepping, Steps-change, steps_rules, after}
use company_os.Exec.Returns.{Returns, Returns-pure, Returns-after}
use company_os.Store.Append.{append_event}
use company_os.Store.Entry.{Entry}
use company_os.Store.Log.{Steps-append_event}
use company_os.Leases.{lease_key, find_lease, seconds}
use company_os.Scheduler.Queue.{task_resource, next_ready, next_ready-has_attempt}
use company_os.Scheduler.Fencing.{lease_task-exact}
use company_os.Scheduler.{
  Scheduler, TaskClaim, transition, lease_task, record_claim, claim_next, claim_selected,
  claim_if_free, lease_in_use, claimed_lease, upsert_lease,
}

-- The leases are not touched.
abbrev KeepsLeases : World → World → Type 0
KeepsLeases w w' = w'.leases ≡ w.leases

KeepsLeases-Stepping : Stepping KeepsLeases
KeepsLeases-Stepping = record {
  stay = λ w. refl;
  both = λ u v w p q. q ∙ p;
  tick = λ w. refl;
  draw = λ w. refl;
}

upserted : (l : Lease) (ls : List Lease) → row lease_key l.resource_key (upsert_lease l ls) ≡ some l
upserted l ls = elim (Option-cases (row lease_key l.resource_key ls)) [
  | inl absent ↦ ground (arith, row-cons lease_key l.resource_key l ls, eq_refl l.resource_key)
  | inr (old, there) ↦ ground (
    arith,
    there,
    row-modify lease_key l.resource_key l.resource_key (λ r. true)
        (λ r. record l { resource_key = r.resource_key }) ls,
    eq_refl l.resource_key,
    key-row lease_key l.resource_key ls old,
  )
]

module _ (env : Env) (s : Scheduler) where
  transition-KeepsLeases :
      (t : Task) (target : TaskState) (by reason : String) (v : VerifiedPrincipal)
      → Steps KeepsLeases (transition env s t target by reason v)
  unfolding transition
  transition-KeepsLeases t target by reason v =
      search (steps_rules, KeepsLeases-Stepping, append-Keeps, Steps-change) depth 30
    where
      append-Keeps : (y : Entry) → Steps KeepsLeases (append_event env y)
      append-Keeps y = Steps-append_event env y (λ w e t i. refl)

  record_claim-KeepsLeases :
      (l : Lease) (t : Task) (h : String) (v : VerifiedPrincipal)
      → Steps KeepsLeases (record_claim env s l t h v)
  unfolding record_claim
  record_claim-KeepsLeases l t h v =
      search (steps_rules, KeepsLeases-Stepping, transition-KeepsLeases, Steps-change, same) depth
        40
    where
      same : (w : World) → KeepsLeases w w
      same w = refl

  -- the lease, worker, task and attempt of a claim
  abbrev ClaimOf : Lease → Task → String → TaskClaim → Type 0
  ClaimOf l t h c =
      (c.resource_key ≡ l.resource_key)
      × (c.fence ≡ l.fence)
      × (c.worker_id ≡ h)
      × (c.task_id ≡ t.task_id)
      × (c.attempt_number ≡ t.attempt_count + 1)

  record_claim-Returns :
      (l : Lease) (t : Task) (h : String) (v : VerifiedPrincipal)
      → Returns (ClaimOf l t h) (record_claim env s l t h v)
  unfolding record_claim
  record_claim-Returns l t h v = search (Returns-after, made) depth 30
    where
      made :
          (id : String)
          → Returns (ClaimOf l t h) (
              pure (record {
                task_id = t.task_id;
                run_id = t.run_id;
                attempt_id = id;
                attempt_number = t.attempt_count + 1;
                worker_id = h;
                resource_key = l.resource_key;
                fence = l.fence;
                expires_at = l.expires_at;
              }))
      made id = Returns-pure _ (refl, refl, refl, refl, refl)

  -- the lease of a claim, in the database that the claim leaves
  abbrev pub Granted : String → TaskClaim → World → Type 0
  Granted worker_id c w' =
      (c.worker_id ≡ worker_id)
      × ((l : Lease) × (find_lease c.resource_key w' ≡ some l)
          × (l.fence ≡ c.fence)
          × (l.holder ≡ worker_id)
          × (l.task_id ≡ c.task_id)
          × (l.released_at ≡ none))

  claim_if_free-Granted :
      (old : Option Lease) (p : String) (t : Task) (h : String) (v : VerifiedPrincipal) (n : ℕ)
      (w : World) (c : TaskClaim) (w' : World)
      → claim_if_free env s false old p t h v n w ≡ ok (some c, w')
      → Granted h c w' × (c.attempt_number ≡ t.attempt_count + 1) × (c.task_id ≡ t.task_id)
  unfolding ◌>>=◌
  claim_if_free-Granted old p t h v n w c w' r =
      after (lease_task env s old p t h n) _ w (some c) w' r λ l u first h₁.
        after (record_claim env s l t h v) (λ claim. pure (some claim)) u (some c) w' h₁
          λ c₁ u₁ second h₂.
            let (is_l, world) = lease_task-exact env s old p t h n w l u first in
            let made =
              claimed_lease old p t h (env.now w.ticks) (env.now (suc w.ticks) + seconds n) in
            let claim = (record_claim-Returns l t h v).result u c₁ u₁ second in
            let kept = (record_claim-KeepsLeases l t h v).at u c₁ u₁ second in
            let same : (c ≡ c₁) × (w' ≡ u₁) = ground arith in
            let there : find_lease made.resource_key w' ≡ some made =
              ap (λ (x : World). find_lease made.resource_key x) same.1
              ∙ ap (row lease_key made.resource_key) (kept ∙ ap (λ (x : World). x.leases) world)
              ∙ upserted made w.leases in
            let (key, fence, worker, task_is, number) = claim in
            (
              (
                ap (λ (x : TaskClaim). x.worker_id) same.0 ∙ worker,
                (
                  made,
                  ap (λ k. find_lease k w')
                        (ap (λ (x : TaskClaim). x.resource_key) same.0
                          ∙ key
                          ∙ ap (λ (x : Lease). x.resource_key) is_l)
                      ∙ there,
                  sym (
                      ap (λ (x : TaskClaim). x.fence) same.0
                      ∙ fence
                      ∙ ap (λ (x : Lease). x.fence) is_l),
                  refl,
                  sym (ap (λ (x : TaskClaim). x.task_id) same.0 ∙ task_is),
                  refl,
                ),
              ),
              ap (λ (x : TaskClaim). x.attempt_number) same.0 ∙ number,
              ap (λ (x : TaskClaim). x.task_id) same.0 ∙ task_is,
            )

  claim_if-Granted :
      (active : Bool) (old : Option Lease) (p : String) (t : Task) (h : String)
      (v : VerifiedPrincipal) (n : ℕ) (w : World) (c : TaskClaim) (w' : World)
      → claim_if_free env s active old p t h v n w ≡ ok (some c, w')
      → Granted h c w' × (c.attempt_number ≡ t.attempt_count + 1) × (c.task_id ≡ t.task_id)
  unfolding ◌>>=◌
  claim_if-Granted true old p t h v n w c w' r = absurd (ground arith)
  claim_if-Granted false old p t h v n w c w' r = claim_if_free-Granted old p t h v n w c w' r

  -- what a claim that was handed out is
  abbrev pub Claimed : Option Task → String → TaskClaim → World → Type 0
  Claimed found h c w' =
      (t : Task) × (found ≡ some t)
      × Granted h c w'
      × (c.attempt_number ≡ t.attempt_count + 1)
      × (c.task_id ≡ t.task_id)

  no_claim :
      (w : World) (c : TaskClaim) (w' : World)
      → pure {A = Option TaskClaim} none w ≡ ok (some c, w')
      → ⊥
  unfolding ◌>>=◌
  no_claim w c w' r = ground arith

  claim_selected-Claimed :
      (found : Option Task) (p h : String) (v : VerifiedPrincipal) (n : ℕ) (w : World)
      (c : TaskClaim) (w' : World)
      → claim_selected env s found p h v n w ≡ ok (some c, w')
      → Claimed found h c w'
  claim_selected-Claimed none p h v n w c w' r = absurd (no_claim w c w' r)
  claim_selected-Claimed (some t) p h v n w c w' r =
      after (gets (find_lease (task_resource t.task_id))) _ w (some c) w' r λ old w₁ got h₁.
        after (lease_in_use env s old) _ w₁ (some c) w' h₁ λ active u looked h₂.
          let (granted, number, of_task) = claim_if-Granted active old p t h v n u c w' h₂ in
          (t, refl, granted, number, of_task)

  require_role-exact :
      (v : VerifiedPrincipal) (r : Role) (w : World) (by : PrincipalRecord) (w' : World)
      → require_role env v r w ≡ ok (by, w')
      → (by.principal_id ≡ v.principal_id) × (w' ≡ record w { ticks = suc w.ticks })
  unfolding require_role
  require_role-exact v r w by w' h = elim (Option-cases (session_join v.session_id w)) [
    | inl e ↦ ground arith
    | inr (sp, e) ↦ ground (arith, eq_iff sp.0.principal_id v.principal_id)
  ]

  -- The task that the queue's query chooses, and the claim that was made of it.
  abbrev pub Chosen : String → String → World → TaskClaim → World → Type 0
  Chosen p h w c w' =
      (t : Task) × (next_ready p (env.now (suc w.ticks)) w ≡ some t)
      × Granted h c w'
      × (c.attempt_number ≡ t.attempt_count + 1)
      × (c.task_id ≡ t.task_id)
      × (c.attempt_number ≤ t.spec.max_attempts)

  within_limit :
      (p : String) (now : ℕ) (w : World) (t : Task) (n : ℕ)
      → next_ready p now w ≡ some t
      → n ≡ t.attempt_count + 1
      → n ≤ t.spec.max_attempts
  within_limit p now w t n chosen number =
      ground (arith, number, next_ready-has_attempt p now w t chosen)

  -- `claim_next`, when it hands out a claim, has chosen the task that is next in the queue at the
  -- instant of the query. The claim names the caller, the task, and the attempt after the ones made,
  -- which is within the task's limit, and the task's lease row in the resulting database is the
  -- caller's, not released, with the fence of the claim.
  pub claim_next_grants :
      (p : String) (v : VerifiedPrincipal) (n : ℕ) (w : World) (c : TaskClaim) (w' : World)
      → claim_next env s p v n w ≡ ok (some c, w')
      → Chosen p v.principal_id w c w'
  unfolding claim_next next_ready
  claim_next_grants p v n w c w' r =
      after (require_role env v Role.worker) _ w (some c) w' r λ by w₁ role h₁.
        let (own, world) = require_role-exact v Role.worker w by w₁ role in
        after (assert (not (ltb n 1)) lease_error) _ w₁ (some c) w' h₁ λ _ w₂ ttl_ok h₂.
          after (read_now env)
            (λ now. do
              selected ← gets (next_ready p now)
              claim_selected env s selected p by.principal_id v n)
            w₂ (some c) w' h₂
            λ now w₃ drawn h₃.
              let at_same : w₂ ≡ w₁ = ground arith in
              let now_is : now ≡ env.now (suc w.ticks) = ground arith in
              let world₃ : w₃ ≡ record w { ticks = suc (suc w.ticks) } = ground arith in
              let (t, found, granted, number, of_task) =
                claim_selected-Claimed (next_ready p now w₃) p by.principal_id v n w₃ c w' h₃ in
              let chosen : next_ready p (env.now (suc w.ticks)) w ≡ some t =
                sym (ap₂ (next_ready p) now_is world₃) ∙ found in
              (
                t,
                chosen,
                subst (λ h. Granted h c w') own granted,
                number,
                of_task,
                within_limit p (env.now (suc w.ticks)) w t c.attempt_number chosen number,
              )
