-- ===== src/Scheduler/Outcomes.antt =====
-- What a failed attempt leaves (scheduler.py, `fail`), and the seconds that a retry waits.
use Prim.Native.Nat.{◌-◌, ◌^◌}
use native.Mathlib.Nat.{le-mul_of_pos_right}
use mathlib.Core.Path.{subst}
use company_os.Prelude.{
  ℕ, suc, zero, ◌+◌, ◌≤◌, ◌<◌, ◌≡◌, ◌⊎◌, inl, inr, refl, ap, ap₂, sym, ◌∙◌, String, Bool, true,
  false, Option, none, some, arith, row, modify, key-row, ◌==◌,
}
use company_os.Result.{Result, ok, lease_error, type_error}
use company_os.Types.Values.{Role, TaskState}
use company_os.Db.{World, Env}
use company_os.Db.Rows.{Task}
use company_os.Identity.{VerifiedPrincipal, require_role}
use company_os.Identity.Reads.{identity_rules}
use company_os.Exec.{Exec, pure, or_raise, change, read_now, ◌>>=◌, ◌>>◌}
use company_os.Exec.Steps.{Steps, steps_rules, Steps-read_now, after, after_assert}
use company_os.Leases.{seconds}
use company_os.Scheduler.Queue.{task_key}
use company_os.Scheduler.{
  Scheduler, TaskClaim, FailureOutcome, retry_seconds, retry_due, transition, claimed_row,
  require_claim, set_task, attempt_key, release_claim, find_task,
}
use company_os.Scheduler.Failures.{
  fail, schedule_retry, circuit_opens, failure_fingerprint, record_negative, note_failure,
}
use company_os.Scheduler.Moves.{
  SameTasks, SameTasks-Stepping, set_task-row, moved_row, transition_moves,
}

two_power : (n : ℕ) → 1 ≤ 2 ^ n
two_power zero = ground arith
two_power (suc n) = ground (arith, two_power n)

-- A retry waits at least the base and at most the maximum, when these are in order as the constructor
-- wants them.
pub retry_seconds_bounds :
    (s : Scheduler) (n : ℕ)
    → s.retry_base_seconds ≤ s.retry_max_seconds
    → (s.retry_base_seconds ≤ retry_seconds s n) × (retry_seconds s n ≤ s.retry_max_seconds)
unfolding retry_seconds
retry_seconds_bounds s n ordered =
    ground (arith, ordered, le-mul_of_pos_right s.retry_base_seconds (two_power (n - 1)))

raised :
    (o : Option Task) (w : World) (t : Task) (w' : World)
    → or_raise o type_error w ≡ ok (t, w')
    → (o ≡ some t) × (w' ≡ w)
unfolding or_raise
raised none w t w' h = absurd (ground arith)
raised (some r) w t w' h = ground arith

same_task : (t r : Task) → some t ≡ some r → t ≡ r
same_task t r h = ground arith

same_end :
    {A : Type 0} (a b : A) (w w' : World)
    → ◌≡◌ {A = Result (A × World)} (ok (a, w)) (ok (b, w'))
    → (b ≡ a) × (w' ≡ w)
same_end a b w w' h = ground arith

module _ (env : Env) (s : Scheduler) where
  -- A retry that `fail` schedules, or not, and the row of the task `t` behind it.
  abbrev Scheduled : Bool → ℕ → Task → Task × Option ℕ → Task → Type 0
  Scheduled circuit n r last r' =
      (r'.spec ≡ r.spec)
      × (r'.attempt_count ≡ r.attempt_count)
      × (r'.state ≡ last.0.state)
      × (((circuit ≡ true) × (last.0.state ≡ TaskState.failed) × (last.1 ≡ none))
          ⊎ ((circuit ≡ false)
              × (last.0.state ≡ TaskState.retry_pending)
              × ((i : ℕ) × (last.1 ≡ some (env.now i + seconds (retry_seconds s n))))))

  schedule_retry-Scheduled :
      (circuit : Bool) (t : Task) (h : String) (v : VerifiedPrincipal) (n : ℕ) (w : World)
      (last : Task × Option ℕ) (w' : World) (r : Task)
      → schedule_retry env s circuit t h v n w ≡ ok (last, w')
      → row task_key t.task_id w.tasks ≡ some r
      → t.state ≡ TaskState.failed
      → r.state ≡ TaskState.failed
      → (r' : Task) × (row task_key t.task_id w'.tasks ≡ some r') × Scheduled circuit n r last r'
  unfolding retry_due pure
  schedule_retry-Scheduled true t h v n w last w' r ran there failed row_failed =
      let done : (last ≡ (t, none)) × (w' ≡ w) = ground arith in
      (
        r,
        ap (λ (q : World). row task_key t.task_id q.tasks) done.1 ∙ there,
        (
          refl,
          refl,
          row_failed ∙ sym failed ∙ ap (λ (q : Task × Option ℕ). q.0.state) (sym done.0),
          inl (
            refl,
            ap (λ (q : Task × Option ℕ). q.0.state) done.0 ∙ failed,
            ap (λ (q : Task × Option ℕ). q.1) done.0,
          ),
        ),
      )
  schedule_retry-Scheduled false t h v n w last w' r ran there failed row_failed =
      after (transition env s t TaskState.retry_pending h "bounded retry scheduled" v)
        (λ waiting. retry_due env s n >>= λ at. pure (waiting, some at)) w last w' ran
        λ waiting x moved ran₁.
          let (legal, returned, (i, found), logged) =
            transition_moves env s t TaskState.retry_pending h "bounded retry scheduled" v w waiting
              x r moved there in
          let done : (last ≡ (waiting, some (env.now x.ticks + seconds (retry_seconds s n))))
              × (w'.tasks ≡ x.tasks) =
            ground arith in
          let state : last.0.state ≡ TaskState.retry_pending =
            ap (λ (q : Task × Option ℕ). q.0.state) done.0 ∙ ap (λ (q : Task). q.state) returned in
          (
            moved_row env s r t TaskState.retry_pending i,
            ap (row task_key t.task_id) done.1 ∙ found,
            (
              refl,
              refl,
              sym state,
              inr (refl, state, (x.ticks, ap (λ (q : Task × Option ℕ). q.1) done.0)),
            ),
          )

  record_negative-SameTasks :
      (t : Task) (f c e r : String) (now : ℕ) → Steps SameTasks (record_negative env t f c e r now)
  unfolding record_negative note_failure
  record_negative-SameTasks t f c e r now = record { at = λ w b w' h. ground arith }

  require_role-SameTasks :
      (v : VerifiedPrincipal) (role : Role) → Steps SameTasks (require_role env v role)
  require_role-SameTasks v role = search (steps_rules, SameTasks-Stepping, identity_rules) depth 20

  require_claim-SameTasks : (c : TaskClaim) → Steps SameTasks (require_claim env s c)
  unfolding require_claim
  require_claim-SameTasks c = search (steps_rules, SameTasks-Stepping) depth 20

  -- The row of a claim that the worker still has is the task's, and nothing was written to the tasks.
  claimed_row-found :
      (c : TaskClaim) (v : VerifiedPrincipal) (w : World) (t : Task) (w' : World)
      → claimed_row env s c v w ≡ ok (t, w')
      → (row task_key c.task_id w.tasks ≡ some t) × SameTasks w w'
  unfolding claimed_row
  claimed_row-found c v w t w' h = after (require_role env v Role.worker) _ w t w' h λ by x role h₁.
      after_assert (by.principal_id == c.worker_id) lease_error _ x t w' h₁ λ own h₂.
        after (require_claim env s c) _ x t w' h₂ λ u y claim h₃.
          let same =
            (require_claim-SameTasks c).at x u y claim
            ∙ (require_role-SameTasks v Role.worker).at w by x role in
          let (found, last) = raised (find_task c.task_id y) y t w' h₃ in
          (sym (ap (row task_key c.task_id) same) ∙ found, ap (λ (q : World). q.tasks) last ∙ same)

  -- the writes at the end of `fail`
  abbrev close : TaskClaim → String → String → ℕ → Bool → Task × Option ℕ → Exec FailureOutcome
  close c fingerprint failure_id now circuit last = do
    change (
        set_task c.task_id
          (λ r. record r { due_at = last.1; last_error_fingerprint = some fingerprint }))
    change (λ w. record w {
      attempts =
          modify attempt_key c.attempt_id (λ a. true)
            (λ a. record a { state = "failed"; ended_at = some now; failure_id = some failure_id })
            w.attempts;
    })
    change (release_claim c now)
    pure (record {
      task_id = c.task_id;
      attempt_id = c.attempt_id;
      state = last.0.state;
      retry_due_at = last.1;
      circuit_open = circuit;
      fingerprint = fingerprint;
    })

  -- What `fail` leaves of a task whose row was `r`: the outcome `o` that it returns and the row `r'`.
  abbrev pub Ended : TaskClaim → Task → FailureOutcome → Task → Type 0
  Ended c r o r' =
      (r'.spec ≡ r.spec)
      × (r'.attempt_count ≡ r.attempt_count)
      × (r'.state ≡ o.state)
      × (r'.due_at ≡ o.retry_due_at)
      × (r'.last_error_fingerprint ≡ some o.fingerprint)
      × (((r.spec.max_attempts ≤ r.attempt_count)
            × (o.circuit_open ≡ true)
            × (o.state ≡ TaskState.failed)
            × (o.retry_due_at ≡ none))
          ⊎ ((r.attempt_count < r.spec.max_attempts)
              × (o.circuit_open ≡ false)
              × (o.state ≡ TaskState.retry_pending)
              × ((i : ℕ) × (o.retry_due_at
                    ≡ some (env.now i + seconds (retry_seconds s c.attempt_number))))))

  abbrev closed_world : TaskClaim → String → String → ℕ → Task × Option ℕ → World → World
  closed_world c fingerprint failure_id now last w =
      let x =
        set_task c.task_id
          (λ r. record r { due_at = last.1; last_error_fingerprint = some fingerprint }) w in
      release_claim c now (record x {
        attempts =
            modify attempt_key c.attempt_id (λ a. true)
              (λ a. record a {
                state = "failed";
                ended_at = some now;
                failure_id = some failure_id;
              })
              x.attempts;
      })

  close-Ended :
      (c : TaskClaim) (fingerprint failure_id : String) (now : ℕ) (r r₁ : Task)
      (last : Task × Option ℕ) (w : World) (o : FailureOutcome) (w' : World)
      → close c fingerprint failure_id now (circuit_opens r) last w ≡ ok (o, w')
      → row task_key c.task_id w.tasks ≡ some r₁
      → Scheduled (circuit_opens r) c.attempt_number r last r₁
      → (r' : Task) × (row task_key c.task_id w'.tasks ≡ some r') × Ended c r o r'
  unfolding ◌>>=◌
  close-Ended c fingerprint failure_id now r r₁ last w o w' h there (spec, count, state, cases) =
      let f : Task → Task =
        λ q. record q { due_at = last.1; last_error_fingerprint = some fingerprint } in
      let made : FailureOutcome = record {
        task_id = c.task_id;
        attempt_id = c.attempt_id;
        state = last.0.state;
        retry_due_at = last.1;
        circuit_open = circuit_opens r;
        fingerprint = fingerprint;
      } in
      let done = same_end made o (closed_world c fingerprint failure_id now last w) w' h in
      let table : w'.tasks ≡ (set_task c.task_id f w).tasks = ap (λ (q : World). q.tasks) done.1 in
      (
        f r₁,
        ap (row task_key c.task_id) table ∙ set_task-row c.task_id f w r₁ (λ q. refl) there,
        subst (λ (q : FailureOutcome). Ended c r q (f r₁)) (sym done.0)
            (
              spec,
              count,
              state,
              refl,
              refl,
              (elim cases [
                | inl (opens, is, nothing) ↦ inl (ground (arith, opens), opens, is, nothing)
                | inr (closed, is, due) ↦ inr (ground (arith, closed), closed, is, due)
              ]),
            ),
      )

  -- A `fail` that succeeds, of a claim on a task, leaves the task's row in the state and with the due
  -- instant and fingerprint of the outcome, and with the specification and attempt count it had; and it
  -- ends in one of two ways: the attempts are used up, the circuit is open, the task is failed and
  -- nothing is due; or attempts are left, the circuit is closed, the task waits for a retry, and the
  -- retry is due as many seconds after an instant that the clock showed as the claim's attempt waits.
  pub fail_outcome :
      (c : TaskClaim) (v : VerifiedPrincipal) (a b d e : String) (w : World) (o : FailureOutcome)
      (w' : World) (r : Task)
      → fail env s c v a b d e w ≡ ok (o, w')
      → row task_key c.task_id w.tasks ≡ some r
      → (r' : Task) × (row task_key c.task_id w'.tasks ≡ some r') × Ended c r o r'
  unfolding fail
  fail_outcome c v a b d e w o w' r h there =
      let fingerprint = failure_fingerprint env "failure_class" a "message" b in
      after (claimed_row env s c v) _ w o w' h λ t w₁ claimed h₁.
        after (read_now env) (λ now. rest t fingerprint now) w₁ o w' h₁
          λ now w₂ ticked h₂.
            after (record_negative env t fingerprint a d e now) (λ id. rest₂ t fingerprint now id)
              w₂ o w' h₂
              λ id w₃ noted h₃.
                after (transition env s t TaskState.failed c.worker_id a v)
                  (λ failed. rest₃ fingerprint now id failed) w₃ o w' h₃
                  λ failed w₄ moved h₄.
                    after
                      (schedule_retry env s (circuit_opens failed) failed c.worker_id v
                        c.attempt_number)
                      (close c fingerprint id now (circuit_opens failed)) w₄ o w' h₄
                      λ last w₅ scheduled h₅.
                        let (found, read) = claimed_row-found c v w t w₁ claimed in
                        let is : t ≡ r = same_task t r (sym found ∙ there) in
                        let own : t.task_id ≡ c.task_id =
                          key-row task_key c.task_id w.tasks t found in
                        let kept : w₃.tasks ≡ w.tasks =
                          (record_negative-SameTasks t fingerprint a d e now).at w₂ id w₃ noted
                          ∙ (Steps-read_now SameTasks-Stepping env).at w₁ now w₂ ticked
                          ∙ read in
                        let (legal, returned, (i, at_failed), logged) =
                          transition_moves env s t TaskState.failed c.worker_id a v w₃ failed w₄ t
                            moved (ap₂ (row task_key) own kept ∙ found) in
                        let same_id : failed.task_id ≡ t.task_id =
                          ap (λ (q : Task). q.task_id) returned in
                        let (r₁, left, facts) =
                          schedule_retry-Scheduled (circuit_opens failed) failed c.worker_id v
                            c.attempt_number w₄ last w₅ (moved_row env s t t TaskState.failed i)
                            scheduled (ap (λ n. row task_key n w₄.tasks) same_id ∙ at_failed)
                            (ap (λ (q : Task). q.state) returned) refl in
                        let (r', at_end, ended) =
                          close-Ended c fingerprint id now failed r₁ last w₅ o w' h₅
                            (ap (λ n. row task_key n w₅.tasks) (sym own ∙ sym same_id) ∙ left)
                            (subst
                              (λ (q : Task).
                                Scheduled (circuit_opens failed) c.attempt_number q last r₁)
                              (sym returned) facts) in
                        (
                          r',
                          at_end,
                          subst (λ (q : Task). Ended c q o r') is
                              (subst (λ (q : Task). Ended c q o r') returned ended),
                        )
    where
      rest₃ : String → ℕ → String → Task → Exec FailureOutcome
      rest₃ fingerprint now id failed =
          schedule_retry env s (circuit_opens failed) failed c.worker_id v c.attempt_number
          >>= close c fingerprint id now (circuit_opens failed)

      rest₂ : Task → String → ℕ → String → Exec FailureOutcome
      rest₂ t fingerprint now id =
          transition env s t TaskState.failed c.worker_id a v >>= rest₃ fingerprint now id

      rest : Task → String → ℕ → Exec FailureOutcome
      rest t fingerprint now =
          record_negative env t fingerprint a d e now >>= rest₂ t fingerprint now
