-- ===== src/Kernel/Confirmation.antt =====
-- What `confirm_task_delivery` (kernel.py) wants of a task.
use mathlib.Core.Path.{subst}
use company_os.Prelude.{
  ℕ, ◌≤◌, ◌≡◌, refl, ap, ap₂, sym, ◌∙◌, ◌⊎◌, inl, inr, String, true, not, ◌&&◌, ◌||◌, Option, none,
  some, [], ◌∷◌, row,
}
use company_os.Result.{ok, not_found, transition_error}
use company_os.Types.Values.{Role, TaskState}
use company_os.Types.Equality.{same_task_state}
use company_os.Db.{World, Env}
use company_os.Db.Payload.{Json}
use company_os.Db.Rows.{Task, Run}
use company_os.Identity.{VerifiedPrincipal}
use company_os.Exec.Steps.{after, after_lift, after_found, after_assert, assert-ok}
use company_os.Exec.Reads.{OnlyReads, OnlyReads-Stepping, Confirms, Confirms-no, Confirms-map}
use company_os.Store.Idempotency.{once-cases}
use company_os.Policy.Authority.{task_id_of, validated_task_authority_binding}
use company_os.Policy.Gates.{required_decision_gates_satisfied}
use company_os.Policy.Approvals.{Satisfied-Confirms}
use company_os.Scope.{TextLibrary}
use company_os.Freshness.{acceptable}
use company_os.Verdicts.{items_final}
use company_os.Guards.Readings.{GatesMet, RunFresh, freshness_satisfied-Confirms}
use company_os.Kernel.{RuntimeKernel, command_text, command_text-ok, actor_id}
use company_os.Kernel.Tasks.{
  task_evidence_ok, task_evaluator_ok, no_steps, steps_done, run_of, run_fresh, check_delivery,
  deliver, confirm_task_delivery,
}
use company_os.Kernel.Roles.{actor_id-OnlyReads}

module _ (env : Env) (kernel : RuntimeKernel) (lib : TextLibrary) where
  -- What is there for a task whose delivery is confirmed.
  -- `since` counts readings of the clock.
  abbrev pub Deserved : ℕ → World → Task → Type 0
  Deserved since w t =
      (same_task_state t.state TaskState.integration_pending ≡ true)
      × ((task_evidence_ok t w.evidence_claims && task_evaluator_ok t w.evidence_claims) ≡ true)
      × GatesMet env since w t
      × ((no_steps t.spec.workflow_steps || steps_done t w.workflow_steps) ≡ true)
      × ((not t.spec.integration_required || items_final t w.integration_items) ≡ true)
      × ((run : Run) × (run_of env kernel lib t w ≡ some run) × RunFresh env since w run)

  run_fresh-Confirms :
      (since : ℕ) (w : World) (early : since ≤ w.ticks) (t : Task) (found : Option Run)
      → run_of env kernel lib t w ≡ found
      → Confirms w
          ((run : Run) × (run_of env kernel lib t w ≡ some run) × RunFresh env since w run)
          (run_fresh env kernel lib found)
  run_fresh-Confirms since w early t none is = Confirms-no w
  run_fresh-Confirms since w early t (some run) is =
      Confirms-map w _ (λ fresh. (run, is, fresh))
        (freshness_satisfied-Confirms env lib w since early run)

  check_delivery-Deserved :
      (since : ℕ) (t : Task) (w : World) (u : Unit {0}) (w' : World)
      → since ≤ w.ticks
      → check_delivery env kernel lib t w ≡ ok (u, w')
      → Deserved since w t
  unfolding check_delivery
  check_delivery-Deserved since t w u w' early h =
      after_assert (same_task_state t.state TaskState.integration_pending) transition_error _ w u w'
        h
        λ pending h₁.
          after_assert
            (task_evidence_ok t w.evidence_claims && task_evaluator_ok t w.evidence_claims)
            transition_error _ w u w' h₁
            λ evidence h₂.
              after (required_decision_gates_satisfied env t.task_id none none) _ w u w' h₂
                λ gates x e₁ h₃.
                  let (same, met) =
                    (Satisfied-Confirms env w since early t.task_id none none).confirmed w gates x
                      (OnlyReads-Stepping.stay w) e₁ in
                  after_assert gates transition_error _ x u w' h₃ λ open_gates h₄.
                    after_assert (no_steps t.spec.workflow_steps || steps_done t x.workflow_steps)
                      transition_error _ x u w' h₄
                      λ steps h₅.
                        after_assert
                          (not t.spec.integration_required || items_final t x.integration_items)
                          transition_error _ x u w' h₅
                          λ items h₆.
                            after (run_fresh env kernel lib (run_of env kernel lib t x)) _ x u w' h₆
                              λ fresh y e₂ last.
                                let run_is = ap (run_of env kernel lib t) same.0 in
                                (
                                  pending,
                                  evidence,
                                  met open_gates,
                                  sym (
                                        ap
                                          (λ (q : World).
                                            no_steps t.spec.workflow_steps
                                            || steps_done t q.workflow_steps)
                                          same.0)
                                      ∙ steps,
                                  sym (
                                        ap
                                          (λ (q : World).
                                            not t.spec.integration_required
                                            || items_final t q.integration_items)
                                          same.0)
                                      ∙ items,
                                  ((run_fresh-Confirms since w early t (run_of env kernel lib t w)
                                          refl).confirmed
                                        x fresh y same
                                        (subst (λ o. run_fresh env kernel lib o x ≡ ok (fresh, y))
                                          run_is e₂)).1
                                      (assert-ok fresh transition_error y u w' last),
                                )

  Deserved-reads :
      (since : ℕ) (t : Task) (w v : World) → OnlyReads w v → Deserved since v t → Deserved since w t
  unfolding acceptable validated_task_authority_binding
  Deserved-reads since t w v same d = subst (λ (x : World). Deserved since x t) same.0 d

  -- A successful `confirm_task_delivery` changed nothing but the clock's readings, as the repetition of
  -- a recorded command does, or the task was pending integration in the database before the call, with
  -- a passing claim at its evidence target, an evaluated one if it needs that, its decision gates met,
  -- exactly its declared workflow steps succeeded, its integration items final if it needs any, and
  -- every runtime surface of its run's goal seen healthy by its newest observation; the approvals of
  -- the gates are unexpired and the observations current when the clock was read, not before the call.
  pub confirmed_task-Deserved :
      (task_id : String) (v : VerifiedPrincipal) (key : String) (w : World) (r : Json) (w' : World)
      → confirm_task_delivery env kernel lib task_id v key w ≡ ok (r, w')
      → OnlyReads w w'
        ⊎ ((t : Task) × (row task_id_of task_id w.tasks ≡ some t) × Deserved w.ticks w t)
  unfolding confirm_task_delivery deliver
  confirmed_task-Deserved task_id v key w r w' h =
      after_lift (command_text task_id) _ w r w' h λ id id_ok h₁.
        after_lift (command_text key) _ w r w' h₁ λ k k_ok h₂.
          after (actor_id env v (Role.release ∷ [])) _ w r w' h₂ λ by x by_ok h₃.
            after_found (row task_id_of id x.tasks) not_found _ x r w' h₃ λ t found h₄.
              let reads = (actor_id-OnlyReads env kernel v (Role.release ∷ [])).at w by x by_ok in
              let there =
                sym (
                  ap₂ (λ n (q : World). row task_id_of n q.tasks) (command_text-ok task_id id id_ok)
                    reads.0)
                ∙ found in
              elim (once-cases env t.project_id _ k _ _ x r w' h₄) [
                | inl same ↦ inl (rw same reads)
                | inr (made, y, done, saved) ↦ inr (
                    after (check_delivery env kernel lib t) _ x made y done λ u z checked rest. (
                      t,
                      there,
                      Deserved-reads w.ticks t w x reads
                          (check_delivery-Deserved w.ticks t x u z reads.1 checked),
                    ))
              ]
