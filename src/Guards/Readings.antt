-- ===== src/Guards/Readings.antt =====
-- What the guards of gates.py have read when they answer yes.
use company_os.Prelude.{
  ◌≤◌, arith, ℕ, ◌≡◌, refl, ap, sym, ◌∙◌, true, false, not, ◌&&◌, ◌||◌, Option, none, some,
}
use company_os.Prelude.Forall.{Forall}
use company_os.Result.{contract_error}
use company_os.Types.Values.{TaskState}
use company_os.Types.Equality.{same_task_state}
use company_os.Types.Specs.{RuntimeSurfaceSpec}
use company_os.Db.{World, Env}
use company_os.Db.Rows.{Run, Goal, Task, Observation}
use company_os.Exec.{gets, or_raise, every, ◌>>=◌}
use company_os.Exec.Reads.{
  Confirms, Confirms-no, Confirms-gets, Confirms-if, Confirms-and, Confirms-clock, Confirms-query,
  Confirms-map, Confirms-every,
}
use company_os.Policy.Authority.{validated_task_authority_binding}
use company_os.Policy.Approvals.{Satisfied, Satisfied-Confirms}
use company_os.Scope.{TextLibrary}
use company_os.Freshness.{acceptable, current, latest_of, agree_at}
use company_os.Guards.{
  task_delivered, tasks_delivered, tasks_terminal, task_integrated, tasks_integrated,
  integration_satisfied, fresh_latest, surface_fresh, freshness_satisfied,
}
use company_os.Verdicts.{tasks_of, no_tasks, goal_of, items_final}

-- `since` counts readings of the clock.
module _ (env : Env) (since : ℕ) (w : World) where
  -- the decision gates of the task
  abbrev pub GatesMet : Task → Type 0
  GatesMet t =
      Satisfied env since w t.task_id none none (validated_task_authority_binding env t.task_id w)

  abbrev pub TaskDelivered : Task → Type 0
  TaskDelivered t = (same_task_state t.state TaskState.delivered ≡ true) × GatesMet t

  abbrev pub TaskIntegrated : Task → Type 0
  TaskIntegrated t =
      GatesMet t × ((not t.spec.integration_required || items_final t w.integration_items) ≡ true)

  -- The run has tasks, and each satisfies `P`.
  abbrev pub EachTask : Run → (Task → Type 0) → Type 0
  EachTask run P = (no_tasks (tasks_of run w.tasks) ≡ false) × Forall P (tasks_of run w.tasks)

  -- the newest observation of the surface, and a reading of the clock, from `since` on, at which it
  -- was current
  abbrev pub SurfaceFresh : Run → RuntimeSurfaceSpec → Type 0
  SurfaceFresh run requirement =
      (o : Observation) × (latest_of run requirement w.observations ≡ some o)
      × (acceptable run requirement o w ≡ true)
      × ((i : ℕ) × (since ≤ i)
          × ((current env o (env.now i) && agree_at run requirement o w.observations) ≡ true))

  abbrev pub RunFresh : Run → Type 0
  RunFresh run =
      (g : Goal) × (goal_of run w.goals ≡ some g)
      × Forall (SurfaceFresh run) g.spec.required_runtime_surfaces

module _ (env : Env) (lib : TextLibrary) (w₀ : World) (since : ℕ) (early : since ≤ w₀.ticks)
    (run : Run) where
  task_delivered-Confirms :
      (t : Task) → Confirms w₀ (TaskDelivered env since w₀ t) (task_delivered env lib t)
  task_delivered-Confirms t =
      Confirms-if w₀ (same_task_state t.state TaskState.delivered) _ _
        (λ is.
          Confirms-map w₀ _ (λ met. (is, met))
            (Satisfied-Confirms env w₀ since early t.task_id none none))
        (λ other. Confirms-no w₀)

  tasks_delivered-Confirms :
      Confirms w₀
        (EachTask env since w₀ run (TaskDelivered env since w₀))
        (tasks_delivered env lib (tasks_of run w₀.tasks))
  tasks_delivered-Confirms =
      Confirms-if w₀ (no_tasks (tasks_of run w₀.tasks)) _ _ (λ empty. Confirms-no w₀)
        λ there.
          Confirms-map w₀ _ (λ all_of. (there, all_of))
            (Confirms-every w₀ (task_delivered env lib) (tasks_of run w₀.tasks)
              task_delivered-Confirms)

  pub tasks_terminal-Confirms :
      Confirms w₀
        (EachTask env since w₀ run (TaskDelivered env since w₀))
        (tasks_terminal env lib run)
  unfolding tasks_terminal
  tasks_terminal-Confirms =
      Confirms-query w₀ (λ (w : World). tasks_of run w.tasks) (tasks_delivered env lib)
        λ w same. rw (ap (λ (x : World). tasks_of run x.tasks) same.0) tasks_delivered-Confirms

  task_integrated-Confirms :
      (t : Task) → Confirms w₀ (TaskIntegrated env since w₀ t) (task_integrated env lib t)
  task_integrated-Confirms t =
      Confirms-and w₀ _ _ (Satisfied-Confirms env w₀ since early t.task_id none none) λ met.
        Confirms-gets w₀ (λ w. not t.spec.integration_required || items_final t w.integration_items)
          λ w same yes'.
            sym (
              ap
                (λ (x : World).
                  not t.spec.integration_required || items_final t x.integration_items)
                same.0)
            ∙ yes'

  tasks_integrated-Confirms :
      Confirms w₀
        (EachTask env since w₀ run (TaskIntegrated env since w₀))
        (tasks_integrated env lib (tasks_of run w₀.tasks))
  tasks_integrated-Confirms =
      Confirms-if w₀ (no_tasks (tasks_of run w₀.tasks)) _ _ (λ empty. Confirms-no w₀)
        λ there.
          Confirms-map w₀ _ (λ all_of. (there, all_of))
            (Confirms-every w₀ (task_integrated env lib) (tasks_of run w₀.tasks)
              task_integrated-Confirms)

  pub integration_satisfied-Confirms :
      Confirms w₀
        (EachTask env since w₀ run (TaskIntegrated env since w₀))
        (integration_satisfied env lib run)
  unfolding integration_satisfied
  integration_satisfied-Confirms =
      Confirms-query w₀ (λ (w : World). tasks_of run w.tasks) (tasks_integrated env lib)
        λ w same. rw (ap (λ (x : World). tasks_of run x.tasks) same.0) tasks_integrated-Confirms

  fresh_latest-Confirms :
      (r : RuntimeSurfaceSpec) (found : Option Observation)
      → latest_of run r w₀.observations ≡ found
      → Confirms w₀ (SurfaceFresh env since w₀ run r) (fresh_latest env lib run r found)
  unfolding acceptable
  fresh_latest-Confirms r none is = Confirms-no w₀
  fresh_latest-Confirms r (some o) is =
      Confirms-map w₀ _ (λ both. (o, is, both.0, both.1))
        (Confirms-and w₀ (gets (acceptable run r o)) _ trusted λ accepted.
          Confirms-clock w₀ env _ λ i late.
            Confirms-gets w₀ (λ w. current env o (env.now i) && agree_at run r o w.observations)
              λ w same yes'. (
                i,
                omega (arith, early, late),
                sym (
                      ap
                        (λ (x : World).
                          current env o (env.now i) && agree_at run r o x.observations)
                        same.0)
                    ∙ yes',
              ))
    where
      trusted : Confirms w₀ (acceptable run r o w₀ ≡ true) (gets (acceptable run r o))
      trusted =
          Confirms-gets w₀ (acceptable run r o)
            λ w same yes'. sym (ap (acceptable run r o) same.0) ∙ yes'

  surface_fresh-Confirms :
      (r : RuntimeSurfaceSpec)
      → Confirms w₀ (SurfaceFresh env since w₀ run r) (surface_fresh env lib run r)
  surface_fresh-Confirms r =
      Confirms-query w₀ (λ (w : World). latest_of run r w.observations) (fresh_latest env lib run r)
        λ w same.
          rw (ap (λ (x : World). latest_of run r x.observations) same.0)
            (fresh_latest-Confirms r (latest_of run r w₀.observations) refl)

  goal_fresh-Confirms :
      (found : Option Goal)
      → goal_of run w₀.goals ≡ found
      → Confirms w₀ (RunFresh env since w₀ run) (
          or_raise found contract_error >>= λ goal.
          every (surface_fresh env lib run) goal.spec.required_runtime_surfaces)
  unfolding ◌>>=◌
  goal_fresh-Confirms none is = record { confirmed = λ w b w' same h. cc }
  goal_fresh-Confirms (some g) is =
      Confirms-map w₀ (every (surface_fresh env lib run) g.spec.required_runtime_surfaces)
        (λ all_of. (g, is, all_of))
        (Confirms-every w₀ (surface_fresh env lib run) g.spec.required_runtime_surfaces
          surface_fresh-Confirms)

  pub freshness_satisfied-Confirms :
      Confirms w₀ (RunFresh env since w₀ run) (freshness_satisfied env lib run)
  unfolding freshness_satisfied
  freshness_satisfied-Confirms =
      Confirms-query w₀ (λ (w : World). goal_of run w.goals)
        (λ found. or_raise found contract_error >>= λ goal.
          every (surface_fresh env lib run) goal.spec.required_runtime_surfaces)
        λ w same.
          rw (ap (λ (x : World). goal_of run x.goals) same.0)
            (goal_fresh-Confirms (goal_of run w₀.goals) refl)
