-- ===== src/Kernel/Delivery.antt =====
-- What `advance_loop` (kernel.py) guarantees of a run that it delivers.
use mathlib.Core.Path.{subst}
use company_os.Prelude.{
  ℕ, ◌≤◌, ◌+◌, ◌≡◌, refl, ap, ap₂, sym, ◌∙◌, ◌⊎◌, inl, inr, String, Bool, true, not, Option, some,
  List, any, row, key-row, row-modify, eq_refl, arith, ◌==◌,
}
use company_os.Result.{ok, not_found, transition_error}
use company_os.Types.Values.{LoopEvent, LoopState}
use company_os.StateMachine.{apply_loop_event}
use company_os.Db.{World, Env}
use company_os.Db.Payload.{Json}
use company_os.Db.Rows.{Run, ImprovementProposal}
use company_os.Identity.{VerifiedPrincipal}
use company_os.Exec.Steps.{
  Steps, Stepping, steps_rules, after, after_lift, after_found, after_assert,
}
use company_os.Exec.Reads.{OnlyReads, OnlyReads-Stepping}
use company_os.Store.Log.{Steps-append_event}
use company_os.Store.Idempotency.{once-cases}
use company_os.Integration.{run_id_of}
use company_os.Scope.{TextLibrary}
use company_os.Guards.{resolve, result_at}
use company_os.Guards.Delivery.{
  Deliverable, Deliverable-reads, resolve-reads, delivered_run_is_finished,
}
use company_os.Kernel.{RuntimeKernel, command_text, command_text-ok, loop_roles, actor_id}
use company_os.Kernel.Roles.{actor_id-OnlyReads}
use company_os.Kernel.Runs.{
  contradicted, set_run, check_iterations, decide_event, write_event, move_run, apply_event,
  advance_run, advance_loop, checked_causation, or_empty,
}

-- The runs are not touched.
abbrev SameRuns : World → World → Type 0
SameRuns w w' = w'.runs ≡ w.runs

some_inj : {A : Type 0} (a b : A) → some a ≡ some b → a ≡ b
some_inj a b h = ground arith

SameRuns-Stepping : Stepping SameRuns
SameRuns-Stepping = record {
  stay = λ w. refl;
  both = λ u v w p q. q ∙ p;
  tick = λ w. refl;
  draw = λ w. refl;
}

module _ (env : Env) (kernel : RuntimeKernel) where
  check_iterations-OnlyReads :
      (run : Run) (e : LoopEvent) → Steps OnlyReads (check_iterations env kernel run e)
  unfolding check_iterations
  check_iterations-OnlyReads run e = search (steps_rules, OnlyReads-Stepping) depth 20

  module _ (lib : TextLibrary) where
    write_event-SameRuns :
        (run : Run) (e : LoopEvent) (by : String) (v : VerifiedPrincipal) (key : String)
        (c : Option String) (p : Json) (answers : List (String × Bool))
        → Steps SameRuns (write_event env kernel lib run e by v key c p answers)
    unfolding write_event
    write_event-SameRuns run e by v key c p answers =
        search (steps_rules, SameRuns-Stepping, Steps-append_event) depth 20

    -- What a decided event has behind it.
    decide_event-facts :
        (run : Run) (e : LoopEvent) (by : String) (supplied : List (String × Bool)) (p : Json)
        (w : World) (d : List (String × Bool) × LoopState) (w' : World)
        → decide_event env kernel lib run e by supplied p w ≡ ok (d, w')
        → OnlyReads w w'
          × ((v : World) × (resolve env lib run e p by w ≡ ok (d.0, v)))
          × (apply_loop_event run.loop_state e (result_at d.0) ≡ ok d.1)
    unfolding decide_event
    decide_event-facts run e by supplied p w d w' h =
        after (resolve env lib run e p by) _ w d w' h λ answers v e₁ h₁.
          after_assert (not (contradicted (result_at answers) supplied)) transition_error _ v d w'
            h₁
            λ agreed h₂.
              after_lift (apply_loop_event run.loop_state e (result_at answers)) _ v d w' h₂
                λ target applied last.
                  let done : (d ≡ (answers, target)) × (w' ≡ v) = ground arith in
                  (
                    rw done.1 ((resolve-reads env lib run e p by).at w answers v e₁),
                    (
                      v,
                      e₁ ∙ ap (λ (x : List (String × Bool) × LoopState). ok (x.0, v)) (sym done.0),
                    ),
                    rw done.0 applied,
                  )

    -- the run's row after it was moved
    move_run-row :
        (run : Run) (target : LoopState) (id : String) (w : World) (r : Json × String) (w' : World)
        (run' : Run)
        → move_run env kernel lib run target id w ≡ ok (r, w')
        → row run_id_of run.run_id w.runs ≡ some run
        → row run_id_of run.run_id w'.runs ≡ some run'
        → run'.loop_state ≡ target
    unfolding move_run
    move_run-row run target id w r w' run' h there found =
        let moved =
          row-modify run_id_of run.run_id run.run_id (λ x. true)
            (λ (x : Run). record x {
              loop_state = target;
              aggregate_version = run.aggregate_version + 1;
              updated_at = env.now w.ticks;
            })
            w.runs (λ x. refl) in
        let table : w'.runs
            ≡ (set_run run.run_id target (run.aggregate_version + 1) (env.now w.ticks) w).runs =
          ground arith in
        let seen = sym (ap (row run_id_of run.run_id) table ∙ moved) ∙ found in
        ground (arith, seen, there, eq_refl run.run_id)

    -- What stands behind a run that an event left delivered.
    Finished : ℕ → World → Run → Type 0
    Finished since w run =
        ((run.loop_state ≡ LoopState.improvement_pending)
          × (any (λ (p : ImprovementProposal). p.source_run_id == run.run_id)
                w.improvement_proposals
              ≡ true))
        ⊎ Deliverable env lib since w run

    apply_event-Finished :
        (since : ℕ) (run : Run) (e : LoopEvent) (by : String) (v : VerifiedPrincipal) (key : String)
        (supplied : List (String × Bool)) (p : Json) (c : Option String) (w : World)
        (r : Json × String) (w' : World) (run' : Run)
        → since ≤ w.ticks
        → apply_event env kernel lib run e by v key supplied p c w ≡ ok (r, w')
        → row run_id_of run.run_id w.runs ≡ some run
        → row run_id_of run.run_id w'.runs ≡ some run'
        → run'.loop_state ≡ LoopState.delivered
        → Finished since w run
    unfolding apply_event Finished
    apply_event-Finished since run e by v key supplied p c w r w' run' early h there found
          is_delivered =
        after (decide_event env kernel lib run e by supplied p) _ w r w' h λ d x e₁ h₁.
          after (write_event env kernel lib run e by v key c p d.0) _ x r w' h₁ λ id y e₂ h₂.
            let (reads, (z, resolved), applied) = decide_event-facts run e by supplied p w d x e₁ in
            let same : y.runs ≡ w.runs =
              (write_event-SameRuns run e by v key c p d.0).at x id y e₂
              ∙ ap (λ (q : World). q.runs) reads.0 in
            let target =
              move_run-row run d.1 id y r w' run' h₂ (ap (row run_id_of run.run_id) same ∙ there)
                found in
            (delivered_run_is_finished env lib since run e p by w d.0 z early resolved
              (applied ∙ ap ok (sym target ∙ is_delivered))).1

    -- The database in which a run of the same row is finished is as good as the one before the clock
    -- was read.
    Finished-reads :
        (since : ℕ) (run : Run) (w v : World)
        → OnlyReads w v
        → Finished since v run
        → Finished since w run
    unfolding Finished
    Finished-reads since run w v same (inl (from, routed)) = inl (
      from,
      sym (
            ap
              (λ (x : World).
                any (λ (p : ImprovementProposal). p.source_run_id == run.run_id)
                  x.improvement_proposals)
              same.0)
          ∙ routed,
    )
    Finished-reads since run w v same (inr d) = inr (Deliverable-reads env lib since run w v same d)

    advance_run-Finished :
        (since : ℕ) (run : Run) (e : LoopEvent) (by : String) (v : VerifiedPrincipal) (key : String)
        (supplied : List (String × Bool)) (p : Json) (c : Option String) (w : World) (r : Json)
        (w' : World) (run' : Run)
        → since ≤ w.ticks
        → advance_run env kernel lib run e by v key supplied p c w ≡ ok (r, w')
        → row run_id_of run.run_id w.runs ≡ some run
        → row run_id_of run.run_id w'.runs ≡ some run'
        → run'.loop_state ≡ LoopState.delivered
        → (run.loop_state ≡ LoopState.delivered) ⊎ Finished since w run
    unfolding advance_run
    advance_run-Finished since run e by v key supplied p c w r w' run' early h there found
          is_delivered =
        after (check_iterations env kernel run e) _ w r w' h λ u x e₁ h₁.
          let reads = (check_iterations-OnlyReads run e).at w u x e₁ in
          let here = ap (λ (q : World). row run_id_of run.run_id q.runs) reads.0 ∙ there in
          elim (once-cases env run.project_id _ key _ _ x r w' h₁) [
            | inl same ↦
                let is : run' ≡ run =
                  some_inj run' run
                    (sym found ∙ ap (λ (q : World). row run_id_of run.run_id q.runs) same ∙ here) in
                inl (ap (λ (q : Run). q.loop_state) (sym is) ∙ is_delivered)
            | inr (made, y, done, saved) ↦ inr (
                Finished-reads since run w x reads (
                  apply_event-Finished since run e by v key supplied p c x made y run'
                    (omega (arith, early, reads.1)) done here
                    (sym (ap (λ (q : World). row run_id_of run.run_id q.runs) saved) ∙ found)
                    is_delivered))
          ]

    -- A run that is delivered after a successful `advance_loop` on it was delivered before, or came from
    -- an improvement for which a proposal is there, or every task of the run, of which there is one, has
    -- a passing claim at its evidence target, and an evaluated one if it needs that, and so for every
    -- evidence state of the goal; every task is delivered, its decision gates are met and its
    -- integration items are final if it needs any; and every runtime surface of the goal was seen
    -- healthy by its newest observation, all that in the database before the call; the approvals of the
    -- gates are unexpired and the observations current when the clock was read, not before the call.
    pub advance_loop_delivers :
        (run_id : String) (e : LoopEvent) (v : VerifiedPrincipal) (key : String)
        (supplied : List (String × Bool)) (p : Option Json) (c : Option String) (w : World)
        (r : Json) (w' : World) (run run' : Run)
        → advance_loop env kernel lib run_id e v key supplied p c w ≡ ok (r, w')
        → row run_id_of run_id w.runs ≡ some run
        → row run_id_of run_id w'.runs ≡ some run'
        → run'.loop_state ≡ LoopState.delivered
        → (run.loop_state ≡ LoopState.delivered)
          ⊎ (((run.loop_state ≡ LoopState.improvement_pending)
                × (any
                      (λ (q : ImprovementProposal). q.source_run_id == run.run_id)
                      w.improvement_proposals
                    ≡ true))
              ⊎ Deliverable env lib w.ticks w run)
    unfolding advance_loop command_text Finished
    advance_loop_delivers run_id e v key supplied p c w r w' run run' h there found is_delivered =
        after_lift (command_text run_id) _ w r w' h λ id id_ok h₁.
          after_lift (command_text key) _ w r w' h₁ λ k k_ok h₂.
            after_lift (checked_causation c) _ w r w' h₂ λ cause cause_ok h₃.
              after (actor_id env v (loop_roles e)) _ w r w' h₃ λ by x by_ok h₄.
                after_found (row run_id_of id x.runs) not_found _ x r w' h₄ λ row₁ at_id h₅.
                  let reads = (actor_id-OnlyReads env kernel v (loop_roles e)).at w by x by_ok in
                  let id_is = command_text-ok run_id id id_ok in
                  let is : row₁ ≡ run = some_inj row₁ run (
                    sym at_id
                    ∙ ap₂ (λ k (q : World). row run_id_of k q.runs) id_is reads.0
                    ∙ there) in
                  let named = key-row run_id_of run_id w.runs run there in
                  let here : row run_id_of run.run_id x.runs ≡ some run =
                    ap₂ (λ k (q : World). row run_id_of k q.runs) named reads.0 ∙ there in
                  elim (advance_run-Finished w.ticks run e by v k supplied (or_empty p) cause x r w'
                    run' reads.1
                    (subst
                      (λ q.
                        advance_run env kernel lib q e by v k supplied (or_empty p) cause x
                        ≡ ok (r, w'))
                      is h₅)
                    here (ap (λ n. row run_id_of n w'.runs) named ∙ found) is_delivered) [
                      | inl before ↦ inl before
                      | inr finished ↦ inr (Finished-reads w.ticks run w x reads finished)
                    ]
