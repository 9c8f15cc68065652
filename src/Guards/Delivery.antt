-- ===== src/Guards/Delivery.antt =====
-- What stands behind a delivered run: the guards of gates.py and the transition table of
-- state_machine.py together.
use mathlib.Core.Path.{subst}
use company_os.Prelude.{
  ◌≤◌, ℕ, ◌≡◌, refl, ap, sym, ◌∙◌, String, Bool, true, false, ◌⊎◌, inl, inr, Option, none, some,
  List, [], ◌∷◌, any, arith, eq_iff, if◌then◌else◌, ◌==◌, Bool-cases,
}
use company_os.Result.{Result, ok}
use company_os.Types.Values.{LoopState, LoopEvent}
use company_os.StateMachine.{passed, apply_loop_event, loop_transitions}
use company_os.StateMachine.Loop.{delivered_needs_guards}
use company_os.Db.{World, Env}
use company_os.Db.Payload.{Json, get, as_text, as_number}
use company_os.Db.Rows.{Run, ImprovementProposal}
use company_os.Exec.{pure, gets, lift, ◌>>=◌}
use company_os.Exec.Steps.{Steps, steps_rules, after, lift-inv}
use company_os.Exec.Reads.{OnlyReads, OnlyReads-Stepping, Confirms-reads}
use company_os.Policy.Authority.{validated_task_authority_binding}
use company_os.Scope.{TextLibrary}
use company_os.Freshness.{acceptable}
use company_os.Guards.{
  tasks_terminal, integration_satisfied, freshness_satisfied, lease_valid, resume_approval_valid,
  capability_available, status_of, resolve_one, resolve_names, resolve, lease_named, resume_named,
  grant_named, nonempty_text, result_at, guards_of,
}
use company_os.Guards.Readings.{
  TaskDelivered, TaskIntegrated, EachTask, RunFresh, tasks_terminal-Confirms,
  integration_satisfied-Confirms, freshness_satisfied-Confirms,
}

no_yes : false ≡ true → ⊥
no_yes h = ground arith

-- what the dict with one more entry answers
found_first :
    (b answer : Bool) (later : Option Bool)
    → (elim (if b then some answer else later) [ none ↦ false | some x ↦ x ])
      ≡ (if b then answer else elim later [ none ↦ false | some x ↦ x ])
found_first true answer later = refl
found_first false answer later = refl

passed-cons :
    (name : String) (answer : Bool) (others : List (String × Bool)) (g : String)
    → passed (result_at ((name, answer) ∷ others)) g
      ≡ (if name == g then answer else passed (result_at others) g)
unfolding result_at
passed-cons name answer others g = found_first (name == g) answer (result_at others g)

gets_answer :
    (f : World → Bool) (w : World) (b : Bool) (w' : World) → gets f w ≡ ok (b, w') → f w ≡ b
unfolding gets
gets_answer f w b w' h = ground arith

-- what stands behind one of the two answers of the evidence status
status_answer :
    (r : Result (Bool × Bool)) (f : Bool × Bool → Bool) (w : World) (b : Bool) (w' : World)
    → (lift r >>= λ both. pure (f both)) w ≡ ok (b, w')
    → (both : Bool × Bool) × (r ≡ ok both) × (f both ≡ b)
unfolding pure
status_answer r f w b w' h =
    let (both, is, last) = lift-inv r (λ both. pure (f both)) w b w' h in (both, is, ground arith)

both_answers :
    (r : Result (Bool × Bool)) (p q : Bool × Bool)
    → r ≡ ok p
    → r ≡ ok q
    → p.0 ≡ true
    → q.1 ≡ true
    → r ≡ ok (true, true)
both_answers r (a, b) (c, d) h k first second = ground (arith, h, k)

module _ (env : Env) (lib : TextLibrary) where
  terminal-reads : (run : Run) → Steps OnlyReads (tasks_terminal env lib run)
  terminal-reads run =
      Confirms-reads _ λ w. tasks_terminal-Confirms env lib w w.ticks (omega arith) run

  integration-reads : (run : Run) → Steps OnlyReads (integration_satisfied env lib run)
  integration-reads run =
      Confirms-reads _ λ w. integration_satisfied-Confirms env lib w w.ticks (omega arith) run

  freshness-reads : (run : Run) → Steps OnlyReads (freshness_satisfied env lib run)
  freshness-reads run =
      Confirms-reads _ λ w. freshness_satisfied-Confirms env lib w w.ticks (omega arith) run

  lease_named-reads :
      (run : Run) (actor : String) (t r h : Option String) (f : Option ℕ)
      → Steps OnlyReads (lease_named env lib run actor t r h f)
  lease_named-reads run actor (some t) (some r) (some h) (some f) =
      search (steps_rules, OnlyReads-Stepping) depth 20
  lease_named-reads run actor t r h f = search (steps_rules, OnlyReads-Stepping) depth 20

  lease-reads :
      (run : Run) (payload : Json) (actor : String)
      → Steps OnlyReads (lease_valid env lib run payload actor)
  unfolding lease_valid
  lease-reads run payload actor =
      lease_named-reads run actor (as_text (get "task_id" payload))
        (as_text (get "resource_key" payload)) (as_text (get "holder" payload))
        (as_number (get "fence" payload))

  resume_named-reads :
      (run : Run) (a : Option String) → Steps OnlyReads (resume_named env lib run a)
  resume_named-reads run none = search (steps_rules, OnlyReads-Stepping) depth 20
  resume_named-reads run (some a) = search (steps_rules, OnlyReads-Stepping) depth 20

  resume-reads :
      (run : Run) (payload : Json) → Steps OnlyReads (resume_approval_valid env lib run payload)
  unfolding resume_approval_valid
  resume-reads run payload =
      resume_named-reads run (nonempty_text (as_text (get "approval_id" payload)))

  grant_named-reads : (run : Run) (g : Option String) → Steps OnlyReads (grant_named env lib run g)
  grant_named-reads run none = search (steps_rules, OnlyReads-Stepping) depth 20
  grant_named-reads run (some g) = search (steps_rules, OnlyReads-Stepping) depth 20

  capability-reads :
      (run : Run) (payload : Json) → Steps OnlyReads (capability_available env lib run payload)
  unfolding capability_available
  capability-reads run payload = grant_named-reads run (as_text (get "grant_id" payload))

  resolve_one-reads :
      (run : Run) (name : String) (payload : Json) (actor : String)
      → Steps OnlyReads (resolve_one env lib run name payload actor)
  unfolding resolve_one
  resolve_one-reads run name payload actor =
      search
        (
          steps_rules, OnlyReads-Stepping, terminal-reads, integration-reads, freshness-reads,
          lease-reads, resume-reads, capability-reads,
        )
        depth 40

  -- A guard that answered yes, at a database that differs from `w₀` by readings of the clock.
  abbrev Answered : World → Run → Json → String → String → Type 0
  Answered w₀ run payload actor name =
      (v : World) × OnlyReads w₀ v
      × ((v' : World) × (resolve_one env lib run name payload actor v ≡ ok (true, v')))

  resolve_names-Answered :
      (run : Run) (names : List String) (payload : Json) (actor : String) (w₀ w : World)
      (rs : List (String × Bool)) (w' : World)
      → OnlyReads w₀ w
      → resolve_names env lib run names payload actor w ≡ ok (rs, w')
      → OnlyReads w₀ w'
        × ((g : String) → passed (result_at rs) g ≡ true → Answered w₀ run payload actor g)
  unfolding resolve_names result_at
  resolve_names-Answered run [] payload actor w₀ w rs w' same h =
      let done : (rs ≡ []) × (w' ≡ w) = ground arith in
      (
        rw done.1 same,
        λ g yes'. absurd (no_yes (sym (ap (λ xs. passed (result_at xs) g) done.0) ∙ yes')),
      )
  resolve_names-Answered run (name ∷ names) payload actor w₀ w rs w' same h =
      after (resolve_one env lib run name payload actor) _ w rs w' h λ answer v e₁ h₁.
        after (resolve_names env lib run names payload actor) _ v rs w' h₁ λ others u e₂ h₂.
          let first =
            OnlyReads-Stepping.both w₀ w v same
              ((resolve_one-reads run name payload actor).at w answer v e₁) in
          let (last, told) =
            resolve_names-Answered run names payload actor w₀ v others u first e₂ in
          let done : (rs ≡ (name, answer) ∷ others) × (w' ≡ u) = ground arith in
          let split : (g : String)
              → passed (result_at rs) g ≡ true
              → (if name == g then answer else passed (result_at others) g) ≡ true =
            λ g yes'.
              sym (ap (λ xs. passed (result_at xs) g) done.0 ∙ passed-cons name answer others g)
              ∙ yes' in
          (
            rw done.1 last,
            λ g yes'. elim (Bool-cases (name == g)) [
              | inl e ↦
                  let agreed : answer ≡ true =
                    sym (ap (λ b. if b then answer else passed (result_at others) g) e)
                    ∙ split g yes' in
                  subst (λ n. Answered w₀ run payload actor n) ((eq_iff name g).0 e)
                    (w, same, (v, e₁ ∙ ap (λ b. ok (b, v)) agreed))
              | inr e ↦ told g (
                  sym (ap (λ b. if b then answer else passed (result_at others) g) e)
                  ∙ split g yes')
            ],
          )

  -- What a run that is about to be delivered has: evidence and evaluations at every target, finished
  -- integration, fresh surfaces, and delivered tasks.
  abbrev pub Deliverable : ℕ → World → Run → Type 0
  Deliverable since w run =
      (status_of env lib run w ≡ ok (true, true))
      × EachTask env since w run (TaskIntegrated env since w)
      × RunFresh env since w run
      × EachTask env since w run (TaskDelivered env since w)

  pub Deliverable-reads :
      (since : ℕ) (run : Run) (w v : World)
      → OnlyReads w v
      → Deliverable since v run
      → Deliverable since w run
  unfolding acceptable validated_task_authority_binding
  Deliverable-reads since run w v same d = subst (λ (x : World). Deliverable since x run) same.0 d

  pub resolve-reads :
      (run : Run) (event : LoopEvent) (payload : Json) (actor : String)
      → Steps OnlyReads (resolve env lib run event payload actor)
  unfolding resolve
  resolve-reads run event payload actor = record {
    at = λ w rs w' h.
        (resolve_names-Answered run (guards_of env lib (loop_transitions run.loop_state event))
          payload actor w w rs w' (OnlyReads-Stepping.stay w) h).0;
  }

  Answered-Deliverable :
      (since : ℕ) (w : World) (early : since ≤ w.ticks) (run : Run) (payload : Json)
      (actor : String)
      → Answered w run payload actor "evidence_satisfied"
      → Answered w run payload actor "evaluator_satisfied"
      → Answered w run payload actor "integration_satisfied"
      → Answered w run payload actor "freshness_satisfied"
      → Answered w run payload actor "tasks_terminal"
      → Deliverable since w run
  unfolding resolve_one
  Answered-Deliverable since w early run payload actor (v₁, r₁, (x₁, e₁)) (v₂, r₂, (x₂, e₂))
        (v₃, r₃, (x₃, e₃)) (v₄, r₄, (x₄, e₄)) (v₅, r₅, (x₅, e₅)) =
      (
        (let (p, is_p, first) =
              status_answer (status_of env lib run v₁) (λ both. both.0) v₁ true x₁ e₁ in
            let (q, is_q, second) =
              status_answer (status_of env lib run v₂) (λ both. both.1) v₂ true x₂ e₂ in
            both_answers (status_of env lib run w) p q
              (sym (ap (status_of env lib run) r₁.0) ∙ is_p)
              (sym (ap (status_of env lib run) r₂.0) ∙ is_q) first second),
        ((integration_satisfied-Confirms env lib w since early run).confirmed v₃ true x₃ r₃ e₃).1
            refl,
        ((freshness_satisfied-Confirms env lib w since early run).confirmed v₄ true x₄ r₄ e₄).1
            refl,
        ((tasks_terminal-Confirms env lib w since early run).confirmed v₅ true x₅ r₅ e₅).1 refl,
      )

  routed :
      (w : World) (run : Run) (payload : Json) (actor : String)
      → Answered w run payload actor "improvement_routed"
      → any (λ (p : ImprovementProposal). p.source_run_id == run.run_id) w.improvement_proposals
        ≡ true
  unfolding resolve_one
  routed w run payload actor (v, reads, (x, e)) =
      sym (
        ap
          (λ (y : World).
            any (λ (p : ImprovementProposal). p.source_run_id == run.run_id)
              y.improvement_proposals)
          reads.0)
      ∙ gets_answer
          (λ (y : World).
            any (λ (p : ImprovementProposal). p.source_run_id == run.run_id)
              y.improvement_proposals)
          v true x e

  -- When the guards that are computed for an event let a run become delivered, the event is a
  -- confirmed delivery, and either the run comes from an improvement, and one is routed for it, or
  -- every task of the run, of which there is one, has a passing claim at its evidence target, and an
  -- evaluated one if it needs that, and so for every evidence state of the goal; every task is
  -- delivered, its decision gates are met and its integration items are final if it needs any; and
  -- every runtime surface of the goal was seen healthy by its newest observation; the approvals of
  -- the gates are unexpired and the observations current at readings of the clock that are not
  -- before the reading `since`, which is not after the call.
  pub delivered_run_is_finished :
      (since : ℕ) (run : Run) (event : LoopEvent) (payload : Json) (actor : String) (w : World)
      (rs : List (String × Bool)) (w' : World)
      → since ≤ w.ticks
      → resolve env lib run event payload actor w ≡ ok (rs, w')
      → apply_loop_event run.loop_state event (result_at rs) ≡ ok LoopState.delivered
      → (event ≡ LoopEvent.delivery_confirmed)
        × (((run.loop_state ≡ LoopState.improvement_pending)
              × (any
                    (λ (p : ImprovementProposal). p.source_run_id == run.run_id)
                    w.improvement_proposals
                  ≡ true))
            ⊎ Deliverable since w run)
  unfolding resolve
  delivered_run_is_finished since run event payload actor w rs w' early h applied =
      let (reads, told) =
        resolve_names-Answered run (guards_of env lib (loop_transitions run.loop_state event))
          payload actor w w rs w' (OnlyReads-Stepping.stay w) h in
      let (is, cases) = delivered_needs_guards run.loop_state event (result_at rs) applied in
      (
        is,
        elim cases [
          | inl (from, found) ↦
              inl (from, routed w run payload actor (told "improvement_routed" found))
          | inr (from, evidence, verdict, integrated, fresh, ended) ↦ inr (
              Answered-Deliverable since w early run payload actor
                (told "evidence_satisfied" evidence) (told "evaluator_satisfied" verdict)
                (told "integration_satisfied" integrated) (told "freshness_satisfied" fresh)
                (told "tasks_terminal" ended))
        ],
      )
