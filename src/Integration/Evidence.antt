-- ===== src/Integration/Evidence.antt =====
-- What an item's change of state wants (integration.py, `advance`): the transition, an open task, and
-- for a final state the decision gates and passing evidence.
use company_os.Prelude.{
  ℕ, ◌≤◌, ◌≡◌, ap, sym, ◌∙◌, String, Bool, true, false, not, Option, none, some, List, row, any,
  arith, if◌then◌else◌,
}
use mathlib.Core.Path.{subst}
use company_os.Result.{Result, ok, transition_error, integrity_error, evidence_error}
use company_os.Types.Values.{IntegrationState}
use company_os.Types.Specs.{TaskSpec}
use company_os.StateMachine.Tasks.{terminal}
use company_os.Db.{World, Env}
use company_os.Db.Rows.{IntegrationItem, Task}
use company_os.Exec.{Exec, pure}
use company_os.Exec.Steps.{
  Steps, steps_rules, after, after_assert, after_found, assert-ok, Steps-if, Steps-pure,
}
use company_os.Exec.Reads.{OnlyReads, OnlyReads-Stepping}
use company_os.Policy.Authority.{task_id_of, validated_task_authority_binding}
use company_os.Policy.Gates.{Request, required_decision_gates_satisfied}
use company_os.Policy.Approvals.{Satisfied, Satisfied-Confirms}
use company_os.Integration.{final, allows, validate_evidence, passing, no_refs}
use company_os.Integration.Changes.{require_final, check_change}

if_true :
    {A : Type 0} (t : Bool) (m n : Exec A) (w : World) (r : Result (A × World))
    → t ≡ true
    → (if t then m else n) w ≡ r
    → m w ≡ r
if_true true m n w r e h = h
if_true false m n w r e h = cc

module _ (env : Env) where
  pub gates-OnlyReads :
      (t : String) (required : Option (List String)) (exact : Option Request)
      → Steps OnlyReads (required_decision_gates_satisfied env t required exact)
  gates-OnlyReads t required exact = record {
    at = λ w b w' h.
        ((Satisfied-Confirms env w w.ticks (omega arith) t exact required).confirmed w b w'
          (OnlyReads-Stepping.stay w) h).0;
  }

  pub validate_evidence-OnlyReads :
      (t : String) (refs : List String) → Steps OnlyReads (validate_evidence env t refs)
  unfolding validate_evidence
  validate_evidence-OnlyReads t refs = search (steps_rules, OnlyReads-Stepping) depth 20

  module _ (policy_version : String) where
    require_final-OnlyReads :
        (item : IntegrationItem) (task : Task) (refs : List String)
        → Steps OnlyReads (require_final env policy_version item task refs)
    unfolding require_final
    require_final-OnlyReads item task refs =
        search (steps_rules, OnlyReads-Stepping, gates-OnlyReads, validate_evidence-OnlyReads) depth
          30

    -- The decision gates of the task are satisfied, and one of the claims passes.
    -- `since` counts readings of the clock.
    abbrev pub Backed : ℕ → World → IntegrationItem → TaskSpec → List String → Type 0
    Backed since w item spec refs =
        Satisfied env since w item.task_id none none
          (validated_task_authority_binding env item.task_id w)
        × (any (passing spec item.task_id refs) w.evidence_claims ≡ true)

    pub Backed-reads :
        (since : ℕ) (item : IntegrationItem) (spec : TaskSpec) (refs : List String) (w v : World)
        → OnlyReads w v
        → Backed since v item spec refs
        → Backed since w item spec refs
    unfolding validated_task_authority_binding
    Backed-reads since item spec refs w v same backed =
        subst (λ (x : World). Backed since x item spec refs) same.0 backed

    require_final-Backed :
        (since : ℕ) (item : IntegrationItem) (task : Task) (refs : List String) (w : World)
        (u : Unit {0}) (v : World)
        → since ≤ w.ticks
        → require_final env policy_version item task refs w ≡ ok (u, v)
        → Backed since w item task.spec refs
    unfolding require_final
    require_final-Backed since item task refs w u v early h =
        after (required_decision_gates_satisfied env item.task_id none none) _ w u v h
          λ gates w₁ e₁ h₁. after_assert gates transition_error _ w₁ u v h₁ λ holds h₂.
            after_assert (not (no_refs refs)) evidence_error _ w₁ u v h₂ λ some_refs h₃.
              after (validate_evidence env item.task_id refs) _ w₁ u v h₃ λ u₂ w₂ e₂ h₄.
                let (reads, told) =
                  (Satisfied-Confirms env w since early item.task_id none none).confirmed w gates w₁
                    (OnlyReads-Stepping.stay w) e₁ in
                let same =
                  OnlyReads-Stepping.both w w₁ w₂ reads
                    ((validate_evidence-OnlyReads item.task_id refs).at w₁ u₂ w₂ e₂) in
                (
                  told holds,
                  sym (
                        ap
                          (λ (x : World).
                            any (passing task.spec item.task_id refs) x.evidence_claims)
                          same.0)
                      ∙ assert-ok (any (passing task.spec item.task_id refs) w₂.evidence_claims)
                          evidence_error w₂ u v h₄,
                )

    abbrev pub Allowed :
        ℕ → World → World → IntegrationItem → IntegrationState → List String → Type 0
    Allowed since w v item target refs =
        OnlyReads w v
        × (allows item.state target ≡ true)
        × ((task : Task) × (row task_id_of item.task_id w.tasks ≡ some task)
            × (terminal task.state ≡ false)
            × (final target ≡ true → Backed since w item task.spec refs))

    pub check_change-Allowed :
        (since : ℕ) (item : IntegrationItem) (target : IntegrationState)
        (refs all_refs : List String) (w : World) (u : Unit {0}) (v : World)
        → since ≤ w.ticks
        → check_change env policy_version item target refs all_refs w ≡ ok (u, v)
        → Allowed since w v item target all_refs
    unfolding check_change
    check_change-Allowed since item target refs all_refs w u v early h =
        after_found (row task_id_of item.task_id w.tasks) integrity_error _ w u v h λ task found h₁.
          after_assert (not (terminal task.state)) transition_error _ w u v h₁ λ holds h₂.
            after_assert (allows item.state target) transition_error _ w u v h₂ λ legal h₃.
              after (validate_evidence env item.task_id refs) _ w u v h₃ λ u₂ w₂ e₂ h₄.
                let same = (validate_evidence-OnlyReads item.task_id refs).at w u₂ w₂ e₂ in
                let last =
                  (Steps-if OnlyReads-Stepping (final target)
                      (require_final env policy_version item task all_refs) (pure tt)
                      (require_final-OnlyReads item task all_refs)
                      (Steps-pure OnlyReads-Stepping tt)).at
                    w₂ u v h₄ in
                (
                  OnlyReads-Stepping.both w w₂ v same last,
                  legal,
                  (
                    task,
                    found,
                    ground arith,
                    λ is_final. Backed-reads since item task.spec all_refs w w₂ same (
                        require_final-Backed since item task all_refs w₂ u v
                          (omega (arith, early, same.1))
                          (if_true (final target)
                            (require_final env policy_version item task all_refs) (pure tt) w₂ _
                            is_final h₄)),
                  ),
                )
