-- ===== src/Verdicts.antt =====
-- The tasks and the claims of a run, as companyos_runtime/gates.py judges them.
use company_os.Prelude.{
  Bool, true, false, not, ◌&&◌, ◌||◌, Option, none, some, List, [], ◌∷◌, all, any, select, head?,
  is_text, if◌then◌else◌, ◌==◌,
}
use company_os.Result.{Result, ok, err, contract_error}
use company_os.Types.Values.{EvidenceState, EvaluatorVerdict}
use company_os.Types.Equality.{same_evidence_state, same_evaluator_verdict}
use company_os.Types.Specs.{GoalSpec}
use company_os.Db.Rows.{Run, Goal, Task, EvidenceClaim, IntegrationItem}
use company_os.Integration.{final}

-- `_PASSING_EVIDENCE` and `_PASSING_EVALUATOR`
abbrev pub passing_evaluator : EvaluatorVerdict → Bool
passing_evaluator v =
    same_evaluator_verdict v EvaluatorVerdict.pass
    || same_evaluator_verdict v EvaluatorVerdict.pass_with_risk

abbrev pub passing_evidence : EvaluatorVerdict → Bool
passing_evidence v = same_evaluator_verdict v EvaluatorVerdict.not_required || passing_evaluator v

-- `_task_rows` without a task in the payload: the tasks of the run
abbrev pub tasks_of : Run → List Task → List Task
tasks_of run tasks =
    select (λ (t : Task). is_text t.run_id run.run_id && t.project_id == run.project_id) tasks

abbrev pub no_tasks : List Task → Bool
no_tasks [] = true
no_tasks (t ∷ ts) = false

-- `_goal`
abbrev pub goal_of : Run → List Goal → Option Goal
goal_of run goals =
    head? (select (λ (g : Goal). g.goal_id == run.goal_id && g.project_id == run.project_id) goals)

-- the claims of a task at its evidence target
abbrev pub claims_at_target : Task → List EvidenceClaim → List EvidenceClaim
claims_at_target t claims =
    select
      (λ (c : EvidenceClaim).
        c.task_id == t.task_id && same_evidence_state c.evidence_state t.spec.evidence_target)
      claims

abbrev pub some_claim : (EvaluatorVerdict → Bool) → Task → List EvidenceClaim → Bool
some_claim accepted t claims =
    any (λ (c : EvidenceClaim). accepted c.evaluator_verdict) (claims_at_target t claims)

-- every required state is the evidence target of a task with an accepted claim
abbrev pub states_covered :
    (EvaluatorVerdict → Bool) → List EvidenceState → List Task → List EvidenceClaim → Bool
states_covered accepted states tasks claims =
    all
      (λ s.
        any
          (λ (t : Task).
            same_evidence_state s t.spec.evidence_target && some_claim accepted t claims)
          tasks)
      states

abbrev pub evidence_ok : GoalSpec → List Task → List EvidenceClaim → Bool
evidence_ok goal tasks claims =
    all (λ (t : Task). some_claim passing_evidence t claims) tasks
    && states_covered passing_evidence goal.success_evidence_states tasks claims

abbrev pub evaluator_ok : GoalSpec → List Task → List EvidenceClaim → Bool
evaluator_ok goal tasks claims =
    all (λ (t : Task). not t.spec.evaluator_required || some_claim passing_evaluator t claims) tasks
    && (not goal.evaluator_required
        || states_covered passing_evaluator goal.success_evidence_states tasks claims)

abbrev status_for : Option Goal → List Task → List EvidenceClaim → Result (Bool × Bool)
status_for none tasks claims = err contract_error
status_for (some g) tasks claims =
    ok (evidence_ok g.spec tasks claims, evaluator_ok g.spec tasks claims)

-- `_evidence_status`
unfoldable pub evidence_status :
    Run → List Task → List Goal → List EvidenceClaim → Result (Bool × Bool)
evidence_status run tasks goals claims =
    let here = tasks_of run tasks in
    let found = status_for (goal_of run goals) here claims in
    if no_tasks here then ok (false, false) else found

-- the states of the items of a task
abbrev pub items_final : Task → List IntegrationItem → Bool
items_final t items =
    any (λ (i : IntegrationItem). i.task_id == t.task_id) items
    && all (λ (i : IntegrationItem). not (i.task_id == t.task_id) || final i.state) items
