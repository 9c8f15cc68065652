-- ===== src/Integration.antt =====
-- companyos_runtime/integration.py: the states of the integration queue, and what its operations
-- share. `IntegrationItem` is a row of the table `integration_items`; a state argument is given as its
-- text.
pub mod Creation
pub mod Changes
pub mod Evidence
pub mod Items
pub mod History
pub mod Delivery
pub mod Satisfied
pub mod Samples
use company_os.Prelude.{
  ℕ, String, Bool, true, false, not, ◌&&◌, ◌||◌, Option, none, some, List, [], ◌∷◌, ◌++◌, all, any,
  elem, select, head?, row, modify, leb, is_none, if◌then◌else◌, ◌==◌,
}
use company_os.Result.{transition_error, not_found, evidence_error, integrity_error, type_error}
use company_os.Types.Values.{
  Role, LoopState, TaskState, IntegrationState, EvaluatorVerdict, parse_integration_state,
  integration_state_value,
}
use company_os.Types.Equality.{same_integration_state, same_evidence_state, same_evaluator_verdict}
use company_os.Types.Specs.{TaskSpec}
use company_os.StateMachine.Tasks.{terminal}
use company_os.Text.{required_text, required_texts, distinct}
use company_os.Db.{World, Env}
use company_os.Db.Payload.{text, arr, obj, fields, texts}
use company_os.Db.Rows.{IntegrationItem, Task, Run, EvidenceClaim, Event}
use company_os.Identity.{VerifiedPrincipal, verify_in_transaction, shares_role}
use company_os.Exec.{
  Exec, pure, raise, lift, gets, or_raise, change, assert, read_now, fresh_id, ◌>>=◌, ◌>>◌,
}
use company_os.Store.Entry.{plain_entry, max_version}
use company_os.Store.Append.{append_event}
use company_os.Policy.Authority.{task_id_of}
use company_os.Policy.Gates.{required_decision_gates_satisfied}

-- `_FINAL`
abbrev pub final : IntegrationState → Bool
final IntegrationState.delivered = true
final IntegrationState.superseded = true
final _ = false

-- `_TRANSITIONS`
unfoldable pub transitions : IntegrationState → List IntegrationState
transitions IntegrationState.review_pending =
    IntegrationState.evaluator_pending ∷ IntegrationState.push_pr_pending
    ∷ IntegrationState.deploy_pending ∷ IntegrationState.delete_pending
    ∷ IntegrationState.retire_pending ∷ IntegrationState.delivered
    ∷ IntegrationState.defer_with_owner ∷ IntegrationState.superseded ∷ []
transitions IntegrationState.evaluator_pending =
    IntegrationState.review_pending ∷ IntegrationState.push_pr_pending
    ∷ IntegrationState.defer_with_owner ∷ IntegrationState.superseded ∷ []
transitions IntegrationState.push_pr_pending =
    IntegrationState.ci_pending ∷ IntegrationState.defer_with_owner ∷ IntegrationState.superseded
    ∷ []
transitions IntegrationState.ci_pending =
    IntegrationState.merge_pending ∷ IntegrationState.ci_failed ∷ IntegrationState.defer_with_owner
    ∷ []
transitions IntegrationState.ci_failed =
    IntegrationState.push_pr_pending ∷ IntegrationState.defer_with_owner
    ∷ IntegrationState.superseded ∷ []
transitions IntegrationState.merge_pending =
    IntegrationState.deploy_pending ∷ IntegrationState.delivered ∷ IntegrationState.defer_with_owner
    ∷ []
transitions IntegrationState.deploy_pending =
    IntegrationState.deploy_dir_updated ∷ IntegrationState.defer_with_owner
    ∷ IntegrationState.superseded ∷ []
transitions IntegrationState.deploy_dir_updated =
    IntegrationState.service_restart_required ∷ IntegrationState.runtime_check_pending
    ∷ IntegrationState.defer_with_owner ∷ []
transitions IntegrationState.service_restart_required =
    IntegrationState.runtime_check_pending ∷ IntegrationState.defer_with_owner ∷ []
transitions IntegrationState.runtime_check_pending =
    IntegrationState.delivered ∷ IntegrationState.runtime_stale ∷ IntegrationState.defer_with_owner
    ∷ []
transitions IntegrationState.runtime_stale =
    IntegrationState.service_restart_required ∷ IntegrationState.deploy_pending
    ∷ IntegrationState.defer_with_owner ∷ []
transitions IntegrationState.delete_pending =
    IntegrationState.delivered ∷ IntegrationState.defer_with_owner ∷ []
transitions IntegrationState.retire_pending =
    IntegrationState.delivered ∷ IntegrationState.defer_with_owner ∷ []
transitions IntegrationState.defer_with_owner =
    IntegrationState.review_pending ∷ IntegrationState.delete_pending
    ∷ IntegrationState.retire_pending ∷ IntegrationState.superseded ∷ []
transitions IntegrationState.delivered = []
transitions IntegrationState.superseded = []

-- `target in _TRANSITIONS[current]`
unfoldable pub allows : IntegrationState → IntegrationState → Bool
unfolding transitions
allows current target = any (same_integration_state target) (transitions current)

abbrev pub integration_key : IntegrationItem → String
integration_key i = i.integration_id

abbrev pub run_id_of : Run → String
run_id_of r = r.run_id

abbrev pub same_texts : List String → List String → Bool
same_texts [] [] = true
same_texts [] (t ∷ ts) = false
same_texts (s ∷ ss) [] = false
same_texts (s ∷ ss) (t ∷ ts) = s == t && same_texts ss ts

-- the item that a repeated `create` expects under its id
abbrev pub same_content :
    IntegrationItem → String → String → String → String → IntegrationState → List String → Bool
same_content i task_id source_ref target_ref owner state refs =
    i.task_id == task_id
    && i.source_ref == source_ref
    && i.target_ref == target_ref
    && i.owner == owner
    && same_integration_state i.state state
    && same_texts i.evidence_refs refs

-- `_validate_evidence`, first that each reference is a claim, then that each is of the task
abbrev pub evidence_found : List String → List EvidenceClaim → Bool
evidence_found refs claims = all (λ r. any (λ (c : EvidenceClaim). c.evidence_id == r) claims) refs

abbrev pub evidence_of_task : String → List String → List EvidenceClaim → Bool
evidence_of_task task_id refs claims =
    all (λ (c : EvidenceClaim). not (elem c.evidence_id refs) || c.task_id == task_id) claims

abbrev pub verdict_accepted : TaskSpec → EvaluatorVerdict → Bool
verdict_accepted spec v =
    same_evaluator_verdict v EvaluatorVerdict.pass
    || same_evaluator_verdict v EvaluatorVerdict.pass_with_risk
    || not spec.evaluator_required && same_evaluator_verdict v EvaluatorVerdict.not_required

-- a claim of the task, at its evidence target, with a verdict that its specification accepts
unfoldable pub passing : TaskSpec → String → List String → EvidenceClaim → Bool
passing spec task_id refs c =
    elem c.evidence_id refs
    && c.task_id == task_id
    && same_evidence_state c.evidence_state spec.evidence_target
    && verdict_accepted spec c.evaluator_verdict

abbrev pub sealed_run : LoopState → Bool
sealed_run LoopState.delivered = true
sealed_run LoopState.improvement_pending = true
sealed_run _ = false

abbrev pub no_refs : List String → Bool
no_refs [] = true
no_refs (r ∷ rs) = false

abbrev pub roles_for : IntegrationState → List Role
roles_for IntegrationState.delete_pending = Role.release ∷ Role.system ∷ Role.owner ∷ []
roles_for IntegrationState.retire_pending = Role.release ∷ Role.system ∷ Role.owner ∷ []
roles_for _ = Role.release ∷ Role.system ∷ []

abbrev pub is_review_pending : IntegrationState → Bool
is_review_pending s = same_integration_state s IntegrationState.review_pending

module _ (env : Env) where
  -- `_actor_id_in_transaction`
  unfoldable pub actor_id : VerifiedPrincipal → List Role → Exec String
  unfolding ◌>>=◌
  actor_id actor roles = do
    principal ← verify_in_transaction env actor
    assert (shares_role principal.roles roles) transition_error
    pure principal.principal_id

  -- `_validate_evidence`
  unfoldable pub validate_evidence : String → List String → Exec Unit
  unfolding ◌>>=◌
  validate_evidence task_id refs = if no_refs refs then pure tt else (do
    found ← gets (λ w. evidence_found refs w.evidence_claims)
    assert found evidence_error
    own ← gets (λ w. evidence_of_task task_id refs w.evidence_claims)
    assert own evidence_error)

  abbrev pub given_or_fresh : Option String → Exec String
  given_or_fresh none = fresh_id env
  given_or_fresh (some i) = if i == "" then fresh_id env else pure i

  -- `_task`
  unfoldable pub task_of_item : String → Exec (Task × String)
  unfolding ◌>>=◌
  task_of_item task_id = do
    found ← gets (λ w. row task_id_of task_id w.tasks)
    task ← or_raise found not_found
    run_id ← or_raise task.run_id transition_error
    pure (task, run_id)

-- ORDER BY updated_at
abbrev pub insert_by_time : IntegrationItem → List IntegrationItem → List IntegrationItem
insert_by_time i [] = i ∷ []
insert_by_time i (j ∷ js) =
    let later = j ∷ insert_by_time i js in
    if leb i.updated_at j.updated_at then i ∷ j ∷ js else later

unfoldable pub by_time : List IntegrationItem → List IntegrationItem
by_time [] = []
by_time (i ∷ is) = insert_by_time i (by_time is)

abbrev pub items_of : String → List IntegrationItem → List IntegrationItem
items_of task_id items = select (λ (i : IntegrationItem). i.task_id == task_id) items

abbrev pub no_items : List IntegrationItem → Bool
no_items [] = true
no_items (i ∷ is) = false

unfoldable pub require_task_satisfied : String → Bool → Exec (List IntegrationItem)
unfolding ◌>>=◌ by_time
require_task_satisfied task_id allow_no_items = do
  items ← gets (λ w. by_time (items_of task_id w.integration_items))
  assert (not (no_items items) || allow_no_items) transition_error
  assert (all (λ (i : IntegrationItem). final i.state) items) transition_error
  pure items
