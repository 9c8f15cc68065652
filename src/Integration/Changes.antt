-- ===== src/Integration/Changes.antt =====
-- companyos_runtime/integration.py: `advance`.
use company_os.Prelude.{
  String, true, not, none, List, [], ◌∷◌, ◌++◌, any, row, modify, if◌then◌else◌,
}
use company_os.Result.{transition_error, not_found, evidence_error, integrity_error, type_error}
use company_os.Types.Values.{IntegrationState, parse_integration_state, integration_state_value}
use company_os.StateMachine.Tasks.{terminal}
use company_os.Text.{required_text, required_texts, distinct}
use company_os.Db.{Env}
use company_os.Db.Payload.{text, arr, obj, fields, texts}
use company_os.Db.Rows.{IntegrationItem, Task, Event}
use company_os.Identity.{VerifiedPrincipal}
use company_os.Exec.{
  Exec, pure, lift, gets, or_raise, change, assert, read_now, fresh_id, ◌>>=◌, ◌>>◌,
}
use company_os.Store.Entry.{plain_entry, max_version}
use company_os.Store.Append.{append_event}
use company_os.Policy.Authority.{task_id_of}
use company_os.Policy.Gates.{required_decision_gates_satisfied}
use company_os.Integration.{
  final, allows, integration_key, passing, no_refs, roles_for, actor_id, validate_evidence,
}

module _ (env : Env) where
  module _ (policy_version : String) where
    -- what `advance` wants of a final target
    unfoldable pub require_final : IntegrationItem → Task → List String → Exec Unit
    unfolding ◌>>=◌ required_decision_gates_satisfied validate_evidence passing
    require_final item task all_refs = do
      gates ← required_decision_gates_satisfied env item.task_id none none
      assert gates transition_error
      assert (not (no_refs all_refs)) evidence_error
      validate_evidence env item.task_id all_refs
      passed ← gets (λ w. any (passing task.spec item.task_id all_refs) w.evidence_claims)
      assert passed evidence_error

    unfoldable pub changed_event :
        IntegrationItem → IntegrationState → String → String → List String → Exec Event
    unfolding ◌>>=◌
    changed_event item target actor reason refs = do
      version ← gets (λ w. max_version "integration" item.integration_id w.events)
      command_id ← fresh_id env
      append_event env (
          plain_entry "integration" item.integration_id version item.project_id item.run_id
            item.task_id "integration_state_changed" actor command_id policy_version
            (obj (
              fields (
                ("from", text (integration_state_value item.state))
                ∷ ("to", text (integration_state_value target))
                ∷ ("reason", text reason)
                ∷ ("evidence_refs", arr (texts refs))
                ∷ []))))

    -- UPDATE, and the row that is read back
    unfoldable pub store_state : String → IntegrationState → List String → Exec IntegrationItem
    unfolding ◌>>=◌
    store_state integration_id target all_refs = do
      now ← read_now env
      change (λ w. record w {
        integration_items =
            modify integration_key integration_id (λ i. true)
              (λ i. record i { state = target; evidence_refs = all_refs; updated_at = now })
              w.integration_items;
      })
      updated ← gets (λ w. row integration_key integration_id w.integration_items)
      or_raise updated type_error

    -- what `advance` checks from the row of the item on
    unfoldable pub check_change :
        IntegrationItem → IntegrationState → List String → List String → Exec Unit
    unfolding ◌>>=◌ allows validate_evidence require_final
    check_change item target refs all_refs = do
      found ← gets (λ w. row task_id_of item.task_id w.tasks)
      task ← or_raise found integrity_error
      assert (not (terminal task.state)) transition_error
      assert (allows item.state target) transition_error
      validate_evidence env item.task_id refs
      if final target then require_final item task all_refs else pure tt

    unfoldable pub advance_item :
        IntegrationItem → IntegrationState → String → String → List String → Exec IntegrationItem
    unfolding ◌>>=◌ check_change changed_event store_state
    advance_item item target actor reason refs = do
      let all_refs = distinct (item.evidence_refs ++ refs)
      check_change item target refs all_refs
      changed_event item target actor reason refs
      store_state item.integration_id target all_refs

    unfoldable pub advance :
        (integration_id target : String) (actor : VerifiedPrincipal) (evidence_refs : List String)
        (reason : String)
        → Exec IntegrationItem
    unfolding ◌>>=◌ required_text actor_id advance_item
    advance integration_id target actor evidence_refs reason = do
      integration_id ← lift (required_text transition_error integration_id)
      reason ← lift (required_text transition_error reason)
      target_state ← or_raise (parse_integration_state target) transition_error
      refs ← lift (required_texts transition_error evidence_refs)
      actor ← actor_id env actor (roles_for target_state)
      found ← gets (λ w. row integration_key integration_id w.integration_items)
      item ← or_raise found not_found
      advance_item item target_state actor reason (distinct refs)
