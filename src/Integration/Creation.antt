-- ===== src/Integration/Creation.antt =====
-- companyos_runtime/integration.py: `create`.
use company_os.Prelude.{
  ℕ, String, not, ◌&&◌, Option, none, some, List, [], ◌∷◌, select, head?, row, ◌==◌,
}
use company_os.Result.{transition_error, not_found, integrity_error, type_error}
use company_os.Types.Values.{Role, IntegrationState, parse_integration_state}
use company_os.StateMachine.Tasks.{terminal}
use company_os.Text.{required_text, required_texts, distinct}
use company_os.Db.{Env}
use company_os.Db.Payload.{text, arr, obj, fields, texts}
use company_os.Db.Rows.{IntegrationItem, Task, Event}
use company_os.Identity.{VerifiedPrincipal}
use company_os.Exec.{
  Exec, pure, lift, gets, or_raise, change, assert, read_now, fresh_id, ◌>>=◌, ◌>>◌,
}
use company_os.Store.Entry.{plain_entry}
use company_os.Store.Append.{append_event}
use company_os.Integration.{
  integration_key, same_content, sealed_run, is_review_pending, actor_id, validate_evidence,
  given_or_fresh, task_of_item,
}

module _ (env : Env) where
  module _ (policy_version : String) where
    unfoldable pub created_event :
        String → String → String → String → String → List String → Task → String → Exec Event
    unfolding ◌>>=◌
    created_event integration_id task_id source_ref target_ref owner refs task run_id = do
      command_id ← fresh_id env
      append_event env (
          plain_entry "integration" integration_id 0 task.project_id run_id task_id
            "integration_item_created" owner command_id policy_version
            (obj (
              fields (
                ("state", text "review_pending")
                ∷ ("source_ref", text source_ref)
                ∷ ("target_ref", text target_ref)
                ∷ ("owner", text owner)
                ∷ ("evidence_refs", arr (texts refs))
                ∷ []))))

    abbrev pub new_item :
        String
        → String
        → String
        → String
        → String
        → List String
        → Task
        → String
        → ℕ
        → IntegrationItem
    new_item integration_id task_id source_ref target_ref owner refs task run_id now = record {
      integration_id = integration_id;
      project_id = task.project_id;
      run_id = run_id;
      task_id = task_id;
      state = IntegrationState.review_pending;
      source_ref = source_ref;
      target_ref = target_ref;
      owner = owner;
      evidence_refs = refs;
      updated_at = now;
    }

    -- INSERT, and the row that is read back
    unfoldable pub store_item : IntegrationItem → Exec IntegrationItem
    unfolding ◌>>=◌
    store_item item = do
      change (λ w. record w { integration_items = item ∷ w.integration_items })
      inserted ← gets (λ w. row integration_key item.integration_id w.integration_items)
      or_raise inserted type_error

    unfoldable pub insert_item :
        String
        → String
        → String
        → String
        → String
        → List String
        → Task
        → String
        → Exec IntegrationItem
    unfolding ◌>>=◌ created_event store_item
    insert_item integration_id task_id source_ref target_ref owner refs task run_id = do
      now ← read_now env
      created_event integration_id task_id source_ref target_ref owner refs task run_id
      store_item (new_item integration_id task_id source_ref target_ref owner refs task run_id now)

    -- what `create` checks for an id that has no item yet
    unfoldable pub check_new : String → List String → Exec (Task × String)
    unfolding ◌>>=◌ task_of_item validate_evidence
    check_new task_id refs = do
      (task, run_id) ← task_of_item env task_id
      assert (not (terminal task.state)) transition_error
      found ←
          gets (λ w.
            head? (select (λ r. r.run_id == run_id && r.project_id == task.project_id) w.runs))
      run ← or_raise found not_found
      assert (not (sealed_run run.loop_state)) transition_error
      validate_evidence env task_id refs
      pure (task, run_id)

    unfoldable pub create_new :
        String → String → String → String → String → List String → Exec IntegrationItem
    unfolding ◌>>=◌ check_new insert_item
    create_new integration_id task_id source_ref target_ref owner refs = do
      checked ← check_new task_id refs
      insert_item integration_id task_id source_ref target_ref owner refs checked.0 checked.1

    abbrev pub create_at :
        Option IntegrationItem
        → String
        → String
        → String
        → String
        → String
        → List String
        → Exec IntegrationItem
    create_at none integration_id task_id source_ref target_ref owner refs =
        create_new integration_id task_id source_ref target_ref owner refs
    create_at (some i) integration_id task_id source_ref target_ref owner refs = do
      assert
          (same_content i task_id source_ref target_ref owner IntegrationState.review_pending refs)
          integrity_error
      pure i

    unfoldable pub create :
        (task_id source_ref target_ref : String) (owner : VerifiedPrincipal)
        (initial_state : String) (evidence_refs : List String) (integration_id : Option String)
        → Exec IntegrationItem
    unfolding ◌>>=◌ required_text actor_id create_new
    create task_id source_ref target_ref owner initial_state evidence_refs integration_id = do
      task_id ← lift (required_text transition_error task_id)
      source_ref ← lift (required_text transition_error source_ref)
      target_ref ← lift (required_text transition_error target_ref)
      state ← or_raise (parse_integration_state initial_state) transition_error
      assert (is_review_pending state) transition_error
      refs ← lift (required_texts transition_error evidence_refs)
      given ← given_or_fresh env integration_id
      integration_id ← lift (required_text transition_error given)
      owner_id ← actor_id env owner (Role.release ∷ Role.system ∷ [])
      existing ← gets (λ w. row integration_key integration_id w.integration_items)
      create_at existing integration_id task_id source_ref target_ref owner_id (distinct refs)
