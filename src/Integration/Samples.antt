-- ===== src/Integration/Samples.antt =====
-- Examples of the integration queue.
use company_os.Store.Entry.{envelope}
use company_os.Samples.{encode, sample_env, sample_world, ada_holder, returned, left_behind}
use company_os.Store.Append.{append_event}
use company_os.Policy.Authority.{validated_task_authority_binding, task_id_of}
use company_os.Identity.{verify_in_transaction}
use company_os.Types.Values.{
  parse_integration_state, IntegrationState, EvidenceState, EvaluatorVerdict,
}
use company_os.Prelude.{
  Bool, any, all, modify, not, ◌&&◌, ◌||◌, ◌==◌, ◌≡◌, refl, true, false, some, List, [], ◌∷◌, row,
  String,
}
use company_os.Result.{ok, transition_error}
use company_os.StateMachine.Tasks.{terminal}
use company_os.Text.{strip, required_texts, distinct}
use company_os.Db.{World}
use company_os.Db.Rows.{IntegrationItem, EvidenceClaim, Task}
use company_os.Exec.{each}
use company_os.Integration.{final, integration_key, same_content, require_task_satisfied, by_time}
use company_os.Integration.Changes.{advance}
use company_os.Integration.Creation.{create}
use company_os.Exec.Reads.{OnlyReads}
use company_os.Integration.Items.{Evolves}
use company_os.Integration.Evidence.{Backed}
use company_os.Integration.History.{
  Call, creating, advancing, perform, calls_move_legally, final_items_stay,
}
use company_os.Integration.Satisfied.{in_order, satisfied_items}
use company_os.Integration.Delivery.{final_needs_evidence, create_reuses}

abbrev pub item : IntegrationItem
item = record {
  integration_id = "i";
  project_id = "p";
  run_id = "r";
  task_id = "t";
  state = IntegrationState.review_pending;
  source_ref = "a";
  target_ref = "b";
  owner = "ada";
  evidence_refs = [];
  updated_at = 0;
}

abbrev pub claim : EvidenceClaim
claim = record {
  evidence_id = "e";
  run_id = "r";
  task_id = "t";
  evidence_state = EvidenceState.structure;
  evaluator_verdict = EvaluatorVerdict.pass;
  created_at = 0;
}

abbrev queue_world : World
queue_world = record sample_world { integration_items = item ∷ []; evidence_claims = claim ∷ [] }

abbrev delivering : List Call
delivering = advancing "i" "delivered" ada_holder ("e" ∷ []) "done" ∷ []

abbrev delivered_item : IntegrationItem
unfolding advance
delivered_item =
    returned item (advance sample_env "v" "i" "delivered" ada_holder ("e" ∷ []) "done" queue_world)

abbrev delivered_world : World
unfolding advance
delivered_world =
    left_behind (advance sample_env "v" "i" "delivered" ada_holder ("e" ∷ []) "done" queue_world)

final_needs_evidence_example :
    (i : IntegrationItem) × (row integration_key (strip "i") queue_world.integration_items ≡ some i)
    × ((t : Task) × (row task_id_of i.task_id queue_world.tasks ≡ some t)
        × (terminal t.state ≡ false)
        × Backed sample_env "v" 0 queue_world i t.spec delivered_item.evidence_refs)
unfolding advance strip parse_integration_state verify_in_transaction row
    validated_task_authority_binding append_event encode envelope modify
final_needs_evidence_example =
    final_needs_evidence sample_env "v" "i" "delivered" ada_holder ("e" ∷ []) "done" queue_world
      delivered_item delivered_world refl refl

calls_move_legally_example :
    (j : IntegrationItem) × (row integration_key "i" delivered_world.integration_items ≡ some j)
    × Evolves item j
unfolding perform advance each strip parse_integration_state verify_in_transaction row
    validated_task_authority_binding append_event encode envelope modify
calls_move_legally_example =
    calls_move_legally sample_env "v" delivering queue_world delivered_world "i" item refl refl

abbrev final_item : IntegrationItem
final_item = record item { state = IntegrationState.delivered; evidence_refs = "e" ∷ [] }

abbrev final_world : World
final_world = record queue_world { integration_items = final_item ∷ [] }

abbrev creating_another : List Call
creating_another = creating "t" "a" "b" ada_holder "review_pending" [] (some "j") ∷ []

abbrev world_with_two : World
unfolding perform each
world_with_two = left_behind (each (perform sample_env "v") creating_another final_world)

final_items_stay_example :
    row integration_key "i" world_with_two.integration_items ≡ some final_item
unfolding perform each create strip parse_integration_state verify_in_transaction row append_event
    encode envelope
final_items_stay_example =
    final_items_stay sample_env "v" creating_another final_world world_with_two "i" final_item refl
      refl refl

create_reuses_example :
    (item ≡ item)
    × OnlyReads queue_world (record queue_world { ticks = 1 })
    × ((ts : List String) × (required_texts transition_error [] ≡ ok ts)
        × (same_content item
              (strip "t")
              (strip "a")
              (strip "b")
              ada_holder.principal_id
              IntegrationState.review_pending
              (distinct ts)
            ≡ true))
unfolding create strip parse_integration_state verify_in_transaction row
create_reuses_example =
    create_reuses sample_env "v" "t" "a" "b" ada_holder "review_pending" [] "i" queue_world item
      (record queue_world { ticks = 1 }) item refl refl refl

abbrev other_item : IntegrationItem
other_item = record final_item { integration_id = "k"; task_id = "u"; updated_at = 5 }

abbrev later_item : IntegrationItem
later_item = record final_item { integration_id = "j"; updated_at = 7 }

abbrev finished_world : World
finished_world = record queue_world {
  integration_items = later_item ∷ other_item ∷ final_item ∷ [];
}

abbrev is_later : IntegrationItem → Bool
is_later i = i.integration_id == "j"

satisfied_items_example :
    (finished_world ≡ finished_world)
    × (any is_later (final_item ∷ later_item ∷ [])
        ≡ any (λ i. i.task_id == "t" && is_later i) finished_world.integration_items)
    × (in_order (final_item ∷ later_item ∷ []) ≡ true)
    × (all (λ i. not (i.task_id == "t") || final i.state) finished_world.integration_items ≡ true)
    × ((any (λ i. i.task_id == "t" && true) finished_world.integration_items || false) ≡ true)
unfolding require_task_satisfied by_time
satisfied_items_example =
    satisfied_items is_later "t" false finished_world (final_item ∷ later_item ∷ []) finished_world
      refl
