-- ===== src/Policy/Authority.antt =====
-- companyos_runtime/policy.py: the compiled authority of a task, checked against its parents and its
-- source event.
use company_os.Prelude.{
  String, Bool, true, false, ◌&&◌, Option, none, some, List, [], ◌∷◌, select, head?, row, eqb,
  is_text, is_none, if◌then◌else◌, ◌==◌,
}
use company_os.Result.{Result, ok, err, authorization_error, guard, some_or, ◌>>=◌, ◌>>◌}
use company_os.Types.Equality.{same_capability}
use company_os.Types.Authority.{
  AuthorityRef, ProjectSpec, ProgramSpec, CompiledGoalAuthority, DecisionGateContract,
  CompiledTaskAuthority,
}
use company_os.Types.Documents.{
  project_to_dict, program_to_dict, goal_authority_to_dict, task_authority_to_dict,
}
use company_os.Db.{World, Env}
use company_os.Db.Payload.{Json}
use company_os.Db.Rows.{
  Event, Task, AdoptedProject, AdoptedProgram, GoalAuthorityBinding, TaskAuthorityBinding,
}

abbrev pub task_id_of : Task → String
task_id_of t = t.task_id

abbrev project_key : AdoptedProject → String
project_key p = p.project_id

abbrev binding_key : TaskAuthorityBinding → String
binding_key b = b.task_id

abbrev event_key : Event → String
event_key e = e.event_id

abbrev same_ref : AuthorityRef → AuthorityRef → Bool
same_ref r s =
    r.kind == s.kind
    && r.object_id == s.object_id
    && eqb r.version s.version
    && r.digest == s.digest

abbrev same_contract : DecisionGateContract → DecisionGateContract → Bool
same_contract c d =
    c.gate_id == d.gate_id
    && same_capability c.capability d.capability
    && c.action == d.action
    && c.resource == d.resource
    && c.request_digest == d.request_digest

abbrev same_contracts : List DecisionGateContract → List DecisionGateContract → Bool
same_contracts [] [] = true
same_contracts [] (d ∷ ds) = false
same_contracts (c ∷ cs) [] = false
same_contracts (c ∷ cs) (d ∷ ds) = same_contract c d && same_contracts cs ds

abbrev pub Validated : Type 0
Validated = Option (CompiledTaskAuthority × TaskAuthorityBinding)

module _ (env : Env) where
  -- `content_hash` of an object
  abbrev pub content_hash : Json → String
  content_hash value = env.sha256 (env.canonical_json value)

  abbrev project_reference : ProjectSpec → AuthorityRef
  project_reference p = record {
    kind = "project";
    object_id = p.project_id;
    version = p.version;
    digest = content_hash (project_to_dict p);
  }

  abbrev program_reference : ProgramSpec → AuthorityRef
  program_reference p = record {
    kind = "program";
    object_id = p.program_id;
    version = p.version;
    digest = content_hash (program_to_dict p);
  }

  abbrev goal_reference : CompiledGoalAuthority → AuthorityRef
  goal_reference g = record {
    kind = "goal";
    object_id = g.goal_spec.goal_id;
    version = g.version;
    digest = content_hash (goal_authority_to_dict g);
  }

  -- the event that bound the authority says what the binding's row says
  abbrev source_matches : String → TaskAuthorityBinding → Option Event → Bool
  source_matches task_id b none = false
  source_matches task_id b (some e) =
      let canonical = env.canonical_json (task_authority_to_dict b.authority) in
      e.aggregate_type == "task_authority"
      && e.aggregate_id == task_id
      && e.project_id == b.project_id
      && is_text e.task_id task_id
      && e.event_type == "task_authority_bound"
      && env.canonical_json e.payload == canonical
      && e.payload_digest == env.sha256 canonical
      && b.authority_json == canonical

  abbrev binding_matches : Task → TaskAuthorityBinding → Bool
  binding_matches t b =
      let a = b.authority in
      a.task_spec.task_id == t.task_id
      && a.task_spec.goal_id == t.goal_id
      && a.project_ref.object_id == t.project_id
      && a.goal_ref.object_id == t.goal_id
      && content_hash (task_authority_to_dict a) == b.authority_digest
      && eqb b.provider_budget_minor_units a.provider_budget_minor_units
      && eqb b.provider_call_limit a.provider_call_limit
      && same_contracts b.required_decision_gates a.decision_gate_contracts

  abbrev parents_current :
      CompiledTaskAuthority → AdoptedProject → AdoptedProgram → GoalAuthorityBinding → Bool
  parents_current a project program goal =
      same_ref a.project_ref (project_reference project.spec)
      && same_ref a.program_ref (program_reference program.spec)
      && same_ref a.goal_ref (goal_reference goal.authority)
      && content_hash (goal_authority_to_dict goal.authority) == goal.authority_digest

  abbrev validated_at :
      Task
      → Option AdoptedProject
      → Option TaskAuthorityBinding
      → List Event
      → List AdoptedProgram
      → List GoalAuthorityBinding
      → Result Validated
  validated_at t adopted none events programs goals =
      if is_none adopted then ok none else err authorization_error
  validated_at t adopted (some b) events programs goals = do
    guard (source_matches t.task_id b (row event_key b.source_event_id events)) authorization_error
    guard (binding_matches t b) authorization_error
    project ← some_or adopted authorization_error
    program ←
        some_or
          (head?
            (select (λ p. p.program_id == b.program_id && p.project_id == t.project_id) programs))
          authorization_error
    goal ←
        some_or (head? (select (λ g. g.goal_id == t.goal_id && g.project_id == t.project_id) goals))
          authorization_error
    guard (parents_current b.authority project program goal) authorization_error
    ok (some (b.authority, b))

  -- `_validated_task_authority_binding`
  unfoldable pub validated_task_authority_binding : String → World → Result Validated
  unfolding row project_to_dict program_to_dict goal_authority_to_dict task_authority_to_dict
  validated_task_authority_binding task_id w = do
    t ← some_or (row task_id_of task_id w.tasks) authorization_error
    validated_at t (row project_key t.project_id w.adopted_projects)
        (row binding_key task_id w.task_authority_bindings) w.events w.adopted_programs
        w.goal_authority_bindings
