-- ===== src/Types/Documents.antt =====
-- The objects that `to_dict` makes of the contracts in companyos_runtime/types.py and authority.py,
-- for the digests that are taken of them.
use company_os.Prelude.{String, List, [], ◌∷◌, map}
use company_os.Types.Values.{Capability, capability_value, evidence_state_value}
use company_os.Types.Specs.{RuntimeSurfaceSpec, WorkflowStep, GoalSpec, TaskSpec}
use company_os.Types.Authority.{
  AuthorityRef, AuthorityBounds, ProgramState, ProjectSpec, ProgramSpec, CompiledGoalAuthority,
  DecisionGateContract, CompiledTaskAuthority,
}
use company_os.Db.Payload.{Json, Items, num, bool, text, arr, obj, nil, cons, fields, texts}

abbrev items : List Json → Items
items [] = nil
items (j ∷ js) = cons j (items js)

abbrev capability_list : List Capability → Json
capability_list cs = arr (texts (map capability_value cs))

abbrev text_list : List String → Json
text_list ss = arr (texts ss)

abbrev pub surface_to_dict : RuntimeSurfaceSpec → Json
surface_to_dict s = obj (
    fields (
      ("surface_key", text s.surface_key)
      ∷ ("target_identity", text s.target_identity)
      ∷ ("allowed_probes", text_list s.allowed_probes)
      ∷ ("max_ttl_seconds", num s.max_ttl_seconds)
      ∷ ("trigger_event_required", bool s.trigger_event_required)
      ∷ []))

abbrev surfaces : List RuntimeSurfaceSpec → Json
surfaces ss = arr (items (map surface_to_dict ss))

abbrev step_to_dict : WorkflowStep → Json
step_to_dict s = obj (
    fields (
      ("step_id", text s.step_id)
      ∷ ("adapter", text s.adapter)
      ∷ ("action", text s.action)
      ∷ ("resource", text s.resource)
      ∷ ("request_digest", text s.request_digest)
      ∷ []))

unfoldable pub goal_to_dict : GoalSpec → Json
goal_to_dict g = obj (
    fields (
      ("goal_id", text g.goal_id)
      ∷ ("target_outcome", text g.target_outcome)
      ∷ ("success_evidence_states", text_list (map evidence_state_value g.success_evidence_states))
      ∷ ("read_scope", text_list g.read_scope)
      ∷ ("write_scope", text_list g.write_scope)
      ∷ ("forbidden_scope", text_list g.forbidden_scope)
      ∷ ("allowed_capabilities", capability_list g.allowed_capabilities)
      ∷ ("required_runtime_surfaces", surfaces g.required_runtime_surfaces)
      ∷ ("evaluator_required", bool g.evaluator_required)
      ∷ ("max_iterations_without_evidence", num g.max_iterations_without_evidence)
      ∷ ("provider_budget_minor_units", num g.provider_budget_minor_units)
      ∷ ("provider_call_limit", num g.provider_call_limit)
      ∷ ("budget_currency", text g.budget_currency)
      ∷ ("non_goals", text_list g.non_goals)
      ∷ []))

unfoldable pub task_to_dict : TaskSpec → Json
task_to_dict t = obj (
    fields (
      ("task_id", text t.task_id)
      ∷ ("goal_id", text t.goal_id)
      ∷ ("objective", text t.objective)
      ∷ ("expected_delta", text t.expected_delta)
      ∷ ("primary_surface", text t.primary_surface)
      ∷ ("evidence_target", text (evidence_state_value t.evidence_target))
      ∷ ("capabilities", capability_list t.capabilities)
      ∷ ("read_scope", text_list t.read_scope)
      ∷ ("write_scope", text_list t.write_scope)
      ∷ ("forbidden_scope", text_list t.forbidden_scope)
      ∷ ("required_runtime_surfaces", surfaces t.required_runtime_surfaces)
      ∷ ("evaluator_required", bool t.evaluator_required)
      ∷ ("integration_required", bool t.integration_required)
      ∷ ("workflow_steps", arr (items (map step_to_dict t.workflow_steps)))
      ∷ ("max_attempts", num t.max_attempts)
      ∷ []))

abbrev ref_to_dict : AuthorityRef → Json
ref_to_dict r = obj (
    fields (
      ("kind", text r.kind)
      ∷ ("object_id", text r.object_id)
      ∷ ("version", num r.version)
      ∷ ("digest", text r.digest)
      ∷ []))

abbrev bounds_to_dict : AuthorityBounds → Json
bounds_to_dict b = obj (
    fields (
      ("capabilities", capability_list b.capabilities)
      ∷ ("read_scope", text_list b.read_scope)
      ∷ ("write_scope", text_list b.write_scope)
      ∷ ("forbidden_scope", text_list b.forbidden_scope)
      ∷ ("required_runtime_surfaces", surfaces b.required_runtime_surfaces)
      ∷ ("provider_budget_minor_units", num b.provider_budget_minor_units)
      ∷ ("provider_call_limit", num b.provider_call_limit)
      ∷ ("budget_currency", text b.budget_currency)
      ∷ ("evaluator_required", bool b.evaluator_required)
      ∷ ("required_decision_gates", text_list b.required_decision_gates)
      ∷ []))

unfoldable pub project_to_dict : ProjectSpec → Json
project_to_dict p = obj (
    fields (
      ("schema_version", text "companyos.project-spec.v1")
      ∷ ("project_id", text p.project_id)
      ∷ ("version", num p.version)
      ∷ ("target_outcome", text p.target_outcome)
      ∷ ("authority", bounds_to_dict p.authority)
      ∷ []))

abbrev program_state_value : ProgramState → String
program_state_value ProgramState.compiled = "compiled"
program_state_value ProgramState.active = "active"
program_state_value ProgramState.delivered = "delivered"
program_state_value ProgramState.canceled = "canceled"
program_state_value ProgramState.retired = "retired"

unfoldable pub program_to_dict : ProgramSpec → Json
program_to_dict p = obj (
    fields (
      ("schema_version", text "companyos.program-spec.v1")
      ∷ ("program_id", text p.program_id)
      ∷ ("version", num p.version)
      ∷ ("project_ref", ref_to_dict p.project_ref)
      ∷ ("objective", text p.objective)
      ∷ ("state", text (program_state_value p.state))
      ∷ ("dependency_refs", arr (items (map ref_to_dict p.dependency_refs)))
      ∷ ("wave", num p.wave)
      ∷ ("authority", bounds_to_dict p.authority)
      ∷ []))

unfoldable pub goal_authority_to_dict : CompiledGoalAuthority → Json
unfolding goal_to_dict
goal_authority_to_dict a = obj (
    fields (
      ("schema_version", text "companyos.compiled-goal-authority.v1")
      ∷ ("version", num a.version)
      ∷ ("project_ref", ref_to_dict a.project_ref)
      ∷ ("program_ref", ref_to_dict a.program_ref)
      ∷ ("required_decision_gates", text_list a.required_decision_gates)
      ∷ ("goal_spec", goal_to_dict a.goal_spec)
      ∷ []))

abbrev contract_to_dict : DecisionGateContract → Json
contract_to_dict c = obj (
    fields (
      ("gate_id", text c.gate_id)
      ∷ ("capability", text (capability_value c.capability))
      ∷ ("action", text c.action)
      ∷ ("resource", text c.resource)
      ∷ ("request_digest", text c.request_digest)
      ∷ []))

unfoldable pub task_authority_to_dict : CompiledTaskAuthority → Json
unfolding task_to_dict
task_authority_to_dict a = obj (
    fields (
      ("schema_version", text "companyos.compiled-task-authority.v1")
      ∷ ("version", num a.version)
      ∷ ("project_ref", ref_to_dict a.project_ref)
      ∷ ("program_ref", ref_to_dict a.program_ref)
      ∷ ("goal_ref", ref_to_dict a.goal_ref)
      ∷ ("required_decision_gates", text_list a.required_decision_gates)
      ∷ ("decision_gate_contracts", arr (items (map contract_to_dict a.decision_gate_contracts)))
      ∷ ("provider_budget_minor_units", num a.provider_budget_minor_units)
      ∷ ("provider_call_limit", num a.provider_call_limit)
      ∷ ("budget_currency", text a.budget_currency)
      ∷ ("task_spec", task_to_dict a.task_spec)
      ∷ []))
