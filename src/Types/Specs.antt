-- ===== src/Types/Specs.antt =====
-- GoalSpec, TaskSpec and their parts, as companyos_runtime/types.py keeps them after validation.
use company_os.Prelude.{ℕ, String, Bool, List}
use company_os.Types.Values.{EvidenceState, Capability}

pub record RuntimeSurfaceSpec : Type 0 where
  pub surface_key : String
  pub target_identity : String
  pub allowed_probes : List String
  pub max_ttl_seconds : ℕ
  pub trigger_event_required : Bool

pub record WorkflowStep : Type 0 where
  pub step_id : String
  pub adapter : String
  pub action : String
  pub resource : String
  pub request_digest : String

pub record GoalSpec : Type 0 where
  pub goal_id : String
  pub target_outcome : String
  pub success_evidence_states : List EvidenceState
  pub read_scope : List String
  pub write_scope : List String
  pub forbidden_scope : List String
  pub allowed_capabilities : List Capability
  pub required_runtime_surfaces : List RuntimeSurfaceSpec
  pub evaluator_required : Bool
  pub max_iterations_without_evidence : ℕ
  pub provider_budget_minor_units : ℕ
  pub provider_call_limit : ℕ
  pub budget_currency : String
  pub non_goals : List String

pub record TaskSpec : Type 0 where
  pub task_id : String
  pub goal_id : String
  pub objective : String
  pub expected_delta : String
  pub primary_surface : String
  pub evidence_target : EvidenceState
  pub capabilities : List Capability
  pub read_scope : List String
  pub write_scope : List String
  pub forbidden_scope : List String
  pub required_runtime_surfaces : List RuntimeSurfaceSpec
  pub evaluator_required : Bool
  pub integration_required : Bool
  pub workflow_steps : List WorkflowStep
  pub max_attempts : ℕ
