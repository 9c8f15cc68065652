-- ===== src/Types/Authority.antt =====
-- The authority contracts of companyos_runtime/authority.py, as they are kept after validation.
use company_os.Prelude.{ℕ, String, Bool, List}
use company_os.Types.Values.{Capability}
use company_os.Types.Specs.{RuntimeSurfaceSpec, GoalSpec, TaskSpec}

pub record AuthorityRef : Type 0 where
  pub kind : String
  pub object_id : String
  pub version : ℕ
  pub digest : String

pub record AuthorityBounds : Type 0 where
  pub capabilities : List Capability
  pub read_scope : List String
  pub write_scope : List String
  pub forbidden_scope : List String
  pub required_runtime_surfaces : List RuntimeSurfaceSpec
  pub provider_budget_minor_units : ℕ
  pub provider_call_limit : ℕ
  pub budget_currency : String
  pub evaluator_required : Bool
  pub required_decision_gates : List String

pub data ProgramState : Type 0 where
  compiled active delivered canceled retired : ProgramState

pub record ProjectSpec : Type 0 where
  pub project_id : String
  pub version : ℕ
  pub target_outcome : String
  pub authority : AuthorityBounds

pub record ProgramSpec : Type 0 where
  pub program_id : String
  pub version : ℕ
  pub project_ref : AuthorityRef
  pub objective : String
  pub state : ProgramState
  pub dependency_refs : List AuthorityRef
  pub wave : ℕ
  pub authority : AuthorityBounds

pub record CompiledGoalAuthority : Type 0 where
  pub version : ℕ
  pub project_ref : AuthorityRef
  pub program_ref : AuthorityRef
  pub required_decision_gates : List String
  pub goal_spec : GoalSpec

pub record DecisionGateContract : Type 0 where
  pub gate_id : String
  pub capability : Capability
  pub action : String
  pub resource : String
  pub request_digest : String

pub record CompiledTaskAuthority : Type 0 where
  pub version : ℕ
  pub project_ref : AuthorityRef
  pub program_ref : AuthorityRef
  pub goal_ref : AuthorityRef
  pub required_decision_gates : List String
  pub decision_gate_contracts : List DecisionGateContract
  pub provider_budget_minor_units : ℕ
  pub provider_call_limit : ℕ
  pub budget_currency : String
  pub task_spec : TaskSpec
