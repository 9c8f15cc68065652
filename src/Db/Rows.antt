-- ===== src/Db/Rows.antt =====
-- The rows of the tables of companyos_runtime/schema.py, with the columns that the modelled code
-- reads or writes.
use company_os.Prelude.{ℕ, String, Option, Bool, List}
use company_os.Types.Values.{
  Role, LoopState, TaskState, EvidenceState, EvaluatorVerdict, Capability, IntegrationState,
}
use company_os.Types.Specs.{GoalSpec, TaskSpec}
use company_os.Types.Authority.{
  ProjectSpec, ProgramSpec, CompiledGoalAuthority, CompiledTaskAuthority, DecisionGateContract,
}
use company_os.Db.Payload.{Json}

pub record Principal : Type 0 where
  pub principal_id : String
  pub principal_key : String
  pub display_name : String
  pub credential_version : ℕ
  pub enabled : Bool
  pub updated_at : ℕ
  pub disabled_at : Option ℕ

pub record PrincipalRole : Type 0 where
  pub principal_id : String
  pub role : Role

pub record Session : Type 0 where
  pub session_id : String
  pub principal_id : String
  pub session_token_hash : String
  pub credential_version : ℕ
  pub issued_at : ℕ
  pub expires_at : ℕ
  pub revoked_at : Option ℕ

-- The authority metadata of an event: what a caller gave (`extra`), and what the store adds to it
-- for a core and for a protected event.
pub data AuthContext : Type 0 where
  core :
      (handler : String) (role : Role) (session_id version : String) (extra : List (String × Json))
      → AuthContext
  protected :
      (handler binding_id config_digest event version : String) (extra : List (String × Json))
      → AuthContext
  plain : (extra : List (String × Json)) → AuthContext

pub record Event : Type 0 where
  pub event_id : String
  pub aggregate_type : String
  pub aggregate_id : String
  pub aggregate_version : ℕ
  pub project_id : String
  pub run_id : Option String
  pub task_id : Option String
  pub event_type : String
  pub schema_version : ℕ
  pub actor : String
  pub auth_context : AuthContext
  pub command_id : String
  pub idempotency_key : Option String
  pub correlation_id : String
  pub causation_id : Option String
  pub policy_version : String
  pub occurred_at : ℕ
  pub recorded_at : ℕ
  pub confidentiality : String
  pub payload : Json
  pub payload_digest : String
  pub previous_event_hash : String
  pub event_hash : String

pub record IdempotencyRecord : Type 0 where
  pub project_id : String
  pub scope : String
  pub idempotency_key : String
  pub payload_digest : String
  pub result : Json
  pub event_id : String
  pub created_at : ℕ

pub record Goal : Type 0 where
  pub goal_id : String
  pub project_id : String
  pub spec : GoalSpec

pub record Run : Type 0 where
  pub run_id : String
  pub goal_id : String
  pub project_id : String
  pub loop_state : LoopState
  pub policy_version : String
  pub aggregate_version : ℕ
  pub updated_at : ℕ

pub record Task : Type 0 where
  pub task_id : String
  pub goal_id : String
  pub run_id : Option String
  pub project_id : String
  pub state : TaskState
  pub spec : TaskSpec
  pub aggregate_version : ℕ
  pub attempt_count : ℕ
  pub due_at : Option ℕ
  pub last_error_fingerprint : Option String
  pub created_at : ℕ
  pub updated_at : ℕ

pub record Attempt : Type 0 where
  pub attempt_id : String
  pub task_id : String
  pub run_id : String
  pub attempt_number : ℕ
  pub worker_id : String
  pub state : String
  pub started_at : ℕ
  pub ended_at : Option ℕ
  pub failure_id : Option String

pub record Lease : Type 0 where
  pub resource_key : String
  pub project_id : String
  pub task_id : String
  pub holder : String
  pub fence : ℕ
  pub issued_at : ℕ
  pub expires_at : ℕ
  pub released_at : Option ℕ

pub record Approval : Type 0 where
  pub approval_id : String
  pub project_id : String
  pub goal_id : String
  pub run_id : String
  pub task_id : String
  pub requester : String
  pub approver : Option String
  pub capability : Capability
  pub action : String
  pub resource : String
  pub request_digest : String
  pub authority_binding_digest : Option String
  pub authority_binding_version : Option ℕ
  pub decision_gate : Option String
  pub policy_version : String
  pub decision : String
  pub requested_at : ℕ
  pub decided_at : Option ℕ
  pub expires_at : Option ℕ

pub record Grant : Type 0 where
  pub grant_id : String
  pub project_id : String
  pub goal_id : String
  pub run_id : String
  pub task_id : String
  pub approval_id : Option String
  pub issuer : String
  pub principal : String
  pub capability : Capability
  pub action : String
  pub resource : String
  pub request_digest : String
  pub policy_version : String
  pub not_before : ℕ
  pub expires_at : ℕ
  pub max_uses : ℕ
  pub used_count : ℕ
  pub cost_limit : ℕ
  pub cost_used : ℕ
  pub required_fence : Option ℕ
  pub revoked_at : Option ℕ

pub record EvidenceClaim : Type 0 where
  pub evidence_id : String
  pub run_id : String
  pub task_id : String
  pub evidence_state : EvidenceState
  pub evaluator_verdict : EvaluatorVerdict
  pub created_at : ℕ

pub record Observation : Type 0 where
  pub observation_id : String
  pub project_id : String
  pub run_id : String
  pub surface_key : String
  pub target_identity : String
  pub observer : String
  pub probe_name : String
  pub probe_version : String
  pub trigger_event_id : Option String
  pub status : String
  pub value : Json
  pub value_digest : String
  pub observed_at : ℕ
  pub recorded_at : ℕ
  pub expires_at : ℕ

pub record NegativeResult : Type 0 where
  pub failure_id : String
  pub project_id : String
  pub run_id : Option String
  pub task_id : String
  pub fingerprint : String
  pub failure_class : String
  pub severity : String
  pub repair_route : String
  pub first_seen : ℕ
  pub last_seen : ℕ
  pub recurrence_count : ℕ

pub record IntegrationItem : Type 0 where
  pub integration_id : String
  pub project_id : String
  pub run_id : String
  pub task_id : String
  pub state : IntegrationState
  pub source_ref : String
  pub target_ref : String
  pub owner : String
  pub evidence_refs : List String
  pub updated_at : ℕ

pub record ImprovementProposal : Type 0 where
  pub proposal_id : String
  pub source_run_id : String

pub record CapabilityUsage : Type 0 where
  pub grant_id : String
  pub idempotency_key : String
  pub request_digest : String
  pub cost : ℕ
  pub used_at : ℕ
  pub effect_id : Option String

pub record WorkflowStepRow : Type 0 where
  pub task_id : String
  pub step_id : String
  pub status : String

pub record AdoptedProject : Type 0 where
  pub project_id : String
  pub spec : ProjectSpec

pub record AdoptedProgram : Type 0 where
  pub program_id : String
  pub project_id : String
  pub spec : ProgramSpec

pub record GoalAuthorityBinding : Type 0 where
  pub goal_id : String
  pub project_id : String
  pub authority_digest : String
  pub authority : CompiledGoalAuthority

pub record TaskAuthorityBinding : Type 0 where
  pub task_id : String
  pub project_id : String
  pub program_id : String
  pub goal_id : String
  pub authority_digest : String
  -- the stored text, and what `from_dict` reads from it
  pub authority_json : String
  pub authority : CompiledTaskAuthority
  pub provider_budget_minor_units : ℕ
  pub provider_call_limit : ℕ
  pub required_decision_gates : List DecisionGateContract
  pub source_event_id : String
