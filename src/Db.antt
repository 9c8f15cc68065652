-- ===== src/Db.antt =====
-- The SQLite database (companyos_runtime/schema.py) and the process state beside it, as one value.
-- A table is a list of rows. An instant is a number of microseconds; the texts that SQLite stores
-- for it are in the order of the instants. A JSON column holds the value that was encoded.
pub mod Payload
pub mod Rows
use company_os.Prelude.{ℕ, String, Option, Bool, List}
use company_os.Db.Payload.{Json}
use company_os.Db.Rows.{
  Principal, PrincipalRole, Session, Event, IdempotencyRecord, Goal, Run, Task, Attempt, Lease,
  Approval, Grant, EvidenceClaim, Observation, NegativeResult, IntegrationItem, ImprovementProposal,
  CapabilityUsage, WorkflowStepRow, AdoptedProject, AdoptedProgram, GoalAuthorityBinding,
  TaskAuthorityBinding,
}

-- What the runtime takes from Python's libraries and the operating system. `now i` and `uuid i` are
-- the answers to the i-th reading of the clock and the i-th call of `uuid.uuid4`. `julianday` is what
-- SQLite's function of that name reads from the text of an instant: it is coarser than the text.
pub record Env : Type 0 where
  pub now : ℕ → ℕ
  pub uuid : ℕ → String
  pub julianday : ℕ → ℕ
  pub sha256 : String → String
  pub canonical_json : Json → String

-- A command authority is an object, told apart by its identity, here a number. `alive` says that the
-- weak reference to the owner still leads to an object.
pub record Binding : Type 0 where
  pub authority : ℕ
  pub handler : String
  pub owner : ℕ
  pub alive : Bool
  pub authority_kind : String
  pub binding_id : String
  pub config_digest : String

-- store.py, `_AuthorityDomain`; `objects` counts the authority objects made so far.
pub record AuthorityDomain : Type 0 where
  pub command_authorities : List Binding
  pub protected_handler_configs : List (String × String)
  pub protected_runtime_types : List (String × List String)
  pub objects : ℕ

pub record World : Type 0 where
  pub principals : List Principal
  pub principal_roles : List PrincipalRole
  pub sessions : List Session
  -- newest first
  pub events : List Event
  pub idempotency_records : List IdempotencyRecord
  pub goals : List Goal
  pub runs : List Run
  pub tasks : List Task
  pub attempts : List Attempt
  pub leases : List Lease
  pub approvals : List Approval
  pub grants : List Grant
  pub evidence_claims : List EvidenceClaim
  pub observations : List Observation
  pub negative_results : List NegativeResult
  pub integration_items : List IntegrationItem
  pub improvement_proposals : List ImprovementProposal
  pub capability_usage : List CapabilityUsage
  pub workflow_steps : List WorkflowStepRow
  pub adopted_projects : List AdoptedProject
  pub adopted_programs : List AdoptedProgram
  pub goal_authority_bindings : List GoalAuthorityBinding
  pub task_authority_bindings : List TaskAuthorityBinding
  -- store.py: the authorities bound in this process, and the connection's event insert guard
  pub domain : AuthorityDomain
  pub pending : Option (String × String)
  -- how often the clock was read and an identifier drawn
  pub ticks : ℕ
  pub ids : ℕ
