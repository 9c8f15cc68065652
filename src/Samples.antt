-- ===== src/Samples.antt =====
-- Sample data for the examples: a small database, with a clock that counts and a hash for the tests.
use Prim.Native.Nat.{◌/◌}
use company_os.Prelude.{String, true, false, Option, none, some, [], ◌∷◌, eqb, if◌then◌else◌, ◌==◌}
use company_os.Result.{Result, ok, err}
use company_os.Types.Values.{Role, LoopState, TaskState, EvidenceState}
use company_os.Types.Specs.{TaskSpec}
use company_os.Db.{World, Env}
use company_os.Db.Payload.{Json, null, get, as_text}
use company_os.Db.Rows.{Event, plain, Principal, Session, Task}
use company_os.Identity.{VerifiedPrincipal}

-- the encoder of the tests keeps the payload digest of an object
abbrev pub digest_text : Option String → String
digest_text none = "{}"
digest_text (some s) = s

unfoldable pub encode : Json → String
unfolding get
encode j = digest_text (as_text (get "payload_digest" j))

abbrev pub hash : String → String
hash s = if s == "secret" then "1" else "0"

abbrev pub sample_env : Env
sample_env = record {
  now = λ i. i;
  uuid = λ i. if eqb i 0 then "id-0" else "id-1";
  julianday = λ t. t / 1000;
  sha256 = hash;
  canonical_json = encode;
}

abbrev pub ada : Principal
ada = record {
  principal_id = "ada";
  principal_key = "ada";
  display_name = "Ada";
  credential_version = 1;
  enabled = true;
  updated_at = 0;
  disabled_at = none;
}

abbrev pub ada_session : Session
ada_session = record {
  session_id = "s";
  principal_id = "ada";
  session_token_hash = "1";
  credential_version = 1;
  issued_at = 0;
  expires_at = 900000000;
  revoked_at = none;
}

abbrev pub ada_holder : VerifiedPrincipal
ada_holder = record {
  principal_id = "ada";
  display_name = "Ada";
  session_id = "s";
  session_secret = "secret";
}

abbrev pub sample_spec : TaskSpec
sample_spec = record {
  task_id = "t";
  goal_id = "g";
  objective = "o";
  expected_delta = "d";
  primary_surface = "src";
  evidence_target = EvidenceState.structure;
  capabilities = [];
  read_scope = [];
  write_scope = [];
  forbidden_scope = [];
  required_runtime_surfaces = [];
  evaluator_required = false;
  integration_required = false;
  workflow_steps = [];
  max_attempts = 2;
}

abbrev pub sample_task : Task
sample_task = record {
  task_id = "t";
  goal_id = "g";
  run_id = some "r";
  project_id = "p";
  state = TaskState.ready;
  spec = sample_spec;
  aggregate_version = 0;
  attempt_count = 0;
  due_at = none;
  last_error_fingerprint = none;
  created_at = 0;
  updated_at = 0;
}

abbrev pub sample_world : World
sample_world = record {
  principals = ada ∷ [];
  principal_roles =
      record { principal_id = "ada"; role = Role.owner }
      ∷ record { principal_id = "ada"; role = Role.worker }
      ∷ record { principal_id = "ada"; role = Role.system }
      ∷ [];
  sessions = ada_session ∷ [];
  events = [];
  idempotency_records = [];
  goals = [];
  runs =
      record {
        run_id = "r";
        goal_id = "g";
        project_id = "p";
        loop_state = LoopState.running;
        policy_version = "companyos-policy-v1";
        aggregate_version = 0;
        updated_at = 0;
      }
      ∷ [];
  tasks = sample_task ∷ [];
  attempts = [];
  leases = [];
  approvals = [];
  grants = [];
  evidence_claims = [];
  observations = [];
  negative_results = [];
  integration_items = [];
  improvement_proposals = [];
  capability_usage = [];
  workflow_steps = [];
  adopted_projects = [];
  adopted_programs = [];
  goal_authority_bindings = [];
  task_authority_bindings = [];
  domain = record {
    command_authorities =
        record {
          authority = 0;
          handler = "runtime_kernel";
          owner = 0;
          alive = true;
          authority_kind = "core";
          binding_id = "b";
          config_digest = "c";
        }
        ∷ record {
          authority = 1;
          handler = "task_scheduler";
          owner = 1;
          alive = true;
          authority_kind = "core";
          binding_id = "b";
          config_digest = "c";
        }
        ∷ [];
    protected_handler_configs = [];
    protected_runtime_types = [];
    objects = 2;
  };
  pending = none;
  ticks = 0;
  ids = 0;
}

abbrev pub no_event : Event
no_event = record {
  event_id = "";
  aggregate_type = "";
  aggregate_id = "";
  aggregate_version = 0;
  project_id = "";
  run_id = none;
  task_id = none;
  event_type = "";
  schema_version = 1;
  actor = "";
  auth_context = plain [];
  command_id = "";
  idempotency_key = none;
  correlation_id = "";
  causation_id = none;
  policy_version = "";
  occurred_at = 0;
  recorded_at = 0;
  confidentiality = "";
  payload = null;
  payload_digest = "";
  previous_event_hash = "";
  event_hash = "";
}

-- what a transaction that succeeds returns, and the database that it leaves
module _ {A : Type 0} where
  abbrev pub returned : A → Result (A × World) → A
  returned a (ok (b, w)) = b
  returned a (err e) = a

  abbrev pub left_behind : Result (A × World) → World
  left_behind (ok (b, w)) = w
  left_behind (err e) = sample_world
