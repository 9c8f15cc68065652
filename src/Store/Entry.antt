-- ===== src/Store/Entry.antt =====
-- store.py: the arguments of `append_event`, and the hashed envelope of an event.
use Prim.Native.Nat.{max}
use Prim.Native.String.{◌++◌ as append_text}
use company_os.Prelude.{
  ℕ, String, Option, none, some, List, [], ◌∷◌, ◌++◌, ◌&&◌, if◌then◌else◌, ◌==◌,
}
use company_os.Types.Values.{role_value}
use company_os.Db.{Env}
use company_os.Db.Payload.{Json, num, text, instant, obj, fields, option_text}
use company_os.Db.Rows.{Event, AuthContext, core, protected, plain}
use company_os.Identity.{VerifiedPrincipal}

-- the arguments of `append_event` beside the connection
pub record Entry : Type 0 where
  pub aggregate_type : String
  pub aggregate_id : String
  pub expected_version : ℕ
  pub project_id : String
  pub event_type : String
  pub actor : String
  pub command_id : String
  pub correlation_id : String
  pub policy_version : String
  pub payload : Json
  pub auth_context : List (String × Json)
  pub auth_session : Option VerifiedPrincipal
  pub command_authority : Option ℕ
  pub command_owner : Option ℕ
  pub run_id : Option String
  pub task_id : Option String
  pub idempotency_key : Option String
  pub causation_id : Option String
  pub confidentiality : String
  pub occurred_at : Option ℕ

-- the arguments of a call that leaves out those that only core and protected events have
abbrev pub plain_entry :
    (aggregate_type aggregate_id : String) (expected_version : ℕ)
    (project_id run_id task_id event_type actor command_id policy_version : String) (payload : Json)
    → Entry
plain_entry aggregate_type aggregate_id expected_version project_id run_id task_id event_type actor
      command_id policy_version payload =
    record {
      aggregate_type = aggregate_type;
      aggregate_id = aggregate_id;
      expected_version = expected_version;
      project_id = project_id;
      event_type = event_type;
      actor = actor;
      command_id = command_id;
      correlation_id = run_id;
      policy_version = policy_version;
      payload = payload;
      auth_context = [];
      auth_session = none;
      command_authority = none;
      command_owner = none;
      run_id = some run_id;
      task_id = some task_id;
      idempotency_key = none;
      causation_id = none;
      confidentiality = "internal";
      occurred_at = none;
    }

abbrev pub core_authority_version : String
core_authority_version = "opaque-command-v1"

-- f"{aggregate_type}/{event_type}"
abbrev pub event_name : String → String → String
event_name t e = append_text t (append_text "/" e)

abbrev pub max_version : String → String → List Event → ℕ
max_version t i [] = 0
max_version t i (e ∷ es) =
    let rest = max_version t i es in
    if e.aggregate_type == t && e.aggregate_id == i then max e.aggregate_version rest else rest

abbrev pub last_hash : List Event → String
last_hash [] = "GENESIS"
last_hash (e ∷ es) = e.event_hash

abbrev pub auth_json : AuthContext → Json
auth_json (core handler role session_id version extra) = obj (
    fields (
      extra
      ++ ("handler", text handler)
        ∷ ("authorized_role", text (role_value role))
        ∷ ("session_id", text session_id)
        ∷ ("command_authority_version", text version)
        ∷ []))
auth_json (protected handler binding_id config_digest event version extra) = obj (
    fields (
      extra
      ++ ("handler", text handler)
        ∷ ("handler_binding_id", text binding_id)
        ∷ ("handler_config_digest", text config_digest)
        ∷ ("protected_event", text event)
        ∷ ("command_authority_version", text version)
        ∷ []))
auth_json (plain extra) = obj (fields extra)

-- the hashed envelope of an event
unfoldable pub envelope : Event → Json
envelope e = obj (
    fields (
      ("event_id", text e.event_id)
      ∷ ("aggregate_type", text e.aggregate_type)
      ∷ ("aggregate_id", text e.aggregate_id)
      ∷ ("aggregate_version", num e.aggregate_version)
      ∷ ("project_id", text e.project_id)
      ∷ ("run_id", option_text e.run_id)
      ∷ ("task_id", option_text e.task_id)
      ∷ ("event_type", text e.event_type)
      ∷ ("schema_version", num e.schema_version)
      ∷ ("actor", text e.actor)
      ∷ ("auth_context", auth_json e.auth_context)
      ∷ ("command_id", text e.command_id)
      ∷ ("idempotency_key", option_text e.idempotency_key)
      ∷ ("correlation_id", text e.correlation_id)
      ∷ ("causation_id", option_text e.causation_id)
      ∷ ("policy_version", text e.policy_version)
      ∷ ("occurred_at", instant e.occurred_at)
      ∷ ("recorded_at", instant e.recorded_at)
      ∷ ("confidentiality", text e.confidentiality)
      ∷ ("payload_digest", text e.payload_digest)
      ∷ ("previous_event_hash", text e.previous_event_hash)
      ∷ []))

-- content_hash(previous_hash + canonical_json(envelope))
unfoldable pub chained_hash : Env → String → Event → String
chained_hash env previous e = env.sha256 (append_text previous (env.canonical_json (envelope e)))
