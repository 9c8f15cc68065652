-- ===== src/Store/Append.antt =====
-- store.py: `append_event`, with the event insert guard of the connection. The columns that SQLite
-- numbers itself (`seq`) are the places in the list of events.
use company_os.Prelude.{
  ℕ, ◌+◌, String, Bool, true, false, not, ◌&&◌, Option, none, some, List, [], ◌∷◌, any, elem, eqb,
  is_none, if◌then◌else◌, ◌==◌,
}
use company_os.Result.{integrity_error, constraint}
use company_os.Db.{World, Env, Binding}
use company_os.Db.Payload.{Json}
use company_os.Db.Rows.{Event, AuthContext, core, protected, plain}
use company_os.Store.Entry.{
  Entry, core_authority_version, event_name, max_version, last_hash, chained_hash,
}
use company_os.Exec.{
  Exec, pure, lift, gets, or_raise, change, assert, read_now, fresh_id, ◌>>=◌, ◌>>◌,
}
use company_os.Store.Authority.{
  is_core, is_protected, core_roles, handler_supports_event, protected_handler, find_authority,
  session_role,
}

abbrev core_auth_context_fields : List String
core_auth_context_fields =
    "handler" ∷ "authorized_role" ∷ "session_id" ∷ "command_authority_version" ∷ []

abbrev protected_auth_context_fields : List String
protected_auth_context_fields =
    "handler" ∷ "handler_binding_id" ∷ "handler_config_digest" ∷ "protected_event"
    ∷ "command_authority_version" ∷ []

abbrev reserves : List String → List (String × Json) → Bool
reserves names extra = any (λ kv. elem kv.0 names) extra

abbrev pub get_authority : Option ℕ → World → Option Binding
get_authority none w = none
get_authority (some a) w = find_authority a w.domain.command_authorities

abbrev pub is_owner : Option ℕ → ℕ → Bool
is_owner none owner = false
is_owner (some o) owner = eqb o owner

abbrev pub or_else : Option ℕ → ℕ → ℕ
or_else none n = n
or_else (some m) n = m

-- `_arm_event_insert`, `_EventInsertGuard.authorize` under the insert trigger, `_clear_event_insert`
unfoldable pub arm_event_insert : String → String → Exec Unit
unfolding ◌>>=◌
arm_event_insert event_id event_hash = do
  armed ← gets (λ w. not (is_none w.pending))
  assert (not armed) integrity_error
  change (λ w. record w { pending = some (event_id, event_hash) })

abbrev authorizes : Option (String × String) → String → String → Bool
authorizes none event_id event_hash = false
authorizes (some (i, h)) event_id event_hash = i == event_id && h == event_hash

-- INSERT INTO events
unfoldable pub insert_event : Event → Exec Unit
unfolding ◌>>=◌
insert_event e = do
  authorized ← gets (λ w. authorizes w.pending e.event_id e.event_hash)
  change (λ w. record w { pending = none })
  assert authorized constraint
  change (λ w. record w { events = e ∷ w.events })

unfoldable pub clear_event_insert : Exec Unit
clear_event_insert = change (λ w. record w { pending = none })

module _ (env : Env) where
  -- `_authorize_core_event`
  unfoldable pub authorize_core_event : Entry → Exec AuthContext
  unfolding ◌>>=◌
  authorize_core_event x = do
    found ← gets (get_authority x.command_authority)
    binding ← or_raise found integrity_error
    assert (binding.alive && binding.authority_kind == "core") integrity_error
    assert (handler_supports_event binding.handler x.aggregate_type x.event_type) integrity_error
    session ← or_raise x.auth_session integrity_error
    assert (not (session.session_id == "") && session.principal_id == x.actor) integrity_error
    allowed ← lift (core_roles x.aggregate_type x.event_type x.payload binding.handler)
    now ← read_now env
    row ← gets (session_role env session.session_id x.actor now allowed)
    found_role ← or_raise row integrity_error
    assert (env.sha256 session.session_secret == found_role.1) integrity_error
    assert (not (reserves core_auth_context_fields x.auth_context)) integrity_error
    pure
        (core binding.handler found_role.0 session.session_id core_authority_version x.auth_context)

  -- `_authorize_protected_event`
  unfoldable pub authorize_protected_event : Entry → Exec AuthContext
  unfolding ◌>>=◌
  authorize_protected_event x = do
    handler ← or_raise (protected_handler x.aggregate_type x.event_type) integrity_error
    found ← gets (get_authority x.command_authority)
    binding ← or_raise found integrity_error
    assert
        (binding.alive
          && is_owner x.command_owner binding.owner
          && binding.authority_kind == "protected"
          && binding.handler == handler)
        integrity_error
    assert (not (reserves protected_auth_context_fields x.auth_context)) integrity_error
    pure (
        protected binding.handler binding.binding_id binding.config_digest
          (event_name x.aggregate_type x.event_type) core_authority_version x.auth_context)

  abbrev pub authorize : Entry → Exec AuthContext
  authorize x =
      if is_core x.aggregate_type
      then authorize_core_event x
      else if is_protected x.aggregate_type
      then authorize_protected_event x
      else pure (plain x.auth_context)

  abbrev causation_exists : Option String → World → Bool
  causation_exists none w = true
  causation_exists (some c) w = any (λ e. e.event_id == c) w.events

  -- the row that `append_event` inserts, but for its hash
  abbrev new_event : Entry → AuthContext → String → ℕ → String → Event
  new_event x auth event_id recorded_at previous_hash = record {
    event_id = event_id;
    aggregate_type = x.aggregate_type;
    aggregate_id = x.aggregate_id;
    aggregate_version = x.expected_version + 1;
    project_id = x.project_id;
    run_id = x.run_id;
    task_id = x.task_id;
    event_type = x.event_type;
    schema_version = 1;
    actor = x.actor;
    auth_context = auth;
    command_id = x.command_id;
    idempotency_key = x.idempotency_key;
    correlation_id = x.correlation_id;
    causation_id = x.causation_id;
    policy_version = x.policy_version;
    occurred_at = or_else x.occurred_at recorded_at;
    recorded_at = recorded_at;
    confidentiality = x.confidentiality;
    payload = x.payload;
    payload_digest = env.sha256 (env.canonical_json x.payload);
    previous_event_hash = previous_hash;
    event_hash = "";
  }

  abbrev sealed : Event → Event
  sealed e = record e { event_hash = chained_hash env e.previous_event_hash e }

  -- from the version check on
  unfoldable pub append_authorized : Entry → AuthContext → Exec Event
  unfolding ◌>>=◌ arm_event_insert insert_event clear_event_insert chained_hash
  append_authorized x auth = do
    current ← gets (λ w. max_version x.aggregate_type x.aggregate_id w.events)
    assert (eqb current x.expected_version) integrity_error
    known ← gets (causation_exists x.causation_id)
    assert known integrity_error
    previous_hash ← gets (λ w. last_hash w.events)
    event_id ← fresh_id env
    recorded_at ← read_now env
    let e = sealed (new_event x auth event_id recorded_at previous_hash)
    arm_event_insert e.event_id e.event_hash
    insert_event e
    clear_event_insert
    pure e

  unfoldable pub append_event : Entry → Exec Event
  unfolding authorize_core_event authorize_protected_event append_authorized
  append_event x = do auth ← authorize x; append_authorized x auth
