-- ===== src/Store/Verify.antt =====
-- store.py: `verify_event_chain`, over the events from the first to the last.
use Prim.Native.String.{◌++◌ as append_text}
use company_os.Prelude.{
  ℕ, suc, String, Bool, true, false, not, ◌&&◌, Option, none, some, List, [], ◌∷◌, elem, leb, ltb,
  if◌then◌else◌, ◌==◌,
}
use company_os.Result.{Result, ok, err, guard, integrity_error, ◌>>=◌, ◌>>◌}
use company_os.Db.{World, Env}
use company_os.Db.Payload.{Json, num, text, instant, obj, fields, option_text}
use company_os.Db.Rows.{Event, AuthContext, core, protected, Session}
use company_os.Identity.{has_role}
use company_os.Store.Authority.{
  is_core, is_protected, core_roles, core_handlers, handler_supports_event, protected_handler,
}
use company_os.Store.Domain.{is_hex_digest}
use company_os.Store.Entry.{core_authority_version, event_name, last_hash, auth_json}

abbrev not_before : Env → Option ℕ → ℕ → Bool
not_before env none t = true
not_before env (some revoked_at) t = leb (env.julianday t) (env.julianday revoked_at)

-- the session was valid when the event occurred
abbrev pub valid_at : Env → ℕ → Session → Bool
valid_at env t s =
    leb (env.julianday s.issued_at) (env.julianday t)
    && ltb (env.julianday t) (env.julianday s.expires_at)
    && not_before env s.revoked_at t

abbrev pub session_was_valid : Env → String → String → ℕ → List Session → Bool
session_was_valid env session_id actor t [] = false
session_was_valid env session_id actor t (s ∷ ss) =
    if s.session_id == session_id && s.principal_id == actor
    then valid_at env t s
    else session_was_valid env session_id actor t ss

abbrev pub core_metadata : Env → AuthContext → Event → List Session → Result (Unit {0})
core_metadata env (core handler role session_id version extra) e ss = do
  allowed ← core_roles e.aggregate_type e.event_type e.payload handler
  guard
      (version == core_authority_version
        && elem handler (core_handlers e.aggregate_type)
        && handler_supports_event handler e.aggregate_type e.event_type
        && has_role allowed role)
      integrity_error
  guard (session_was_valid env session_id e.actor e.occurred_at ss) integrity_error
core_metadata env _ e ss = err integrity_error

abbrev handled_by : Option String → String → Bool
handled_by none handler = false
handled_by (some h) handler = handler == h

abbrev pub protected_metadata : AuthContext → Event → Result (Unit {0})
protected_metadata (protected handler binding_id config_digest event version []) e =
    guard
      (handled_by (protected_handler e.aggregate_type e.event_type) handler
        && version == core_authority_version
        && event == event_name e.aggregate_type e.event_type
        && not (binding_id == "")
        && is_hex_digest config_digest)
      integrity_error
protected_metadata _ e = err integrity_error

abbrev pub metadata : Env → List Session → Event → Result (Unit {0})
metadata env ss e =
    if is_core e.aggregate_type
    then core_metadata env e.auth_context e ss
    else if is_protected e.aggregate_type
    then protected_metadata e.auth_context e
    else ok tt

-- the envelope that the check makes from the row of an event
unfoldable pub row_envelope : Event → Json
row_envelope e = obj (
    fields (
      ("event_id", text e.event_id)
      ∷ ("aggregate_type", text e.aggregate_type)
      ∷ ("aggregate_id", text e.aggregate_id)
      ∷ ("aggregate_version", num e.aggregate_version)
      ∷ ("project_id", text e.project_id)
      ∷ ("run_id", option_text e.run_id)
      ∷ ("task_id", option_text e.task_id)
      ∷ ("event_type", text e.event_type)
      ∷ ("schema_version", num e.schema_version)
      ∷ ("actor", text e.actor)
      ∷ ("auth_context", auth_json e.auth_context)
      ∷ ("command_id", text e.command_id)
      ∷ ("idempotency_key", option_text e.idempotency_key)
      ∷ ("correlation_id", text e.correlation_id)
      ∷ ("causation_id", option_text e.causation_id)
      ∷ ("policy_version", text e.policy_version)
      ∷ ("occurred_at", instant e.occurred_at)
      ∷ ("recorded_at", instant e.recorded_at)
      ∷ ("confidentiality", text e.confidentiality)
      ∷ ("payload_digest", text e.payload_digest)
      ∷ ("previous_event_hash", text e.previous_event_hash)
      ∷ []))

-- content_hash(previous_hash + canonical_json(envelope)) of a row
unfoldable pub row_hash : Env → String → Event → String
row_hash env previous e = env.sha256 (append_text previous (env.canonical_json (row_envelope e)))

module _ (env : Env) where
  -- the checks of one event, behind the hash of the one before it
  unfoldable pub verify_event : List Session → String → Event → Result (Unit {0})
  verify_event ss previous_hash e = do
    guard (e.previous_event_hash == previous_hash) integrity_error
    guard (row_hash env previous_hash e == e.event_hash) integrity_error
    guard (env.sha256 (env.canonical_json e.payload) == e.payload_digest) integrity_error
    metadata env ss e

  -- The events stand newest first, so the older ones are checked by the recursive call.
  unfoldable pub verify_events : List Session → List Event → Result ℕ
  unfolding verify_event
  verify_events ss [] = ok 0
  verify_events ss (e ∷ es) = do
    count ← verify_events ss es
    verify_event ss (last_hash es) e
    ok (suc count)

  unfoldable pub verify_event_chain : World → Result ℕ
  unfolding verify_events
  verify_event_chain w = verify_events w.sessions w.events
