-- ===== src/Store/Samples.antt =====
-- Examples of the event log.
use Prim.Native.String.{count}
use company_os.Store.Verify.{row_hash}
use company_os.Store.Verify.{row_envelope}
use company_os.Prelude.{
  ◌∷◌, ◌≡◌, ◌≢◌, ◌⊎◌, refl, String, ◌==◌, Bool, true, false, none, some, [], map, arith, ltb,
  if◌then◌else◌, row,
}
use company_os.Result.{ok, err, integrity_error, ◌>>◌}
use company_os.Db.{World}
use company_os.Db.Payload.{null, obj, fields, text}
use company_os.Db.Rows.{Event}
use company_os.Store.Entry.{Entry, envelope}
use company_os.Identity.{session_join, role_set}
use company_os.Store.Authority.{handler_supports_event, core_roles, session_role}
use company_os.Store.Append.{append_event}
use company_os.Store.Verify.{verify_event_chain, metadata}
use company_os.Store.Log.{Appended, append_event-Appended}
use company_os.Store.Versions.{Versioned, append_event-Versioned, append_event_no_lost_update}
use company_os.Store.Chain.{append-verify_chain}
use company_os.Store.Sessions.{core_append_verified}
use company_os.Store.Tamper.{Clash, recorded, last_hash_fixes_history}
use company_os.Samples.{
  sample_env, sample_world, ada_holder, ada_session, returned, left_behind, no_event, hash, encode,
}

abbrev goal_entry : Entry
goal_entry = record {
  aggregate_type = "goal";
  aggregate_id = "g";
  expected_version = 0;
  project_id = "p";
  event_type = "goal_created";
  actor = "ada";
  command_id = "c";
  correlation_id = "g";
  policy_version = "v";
  payload = null;
  auth_context = [];
  auth_session = some ada_holder;
  command_authority = some 0;
  command_owner = none;
  run_id = none;
  task_id = none;
  idempotency_key = none;
  causation_id = none;
  confidentiality = "internal";
  occurred_at = none;
}

abbrev goal_event : Event
unfolding append_event
goal_event = returned no_event (append_event sample_env goal_entry sample_world)

abbrev goal_world : World
unfolding append_event
goal_world = left_behind (append_event sample_env goal_entry sample_world)

goal_created : append_event sample_env goal_entry sample_world ≡ ok (goal_event, goal_world)
unfolding append_event row handler_supports_event core_roles session_role session_join role_set
    encode envelope
goal_created = refl

append_event-Appended_example : Appended sample_env goal_entry sample_world goal_event goal_world
append_event-Appended_example =
    append_event-Appended sample_env goal_entry sample_world goal_event goal_world goal_created

append_event-Versioned_example : Versioned goal_world.events
append_event-Versioned_example =
    append_event-Versioned sample_env goal_entry sample_world goal_event goal_world goal_created tt

append_event_no_lost_update_example :
    append_event sample_env goal_entry goal_world ≢ ok (goal_event, goal_world)
append_event_no_lost_update_example =
    append_event_no_lost_update sample_env goal_entry goal_entry sample_world goal_world goal_world
      goal_event goal_event goal_created refl refl refl

append-verify_chain_example :
    verify_event_chain sample_env goal_world
    ≡ (do metadata sample_env sample_world.sessions goal_event; ok 1)
unfolding verify_event_chain
append-verify_chain_example =
    append-verify_chain sample_env goal_entry sample_world goal_event goal_world 0 goal_created refl

core_append_verified_example : verify_event_chain sample_env goal_world ≡ (
    if ltb (sample_env.julianday 1) (sample_env.julianday ada_session.expires_at)
    then ok 1
    else err integrity_error)
unfolding verify_event_chain row
core_append_verified_example =
    core_append_verified sample_env goal_entry sample_world goal_event goal_world ada_holder
      ada_session refl refl refl refl (omega arith) 0 goal_created refl

hash_length : (s t : String) → count (hash s) ≡ count (hash t)
hash_length s t = by_test (s == "secret") (t == "secret")
  where
    by_test : (a b : Bool) → count (if a then "1" else "0") ≡ count (if b then "1" else "0")
    by_test true true = refl
    by_test true false = refl
    by_test false true = refl
    by_test false false = refl

digest_in_text :
    (e f : Event) → encode (envelope e) ≡ encode (envelope f) → e.payload_digest ≡ f.payload_digest
unfolding encode envelope
digest_in_text e f h = h

-- another payload with the same digest under the hash of the tests
abbrev other_event : Event
other_event = record goal_event { payload = obj (fields (("payload_digest", text "x") ∷ [])) }

last_hash_fixes_history_example :
    (map (recorded sample_env) goal_world.events ≡ map (recorded sample_env) (other_event ∷ []))
    ⊎ Clash sample_env goal_world.events (other_event ∷ [])
unfolding verify_event_chain row goal_world handler_supports_event core_roles session_role
    session_join role_set encode envelope row_envelope row_hash
last_hash_fixes_history_example =
    last_hash_fixes_history sample_env hash_length digest_in_text sample_world.sessions
      sample_world.sessions goal_world.events (other_event ∷ []) 1 refl refl refl
