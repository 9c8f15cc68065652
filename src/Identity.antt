-- ===== src/Identity.antt =====
-- companyos_runtime/identity.py: authenticated sessions are checked against the database at each use.
-- Credentials and their derivation are not modelled; a session starts with `issue_session`.
pub mod Reads
pub mod Sessions
mod Samples
use Prim.Native.Char.{Char}
use Prim.Native.String.{count}
use company_os.Prelude.{
  ℕ, ◌+◌, ◌*◌, String, Bool, true, false, not, ◌&&◌, ◌||◌, Option, none, some, List, [], ◌∷◌, map,
  any, select, length, head?, row, modify, update, ltb, leb, eqb, is_none, if◌then◌else◌, ◌==◌,
}
use company_os.Result.{Result, ok, guard, authorization_error, value_error, ◌>>◌ as and_then}
use company_os.Text.{strip}
use company_os.Types.Values.{Role}
use company_os.Types.Equality.{same_role}
use company_os.Db.{World, Env}
use company_os.Db.Rows.{Principal, PrincipalRole, Session}
use company_os.Exec.{
  Exec, pure, gets, or_raise, lift, change, assert, read_now, fresh_id, ◌>>=◌, ◌>>◌,
}

-- What the names of principals take from Python's unicodedata and str: `normalize("NFKC", …)`, whether
-- a character is of a category C, and `casefold`.
pub record NameLibrary : Type 0 where
  pub nfkc : String → String
  pub is_control : Char → Bool
  pub casefold : String → String

abbrev any_character : (Char → Bool) → String → Bool
any_character p String.[] = false
any_character p (String.◌∷◌ c s) = p c || any_character p s

-- the key and the display name of a name
unfoldable pub principal_name : NameLibrary → String → Result (String × String)
unfolding strip
principal_name names value =
    let normalized = names.nfkc (strip value) in
    and_then (guard (not (normalized == "" || ltb 128 (count normalized))) value_error) (
      and_then (guard (not (any_character names.is_control normalized)) value_error)
        (ok (names.casefold normalized, normalized)))

-- The bearer object. Its class is the type here, so `isinstance` always holds.
pub record VerifiedPrincipal : Type 0 where
  pub principal_id : String
  pub display_name : String
  pub session_id : String
  pub session_secret : String

pub record PrincipalRecord : Type 0 where
  pub principal_id : String
  pub display_name : String
  pub roles : List Role
  pub enabled : Bool
  pub credential_version : ℕ

abbrev pub has_role : List Role → Role → Bool
has_role roles role = any (same_role role) roles

-- `roles.intersection(wanted)` is not empty
abbrev pub shares_role : List Role → List Role → Bool
shares_role roles wanted = any (has_role roles) wanted

unfoldable pub role_set : String → World → List Role
role_set principal_id w =
    map (λ r. r.role) (select (λ r. r.principal_id == principal_id) w.principal_roles)

abbrev pub session_key : Session → String
session_key s = s.session_id

abbrev pub principal_key : Principal → String
principal_key p = p.principal_id

abbrev with_session : Session → Option Principal → Option (Session × Principal)
with_session s none = none
with_session s (some p) = some (s, p)

abbrev with_principal : Option Session → World → Option (Session × Principal)
with_principal none w = none
with_principal (some s) w = with_session s (row principal_key s.principal_id w.principals)

-- the session's row joined with its principal's
unfoldable pub session_join : String → World → Option (Session × Principal)
session_join session_id w = with_principal (row session_key session_id w.sessions) w

unfoldable pub session_valid : Env → VerifiedPrincipal → ℕ → Session × Principal → Bool
session_valid env v now (s, p) =
    env.sha256 v.session_secret == s.session_token_hash
    && is_none s.revoked_at
    && p.enabled
    && eqb s.credential_version p.credential_version
    && ltb now s.expires_at
    && s.principal_id == v.principal_id
    && p.display_name == v.display_name

abbrev role_ok : Option Role → List Role → Bool
role_ok none roles = true
role_ok (some role) roles = has_role roles role

abbrev nonempty : List Role → Bool
nonempty [] = false
nonempty (r ∷ rs) = true

module _ (env : Env) where
  unfoldable pub verify_session : VerifiedPrincipal → Option Role → Exec PrincipalRecord
  unfolding ◌>>=◌ role_set session_join session_valid
  verify_session v required_role = do
    found ← gets (session_join v.session_id)
    joined ← or_raise found authorization_error
    now ← read_now env
    assert (session_valid env v now joined) authorization_error
    roles ← gets (role_set joined.0.principal_id)
    assert (role_ok required_role roles) authorization_error
    assert (nonempty roles) authorization_error
    pure (record {
      principal_id = joined.0.principal_id;
      display_name = joined.1.display_name;
      roles = roles;
      enabled = true;
      credential_version = joined.1.credential_version;
    })

  unfoldable pub verify : VerifiedPrincipal → Exec PrincipalRecord
  unfolding verify_session
  verify session = verify_session session none

  unfoldable pub require_role : VerifiedPrincipal → Role → Exec PrincipalRecord
  unfolding verify_session
  require_role session required_role = verify_session session (some required_role)

  -- The caller's transaction is the one that runs, so it is always active.
  unfoldable pub verify_in_transaction : VerifiedPrincipal → Exec PrincipalRecord
  unfolding verify_session
  verify_in_transaction session = verify_session session none

  unfoldable pub principal_record : String → Exec PrincipalRecord
  unfolding ◌>>=◌
  principal_record principal_id = do
    found ← gets (λ w. row principal_key principal_id w.principals)
    p ← or_raise found authorization_error
    roles ← gets (role_set principal_id)
    pure (record {
      principal_id = principal_id;
      display_name = p.display_name;
      roles = roles;
      enabled = p.enabled;
      credential_version = p.credential_version;
    })

  unfoldable pub issue_session : String → String → ℕ → ℕ → String → Exec VerifiedPrincipal
  unfolding ◌>>=◌
  issue_session principal_id display_name credential_version ttl_seconds session_secret = do
    session_id ← fresh_id env
    issued ← read_now env
    let opened : Session = record {
      session_id = session_id;
      principal_id = principal_id;
      session_token_hash = env.sha256 session_secret;
      credential_version = credential_version;
      issued_at = issued;
      expires_at = issued + ttl_seconds * 1000000;
      revoked_at = none;
    }
    change (λ w. record w { sessions = opened ∷ w.sessions })
    pure (record {
      principal_id = principal_id;
      display_name = display_name;
      session_id = session_id;
      session_secret = session_secret;
    })

  unfoldable pub revoke_session : VerifiedPrincipal → Exec Unit
  unfolding verify_session
  revoke_session session = do
    verify_session session none
    now ← read_now env
    change (λ w. record w {
      sessions =
          modify session_key session.session_id (λ s. true)
            (λ s. record s { revoked_at = some now }) w.sessions;
    })

  -- COUNT(*) over the enabled principals that have the owner role
  abbrev pub enabled_owners : World → ℕ
  enabled_owners w =
      length
        (select (λ p. p.enabled && has_role (role_set p.principal_id w) Role.owner) w.principals)

  -- the writes of `disable_principal`
  unfoldable pub disable_target : Principal → Exec PrincipalRecord
  unfolding ◌>>=◌ principal_record
  disable_target target = do
    now ← read_now env
    change (λ w. record w {
      principals =
          modify principal_key target.principal_id (λ p. true)
            (λ p. record p { enabled = false; disabled_at = some now; updated_at = now })
            w.principals;
      sessions =
          update (λ s. s.principal_id == target.principal_id && is_none s.revoked_at)
            (λ s. record s { revoked_at = some now }) w.sessions;
    })
    principal_record target.principal_id

  unfoldable pub disable_principal : NameLibrary → VerifiedPrincipal → String → Exec PrincipalRecord
  unfolding verify_session disable_target principal_name
  disable_principal names owner_session display_name = do
    key ← lift (principal_name names display_name)
    verify_session owner_session (some Role.owner)
    found ← gets (λ w. head? (select (λ p. p.principal_key == key.0) w.principals))
    target ← or_raise found authorization_error
    roles ← gets (role_set target.principal_id)
    owners ← gets enabled_owners
    assert (not (target.enabled && has_role roles Role.owner && leb owners 1)) authorization_error
    disable_target target

  unfoldable pub enable_principal : NameLibrary → VerifiedPrincipal → String → Exec PrincipalRecord
  unfolding verify_session principal_record principal_name
  enable_principal names owner_session display_name = do
    key ← lift (principal_name names display_name)
    verify_session owner_session (some Role.owner)
    found ← gets (λ w. head? (select (λ p. p.principal_key == key.0) w.principals))
    target ← or_raise found authorization_error
    now ← read_now env
    change (λ w. record w {
      principals =
          modify principal_key target.principal_id (λ p. true)
            (λ p. record p { enabled = true; disabled_at = none; updated_at = now }) w.principals;
    })
    principal_record target.principal_id
