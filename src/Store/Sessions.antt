-- ===== src/Store/Sessions.antt =====
-- Core events and the sessions under which they are appended (store.py, `_authorize_core_event` and
-- the session check of `verify_event_chain`).
use company_os.Prelude.{
  head-select, ℕ, suc, ◌≤◌, ◌≡◌, refl, sym, ap, ◌∙◌, String, Bool, true, false, none, some, List,
  [], ◌∷◌, ◌&&◌, arith, ltb, elem, if◌then◌else◌, eq_iff, eq_refl, row, Option-cases, inl, inr,
}
use company_os.Result.{ok, err, integrity_error, Result, Result-cases, ◌>>◌, guard}
use company_os.Types.Values.{Role}
use company_os.Db.{World, Env, Binding}
use company_os.Db.Payload.{Json}
use company_os.Db.Rows.{Event, AuthContext, core, Session, Principal}
use company_os.Identity.{VerifiedPrincipal, session_key, session_join, has_role, role_set}
use company_os.Store.Authority.{
  is_core, core_handlers, core_roles, handler_supports_event, session_role, first_role,
  session_live, roles_by_text,
}
use company_os.Store.Entry.{Entry, core_authority_version}
use company_os.Store.Append.{
  authorize_core_event, append_authorized, append_event, authorize, get_authority, or_else,
}
use company_os.Store.Verify.{
  verify_event_chain, metadata, core_metadata, session_was_valid, valid_at,
}
use company_os.Store.Log.{append_authorized-Appended}
use company_os.Exec.Steps.{continue-ok}
use company_os.Store.Chain.{append-verify_chain}

-- the world after one reading of the clock
abbrev ticked : World → World
ticked w = record w { ticks = suc w.ticks }

module _ (env : Env) (x : Entry) where
  authorize_core_event-inv :
      (w : World) (auth : AuthContext) (w' : World) (v : VerifiedPrincipal)
      → authorize_core_event env x w ≡ ok (auth, w')
      → x.auth_session ≡ some v
      → (b : Binding) × (allowed : List Role) × (found : Role × String) × (handler_supports_event
            b.handler x.aggregate_type x.event_type
          ≡ true)
        × (core_roles x.aggregate_type x.event_type x.payload b.handler ≡ ok allowed)
        × (session_role env v.session_id x.actor (env.now w.ticks) allowed (ticked w) ≡ some found)
        × (auth ≡ core b.handler found.0 v.session_id core_authority_version x.auth_context)
        × (w' ≡ ticked w)
  unfolding authorize_core_event
  authorize_core_event-inv w auth w' v h s =
      elim (Option-cases (get_authority x.command_authority w)) [
        | inl e ↦ absurd (ground arith)
        | inr (b, eb) ↦
            elim (Result-cases (core_roles x.aggregate_type x.event_type x.payload b.handler)) [
              | inr (e, er) ↦ absurd (ground arith)
              | inl (allowed, er) ↦
                  elim (Option-cases
                    (session_role env v.session_id x.actor (env.now w.ticks) allowed (ticked w))) [
                      | inl e ↦ absurd (ground arith)
                      | inr (found, ef) ↦
                          (b, allowed, found, ground arith, er, ef, ground arith, ground arith)
                    ]
            ]
      ]

-- The role that the query returns is allowed, and the session that it found was live.
session_role-inv :
    (env : Env) (sid actor : String) (now : ℕ) (allowed : List Role) (w : World)
    (found : Role × String)
    → session_role env sid actor now allowed w ≡ some found
    → (sp : Session × Principal) × (session_join sid w ≡ some sp)
      × (session_live env actor now sp ≡ true)
      × (has_role allowed found.0 ≡ true)
unfolding session_role
session_role-inv env sid actor now allowed w found h = elim (Option-cases (session_join sid w)) [
  | inl e ↦ absurd (ground arith)
  | inr (sp, e) ↦ elim (Option-cases (first_role actor allowed w)) [
    | inl f ↦ absurd (ground arith)
    | inr (r, f) ↦ (
      sp,
      e,
      ground arith,
      ground (
        arith,
        head-select (λ r. has_role allowed r && has_role (role_set actor w) r) roles_by_text r f,
      ),
    )
  ]
]

handler-elem :
    (h t e : String)
    → handler_supports_event h t e ≡ true
    → is_core t ≡ true
    → elem h (core_handlers t) ≡ true
unfolding handler_supports_event
handler-elem h t e p c = ground (arith)

-- The session that the append found is the one that the check finds.
session_was_valid-row :
    (env : Env) (sid actor : String) (t : ℕ) (ss : List Session) (s : Session)
    → row session_key sid ss ≡ some s
    → s.principal_id ≡ actor
    → session_was_valid env sid actor t ss ≡ valid_at env t s
unfolding row
session_was_valid-row env sid actor t [] s h p = cc
session_was_valid-row env sid actor t (x ∷ ss) s h p =
    ground (
      arith,
      session_was_valid-row env sid actor t ss s,
      eq_iff x.principal_id actor,
      eq_refl actor,
    )

-- A live session found by its identifier is the row of that identifier.
session_live-inv :
    (env : Env) (sid actor : String) (now : ℕ) (w : World) (sp : Session × Principal) (s : Session)
    → session_join sid w ≡ some sp
    → session_live env actor now sp ≡ true
    → row session_key sid w.sessions ≡ some s
    → (s.principal_id ≡ actor)
      × (env.julianday s.issued_at ≤ env.julianday now)
      × (s.revoked_at ≡ none)
unfolding session_join session_live
session_live-inv env sid actor now w (t, p) s h l r = ground (arith, eq_iff t.principal_id actor)

core_metadata-eq :
    (env : Env) (h sid version : String) (role : Role) (extra : List (String × Json)) (e : Event)
    (ss : List Session) (allowed : List Role)
    → version ≡ core_authority_version
    → core_roles e.aggregate_type e.event_type e.payload h ≡ ok allowed
    → handler_supports_event h e.aggregate_type e.event_type ≡ true
    → is_core e.aggregate_type ≡ true
    → has_role allowed role ≡ true
    → core_metadata env (core h role sid version extra) e ss
      ≡ guard (session_was_valid env sid e.actor e.occurred_at ss) integrity_error
core_metadata-eq env h sid version role extra e ss allowed v r s c p =
    rw (r, (eq_iff _ _).1 v, s, handler-elem h e.aggregate_type e.event_type s c, p)

metadata-core :
    (env : Env) (h sid : String) (role : Role) (extra : List (String × Json)) (e : Event)
    (ss : List Session) (allowed : List Role)
    → is_core e.aggregate_type ≡ true
    → e.auth_context ≡ core h role sid core_authority_version extra
    → core_roles e.aggregate_type e.event_type e.payload h ≡ ok allowed
    → handler_supports_event h e.aggregate_type e.event_type ≡ true
    → has_role allowed role ≡ true
    → metadata env ss e ≡ guard (session_was_valid env sid e.actor e.occurred_at ss) integrity_error
metadata-core env h sid role extra e ss allowed c a r s p = rw c (
    ap (λ auth. core_metadata env auth e ss) a
    ∙ core_metadata-eq env h sid core_authority_version role extra e ss allowed refl r s c p)

guarded :
    (b : Bool) (n : ℕ)
    → (guard b integrity_error >> ok n) ≡ (if b then ok n else err integrity_error)
guarded true n = refl
guarded false n = refl

-- A session that began by `t` and is not revoked was valid at `t` exactly until its expiry.
valid_at-live :
    (env : Env) (t : ℕ) (s : Session)
    → env.julianday s.issued_at ≤ env.julianday t
    → s.revoked_at ≡ none
    → valid_at env t s ≡ ltb (env.julianday t) (env.julianday s.expires_at)
valid_at-live env t s i r = ground arith

module _ (env : Env) (x : Entry) (w : World) (e : Event) (w' : World) (v : VerifiedPrincipal)
    (s : Session) (is_core_event : is_core x.aggregate_type ≡ true)
    (by_session : x.auth_session ≡ some v) (at_now : x.occurred_at ≡ none)
    (of_session : row session_key v.session_id w.sessions ≡ some s)
    (clock : env.julianday (env.now w.ticks) ≤ env.julianday (env.now (suc w.ticks))) where
  appended_metadata :
      append_event env x w ≡ ok (e, w')
      → metadata env w.sessions e
        ≡ guard
            (ltb (env.julianday (env.now (suc w.ticks))) (env.julianday s.expires_at))
            integrity_error
  unfolding append_event
  appended_metadata h =
      let (auth, u, first, second) =
        continue-ok (authorize env x w) (append_authorized env x) e w' h in
      let core_first : authorize_core_event env x w ≡ ok (auth, u) = rw is_core_event at first in
      let (b, allowed, found, handles, roles, queried, made, world) =
        authorize_core_event-inv env x w auth u v core_first by_session in
      let (sp, joined, live, role) =
        session_role-inv env v.session_id x.actor (env.now w.ticks) allowed (ticked w) found
          queried in
      let row_facts =
        session_live-inv env v.session_id x.actor (env.now w.ticks) (ticked w) sp s joined live
          of_session in
      let done = append_authorized-Appended env x auth u e w' second in
      let occurred : e.occurred_at ≡ env.now (suc w.ticks) =
        done.3
        ∙ ap (λ o. or_else o (env.now u.ticks)) at_now
        ∙ ap (λ (z : World). env.now z.ticks) world in
      metadata-core env b.handler v.session_id found.0 x.auth_context e w.sessions allowed
        (cc (is_core_event, done.0.2)) (done.1 ∙ made) (cc (roles, done.0.2, done.0.5, done.0.6))
        (cc (handles, done.0.2, done.0.5)) role
      ∙ ap (λ b'. guard b' integrity_error)
          (session_was_valid-row env v.session_id e.actor e.occurred_at w.sessions s of_session
              (row_facts.0 ∙ sym done.2)
            ∙ ap (λ t. valid_at env t s) occurred
            ∙ valid_at-live env (env.now (suc w.ticks)) s (omega (arith, row_facts.1, clock))
                row_facts.2)

  -- A core event, appended under a session without an instant of its own to a log that verified,
  -- while SQLite's `julianday` of the clock does not go back: the session is checked at one reading of
  -- the clock and the event is stamped at the next. If `julianday` puts the stamp before the session's
  -- expiry, the log verifies with one event more; if not, because the session expires between the two
  -- or within the resolution of `julianday` after the stamp, the append succeeds and the log no
  -- longer verifies.
  pub core_append_verified :
      (n : ℕ)
      → append_event env x w ≡ ok (e, w')
      → verify_event_chain env w ≡ ok n
      → verify_event_chain env w' ≡ (
          if ltb (env.julianday (env.now (suc w.ticks))) (env.julianday s.expires_at)
          then ok (suc n)
          else err integrity_error)
  core_append_verified n h chain =
      append-verify_chain env x w e w' n h chain
      ∙ ap (λ (m : Result (Unit {0})). m >> ok (suc n)) (appended_metadata h)
      ∙ guarded (ltb (env.julianday (env.now (suc w.ticks))) (env.julianday s.expires_at)) (suc n)
