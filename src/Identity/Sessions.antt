-- ===== src/Identity/Sessions.antt =====
-- Sessions that were revoked, and the sessions of principals that were disabled (identity.py).
use company_os.Prelude.{
  ℕ, ◌≡◌, ◌≢◌, refl, String, true, false, some, arith, row, modify, suc, row-modify, eq_refl,
  eq_iff, is_none, Option-cases, Bool-cases, List, ap, ap₂, sym, ◌∙◌, ◌==◌, inl, inr, if◌then◌else◌,
}
use company_os.Result.{ok}
use mathlib.Core.Option
use company_os.Exec.Returns.{Ends, Ends-after}
use company_os.Db.{World, Env}
use company_os.Db.Rows.{Session, Principal}
use company_os.Identity.{
  NameLibrary, VerifiedPrincipal, PrincipalRecord, session_key, principal_key, session_join,
  session_valid, verify, revoke_session, principal_record, disable_target, disable_principal,
}

module _ (env : Env) where
  -- the session's row after the revocation
  revoked_row :
      (v : VerifiedPrincipal) (w : World) (u : Unit {0}) (w' : World)
      → revoke_session env v w ≡ ok (u, w')
      → (s : Session) × (row session_key v.session_id w'.sessions ≡ some s)
        × (is_none s.revoked_at ≡ false)
  unfolding revoke_session session_join
  revoked_row v w u w' h =
      let now = env.now (suc w.ticks) in
      let sessions : w'.sessions
          ≡ modify session_key v.session_id (λ s. true) (λ s. record s { revoked_at = some now })
              w.sessions =
        elim (Option-cases (session_join v.session_id w)) [
          | inl e ↦ absurd (ground arith)
          | inr (sp, e) ↦ ground arith
        ] in
      elim (Option-cases (row session_key v.session_id w.sessions)) [
        | inl absent ↦ absurd (ground (arith, absent))
        | inr (s, there) ↦ (
          record s { revoked_at = some now },
          ground (
            arith,
            sessions,
            there,
            row-modify session_key v.session_id v.session_id (λ s. true)
                (λ s. record s { revoked_at = some now }) w.sessions,
            eq_refl v.session_id,
          ),
          refl,
        )
      ]

  refused :
      (v : VerifiedPrincipal) (w : World) (s : Session) (r : PrincipalRecord) (w' : World)
      → row session_key v.session_id w.sessions ≡ some s
      → is_none s.revoked_at ≡ false
      → verify env v w ≢ ok (r, w')
  unfolding verify session_join session_valid
  refused v w s r w' found revoked h = ground (arith, found)

  -- In the database that a session's revocation leaves, verifying that session fails.
  pub revoked_session_refused :
      (v : VerifiedPrincipal) (w : World) (u : Unit {0}) (w' : World) (r : PrincipalRecord)
      (w'' : World)
      → revoke_session env v w ≡ ok (u, w')
      → verify env v w' ≢ ok (r, w'')
  revoked_session_refused v w u w' r w'' h =
      let (s, found, revoked) = revoked_row v w u w' h in refused v w' s r w'' found revoked

  record_found :
      (id : String) (w : World) (p : PrincipalRecord) (w' : World)
      → principal_record env id w ≡ ok (p, w')
      → (w' ≡ w) × (p.principal_id ≡ id)
  unfolding principal_record
  record_found id w p w' h = elim (Option-cases (row principal_key id w.principals)) [
    | inl absent ↦ absurd (ground (arith, absent))
    | inr (q, there) ↦ ground (arith, there)
  ]

  disabling :
      (id : String) (now : ℕ) (ps : List Principal)
      → row principal_key id (
          modify principal_key id
            (λ p. true)
            (λ p. record p { enabled = false; disabled_at = some now; updated_at = now })
            ps)
        ≡ (if id == id
            then Option.map
                (λ p.
                  if true
                  then record p { enabled = false; disabled_at = some now; updated_at = now }
                  else p)
                (row principal_key id ps)
            else row principal_key id ps)
  disabling id now ps =
      row-modify principal_key id id (λ p. true)
        (λ p. record p { enabled = false; disabled_at = some now; updated_at = now }) ps (λ p. refl)

  -- the row of the principal that was disabled
  disabled_row :
      (id : String) (now : ℕ) (ps : List Principal) (q : Principal)
      → row principal_key id (
          modify principal_key id
            (λ p. true)
            (λ p. record p { enabled = false; disabled_at = some now; updated_at = now })
            ps)
        ≡ some q
      → q.enabled ≡ false
  disabled_row id now ps q h = elim (Option-cases (row principal_key id ps)) [
    | inl absent ↦ absurd (ground (arith, absent, disabling id now ps, eq_refl id))
    | inr (p, there) ↦ ground (arith, there, disabling id now ps, eq_refl id)
  ]

  refused_disabled :
      (v : VerifiedPrincipal) (w : World) (r : PrincipalRecord) (w' : World)
      → ((q : Principal)
          → row principal_key v.principal_id w.principals ≡ some q
          → q.enabled ≡ false)
      → verify env v w ≢ ok (r, w')
  unfolding verify session_join session_valid
  refused_disabled v w r w' disabled h =
      elim (Option-cases (row session_key v.session_id w.sessions)) [
        | inl absent ↦ ground (arith, absent)
        | inr (s, there) ↦ elim (Option-cases (row principal_key s.principal_id w.principals)) [
          | inl absent ↦ ground (arith, there, absent)
          | inr (p, found) ↦ elim (Bool-cases (s.principal_id == v.principal_id)) [
            | inl same ↦
                let off : p.enabled ≡ false = disabled p (
                  ap (λ k. row principal_key k w.principals)
                    (sym ((eq_iff s.principal_id v.principal_id).0 same))
                  ∙ found) in
                ground (arith, there, found, off)
            | inr other ↦ ground (arith, there, found, other)
          ]
        ]
      ]

  abbrev IsDisabled : PrincipalRecord → World → Type 0
  IsDisabled p w' =
      (q : Principal) → row principal_key p.principal_id w'.principals ≡ some q → q.enabled ≡ false

  disable_target-Ends : (target : Principal) → Ends IsDisabled (disable_target env target)
  unfolding disable_target
  disable_target-Ends target = record {
    ended = λ w p w' h q found.
        let now = env.now w.ticks in
        let (world, id) = record_found target.principal_id _ p w' h in
        disabled_row target.principal_id now w.principals q
          (ap₂ (λ k (x : World). row principal_key k x.principals) (sym id) (sym world) ∙ found);
  }

  disable-Ends :
      (names : NameLibrary) (o : VerifiedPrincipal) (name : String)
      → Ends IsDisabled (disable_principal env names o name)
  unfolding disable_principal
  disable-Ends names o name = search (Ends-after, disable_target-Ends) depth 30

  -- In the database that disabling a principal leaves, verifying any session in that principal's
  -- name fails.
  pub disabled_principal_refused :
      (names : NameLibrary) (owner_session v : VerifiedPrincipal) (display_name : String)
      (w : World) (p : PrincipalRecord) (w' : World) (r : PrincipalRecord) (w'' : World)
      → disable_principal env names owner_session display_name w ≡ ok (p, w')
      → v.principal_id ≡ p.principal_id
      → verify env v w' ≢ ok (r, w'')
  disabled_principal_refused names o v name w p w' r w'' h same =
      refused_disabled v w' r w'' λ q found.
        (disable-Ends names o name).ended w p w' h q
          (ap (λ k. row principal_key k w'.principals) (sym same) ∙ found)
