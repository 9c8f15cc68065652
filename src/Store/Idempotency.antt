-- ===== src/Store/Idempotency.antt =====
-- store.py: `get_idempotent_result` and `save_idempotent_result`, and the way in which the kernel's
-- commands use them.
use mathlib.Core.Path.{subst}
use company_os.Prelude.{
  ◌≡◌, refl, ap, sym, ◌∙◌, String, Bool, true, false, ◌&&◌, Option, none, some, List, ◌∷◌, select,
  head?, arith, eq_refl, eq_iff, ◌⊎◌, inl, inr, ◌==◌,
}
use company_os.Result.{ok, integrity_error}
use company_os.Db.{World, Env}
use company_os.Db.Payload.{Json}
use company_os.Db.Rows.{IdempotencyRecord}
use company_os.Exec.{Exec, pure, gets, change, assert, read_now, ◌>>=◌, ◌>>◌}
use company_os.Exec.Steps.{after}

abbrev pub recorded : String → String → String → List IdempotencyRecord → Option IdempotencyRecord
recorded project_id scope key rs = head? (
    select
      (λ (r : IdempotencyRecord).
        r.project_id == project_id && r.scope == scope && r.idempotency_key == key)
      rs)

abbrev prior_result : Option IdempotencyRecord → String → Exec (Option Json)
prior_result none payload_digest = pure none
prior_result (some r) payload_digest = do
  assert (r.payload_digest == payload_digest) integrity_error
  pure (some r.result)

unfoldable pub get_idempotent_result :
    (project_id scope key payload_digest : String) → Exec (Option Json)
unfolding ◌>>=◌
get_idempotent_result project_id scope key payload_digest = do
  row ← gets (λ w. recorded project_id scope key w.idempotency_records)
  prior_result row payload_digest

unfoldable pub save_idempotent_result :
    Env → (project_id scope key payload_digest : String) → Json → String → Exec Unit
unfolding ◌>>=◌
save_idempotent_result env project_id scope key payload_digest result event_id = do
  now ← read_now env
  let saved : IdempotencyRecord = record {
    project_id = project_id;
    scope = scope;
    idempotency_key = key;
    payload_digest = payload_digest;
    result = result;
    event_id = event_id;
    created_at = now;
  }
  change (λ w. record w { idempotency_records = saved ∷ w.idempotency_records })

-- A command: its saved result, or the result and event that it now makes.
abbrev run_or_replay :
    Env
    → (project_id scope key payload_digest : String) → Exec (Json × String)
    → Option Json
    → Exec Json
run_or_replay env project_id scope key payload_digest body (some prior) = pure prior
run_or_replay env project_id scope key payload_digest body none = do
  made ← body
  save_idempotent_result env project_id scope key payload_digest made.0 made.1
  pure made.0

unfoldable pub once :
    Env → (project_id scope key payload_digest : String) → Exec (Json × String) → Exec Json
unfolding ◌>>=◌ get_idempotent_result save_idempotent_result
once env project_id scope key payload_digest body = do
  prior ← get_idempotent_result project_id scope key payload_digest
  run_or_replay env project_id scope key payload_digest body prior

-- the record of a command with its digest and result
abbrev pub Saved : String → String → String → String → Json → World → Type 0
Saved project_id scope key payload_digest result w =
    (r : IdempotencyRecord) × (recorded project_id scope key w.idempotency_records ≡ some r)
    × (r.payload_digest ≡ payload_digest)
    × (r.result ≡ result)

checked_prior :
    (same : Bool) (y : Json) (k : Option Json → Exec Json) (w : World) (r : Json) (w' : World)
    → ((assert same integrity_error >> pure (some y)) >>= k) w ≡ ok (r, w')
    → (same ≡ true) × (k (some y) w ≡ ok (r, w'))
unfolding ◌>>=◌
checked_prior true y k w r w' h = (refl, h)
checked_prior false y k w r w' h = cc

recorded-first :
    (r : IdempotencyRecord) (rs : List IdempotencyRecord)
    → recorded r.project_id r.scope r.idempotency_key (r ∷ rs) ≡ some r
recorded-first r rs =
    ground (arith, eq_refl r.project_id, eq_refl r.scope, eq_refl r.idempotency_key)

module _ (env : Env) (project_id scope key payload_digest : String)
    (body : Exec (Json × String)) where
  -- Either nothing was done, or the body was run and its result recorded.
  pub once-cases :
      (w : World) (r : Json) (w' : World)
      → once env project_id scope key payload_digest body w ≡ ok (r, w')
      → (w' ≡ w)
        ⊎ ((made : Json × String) × (v : World) × (body w ≡ ok (made, v))
            × (w' ≡ record v { idempotency_records = w'.idempotency_records; ticks = w'.ticks }))
  unfolding once
  once-cases w r w' h = by_row (recorded project_id scope key w.idempotency_records) h
    where
      by_row :
          (found : Option IdempotencyRecord)
          → (prior_result found payload_digest >>= λ prior.
                run_or_replay env project_id scope key payload_digest body prior)
              w
            ≡ ok (r, w')
          → (w' ≡ w)
            ⊎ ((made : Json × String) × (v : World) × (body w ≡ ok (made, v))
                × (w'
                    ≡ record v { idempotency_records = w'.idempotency_records; ticks = w'.ticks }))
      by_row none done =
          after body
            (λ made. do
              save_idempotent_result env project_id scope key payload_digest made.0 made.1
              pure made.0)
            w r w' done λ made v e last. inr (made, v, e, ground arith)
      by_row (some x) done =
          let (same, last) =
            checked_prior (x.payload_digest == payload_digest) x.result
              (run_or_replay env project_id scope key payload_digest body) w r w' done in
          inl (ground arith)

  -- A command that succeeds leaves its record.
  pub once-Saved :
      (w : World) (r : Json) (w' : World)
      → once env project_id scope key payload_digest body w ≡ ok (r, w')
      → Saved project_id scope key payload_digest r w'
  unfolding once
  once-Saved w r w' h = by_row (recorded project_id scope key w.idempotency_records) refl h
    where
      by_row :
          (found : Option IdempotencyRecord)
          → recorded project_id scope key w.idempotency_records ≡ found
          → (prior_result found payload_digest >>= λ prior.
                run_or_replay env project_id scope key payload_digest body prior)
              w
            ≡ ok (r, w')
          → Saved project_id scope key payload_digest r w'
      by_row none is done =
          after body
            (λ made. do
              save_idempotent_result env project_id scope key payload_digest made.0 made.1
              pure made.0)
            w r w' done
            λ made v e last.
              let saved : IdempotencyRecord = record {
                project_id = project_id;
                scope = scope;
                idempotency_key = key;
                payload_digest = payload_digest;
                result = made.0;
                event_id = made.1;
                created_at = env.now v.ticks;
              } in
              let facts : (w'.idempotency_records ≡ saved ∷ v.idempotency_records) × (made.0 ≡ r) =
                ground arith in
              (
                saved,
                ap (recorded project_id scope key) facts.0
                    ∙ recorded-first saved v.idempotency_records,
                refl,
                facts.1,
              )
      by_row (some x) is done =
          let (same, last) =
            checked_prior (x.payload_digest == payload_digest) x.result
              (run_or_replay env project_id scope key payload_digest body) w r w' done in
          let facts : (w' ≡ w) × (x.result ≡ r) = ground arith in
          (
            x,
            ap (λ (y : World). recorded project_id scope key y.idempotency_records) facts.0 ∙ is,
            (eq_iff x.payload_digest payload_digest).0 same,
            facts.1,
          )

  -- A command whose record is there returns the recorded result, and changes nothing.
  pub once-replays :
      (prior : Json) (w : World) (r : Json) (w' : World)
      → Saved project_id scope key payload_digest prior w
      → once env project_id scope key payload_digest body w ≡ ok (r, w')
      → (r ≡ prior) × (w' ≡ w)
  unfolding once
  once-replays prior w r w' (x, there, digest, result) h =
      let (same, last) =
        checked_prior (x.payload_digest == payload_digest) x.result
          (run_or_replay env project_id scope key payload_digest body) w r w'
          (subst
            (λ found.
              (prior_result found payload_digest >>= λ p.
              run_or_replay env project_id scope key payload_digest body p)
                w
              ≡ ok (r, w'))
            there h) in
      let facts : (w' ≡ w) × (x.result ≡ r) = ground arith in (sym facts.1 ∙ result, facts.0)
