-- ===== src/Freshness.antt =====
-- The newest observation of a runtime surface, as companyos_runtime/observations.py and gates.py look
-- for it.
use Prim.Native.Nat.{◌/◌, ◌-◌}
use company_os.Prelude.{
  ℕ, String, Bool, true, not, ◌&&◌, ◌||◌, Option, none, some, List, [], ◌∷◌, all, any, elem, select,
  head?, ltb, leb, eqb, is_text, is_none, if◌then◌else◌, ◌==◌,
}
use company_os.Types.Values.{Role}
use company_os.Types.Equality.{same_role}
use company_os.Types.Specs.{RuntimeSurfaceSpec}
use company_os.Db.{World, Env}
use company_os.Db.Rows.{Run, Observation, Event, Principal, PrincipalRole}

-- ORDER BY observed_at DESC, recorded_at DESC
abbrev comes_before : Observation → Observation → Bool
comes_before a b =
    ltb b.observed_at a.observed_at
    || eqb a.observed_at b.observed_at && not (ltb a.recorded_at b.recorded_at)

abbrev insert_newest : Observation → List Observation → List Observation
insert_newest o [] = o ∷ []
insert_newest o (p ∷ ps) =
    let later = p ∷ insert_newest o ps in if comes_before o p then o ∷ p ∷ ps else later

unfoldable pub newest_first : List Observation → List Observation
newest_first [] = []
newest_first (o ∷ os) = insert_newest o (newest_first os)

abbrev pub observations_of : String → String → List Observation → List Observation
observations_of run_id surface_key os =
    select (λ (o : Observation). o.run_id == run_id && o.surface_key == surface_key) os

-- `_HEALTHY`
abbrev pub healthy : String → Bool
healthy status = elem status ("healthy" ∷ "ok" ∷ "pass" ∷ [])

-- an enabled principal with the observer role
abbrev pub trusted_observer : String → List Principal → List PrincipalRole → Bool
trusted_observer observer principals roles =
    any (λ (p : Principal). p.principal_id == observer && p.enabled) principals
    && any (λ (r : PrincipalRole). r.principal_id == observer && same_role r.role Role.observer)
        roles

-- the observations of the newest instant agree on target, status and value
abbrev pub agree : Observation → List Observation → Bool
agree latest os =
    all
      (λ (o : Observation).
        not (eqb o.observed_at latest.observed_at)
        || o.target_identity == latest.target_identity
          && o.status == latest.status
          && o.value_digest == latest.value_digest)
      os

-- `strftime('%s', …)`
abbrev seconds_of : ℕ → ℕ
seconds_of t = t / 1000000

-- `_freshness_satisfied` on the newest observation, but for the clock
unfoldable pub acceptable : Run → RuntimeSurfaceSpec → Observation → World → Bool
acceptable run requirement latest w =
    healthy latest.status
    && latest.target_identity == requirement.target_identity
    && elem latest.probe_name requirement.allowed_probes
    && not (requirement.trigger_event_required && is_none latest.trigger_event_id)
    && elim latest.trigger_event_id [
      | none ↦ true
      | some trigger ↦
          any (λ (e : Event). e.event_id == trigger && is_text e.run_id run.run_id) w.events
    ]
    && trusted_observer latest.observer w.principals w.principal_roles
    && leb (seconds_of latest.observed_at) (seconds_of latest.expires_at)
    && leb (seconds_of latest.expires_at - seconds_of latest.observed_at)
        requirement.max_ttl_seconds

-- at an instant, by SQLite's `julianday`
abbrev pub current : Env → Observation → ℕ → Bool
current env latest now =
    leb (env.julianday latest.observed_at) (env.julianday now)
    && ltb (env.julianday now) (env.julianday latest.expires_at)

abbrev pub latest_of : Run → RuntimeSurfaceSpec → List Observation → Option Observation
latest_of run requirement os =
    head? (newest_first (observations_of run.run_id requirement.surface_key os))

abbrev pub agree_at : Run → RuntimeSurfaceSpec → Observation → List Observation → Bool
agree_at run requirement latest os =
    agree latest (observations_of run.run_id requirement.surface_key os)
