-- ===== src/Store/Versions.antt =====
-- The versions of an aggregate's events (store.py, `append_event`): optimistic concurrency.
use company_os.Prelude.{
  ◌+◌, ◌≡◌, ◌≢◌, refl, String, List, [], ◌∷◌, ◌&&◌, arith, if◌then◌else◌, eq_iff, ◌==◌, eq_refl,
  length,
}
use company_os.Result.{ok}
use company_os.Db.{World, Env}
use company_os.Db.Rows.{Event}
use company_os.Store.Entry.{Entry, max_version}
use company_os.Store.Append.{append_event}
use company_os.Store.Log.{append_event-Appended}

-- Every event has the version after the highest one that its aggregate had before it.
abbrev pub Versioned : List Event → Type 0
Versioned [] = Unit {0}
Versioned (e ∷ es) =
    (e.aggregate_version ≡ max_version e.aggregate_type e.aggregate_id es + 1) × Versioned es

-- the events of one aggregate
abbrev pub of_aggregate : String → String → List Event → List Event
of_aggregate t i [] = []
of_aggregate t i (e ∷ es) =
    let rest = of_aggregate t i es in
    if e.aggregate_type == t && e.aggregate_id == i then e ∷ rest else rest

module _ (env : Env) (x : Entry) where
  -- If every event of the log has the version after the highest that its aggregate had before,
  -- then a successful append keeps it so.
  pub append_event-Versioned :
      (w : World) (e : Event) (w' : World)
      → append_event env x w ≡ ok (e, w')
      → Versioned w.events
      → Versioned w'.events
  append_event-Versioned w e w' h v = ground (arith, append_event-Appended env x w e w' h)

-- In a versioned log the highest version of an aggregate is the number of its events.
pub max_version-count :
    (t i : String) (es : List Event)
    → Versioned es
    → max_version t i es ≡ length (of_aggregate t i es)
max_version-count t i [] v = refl
max_version-count t i (e ∷ es) v =
    ground (arith, max_version-count t i es v.1, eq_iff e.aggregate_type t, eq_iff e.aggregate_id i)

-- Of two writers that expect the same version of an aggregate at most one succeeds: in the
-- database that a successful append leaves, an append to the same aggregate that expects the same
-- version fails.
pub append_event_no_lost_update :
    (env : Env) (x y : Entry) (w w' w'' : World) (e f : Event)
    → append_event env x w ≡ ok (e, w')
    → y.aggregate_type ≡ x.aggregate_type
    → y.aggregate_id ≡ x.aggregate_id
    → y.expected_version ≡ x.expected_version
    → append_event env y w' ≢ ok (f, w'')
append_event_no_lost_update env x y w w' w'' e f h t i v second = ground (
  arith,
  append_event-Appended env x w e w' h,
  append_event-Appended env y w' f w'' second,
  eq_refl x.aggregate_type,
  eq_refl x.aggregate_id,
)
