-- ===== src/Store/Log.antt =====
-- What a successful `append_event` (store.py) leaves in the database.
use company_os.Prelude.{ℕ, ◌+◌, ◌≡◌, none, ◌∷◌, arith}
use company_os.Result.{ok}
use company_os.Db.{World, Env}
use company_os.Db.Rows.{Event, AuthContext}
use company_os.Exec.Steps.{Steps, steps_rules, continue-ok}
use company_os.Exec.Reads.{OnlyReads, OnlyReads-Stepping}
use company_os.Store.Entry.{Entry, last_hash, max_version, chained_hash, envelope}
use company_os.Store.Append.{
  authorize_core_event, authorize_protected_event, authorize, append_authorized, append_event,
  or_else,
}

module _ (env : Env) (x : Entry) where
  authorize-OnlyReads : Steps OnlyReads (authorize env x)
  unfolding authorize_core_event authorize_protected_event
  authorize-OnlyReads = search (steps_rules, OnlyReads-Stepping) depth 30

  -- What is appended, and to which log.
  abbrev pub Appended : World → Event → World → Type 0
  Appended w e w' =
      (w' ≡ record w { events = e ∷ w.events; pending = none; ticks = w'.ticks; ids = w'.ids })
      × (max_version x.aggregate_type x.aggregate_id w.events ≡ x.expected_version)
      × (e.aggregate_type ≡ x.aggregate_type)
      × (e.aggregate_id ≡ x.aggregate_id)
      × (e.aggregate_version ≡ x.expected_version + 1)
      × (e.event_type ≡ x.event_type)
      × (e.payload ≡ x.payload)
      × (e.previous_event_hash ≡ last_hash w.events)
      × (e.event_hash ≡ chained_hash env (last_hash w.events) e)
      × (e.payload_digest ≡ env.sha256 (env.canonical_json e.payload))

  pub append_authorized-Appended :
      (auth : AuthContext) (w : World) (e : Event) (w' : World)
      → append_authorized env x auth w ≡ ok (e, w')
      → Appended w e w'
        × (e.auth_context ≡ auth)
        × (e.actor ≡ x.actor)
        × (e.occurred_at ≡ or_else x.occurred_at (env.now w.ticks))
  unfolding append_authorized envelope
  append_authorized-Appended auth w e w' h = ground arith

  Appended-OnlyReads :
      (w v w' : World) (e : Event) → OnlyReads w v → Appended v e w' → Appended w e w'
  Appended-OnlyReads w v w' e same done = ground arith

  -- A successful append adds one event to the log and changes no other table. The event carries the
  -- caller's aggregate, type and payload, the version that follows the aggregate's current one, which
  -- is the one that the caller expected, and the hash of the event before it.
  pub append_event-Appended :
      (w : World) (e : Event) (w' : World) → append_event env x w ≡ ok (e, w') → Appended w e w'
  unfolding append_event
  append_event-Appended w e w' h =
      let (auth, v, first, second) =
        continue-ok (authorize env x w) (append_authorized env x) e w' h in
      Appended-OnlyReads w v w' e (authorize-OnlyReads.at w auth v first)
        (append_authorized-Appended auth v e w' second).0

  -- An append is a step of every relation that allows drawing instants and identifiers, and one more
  -- event in the log.
  pub Steps-append_event :
      {R : World → World → Type 0}
      → ((w : World) (e : Event) (t i : ℕ)
          → R w (record w { events = e ∷ w.events; pending = none; ticks = t; ids = i }))
      → Steps R (append_event env x)
  Steps-append_event step = record {
    at = λ w e w' h. rw (append_event-Appended w e w' h).0 (step w e w'.ticks w'.ids);
  }
