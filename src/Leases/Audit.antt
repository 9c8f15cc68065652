-- ===== src/Leases/Audit.antt =====
-- The audit event of a lease operation (leases.py, `_append_audit`), and the row that a write leaves.
use company_os.Prelude.{
  ℕ, ◌+◌, ◌≡◌, refl, String, Option, none, some, List, ◌∷◌, row, arith, row-cons, row-modify,
  eq_refl, true,
}
use company_os.Result.{ok}
use company_os.Db.{World, Env}
use company_os.Db.Rows.{Lease, Task, Event}
use company_os.Exec.{fresh_id}
use company_os.Exec.Steps.{after}
use company_os.Store.Log.{append_event-Appended}
use company_os.Store.Append.{append_event}
use company_os.Store.Entry.{max_version}
use company_os.Leases.{lease_key, append_audit, audit_entry, taken, put_lease}

-- One event of the lease's aggregate is added, and the leases are kept.
abbrev pub Audited : String → World → Event → World → Type 0
Audited key w e w' =
    (w'.leases ≡ w.leases)
    × (w'.events ≡ e ∷ w.events)
    × (e.aggregate_type ≡ "lease")
    × (e.aggregate_id ≡ key)

module _ (env : Env) where
  pub append_audit-Audited :
      (key : String) (t : Task) (h : String) (f : ℕ) (ev : String) (x : ℕ) (w : World) (e : Event)
      (w' : World)
      → append_audit env key t h f ev x w ≡ ok (e, w')
      → Audited key w e w'
  unfolding append_audit
  append_audit-Audited key t h f ev x w e w' done =
      let n = max_version "lease" key w.events in
      after (fresh_id env)
        (λ command_id. append_event env (audit_entry key t h f ev x n command_id)) w e w' done
        λ command_id v drawn appended.
          let facts =
            append_event-Appended env (audit_entry key t h f ev x n command_id) v e w' appended in
          let before : v.events ≡ w.events = ground arith in ground arith

-- What the row found after the write says.
pub put_lease-row :
    (old : Option Lease) (key p t h : String) (i x : ℕ) (ls : List Lease) (a : Lease)
    → row lease_key key ls ≡ old
    → row lease_key key (put_lease old (taken old key p t h i x) ls) ≡ some a
    → (a.fence ≡ (taken old key p t h i x).fence)
      × (a.holder ≡ h)
      × (a.project_id ≡ p)
      × (a.task_id ≡ t)
      × (a.released_at ≡ none)
      × (a.issued_at ≡ i)
      × (a.expires_at ≡ x)
put_lease-row none key p t h i x ls a found after_write =
    ground (arith, row-cons lease_key key (taken none key p t h i x) ls, eq_refl key)
put_lease-row (some l) key p t h i x ls a found after_write = ground (
  arith,
  row-modify lease_key key key (λ r. true)
      (λ r. record (taken (some l) key p t h i x) {
        resource_key = r.resource_key;
        fence = r.fence + 1;
      })
      ls (λ r. refl),
  eq_refl key,
)
