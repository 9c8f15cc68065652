-- ===== src/Store/Chain.antt =====
-- The hash chain (store.py): what `append_event` adds, `verify_event_chain` accepts.

use company_os.Prelude.{ℕ, suc, ◌≡◌, refl, ◌∙◌, sym, String, List, eq_iff}
use company_os.Result.{ok, ◌>>◌}
use company_os.Db.{World, Env}
use company_os.Db.Rows.{Event, Session}
use company_os.Store.Entry.{Entry, last_hash, chained_hash, envelope}
use company_os.Store.Append.{append_event}
use company_os.Store.Verify.{row_envelope, row_hash, verify_event, verify_event_chain, metadata}
use company_os.Store.Log.{append_event-Appended}

module _ (env : Env) where
  -- The hash that is checked is the one that was stored.
  row_hash-chained_hash : (p : String) (e : Event) → row_hash env p e ≡ chained_hash env p e
  unfolding row_hash row_envelope chained_hash envelope
  row_hash-chained_hash p e = refl

  verify_event-links :
      (ss : List Session) (p : String) (e : Event)
      → e.previous_event_hash ≡ p
      → chained_hash env p e ≡ e.event_hash
      → env.sha256 (env.canonical_json e.payload) ≡ e.payload_digest
      → verify_event env ss p e ≡ metadata env ss e
  unfolding verify_event
  verify_event-links ss p e previous hash digest = rw (
    (eq_iff _ _).1 previous,
    (eq_iff _ _).1 (row_hash-chained_hash p e ∙ hash),
    (eq_iff _ _).1 digest,
  )

  -- If the log verified before a successful append, the links of the appended event are sound,
  -- whoever made it: what `verify_event_chain` then says is decided by the event's authority
  -- metadata alone.
  pub append-verify_chain :
      (x : Entry) (w : World) (e : Event) (w' : World) (n : ℕ)
      → append_event env x w ≡ ok (e, w')
      → verify_event_chain env w ≡ ok n
      → verify_event_chain env w' ≡ (do metadata env w.sessions e; ok (suc n))
  unfolding verify_event_chain
  append-verify_chain x w e w' n h v =
      let done = append_event-Appended env x w e w' h in
      let links =
        verify_event-links w.sessions (last_hash w.events) e done.7 (sym done.8) (sym done.9) in
      rw done.0 (rw v (rw links))
