-- ===== src/Leases/History.antt =====
-- Sequences of lease operations (leases.py), and the fences that they leave behind.
use company_os.Prelude.{
  ℕ, ◌<◌, ◌≡◌, ◌≢◌, ◌∙◌, ap₂, String, Bool, true, Option, none, some, if◌then◌else◌, List, arith,
}
use company_os.Result.{ok, lease_error}
use company_os.Text.{strip, required_text, positive, required_text-ok, positive-ok}
use company_os.Db.{World, Env}
use company_os.Db.Rows.{Lease}
use company_os.Identity.{VerifiedPrincipal}
use company_os.Exec.{Exec, each, assert, pure, ◌>>=◌, ◌>>◌}
use company_os.Exec.Steps.{Steps, after, after_lift}
use company_os.Leases.{
  find_lease, acquire, renew, release, holder_id, is_active, matches, require_match,
  require_current_fence,
}
use company_os.Leases.Claims.{Later, Fenced, fenced_rules}
use company_os.Leases.Fencing.{acquire-Fenced, renew-Fenced, release-Fenced}
use company_os.Leases.Exclusion.{holder_id-exact}

-- one call of the lease manager, by any caller
pub data Call : Type 0 where
  acquiring : (resource project task_id : String) (holder : VerifiedPrincipal) (ttl : ℕ) → Call
  renewing : (resource project task_id : String) (holder : VerifiedPrincipal) (fence ttl : ℕ) → Call
  releasing : (resource project task_id : String) (holder : VerifiedPrincipal) (fence : ℕ) → Call

module _ (env : Env) where
  unfoldable pub perform : Call → Exec Unit
  unfolding ◌>>=◌ acquire renew release
  perform (acquiring k p t h ttl) = do acquire env k p t h ttl; pure tt
  perform (renewing k p t h f ttl) = do renew env k p t h f ttl; pure tt
  perform (releasing k p t h f) = do release env k p t h f; pure tt

  pub perform-Fenced : (c : Call) → Steps Fenced (perform c)
  unfolding perform
  perform-Fenced (acquiring k p t h ttl) = search (fenced_rules, acquire-Fenced) depth 20
  perform-Fenced (renewing k p t h f ttl) = search (fenced_rules, renew-Fenced) depth 20
  perform-Fenced (releasing k p t h f) = search (fenced_rules, release-Fenced) depth 20

  perform_all-Fenced : (cs : List Call) → Steps Fenced (each perform cs)
  perform_all-Fenced cs = search (fenced_rules, perform-Fenced) depth 20

  -- Whatever sequence of acquisitions, renewals and releases runs, a resource that had a row still has
  -- one, and its claim is later: the fence rose, or it is the same claim with the same fence, project,
  -- task and holder, and a released one has stayed released.
  pub calls_keep_claims :
      (cs : List Call) (w w' : World) (u : Unit {0}) (key : String) (l : Lease)
      → each perform cs w ≡ ok (u, w')
      → find_lease key w ≡ some l
      → (l' : Lease) × (find_lease key w' ≡ some l') × Later l l'
  calls_keep_claims cs w w' u key l run found =
      ((perform_all-Fenced cs).at w u w' run).later key l found

  matched_fence :
      (found : Option Lease) (p t h : String) (f : ℕ) (b : Bool) (w : World) (r : Lease)
      (w' : World)
      → require_match env found p t h f b w ≡ ok (r, w')
      → (found ≡ some r) × (r.fence ≡ f)
  unfolding require_match
  matched_fence none p t h f b w r w' done = absurd (ground arith)
  matched_fence (some l) p t h f b w r w' done =
      after (assert (matches l p t h f) lease_error) _ w r w' done λ _ v matched h₁.
        after (if b then is_active env l else pure true) _ v r w' h₁
          λ active u looked h₂. ground arith

  -- A fence that was passed over is dead for good: once a resource's fence is above `f`, then after
  -- any sequence of lease operations a check that wants the fence `f` is refused.
  pub stale_fence_refused :
      (cs : List Call) (w w' : World) (u : Unit {0}) (resource p t : String)
      (holder : VerifiedPrincipal) (l : Lease) (f : ℕ) (active : Bool) (r : Lease) (w'' : World)
      → find_lease (strip resource) w ≡ some l
      → f < l.fence
      → each perform cs w ≡ ok (u, w')
      → require_current_fence env resource p t holder f active w' ≢ ok (r, w'')
  unfolding require_current_fence
  stale_fence_refused cs w w' u resource p t holder l f active r w'' found lower run done =
      let (l', found', later) = calls_keep_claims cs w w' u (strip resource) l run found in
      after_lift (required_text lease_error resource) _ w' r w'' done λ key key_ok h₁.
        after_lift (required_text lease_error p) _ w' r w'' h₁ λ p' p_ok h₂.
          after_lift (required_text lease_error t) _ w' r w'' h₂ λ t' t_ok h₃.
            after_lift (positive lease_error f) _ w' r w'' h₃ λ n n_ok h₄.
              after (holder_id env holder) _ w' r w'' h₄ λ by v by_ok h₅.
                let key_is = (required_text-ok lease_error resource key key_ok).0 in
                let n_is = (positive-ok lease_error f n n_ok).0 in
                let world = (holder_id-exact env holder w' by v by_ok).1 in
                let there : find_lease key v ≡ some l' = ap₂ find_lease key_is world ∙ found' in
                let (matched, fence) =
                  matched_fence (find_lease key v) p' t' by n active v r w'' h₅ in
                ground (arith, matched, there)
