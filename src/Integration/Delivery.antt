-- ===== src/Integration/Delivery.antt =====
-- What stands behind a final item (integration.py, `advance`), a repeated `create`, and what a task's
-- items must be (`require_task_satisfied`).
use mathlib.Core.Path.{subst}
use company_os.Prelude.{
  ℕ, ◌≤◌, ◌≡◌, ap, ap₂, ◌∙◌, sym, String, true, false, ◌==◌, Option-cases, inl, inr, eq_iff, ◌∷◌,
  [], some, List, row, key-row, ◌++◌, arith,
}
use company_os.Result.{ok, not_found, transition_error, integrity_error}
use company_os.Types.Values.{Role, IntegrationState, parse_integration_state}
use company_os.StateMachine.Tasks.{terminal}
use company_os.Text.{required_text, required_text-ok, required_texts, distinct, strip}
use company_os.Db.{World, Env}
use company_os.Db.Rows.{IntegrationItem, Task}
use company_os.Exec.{pure}
use company_os.Exec.Steps.{Steps, steps_rules, after, after_lift, after_found, after_assert}
use company_os.Exec.Reads.{OnlyReads, OnlyReads-Stepping}
use company_os.Identity.{VerifiedPrincipal, verify_in_transaction, session_join}
use company_os.Identity.Reads.{identity_rules}
use company_os.Policy.Authority.{task_id_of}
use company_os.Integration.{
  final, integration_key, roles_for, actor_id, is_review_pending, given_or_fresh, same_content,
}
use company_os.Integration.Changes.{check_change, changed_event, advance_item, advance}
use company_os.Integration.Creation.{create, create_at}
use company_os.Integration.Items.{store_state-row, changed_event-SameItems}
use company_os.Integration.Evidence.{Backed, Backed-reads, Allowed, check_change-Allowed}

unmoved : (w v : World) → v ≡ w → OnlyReads w v
unmoved w v same = (ground arith, omega (arith, ap (λ (x : World). x.ticks) same))

returned_same : {A : Type 0} (a b : A) (w v : World) → pure a w ≡ ok (b, v) → (b ≡ a) × (v ≡ w)
unfolding pure
returned_same a b w v h = ground arith

module _ (env : Env) (policy_version : String) where
  pub actor_id-OnlyReads :
      (v : VerifiedPrincipal) (roles : List Role) → Steps OnlyReads (actor_id env v roles)
  unfolding actor_id
  actor_id-OnlyReads v roles = search (steps_rules, OnlyReads-Stepping, identity_rules) depth 20

  given-exact :
      (id : String) (w : World) (given : String) (v : World)
      → (id == "") ≡ false
      → given_or_fresh env (some id) w ≡ ok (given, v)
      → (given ≡ id) × (v ≡ w)
  unfolding pure
  given-exact id w given v named h = ground arith

  advance_item-Allowed :
      (since : ℕ) (item : IntegrationItem) (target : IntegrationState) (actor reason : String)
      (refs : List String) (w : World) (r : IntegrationItem) (w' : World)
      → since ≤ w.ticks
      → row integration_key item.integration_id w.integration_items ≡ some item
      → advance_item env policy_version item target actor reason refs w ≡ ok (r, w')
      → (v : World) × Allowed env policy_version since w v item r.state r.evidence_refs
  unfolding advance_item
  advance_item-Allowed since item target actor reason refs w r w' early there h =
      let all_refs = distinct (item.evidence_refs ++ refs) in
      after (check_change env policy_version item target refs all_refs) _ w r w' h λ u v checked h₁.
        after (changed_event env policy_version item target actor reason refs) _ v r w' h₁
          λ e x appended h₂.
            let facts =
              check_change-Allowed env policy_version since item target refs all_refs w u v early
                checked in
            let same =
              (changed_event-SameItems env policy_version item target actor reason refs).at v e x
                appended
              ∙ ap (λ (y : World). y.integration_items) facts.0.0 in
            let (state, kept, task) =
              store_state-row env policy_version item target all_refs x r w'
                (ap (row integration_key item.integration_id) same ∙ there) h₂ in
            (v, rw (state, kept) facts)

  -- An item becomes delivered or superseded by an advance only from an item that is there, of a task
  -- that is not terminal; and then the task has no compiled authority, or a valid one, each of whose
  -- decision gates has an approval of exactly its request, unexpired when the clock was read, not before
  -- the call; and one of the resulting item's evidence references is a claim of the task at the task's
  -- evidence target, with a verdict that the task's specification accepts.
  pub final_needs_evidence :
      (id target : String) (actor : VerifiedPrincipal) (refs : List String) (reason : String)
      (w : World) (r : IntegrationItem) (w' : World)
      → advance env policy_version id target actor refs reason w ≡ ok (r, w')
      → final r.state ≡ true
      → (item : IntegrationItem) × (row integration_key (strip id) w.integration_items ≡ some item)
        × ((task : Task) × (row task_id_of item.task_id w.tasks ≡ some task)
            × (terminal task.state ≡ false)
            × Backed env policy_version w.ticks w item task.spec r.evidence_refs)
  unfolding advance
  final_needs_evidence id target actor refs reason w r w' h is_final =
      after_lift (required_text transition_error id) _ w r w' h λ key key_ok h₁.
        after_lift (required_text transition_error reason) _ w r w' h₁ λ why why_ok h₂.
          after_found (parse_integration_state target) transition_error _ w r w' h₂ λ state is h₃.
            after_lift (required_texts transition_error refs) _ w r w' h₃ λ ts ts_ok h₄.
              after (actor_id env actor (roles_for state)) _ w r w' h₄ λ by v by_ok h₅.
                after_found (row integration_key key v.integration_items) not_found _ v r w' h₅
                  λ item found h₆.
                    let same = (actor_id-OnlyReads actor (roles_for state)).at w by v by_ok in
                    let there =
                      ap (λ k. row integration_key k v.integration_items)
                        (key-row integration_key key v.integration_items item found)
                      ∙ found in
                    let (x, facts) =
                      advance_item-Allowed w.ticks item state by why (distinct ts) v r w' same.1
                        there h₆ in
                    let named = (required_text-ok transition_error id key key_ok).0 in
                    let (task, found_task, alive, backed) = facts.2 in
                    (
                      item,
                      sym (
                            ap₂ (λ k (y : World). row integration_key k y.integration_items) named
                              same.0)
                          ∙ found,
                      (
                        task,
                        sym (ap (λ (y : World). row task_id_of item.task_id y.tasks) same.0)
                            ∙ found_task,
                        alive,
                        Backed-reads env policy_version w.ticks item task.spec r.evidence_refs w v
                            same (backed is_final),
                      ),
                    )

  -- The actor's id is the session's own principal.
  actor_id-exact :
      (v : VerifiedPrincipal) (roles : List Role) (w : World) (h : String) (w' : World)
      → actor_id env v roles w ≡ ok (h, w')
      → h ≡ v.principal_id
  unfolding actor_id verify_in_transaction
  actor_id-exact v roles w h w' r = elim (Option-cases (session_join v.session_id w)) [
    | inl e ↦ ground arith
    | inr (sp, e) ↦ ground (arith, eq_iff sp.0.principal_id v.principal_id)
  ]

  -- A `create` under the id of an item that is there, when it succeeds, returns that item and writes
  -- nothing; and the call said what the item says: the trimmed task, source and target, the caller as
  -- the owner, an item under review, and the same evidence references.
  pub create_reuses :
      (t s g : String) (o : VerifiedPrincipal) (state : String) (refs : List String) (id : String)
      (w : World) (r : IntegrationItem) (w' : World) (i : IntegrationItem)
      → create env policy_version t s g o state refs (some id) w ≡ ok (r, w')
      → (id == "") ≡ false
      → row integration_key (strip id) w.integration_items ≡ some i
      → (r ≡ i)
        × OnlyReads w w'
        × ((ts : List String) × (required_texts transition_error refs ≡ ok ts)
            × (same_content i
                  (strip t)
                  (strip s)
                  (strip g)
                  o.principal_id
                  IntegrationState.review_pending
                  (distinct ts)
                ≡ true))
  unfolding create
  create_reuses t s g o state refs id w r w' i h named there =
      after_lift (required_text transition_error t) _ w r w' h λ task task_ok h₁.
        after_lift (required_text transition_error s) _ w r w' h₁ λ source source_ok h₂.
          after_lift (required_text transition_error g) _ w r w' h₂ λ target target_ok h₃.
            after_found (parse_integration_state state) transition_error _ w r w' h₃ λ st is h₄.
              after_assert (is_review_pending st) transition_error _ w r w' h₄ λ review h₅.
                after_lift (required_texts transition_error refs) _ w r w' h₅ λ ts ts_ok h₆.
                  after (given_or_fresh env (some id)) _ w r w' h₆ λ given v given_ok h₇.
                    after_lift (required_text transition_error given) _ v r w' h₇ λ key key_ok h₈.
                      after (actor_id env o (Role.release ∷ Role.system ∷ [])) _ v r w' h₈
                        λ by u by_ok h₉.
                          let same_id : (given ≡ id) × (v ≡ w) =
                            given-exact id w given v named given_ok in
                          let reads =
                            (actor_id-OnlyReads o (Role.release ∷ Role.system ∷ [])).at v by u
                              by_ok in
                          let all_reads =
                            OnlyReads-Stepping.both w v u (unmoved w v same_id.1) reads in
                          let key_is : key ≡ strip id =
                            (required_text-ok transition_error given key key_ok).0
                            ∙ ap strip same_id.0 in
                          let found : row integration_key key u.integration_items ≡ some i =
                            ap₂ (λ k (y : World). row integration_key k y.integration_items) key_is
                              all_reads.0
                            ∙ there in
                          after_assert
                            (same_content i task source target by IntegrationState.review_pending
                              (distinct ts))
                            integrity_error (λ _. pure i) u r w'
                            (subst
                              (λ x.
                                create_at env policy_version x key task source target by
                                  (distinct ts) u
                                ≡ ok (r, w'))
                              found h₉)
                            λ content last.
                              let done : (r ≡ i) × (w' ≡ u) = returned_same i r u w' last in
                              (
                                done.0,
                                OnlyReads-Stepping.both w u w' all_reads (unmoved u w' done.1),
                                (
                                  ts,
                                  ts_ok,
                                  rw
                                      (
                                        ← (required_text-ok transition_error t task task_ok).0,
                                        ← (required_text-ok transition_error s source source_ok).0,
                                        ← (required_text-ok transition_error g target target_ok).0,
                                        ← actor_id-exact o (Role.release ∷ Role.system ∷ []) v by u
                                            by_ok,
                                      )
                                      content,
                                ),
                              )
