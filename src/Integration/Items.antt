-- ===== src/Integration/Items.antt =====
-- How the items of the queue change (integration.py): by the transitions that the table allows.
use company_os.Prelude.{
  ℕ, suc, ◌≡◌, refl, ap, key-row, sym, ◌∙◌, String, true, Option, none, some, List, ◌∷◌, row,
  modify, ◌++◌, row-cons, row-modify, eq_iff, eq_refl, arith, Bool-cases, inl, inr, ◌==◌,
}
use company_os.Result.{ok, not_found}
use company_os.Types.Values.{Role, IntegrationState}
use company_os.Db.{World, Env}
use company_os.Db.Rows.{IntegrationItem, Event, Task}
use company_os.Exec.{gets, or_raise, ◌>>=◌}
use company_os.Exec.Steps.{Steps, Stepping, steps_rules, Steps-query, after, after_found}
use company_os.Text.{distinct}
use company_os.Integration.Evidence.{check_change-Allowed}
use company_os.Identity.{VerifiedPrincipal}
use company_os.Identity.Reads.{identity_rules}
use company_os.Store.Log.{Steps-append_event}
use company_os.Integration.{
  final, allows, integration_key, actor_id, validate_evidence, given_or_fresh, task_of_item,
}
use company_os.Integration.Changes.{changed_event, store_state, check_change, advance_item, advance}
use company_os.Integration.Creation.{
  created_event, new_item, store_item, insert_item, check_new, create_new, create_at, create,
}

-- What became of an item: nothing, or a chain of moves that the table allows.
pub data Evolves (i : IntegrationItem) : IntegrationItem → Type 0 where
  stayed : Evolves i i
  moved :
      (j : IntegrationItem) (target : IntegrationState) (refs : List String) (now : ℕ)
      → Evolves i j
      → allows j.state target ≡ true
      → Evolves i (record j { state = target; evidence_refs = refs; updated_at = now })

-- No item is lost, and each evolves.
abbrev pub Evolved : World → World → Type 0
Evolved w w' =
    (id : String) (i : IntegrationItem)
    → row integration_key id w.integration_items ≡ some i
    → (j : IntegrationItem) × (row integration_key id w'.integration_items ≡ some j) × Evolves i j

-- The queue is not touched.
abbrev pub SameItems : World → World → Type 0
SameItems w w' = w'.integration_items ≡ w.integration_items

pub SameItems-Stepping : Stepping SameItems
SameItems-Stepping = record {
  stay = λ w. refl;
  both = λ u v w p q. q ∙ p;
  tick = λ w. refl;
  draw = λ w. refl;
}

SameItems-Evolved : (w w' : World) → SameItems w w' → Evolved w w'
SameItems-Evolved w w' same id i found = (i, ap (row integration_key id) same ∙ found, stayed)

chain : (i j k : IntegrationItem) → Evolves i j → Evolves j k → Evolves i k
chain i j _ first stayed = first
chain i j _ first (moved k target refs now before legal) =
    moved k target refs now (chain i j k first before) legal

Evolved-chain : (u v w : World) → Evolved u v → Evolved v w → Evolved u w
Evolved-chain u v w p q id i found =
    let (j, there, first) = p id i found in
    let (k, then_there, second) = q id j there in (k, then_there, chain i j k first second)

pub Evolved-Stepping : Stepping Evolved
Evolved-Stepping = record {
  stay = λ w. SameItems-Evolved w w refl;
  both = Evolved-chain;
  tick = λ w. SameItems-Evolved w w refl;
  draw = λ w. SameItems-Evolved w w refl;
}

final-sealed : (s t : IntegrationState) → final s ≡ true → allows s t ≡ true → ⊥
unfolding allows
final-sealed s t is_final legal = ground arith

-- A final item stays as it is.
pub final-stays : (i j : IntegrationItem) → final i.state ≡ true → Evolves i j → j ≡ i
final-stays i _ is_final stayed = refl
final-stays i _ is_final (moved j target refs now before legal) =
    let same = final-stays i j is_final before in
    absurd (
      final-sealed j.state target (ap (λ (x : IntegrationItem). final x.state) same ∙ is_final)
        legal)

module _ (env : Env) (policy_version : String) where
  created_event-SameItems :
      (i t s g o : String) (refs : List String) (task : Task) (r : String)
      → Steps SameItems (created_event env policy_version i t s g o refs task r)
  unfolding created_event
  created_event-SameItems i t s g o refs task r =
      search (steps_rules, SameItems-Stepping, Steps-append_event) depth 20

  pub changed_event-SameItems :
      (i : IntegrationItem) (target : IntegrationState) (actor reason : String) (refs : List String)
      → Steps SameItems (changed_event env policy_version i target actor reason refs)
  unfolding changed_event
  changed_event-SameItems i target actor reason refs =
      search (steps_rules, SameItems-Stepping, Steps-append_event) depth 20

  -- What the stored item is, and the table that it leaves.
  store_item-exact :
      (item : IntegrationItem) (w : World) (r : IntegrationItem) (w' : World)
      → store_item env policy_version item w ≡ ok (r, w')
      → (w'.integration_items ≡ item ∷ w.integration_items) × (r ≡ item)
  unfolding store_item
  store_item-exact item w r w' h = ground (
    arith,
    row-cons integration_key item.integration_id item w.integration_items,
    eq_refl item.integration_id,
  )

  -- an item is new when its id had none
  inserted-Evolved :
      (item : IntegrationItem) (w w' : World)
      → row integration_key item.integration_id w.integration_items ≡ none
      → w'.integration_items ≡ item ∷ w.integration_items
      → Evolved w w'
  inserted-Evolved item w w' new table id i found = (
    i,
    ap (row integration_key id) table
        ∙ ground (
          arith,
          row-cons integration_key id item w.integration_items,
          eq_iff item.integration_id id,
        ),
    stayed,
  )

  pub store_state-exact :
      (id : String) (target : IntegrationState) (refs : List String) (w : World)
      (r : IntegrationItem) (w' : World)
      → store_state env policy_version id target refs w ≡ ok (r, w')
      → (now : ℕ) × (w'.integration_items
          ≡ modify integration_key id
              (λ i. true)
              (λ i. record i { state = target; evidence_refs = refs; updated_at = now })
              w.integration_items)
        × (row integration_key id w'.integration_items ≡ some r)
  unfolding store_state
  store_state-exact id target refs w r w' h = (env.now w.ticks, ground arith, ground arith)

  -- the row that is read back is the old one, moved
  pub store_state-row :
      (item : IntegrationItem) (target : IntegrationState) (refs : List String) (w : World)
      (r : IntegrationItem) (w' : World)
      → row integration_key item.integration_id w.integration_items ≡ some item
      → store_state env policy_version item.integration_id target refs w ≡ ok (r, w')
      → (r.state ≡ target) × (r.evidence_refs ≡ refs) × (r.task_id ≡ item.task_id)
  store_state-row item target refs w r w' there h =
      let (now, table, found) = store_state-exact item.integration_id target refs w r w' h in
      let upd = λ (x : IntegrationItem). record x {
        state = target;
        evidence_refs = refs;
        updated_at = now;
      } in
      let lookup =
        ap (row integration_key item.integration_id) table
        ∙ row-modify integration_key item.integration_id item.integration_id (λ i. true) upd
            w.integration_items (λ x. refl) in
      ground (arith, lookup, found, there, eq_refl item.integration_id)

  moved-Evolved :
      (item : IntegrationItem) (target : IntegrationState) (refs : List String) (now : ℕ)
      (w w' : World)
      → row integration_key item.integration_id w.integration_items ≡ some item
      → allows item.state target ≡ true
      → w'.integration_items
        ≡ modify integration_key item.integration_id
            (λ i. true)
            (λ i. record i { state = target; evidence_refs = refs; updated_at = now })
            w.integration_items
      → Evolved w w'
  moved-Evolved item target refs now w w' there legal table id i found =
      let upd = λ (x : IntegrationItem). record x {
        state = target;
        evidence_refs = refs;
        updated_at = now;
      } in
      let lookup =
        ap (row integration_key id) table
        ∙ row-modify integration_key item.integration_id id (λ i. true) upd w.integration_items
            (λ x. refl) in
      elim (Bool-cases (item.integration_id == id)) [
        | inl same ↦
            let it : item ≡ i = ground (arith, eq_iff item.integration_id id) in
            let may : allows i.state target ≡ true =
              ap (λ (x : IntegrationItem). allows x.state target) (sym it) ∙ legal in
            (upd i, lookup ∙ ground arith, moved i target refs now stayed may)
        | inr other ↦ (i, lookup ∙ ground arith, stayed)
      ]

  -- What an advance that succeeds went through, from the item's row on.
  advance_item-Moved :
      (item : IntegrationItem) (target : IntegrationState) (actor reason : String)
      (refs : List String) (w : World) (r : IntegrationItem) (w' : World)
      → row integration_key item.integration_id w.integration_items ≡ some item
      → advance_item env policy_version item target actor reason refs w ≡ ok (r, w')
      → Evolved w w'
  unfolding advance_item
  advance_item-Moved item target actor reason refs w r w' there h =
      let all_refs = distinct (item.evidence_refs ++ refs) in
      after (check_change env policy_version item target refs all_refs) _ w r w' h λ u v checked h₁.
        after (changed_event env policy_version item target actor reason refs) _ v r w' h₁
          λ e x appended h₂.
            let facts =
              check_change-Allowed env policy_version w.ticks item target refs all_refs w u v
                (omega arith) checked in
            let same =
              (changed_event-SameItems item target actor reason refs).at v e x appended
              ∙ ap (λ (y : World). y.integration_items) facts.0.0 in
            let (now, table, found) =
              store_state-exact item.integration_id target all_refs x r w' h₂ in
            moved-Evolved item target all_refs now w w' there facts.1
              (table ∙ ap (modify integration_key item.integration_id (λ i. true) _) same)

  actor_id-Evolved :
      (v : VerifiedPrincipal) (roles : List Role) → Steps Evolved (actor_id env v roles)
  unfolding actor_id
  actor_id-Evolved v roles = search (steps_rules, Evolved-Stepping, identity_rules) depth 20

  -- An advance that succeeds moves one item, and loses none.
  pub advance-Evolved :
      (id target : String) (actor : VerifiedPrincipal) (refs : List String) (reason : String)
      → Steps Evolved (advance env policy_version id target actor refs reason)
  unfolding advance
  advance-Evolved id target actor refs reason =
      search (from_row, actor_id-Evolved, steps_rules, Evolved-Stepping) depth 30
    where
      from_row :
          (id : String) (target : IntegrationState) (by reason : String) (refs : List String)
          → Steps Evolved (
              gets (λ (w : World). row integration_key id w.integration_items) >>= λ found.
              (or_raise found not_found >>= λ item.
              advance_item env policy_version item target by reason refs))
      from_row id target by reason refs =
          Steps-query (λ (w : World). row integration_key id w.integration_items)
            (λ found. or_raise found not_found >>= λ item.
              advance_item env policy_version item target by reason refs)
            λ w r w' h.
              after_found (row integration_key id w.integration_items) not_found
                (λ item. advance_item env policy_version item target by reason refs) w r w' h
                λ item found done.
                  advance_item-Moved item target by reason refs w r w'
                    (ap (λ k. row integration_key k w.integration_items)
                        (key-row integration_key id w.integration_items item found)
                      ∙ found)
                    done

  task_of_item-SameItems : (t : String) → Steps SameItems (task_of_item env t)
  unfolding task_of_item
  task_of_item-SameItems t = search (steps_rules, SameItems-Stepping) depth 20

  evidence-SameItems :
      (t : String) (refs : List String) → Steps SameItems (validate_evidence env t refs)
  unfolding validate_evidence
  evidence-SameItems t refs = search (steps_rules, SameItems-Stepping) depth 20

  check_new-SameItems :
      (t : String) (refs : List String) → Steps SameItems (check_new env policy_version t refs)
  unfolding check_new
  check_new-SameItems t refs =
      search (steps_rules, SameItems-Stepping, task_of_item-SameItems, evidence-SameItems) depth 30

  create_new-Evolved :
      (id t s g o : String) (refs : List String) (w : World) (r : IntegrationItem) (w' : World)
      → row integration_key id w.integration_items ≡ none
      → create_new env policy_version id t s g o refs w ≡ ok (r, w')
      → Evolved w w'
  unfolding create_new insert_item
  create_new-Evolved id t s g o refs w r w' new h =
      after (check_new env policy_version t refs) _ w r w' h λ checked v e₁ h₁.
        let x = record v { ticks = suc v.ticks } in
        let item =
          new_item env policy_version id t s g o refs checked.0 checked.1 (env.now v.ticks) in
        after (created_event env policy_version id t s g o refs checked.0 checked.1)
          (λ (e : Event). store_item env policy_version item) x r w' h₁
          λ e y e₂ h₂.
            let same =
              (created_event-SameItems id t s g o refs checked.0 checked.1).at x e y e₂
              ∙ (check_new-SameItems t refs).at w checked v e₁ in
            inserted-Evolved item w w' new
              ((store_item-exact item y r w' h₂).0 ∙ ap (λ is. item ∷ is) same)

  pub create-Evolved :
      (t s g : String) (o : VerifiedPrincipal) (state : String) (refs : List String)
      (id : Option String)
      → Steps Evolved (create env policy_version t s g o state refs id)
  unfolding create
  create-Evolved t s g o state refs id =
      search (at_row, given, actor_id-Evolved, steps_rules, Evolved-Stepping) depth 40
    where
      given : (id : Option String) → Steps Evolved (given_or_fresh env id)
      given none = search (steps_rules, Evolved-Stepping) depth 10
      given (some i) = search (steps_rules, Evolved-Stepping) depth 10

      found_row :
          (found : Option IntegrationItem) (id t s g o : String) (refs : List String) (w : World)
          (r : IntegrationItem) (w' : World)
          → row integration_key id w.integration_items ≡ found
          → create_at env policy_version found id t s g o refs w ≡ ok (r, w')
          → Evolved w w'
      found_row none id t s g o refs w r w' is h = create_new-Evolved id t s g o refs w r w' is h
      found_row (some i) id t s g o refs w r w' is h =
          let kept : Steps Evolved (create_at env policy_version (some i) id t s g o refs) =
            search (steps_rules, Evolved-Stepping) depth 10 in
          kept.at w r w' h

      at_row :
          (id t s g o : String) (refs : List String)
          → Steps Evolved (
              gets (λ (w : World). row integration_key id w.integration_items) >>= λ found.
              create_at env policy_version found id t s g o refs)
      at_row id t s g o refs =
          Steps-query (λ (w : World). row integration_key id w.integration_items)
            (λ found. create_at env policy_version found id t s g o refs)
            λ w r w' h.
              found_row (row integration_key id w.integration_items) id t s g o refs w r w' refl h
