-- ===== src/Integration/Satisfied.antt =====
-- What `require_task_satisfied` (integration.py) returns, and when it raises.
use company_os.Prelude.{
  ◌≡◌, refl, ap, sym, ◌∙◌, String, Bool, true, not, ◌&&◌, ◌||◌, List, [], ◌∷◌, any, all, arith, leb,
  ◌==◌,
}
use company_os.Result.{ok, transition_error}
use company_os.Db.{World}
use company_os.Db.Rows.{IntegrationItem}
use company_os.Exec.Steps.{after_assert}
use company_os.Integration.{
  final, insert_by_time, by_time, items_of, no_items, require_task_satisfied,
}

-- The items stand in the order of their times.
abbrev after_it : IntegrationItem → List IntegrationItem → Bool
after_it i [] = true
after_it i (j ∷ js) = leb i.updated_at j.updated_at

unfoldable pub in_order : List IntegrationItem → Bool
in_order [] = true
in_order (i ∷ is) = after_it i is && in_order is

insert-in_order :
    (i : IntegrationItem) (is : List IntegrationItem)
    → in_order is ≡ true
    → in_order (insert_by_time i is) ≡ true
unfolding in_order
insert-in_order i [] h = refl
insert-in_order i (j ∷ []) h = ground arith
insert-in_order i (j ∷ (k ∷ ks)) h = ground (arith, h, insert-in_order i (k ∷ ks))

by_time-in_order : (is : List IntegrationItem) → in_order (by_time is) ≡ true
unfolding by_time in_order
by_time-in_order [] = refl
by_time-in_order (i ∷ is) = insert-in_order i (by_time is) (by_time-in_order is)

module _ (p : IntegrationItem → Bool) where
  any-insert :
      (i : IntegrationItem) (is : List IntegrationItem)
      → any p (insert_by_time i is) ≡ (p i || any p is)
  any-insert i [] = refl
  any-insert i (j ∷ js) = ground (arith, any-insert i js)

  any-by_time : (is : List IntegrationItem) → any p (by_time is) ≡ any p is
  unfolding by_time
  any-by_time [] = refl
  any-by_time (i ∷ is) = ground (arith, any-insert i (by_time is), any-by_time is)

  any-items_of :
      (t : String) (is : List IntegrationItem)
      → any p (items_of t is) ≡ any (λ i. i.task_id == t && p i) is
  any-items_of t [] = refl
  any-items_of t (i ∷ is) = ground (arith, any-items_of t is)

  all-insert :
      (i : IntegrationItem) (is : List IntegrationItem)
      → all p (insert_by_time i is) ≡ (p i && all p is)
  all-insert i [] = refl
  all-insert i (j ∷ js) = ground (arith, all-insert i js)

  all-by_time : (is : List IntegrationItem) → all p (by_time is) ≡ all p is
  unfolding by_time
  all-by_time [] = refl
  all-by_time (i ∷ is) = ground (arith, all-insert i (by_time is), all-by_time is)

  all-items_of :
      (t : String) (is : List IntegrationItem)
      → all p (items_of t is) ≡ all (λ i. not (i.task_id == t) || p i) is
  all-items_of t [] = refl
  all-items_of t (i ∷ is) = ground (arith, all-items_of t is)

-- The items that are returned are those of the table that belong to the task: a test holds of one of
-- the former just when it holds of one of the latter. They stand in the order of their times; every
-- item of the task in the table is delivered or superseded; there is one, or none is needed; and the
-- database is as it was.
pub satisfied_items :
    (p : IntegrationItem → Bool) (t : String) (allow_no_items : Bool) (w : World)
    (r : List IntegrationItem) (w' : World)
    → require_task_satisfied t allow_no_items w ≡ ok (r, w')
    → (w' ≡ w)
      × (any p r ≡ any (λ i. i.task_id == t && p i) w.integration_items)
      × (in_order r ≡ true)
      × (all (λ i. not (i.task_id == t) || final i.state) w.integration_items ≡ true)
      × ((any (λ i. i.task_id == t && true) w.integration_items || allow_no_items) ≡ true)
unfolding require_task_satisfied
satisfied_items p t allow_no_items w r w' h =
    let found = by_time (items_of t w.integration_items) in
    after_assert (not (no_items found) || allow_no_items) transition_error _ w r w' h
      λ some_item h₁.
        after_assert (all (λ (i : IntegrationItem). final i.state) found) transition_error _ w r w'
          h₁
          λ finished last.
            let done : (r ≡ found) × (w' ≡ w) = ground arith in
            (
              done.1,
              ap (any p) done.0
                  ∙ any-by_time p (items_of t w.integration_items)
                  ∙ any-items_of p t w.integration_items,
              ap in_order done.0 ∙ by_time-in_order (items_of t w.integration_items),
              sym (
                    all-by_time (λ i. final i.state) (items_of t w.integration_items)
                    ∙ all-items_of (λ i. final i.state) t w.integration_items)
                  ∙ finished,
              ap (λ b. b || allow_no_items)
                    (sym (
                        any-by_time (λ i. true) (items_of t w.integration_items)
                        ∙ any-items_of (λ i. true) t w.integration_items)
                      ∙ there found)
                  ∙ some_item,
            )
  where
    there : (is : List IntegrationItem) → any (λ i. true) is ≡ not (no_items is)
    there [] = refl
    there (i ∷ is) = refl
