-- ===== src/Scope/Containment.antt =====
-- What a valid task may touch (scope.py, `validate_task_within_goal`).
use company_os.Prelude.{
  ◌≡◌, refl, ap, ◌∙◌, String, Bool, true, false, List, [], ◌∷◌, ◌++◌, all, any, arith, eq_iff, ◌==◌,
}
use company_os.Prelude.Forall.{Forall, nil, cons}
use company_os.Result.{ok, contract_error, guard, >>=-eq-ok}
use company_os.Types.Equality.{same_capability}
use company_os.Types.Specs.{GoalSpec, TaskSpec}
use company_os.Scope.{
  TextLibrary, scope_allowed, scopes_overlap, conflicts_with, conflicts, reject_forbidden,
  normalize_all, all_allowed, declared, validate_goal_scope, validate_task_within_goal,
}

guard-ok : (t : Bool) {u : Unit {0}} → guard t contract_error ≡ ok u → t ≡ true
guard-ok true h = refl
guard-ok false h = cc

module _ (lib : TextLibrary) where
  -- every item is covered by one of the allowed scopes
  abbrev pub Covered : List String → List String → Type 0
  Covered allowed items = Forall (λ item. scope_allowed lib allowed item ≡ ok true) items

  -- no scope overlaps a forbidden one, either way
  abbrev pub Disjoint : List String → List String → Type 0
  Disjoint scopes forbidden =
      Forall (λ s. Forall (λ d. scopes_overlap lib s d ≡ ok false) forbidden) scopes

  all_allowed-Covered :
      (allowed items : List String)
      → all_allowed lib allowed items ≡ ok true
      → Covered allowed items
  unfolding all_allowed
  all_allowed-Covered allowed [] h = nil
  all_allowed-Covered allowed (item ∷ items) h =
      let (here, found, h₁) = >>=-eq-ok (scope_allowed lib allowed item) _ h in
      let (later, others, h₂) = >>=-eq-ok (all_allowed lib allowed items) _ h₁ in
      let both : (here ≡ true) × (later ≡ true) = ground arith in
      cons item items (found ∙ ap ok both.0)
        (all_allowed-Covered allowed items (others ∙ ap ok both.1))

  conflicts_with-apart :
      (s : String) (forbidden : List String)
      → conflicts_with lib s forbidden ≡ ok false
      → Forall (λ d. scopes_overlap lib s d ≡ ok false) forbidden
  conflicts_with-apart s [] h = nil
  conflicts_with-apart s (d ∷ ds) h =
      let (here, found, h₁) = >>=-eq-ok (scopes_overlap lib s d) _ h in
      let (later, others, h₂) = >>=-eq-ok (conflicts_with lib s ds) _ h₁ in
      let neither : (here ≡ false) × (later ≡ false) = ground arith in
      cons d ds (found ∙ ap ok neither.0) (conflicts_with-apart s ds (others ∙ ap ok neither.1))

  conflicts-Disjoint :
      (scopes forbidden : List String)
      → conflicts lib scopes forbidden ≡ ok false
      → Disjoint scopes forbidden
  conflicts-Disjoint [] forbidden h = nil
  conflicts-Disjoint (s ∷ ss) forbidden h =
      let (here, found, h₁) = >>=-eq-ok (conflicts_with lib s forbidden) _ h in
      let (later, others, h₂) = >>=-eq-ok (conflicts lib ss forbidden) _ h₁ in
      let neither : (here ≡ false) × (later ≡ false) = ground arith in
      cons s ss (conflicts_with-apart s forbidden (found ∙ ap ok neither.0))
        (conflicts-Disjoint ss forbidden (others ∙ ap ok neither.1))

  reject-Disjoint :
      (scopes forbidden : List String) {u : Unit {0}}
      → reject_forbidden lib scopes forbidden ≡ ok u
      → Disjoint scopes forbidden
  unfolding reject_forbidden
  reject-Disjoint scopes forbidden h =
      let (found, is, h₁) = >>=-eq-ok (conflicts lib scopes forbidden) _ h in
      let none_found : found ≡ false = ground arith in
      conflicts-Disjoint scopes forbidden (is ∙ ap ok none_found)

  -- What a task that is valid within its goal may do.
  abbrev pub Within : GoalSpec → TaskSpec → Type 0
  Within goal task =
      (task.goal_id ≡ goal.goal_id)
      × (all (λ c. any (same_capability c) goal.allowed_capabilities) task.capabilities ≡ true)
      × Covered goal.read_scope task.read_scope
      × Covered goal.write_scope task.write_scope
      × Disjoint task.read_scope (goal.forbidden_scope ++ task.forbidden_scope)
      × Disjoint task.write_scope (goal.forbidden_scope ++ task.forbidden_scope)
      × (all (declared goal.required_runtime_surfaces) task.required_runtime_surfaces ≡ true)

  -- A task that is accepted within a goal names that goal, has no capability that the goal lacks,
  -- reads and writes only scopes that one of the goal's read and write scopes covers, none of which
  -- overlaps a scope that the goal or the task forbids, and wants no runtime surface but the goal's.
  pub valid_task-Within_goal :
      (goal : GoalSpec) (task : TaskSpec)
      → validate_task_within_goal lib goal task ≡ ok tt
      → Within goal task
  unfolding validate_task_within_goal
  valid_task-Within_goal goal task h =
      let forbidden = goal.forbidden_scope ++ task.forbidden_scope in
      let (u₁, e₁, h₁) = >>=-eq-ok (validate_goal_scope lib goal) _ h in
      let (u₂, e₂, h₂) = >>=-eq-ok (guard (task.goal_id == goal.goal_id) contract_error) _ h₁ in
      let (u₃, e₃, h₃) =
        >>=-eq-ok (normalize_all lib (task.read_scope ++ task.write_scope ++ task.forbidden_scope))
          _ h₂ in
      let (u₄, e₄, h₄) =
        >>=-eq-ok
          (guard (all (λ c. any (same_capability c) goal.allowed_capabilities) task.capabilities)
            contract_error)
          _ h₃ in
      let (reads, e₅, h₅) = >>=-eq-ok (all_allowed lib goal.read_scope task.read_scope) _ h₄ in
      let (writes, e₆, h₆) = >>=-eq-ok (all_allowed lib goal.write_scope task.write_scope) _ h₅ in
      let (u₇, e₇, h₇) = >>=-eq-ok (guard reads contract_error) _ h₆ in
      let (u₈, e₈, h₈) = >>=-eq-ok (guard writes contract_error) _ h₇ in
      let (u₉, e₉, h₉) = >>=-eq-ok (reject_forbidden lib task.read_scope forbidden) _ h₈ in
      let (u₀, e₀, h₀) = >>=-eq-ok (reject_forbidden lib task.write_scope forbidden) _ h₉ in
      (
        (eq_iff task.goal_id goal.goal_id).0 (guard-ok (task.goal_id == goal.goal_id) e₂),
        guard-ok (all (λ c. any (same_capability c) goal.allowed_capabilities) task.capabilities)
            e₄,
        all_allowed-Covered goal.read_scope task.read_scope (e₅ ∙ ap ok (guard-ok reads e₇)),
        all_allowed-Covered goal.write_scope task.write_scope (e₆ ∙ ap ok (guard-ok writes e₈)),
        reject-Disjoint task.read_scope forbidden e₉,
        reject-Disjoint task.write_scope forbidden e₀,
        guard-ok (all (declared goal.required_runtime_surfaces) task.required_runtime_surfaces) h₀,
      )
