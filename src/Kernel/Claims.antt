-- ===== src/Kernel/Claims.antt =====
-- What `control_task` (kernel.py) does to the claims on a task.
use company_os.Prelude.{
  ℕ, ◌≡◌, refl, ap, ap₂, sym, ◌∙◌, ◌⊎◌, inl, inr, String, Bool, true, not, ◌&&◌, some, List, [],
  ◌∷◌, all, row, is_none, all-update, key-row, row-modify, eq_refl, any, ◌+◌, elem, arith, ◌==◌,
}
use company_os.Result.{ok, not_found, contract_error}
use company_os.Types.Values.{Role, TaskState, task_state_value}
use company_os.Text.{required_text}
use company_os.Db.{World, Env}
use company_os.Db.Payload.{Json}
use company_os.Db.Rows.{Task, Lease, Attempt}
use company_os.Identity.{VerifiedPrincipal}
use company_os.Exec.{pure}
use company_os.Exec.Steps.{after, after_lift, after_found, after_assert}
use company_os.Exec.Reads.{OnlyReads}
use company_os.Store.Idempotency.{once-cases}
use company_os.Policy.Authority.{task_id_of}
use company_os.Scope.{TextLibrary}
use company_os.Kernel.{RuntimeKernel, command_text, command_text-ok, actor_id}
use company_os.Kernel.Tasks.{transition_task, task_event, move_task, set_state, core_fields}
use company_os.StateMachine.{require_transition, task}
use company_os.Kernel.Control.{
  Action, parse_action, ends_claims, end_claims, control_target, finish_claims, control,
  control_task,
}
use company_os.Kernel.Roles.{actor_id-OnlyReads}

-- a lease of the task that was not released, an attempt that did not end
abbrev pub released : String → Lease → Bool
released task_id l = not (l.task_id == task_id && is_none l.released_at)

abbrev pub ended : String → Attempt → Bool
ended task_id a = not (a.task_id == task_id && is_none a.ended_at)

abbrev pub NoClaims : String → World → Type 0
NoClaims task_id w =
    (all (released task_id) w.leases ≡ true) × (all (ended task_id) w.attempts ≡ true)

end_claims-NoClaims :
    (task_id : String) (target : TaskState) (now : ℕ) (w : World)
    → NoClaims task_id (end_claims task_id target now w)
end_claims-NoClaims task_id target now w = (
  all-update (λ (l : Lease). l.task_id == task_id && is_none l.released_at)
      (λ l. record l { released_at = some now }) (released task_id) w.leases
      (λ l live. ground arith) (λ l closed. ground arith),
  all-update (λ (a : Attempt). a.task_id == task_id && is_none a.ended_at)
      (λ a. record a { state = task_state_value target; ended_at = some now }) (ended task_id)
      w.attempts (λ a live. ground arith) (λ a closed. ground arith),
)

module _ (env : Env) (kernel : RuntimeKernel) where
  finish_claims-NoClaims :
      (t : Task) (target : TaskState) (w : World) (u : Unit {0}) (w' : World)
      → ends_claims target ≡ true
      → finish_claims env kernel t target w ≡ ok (u, w')
      → NoClaims t.task_id w'
  unfolding finish_claims
  finish_claims-NoClaims t target w u w' ends h =
      let done : w'
          ≡ end_claims t.task_id target (env.now w.ticks) (record w { ticks = w'.ticks }) =
        ground (arith, ends) in
      rw done
        (end_claims-NoClaims t.task_id target (env.now w.ticks) (record w { ticks = w'.ticks }))

  finish_claims-tasks :
      (t : Task) (target : TaskState) (w : World) (u : Unit {0}) (w' : World)
      → finish_claims env kernel t target w ≡ ok (u, w')
      → w'.tasks ≡ w.tasks
  unfolding finish_claims
  finish_claims-tasks t target w u w' h = ground arith

  -- the task's row after it was moved
  move_task-state :
      (t : Task) (target : TaskState) (id : String) (w : World) (r : Json × String) (w' : World)
      (t' : Task)
      → move_task env kernel t target id w ≡ ok (r, w')
      → row task_id_of t.task_id w'.tasks ≡ some t'
      → t'.state ≡ target
  unfolding move_task
  move_task-state t target id w r w' t' h found =
      let moved =
        row-modify task_id_of t.task_id t.task_id (λ x. true)
          (λ (x : Task). record x {
            state = target;
            aggregate_version = t.aggregate_version + 1;
            updated_at = env.now w.ticks;
          })
          w.tasks (λ x. refl) in
      let table : w'.tasks
          ≡ (set_state env kernel t.task_id target (t.aggregate_version + 1) (env.now w.ticks)
              w).tasks =
        ground arith in
      let seen = sym (ap (row task_id_of t.task_id) table ∙ moved) ∙ found in
      ground (arith, seen, eq_refl t.task_id)

  transition_task-state :
      (t : Task) (target : TaskState) (by reason key : String) (v : VerifiedPrincipal)
      (extra : List (String × Json)) (w : World) (r : Json × String) (w' : World) (t' : Task)
      → transition_task env kernel t target by reason key v extra w ≡ ok (r, w')
      → row task_id_of t.task_id w'.tasks ≡ some t'
      → t'.state ≡ target
  unfolding transition_task
  transition_task-state t target by reason key v extra w r w' t' h found =
      after_lift (require_transition (task t.state) (task target)) _ w r w' h λ u legal h₁.
        after_assert (not (any (λ (f : String × Json). elem f.0 core_fields) extra)) contract_error
          _ w r w' h₁
          λ fields h₂.
            after (task_event env kernel t target by reason key v extra) _ w r w' h₂
              λ id x e last. move_task-state t target id x r w' t' last found

  -- The claims on a task that a control left in a state that ends them.
  control-NoClaims :
      (t : Task) (action : Action) (by reason : String) (v : VerifiedPrincipal) (key : String)
      (w : World) (r : Json × String) (w' : World) (t' : Task)
      → control env kernel t action by reason v key w ≡ ok (r, w')
      → row task_id_of t.task_id w'.tasks ≡ some t'
      → ends_claims t'.state ≡ true
      → NoClaims t.task_id w'
  unfolding control
  control-NoClaims t action by reason v key w r w' t' h found ends =
      after (control_target env kernel t action) _ w r w' h λ target x e₁ h₁.
        after (transition_task env kernel t target by reason key v []) _ x r w' h₁ λ made y e₂ h₂.
          after (finish_claims env kernel t target) (λ _. pure made) y r w' h₂
            λ u z e₃ last.
              let same : w' ≡ z = ground arith in
              let earlier =
                sym (
                  ap (row task_id_of t.task_id)
                    (ap (λ (q : World). q.tasks) same ∙ finish_claims-tasks t target y u z e₃))
                ∙ found in
              let state =
                transition_task-state t target by reason key v [] x made y t' e₂ earlier in
              rw same (finish_claims-NoClaims t target y u z (sym (ap ends_claims state) ∙ ends) e₃)

  -- After a successful `control_task` a task that is blocked, canceled, deleted or retired has no
  -- unreleased lease and no unfinished attempt, unless the call changed nothing but the clock's
  -- readings, as the repetition of a recorded command does.
  pub control_task-ends_claims :
      (lib : TextLibrary) (task_id action reason : String) (v : VerifiedPrincipal) (key : String)
      (w : World) (r : Json) (w' : World) (t' : Task)
      → control_task env kernel lib task_id action reason v key w ≡ ok (r, w')
      → row task_id_of task_id w'.tasks ≡ some t'
      → ends_claims t'.state ≡ true
      → OnlyReads w w' ⊎ NoClaims task_id w'
  unfolding control_task
  control_task-ends_claims lib task_id action reason v key w r w' t' h left ends =
      after_lift (command_text task_id) _ w r w' h λ id id_ok h₁.
        after_lift (command_text key) _ w r w' h₁ λ k k_ok h₂.
          after (actor_id env v (Role.owner ∷ Role.system ∷ [])) _ w r w' h₂ λ by x by_ok h₃.
            after_lift (required_text contract_error action) _ x r w' h₃ λ name name_ok h₄.
              after_found (parse_action (lib.lower name)) contract_error _ x r w' h₄ λ parsed is h₅.
                after_lift (required_text contract_error reason) _ x r w' h₅ λ why why_ok h₆.
                  after_found (row task_id_of id x.tasks) not_found _ x r w' h₆ λ t found h₇.
                    let reads =
                      (actor_id-OnlyReads env kernel v (Role.owner ∷ Role.system ∷ [])).at w by x
                        by_ok in
                    let own : t.task_id ≡ task_id =
                      key-row task_id_of id x.tasks t found ∙ command_text-ok task_id id id_ok in
                    elim (once-cases env t.project_id _ k _ _ x r w' h₇) [
                      | inl same ↦ inl (rw same reads)
                      | inr (made, y, done, saved) ↦
                          let at_end =
                            sym (ap₂ (λ n (q : World). row task_id_of n q.tasks) (sym own) saved)
                            ∙ left in
                          let none_left =
                            control-NoClaims t parsed by _ v k x made y t' done at_end ends in
                          inr (
                            ap₂ (λ n (q : World). all (released n) q.leases) (sym own) saved
                                ∙ none_left.0,
                            ap₂ (λ n (q : World). all (ended n) q.attempts) (sym own) saved
                                ∙ none_left.1,
                          )
                    ]
