-- ===== src/Kernel/Creation.antt =====
-- What a repeated `create_run` (kernel.py) does.
use mathlib.Core.Path.{subst}
use company_os.Prelude.{◌≡◌, sym, String, [], ◌∷◌}
use company_os.Result.{ok}
use company_os.Types.Values.{Role}
use company_os.Db.{World, Env}
use company_os.Db.Payload.{Json}
use company_os.Identity.{VerifiedPrincipal}
use company_os.Exec.Steps.{after, after_lift}
use company_os.Exec.Reads.{OnlyReads}
use company_os.Store.Idempotency.{once, once-Saved, once-replays, Saved}
use company_os.Kernel.{RuntimeKernel, command_text, command_text-ok, actor_id}
use company_os.Kernel.Runs.{create_payload, insert_run, create_run}
use company_os.Kernel.Roles.{actor_id-OnlyReads}

module _ (env : Env) (kernel : RuntimeKernel) where
  -- the digest of a `create_run`
  abbrev create_digest : String → String → String
  create_digest goal_id run_id =
      env.sha256 (env.canonical_json (create_payload env kernel goal_id run_id))

  create_run-inv :
      {C : Type 0} (project_id goal_id run_id : String) (v : VerifiedPrincipal) (key : String)
      (w : World) (r : Json) (w' : World)
      → create_run env kernel project_id goal_id run_id v key w ≡ ok (r, w')
      → ((x : World) (by : String)
          → OnlyReads w x
          → once env project_id "run.create" key
              (create_digest goal_id run_id)
              (insert_run env kernel project_id goal_id run_id by v key
                (create_payload env kernel goal_id run_id))
              x
            ≡ ok (r, w')
          → C)
      → C
  unfolding create_run
  create_run-inv project_id goal_id run_id v key w r w' h use_it =
      after_lift (command_text project_id) _ w r w' h λ p p_ok h₁.
        after_lift (command_text goal_id) _ w r w' h₁ λ g g_ok h₂.
          after_lift (command_text run_id) _ w r w' h₂ λ i i_ok h₃.
            after_lift (command_text key) _ w r w' h₃ λ k k_ok h₄.
              after (actor_id env v (Role.owner ∷ Role.system ∷ [])) _ w r w' h₄ λ by x by_ok h₅.
                use_it x by
                  ((actor_id-OnlyReads env kernel v (Role.owner ∷ Role.system ∷ [])).at w by x
                    by_ok)
                  (rw
                    (
                      ← command_text-ok project_id p p_ok,
                      ← command_text-ok goal_id g g_ok,
                      ← command_text-ok run_id i i_ok,
                      ← command_text-ok key k k_ok,
                    )
                    h₅)

  -- A `create_run` repeated with the same arguments in the database that the first call left, when it
  -- succeeds, returns what the first one returned, and changes nothing but the clock's readings.
  pub create_run_once :
      (project_id goal_id run_id : String) (v : VerifiedPrincipal) (key : String) (w : World)
      (r : Json) (w' : World) (r₂ : Json) (w₂ : World)
      → create_run env kernel project_id goal_id run_id v key w ≡ ok (r, w')
      → create_run env kernel project_id goal_id run_id v key w' ≡ ok (r₂, w₂)
      → (r₂ ≡ r) × OnlyReads w' w₂
  create_run_once project_id goal_id run_id v key w r w' r₂ w₂ h k =
      create_run-inv project_id goal_id run_id v key w r w' h λ x by reads first.
        let saved =
          once-Saved env project_id "run.create" key (create_digest goal_id run_id)
            (insert_run env kernel project_id goal_id run_id by v key
              (create_payload env kernel goal_id run_id))
            x r w' first in
        create_run-inv project_id goal_id run_id v key w' r₂ w₂ k λ y by₂ reads₂ second.
          let (same, kept) =
            once-replays env project_id "run.create" key (create_digest goal_id run_id)
              (insert_run env kernel project_id goal_id run_id by₂ v key
                (create_payload env kernel goal_id run_id))
              r y r₂ w₂
              (subst (λ q. Saved project_id "run.create" key (create_digest goal_id run_id) r q)
                (sym reads₂.0) saved)
              second in
          (same, rw kept reads₂)
