-- ===== src/Integration/History.antt =====
-- The integration queue over any sequence of calls (integration.py).
use company_os.Prelude.{◌≡◌, ap, ◌∙◌, String, true, Option, some, List, row}
use company_os.Result.{ok}
use company_os.Db.{World, Env}
use company_os.Db.Rows.{IntegrationItem}
use company_os.Exec.{Exec, pure, each, ◌>>=◌, ◌>>◌}
use company_os.Exec.Steps.{Steps, steps_rules}
use company_os.Identity.{VerifiedPrincipal}
use company_os.Integration.{final, integration_key}
use company_os.Integration.Changes.{advance}
use company_os.Integration.Creation.{create}
use company_os.Integration.Items.{
  Evolves, Evolved, Evolved-Stepping, create-Evolved, advance-Evolved, final-stays,
}

-- A call on the queue.
pub data Call : Type 0 where
  creating :
      (task_id source_ref target_ref : String) (owner : VerifiedPrincipal) (initial_state : String)
      (evidence_refs : List String) (integration_id : Option String)
      → Call
  advancing :
      (integration_id target : String) (actor : VerifiedPrincipal) (evidence_refs : List String)
      (reason : String)
      → Call

module _ (env : Env) (policy_version : String) where
  unfoldable pub perform : Call → Exec Unit
  unfolding create advance ◌>>=◌
  perform (creating t s g o state refs id) = do
    create env policy_version t s g o state refs id
    pure tt
  perform (advancing id target actor refs reason) = do
    advance env policy_version id target actor refs reason
    pure tt

  perform-Evolved : (c : Call) → Steps Evolved (perform c)
  unfolding perform
  perform-Evolved (creating t s g o state refs id) =
      search (steps_rules, Evolved-Stepping, create-Evolved) depth 20
  perform-Evolved (advancing id target actor refs reason) =
      search (steps_rules, Evolved-Stepping, advance-Evolved) depth 20

  -- Whatever calls are made of the queue, when they all succeed, no item is lost, and what becomes of
  -- one is a chain of moves between states that the transition table allows.
  pub calls_move_legally :
      (cs : List Call) (w w' : World) (id : String) (i : IntegrationItem)
      → each (perform) cs w ≡ ok (tt, w')
      → row integration_key id w.integration_items ≡ some i
      → (j : IntegrationItem) × (row integration_key id w'.integration_items ≡ some j) × Evolves i j
  calls_move_legally cs w w' id i h found =
      let all_calls : Steps Evolved (each perform cs) =
        search (steps_rules, Evolved-Stepping, perform-Evolved) depth 10 in
      all_calls.at w tt w' h id i found

  -- An item that is delivered or superseded stays as it is, reference for reference, whatever calls
  -- are made of the queue, when they all succeed.
  pub final_items_stay :
      (cs : List Call) (w w' : World) (id : String) (i : IntegrationItem)
      → each (perform) cs w ≡ ok (tt, w')
      → row integration_key id w.integration_items ≡ some i
      → final i.state ≡ true
      → row integration_key id w'.integration_items ≡ some i
  final_items_stay cs w w' id i h found is_final =
      let (j, there, evolved) = calls_move_legally cs w w' id i h found in
      there ∙ ap some (final-stays i j is_final evolved)
