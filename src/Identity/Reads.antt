-- ===== src/Identity/Reads.antt =====
-- Checking a session (identity.py, `_verify_session`) changes nothing in the database.
use company_os.Prelude.{Option}
use company_os.Types.Values.{Role}
use company_os.Db.{World, Env}
use company_os.Exec.Steps.{Steps, Stepping, steps_rules}
use company_os.Identity.{VerifiedPrincipal, verify_session, require_role, verify_in_transaction}

module _ (env : Env) {R : World → World → Type 0} (st : Stepping R) (v : VerifiedPrincipal) where
  pub Steps-verify_session : (role : Option Role) → Steps R (verify_session env v role)
  unfolding verify_session
  Steps-verify_session role = search (steps_rules, st) depth 20

  pub Steps-require_role : (role : Role) → Steps R (require_role env v role)
  unfolding require_role
  Steps-require_role role = search (steps_rules, st) depth 20

  pub Steps-verify_in_transaction : Steps R (verify_in_transaction env v)
  unfolding verify_in_transaction
  Steps-verify_in_transaction = search (steps_rules, st) depth 20

pub ruleset identity_rules = (Steps-verify_session, Steps-require_role, Steps-verify_in_transaction)
