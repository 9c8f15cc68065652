-- ===== src/Identity/Samples.antt =====
-- Examples of sessions.
use company_os.Prelude.{◌≢◌, refl, row, modify}
use company_os.Prelude.{true, false, [], ◌∷◌}
use company_os.Result.{ok}
use company_os.Text.{strip}
use company_os.Types.Values.{Role}
use company_os.Db.{World}
use company_os.Identity.{
  NameLibrary, VerifiedPrincipal, PrincipalRecord, verify, revoke_session, disable_principal,
  principal_name,
}
use company_os.Identity.Sessions.{revoked_session_refused, disabled_principal_refused}
use company_os.Samples.{sample_env, sample_world, ada, ada_session, ada_holder, left_behind}

abbrev ada_record : PrincipalRecord
ada_record = record {
  principal_id = "ada";
  display_name = "Ada";
  roles = Role.owner ∷ Role.worker ∷ Role.system ∷ [];
  enabled = true;
  credential_version = 1;
}

abbrev signed_out : World
unfolding revoke_session
signed_out = left_behind (revoke_session sample_env ada_holder sample_world)

revoked_session_refused_example :
    verify sample_env ada_holder signed_out ≢ ok (ada_record, signed_out)
unfolding revoke_session signed_out row
revoked_session_refused_example =
    revoked_session_refused sample_env ada_holder sample_world tt signed_out ada_record signed_out
      refl

-- with a second principal, whom the owner disables
abbrev with_bob : World
with_bob = record sample_world {
  principals =
      record ada { principal_id = "bob"; principal_key = "bob"; display_name = "Bob" } ∷ ada ∷ [];
  sessions = record ada_session { session_id = "s2"; principal_id = "bob" } ∷ ada_session ∷ [];
}

abbrev bob_record : PrincipalRecord
bob_record = record {
  principal_id = "bob";
  display_name = "Bob";
  roles = [];
  enabled = false;
  credential_version = 1;
}

abbrev bob_holder : VerifiedPrincipal
bob_holder = record {
  principal_id = "bob";
  display_name = "Bob";
  session_id = "s2";
  session_secret = "secret";
}

-- names of plain lower-case letters
abbrev plain_names : NameLibrary
plain_names = record { nfkc = λ s. s; is_control = λ c. false; casefold = λ s. s }

abbrev bob_disabled : World
unfolding disable_principal
bob_disabled = left_behind (disable_principal sample_env plain_names ada_holder " bob " with_bob)

disabled_principal_refused_example :
    verify sample_env bob_holder bob_disabled ≢ ok (bob_record, bob_disabled)
unfolding disable_principal principal_name strip bob_disabled row modify
disabled_principal_refused_example =
    disabled_principal_refused sample_env plain_names ada_holder bob_holder " bob " with_bob
      bob_record bob_disabled bob_record bob_disabled refl refl
