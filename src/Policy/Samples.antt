-- ===== src/Policy/Samples.antt =====
-- Examples of decision gates.
use company_os.Samples.{encode}
use company_os.Prelude.{String, refl, false, none, some, [], ◌∷◌}
use company_os.Types.Values.{Capability}
use company_os.Types.Authority.{
  AuthorityRef, AuthorityBounds, ProgramState, DecisionGateContract, CompiledTaskAuthority,
}
use company_os.Db.{World}
use company_os.Db.Rows.{Approval}
use company_os.Exec.Reads.{OnlyReads}
use company_os.Policy.Authority.{validated_task_authority_binding}
use company_os.Policy.Gates.{required_decision_gates_satisfied}
use company_os.Policy.Approvals.{Satisfied, gates_are_met}
use company_os.Samples.{sample_env, sample_world, sample_spec, no_event, left_behind}
use company_os.Scope.Samples.{goal}

abbrev bounds : AuthorityBounds
bounds = record {
  capabilities = [];
  read_scope = [];
  write_scope = [];
  forbidden_scope = [];
  required_runtime_surfaces = [];
  provider_budget_minor_units = 0;
  provider_call_limit = 0;
  budget_currency = "USD";
  evaluator_required = false;
  required_decision_gates = [];
}

abbrev ref : String → String → AuthorityRef
ref kind id = record { kind = kind; object_id = id; version = 1; digest = "0" }

abbrev contract : DecisionGateContract
contract = record {
  gate_id = "ship";
  capability = Capability.write_local;
  action = "merge";
  resource = "main";
  request_digest = "d";
}

abbrev authority : CompiledTaskAuthority
authority = record {
  version = 1;
  project_ref = ref "project" "p";
  program_ref = ref "program" "m";
  goal_ref = ref "goal" "g";
  required_decision_gates = "ship" ∷ [];
  decision_gate_contracts = contract ∷ [];
  provider_budget_minor_units = 0;
  provider_call_limit = 0;
  budget_currency = "USD";
  task_spec = sample_spec;
}

abbrev approval : Approval
approval = record {
  approval_id = "a";
  project_id = "p";
  goal_id = "g";
  run_id = "r";
  task_id = "t";
  requester = "ada";
  approver = some "owner";
  capability = Capability.write_local;
  action = "merge";
  resource = "main";
  request_digest = "d";
  authority_binding_digest = some "0";
  authority_binding_version = some 1;
  decision_gate = some "ship";
  policy_version = "companyos-policy-v1";
  decision = "approved";
  requested_at = 0;
  decided_at = some 0;
  expires_at = some 900;
}

abbrev governed_world : World
governed_world = record sample_world {
  events =
      record no_event {
        event_id = "e";
        aggregate_type = "task_authority";
        aggregate_id = "t";
        project_id = "p";
        task_id = some "t";
        event_type = "task_authority_bound";
        payload_digest = "0";
      }
      ∷ [];
  adopted_projects =
      record {
        project_id = "p";
        spec = record { project_id = "p"; version = 1; target_outcome = "o"; authority = bounds };
      }
      ∷ [];
  adopted_programs =
      record {
        program_id = "m";
        project_id = "p";
        spec = record {
          program_id = "m";
          version = 1;
          project_ref = ref "project" "p";
          objective = "o";
          state = ProgramState.active;
          dependency_refs = [];
          wave = 0;
          authority = bounds;
        };
      }
      ∷ [];
  goal_authority_bindings =
      record {
        goal_id = "g";
        project_id = "p";
        authority_digest = "0";
        authority = record {
          version = 1;
          project_ref = ref "project" "p";
          program_ref = ref "program" "m";
          required_decision_gates = [];
          goal_spec = goal;
        };
      }
      ∷ [];
  task_authority_bindings =
      record {
        task_id = "t";
        project_id = "p";
        program_id = "m";
        goal_id = "g";
        authority_digest = "0";
        authority_json = "{}";
        authority = authority;
        provider_budget_minor_units = 0;
        provider_call_limit = 0;
        required_decision_gates = contract ∷ [];
        source_event_id = "e";
      }
      ∷ [];
  approvals = approval ∷ [];
}

abbrev asked_world : World
unfolding required_decision_gates_satisfied
asked_world =
    left_behind (required_decision_gates_satisfied sample_env "t" none none governed_world)

gates_are_met_example :
    OnlyReads governed_world asked_world
    × Satisfied sample_env 0 governed_world "t" none none
        (validated_task_authority_binding sample_env "t" governed_world)
unfolding required_decision_gates_satisfied validated_task_authority_binding encode
gates_are_met_example = gates_are_met sample_env "t" none none governed_world asked_world refl
