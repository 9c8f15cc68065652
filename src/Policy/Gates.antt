-- ===== src/Policy/Gates.antt =====
-- companyos_runtime/policy.py: the approvals that the decision gates of a task require.
use company_os.Prelude.{
  ℕ, String, Bool, true, false, ◌&&◌, Option, none, some, List, [], ◌∷◌, map, all, any, elem, ltb,
  eqb, is_text, if◌then◌else◌, ◌==◌,
}
use company_os.Result.{Result, ok, err}
use company_os.Types.Values.{Capability}
use company_os.Types.Equality.{same_capability}
use company_os.Types.Authority.{DecisionGateContract, CompiledTaskAuthority}
use company_os.Db.{Env}
use company_os.Db.Rows.{Approval, TaskAuthorityBinding}
use company_os.Exec.{Exec, pure, gets, read_now, every, ◌>>=◌}
use company_os.Policy.Authority.{Validated, validated_task_authority_binding}

abbrev pub is_number : Option ℕ → ℕ → Bool
is_number none n = false
is_number (some m) n = eqb m n

-- `julianday(column) > julianday('now')` on a column that may be NULL
abbrev pub is_after : Option ℕ → ℕ → Bool
is_after none now = false
is_after (some t) now = ltb now t

-- `contracts.get(gate)`: of several entries under a key a dict keeps the last one
abbrev pub contract_of : String → List DecisionGateContract → Option DecisionGateContract
contract_of gate [] = none
contract_of gate (c ∷ cs) =
    let later = contract_of gate cs in
    elim later [ none ↦ (if c.gate_id == gate then some c else none) | some d ↦ some d ]

abbrev pub Request : Type 0
Request = Capability × String × String × String

abbrev pub same_request : Request → DecisionGateContract → Bool
same_request (capability, action, resource, digest) c =
    same_capability capability c.capability
    && action == c.action
    && resource == c.resource
    && digest == c.request_digest

abbrev pub request_fits : Option Request → DecisionGateContract → Bool
request_fits none c = true
request_fits (some request) c = same_request request c

abbrev pub gates_of : Option (List String) → CompiledTaskAuthority → List String
gates_of none a = map (λ (c : DecisionGateContract). c.gate_id) a.decision_gate_contracts
gates_of (some required) a = required

-- an approval of exactly this gate's request under this version of the authority
unfoldable pub approves :
    String → TaskAuthorityBinding → ℕ → DecisionGateContract → String → ℕ → Approval → Bool
approves task_id b version c gate now a =
    a.task_id == task_id
    && a.project_id == b.project_id
    && is_text a.decision_gate gate
    && is_text a.authority_binding_digest b.authority_digest
    && is_number a.authority_binding_version version
    && same_request (a.capability, a.action, a.resource, a.request_digest) c
    && a.decision == "approved"
    && is_after a.expires_at now

module _ (env : Env) where
  abbrev pub gate_contract_approved :
      String
      → TaskAuthorityBinding
      → ℕ
      → Option Request
      → String
      → Option DecisionGateContract
      → Exec Bool
  gate_contract_approved task_id b version exact gate none = pure false
  gate_contract_approved task_id b version exact gate (some c) =
      if request_fits exact c
      then (do
        now ← read_now env
        gets (λ w. any (approves task_id b version c gate now) w.approvals))
      else pure false

  unfoldable pub gate_approved :
      String → CompiledTaskAuthority → TaskAuthorityBinding → Option Request → String → Exec Bool
  unfolding ◌>>=◌ approves
  gate_approved task_id a b exact gate =
      gate_contract_approved task_id b a.version exact gate
        (contract_of gate a.decision_gate_contracts)

  abbrev pub gates_satisfied_at :
      String → Option (List String) → Option Request → Result Validated → Exec Bool
  gates_satisfied_at task_id required exact (err e) = pure false
  gates_satisfied_at task_id required exact (ok none) = pure true
  gates_satisfied_at task_id required exact (ok (some (a, b))) =
      if all (λ g. elem g (gates_of none a)) (gates_of required a)
      then every (gate_approved task_id a b exact) (gates_of required a)
      else pure false

  -- `_required_decision_gates_satisfied`
  unfoldable pub required_decision_gates_satisfied :
      String → Option (List String) → Option Request → Exec Bool
  unfolding ◌>>=◌ gate_approved every
  required_decision_gates_satisfied task_id required exact = do
    validated ← gets (validated_task_authority_binding env task_id)
    gates_satisfied_at task_id required exact validated
