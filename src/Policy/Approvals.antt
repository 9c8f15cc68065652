-- ===== src/Policy/Approvals.antt =====
-- What a yes of `_required_decision_gates_satisfied` (policy.py) says of the database.
use company_os.Prelude.{
  ◌≤◌, arith, ℕ, ◌≡◌, ◌⊎◌, inl, inr, refl, String, true, Option, none, some, List, any, all, elem,
  ap,
}
use company_os.Prelude.Forall.{Forall}
use company_os.Result.{Result, ok, err}
use company_os.Types.Authority.{DecisionGateContract, CompiledTaskAuthority}
use company_os.Db.{World, Env}
use company_os.Db.Rows.{TaskAuthorityBinding}
use company_os.Exec.Reads.{
  OnlyReads, OnlyReads-Stepping, Confirms, Confirms-no, Confirms-yes, Confirms-gets, Confirms-if,
  Confirms-clock, Confirms-map, Confirms-query, Confirms-every,
}
use company_os.Policy.Authority.{Validated, validated_task_authority_binding}
use company_os.Policy.Gates.{
  Request, approves, contract_of, request_fits, gate_contract_approved, gate_approved, gates_of,
  gates_satisfied_at, required_decision_gates_satisfied,
}

module _ (env : Env) (since : ℕ) where
  -- The contract of a gate, and a reading of the clock, from the reading `since` on, at which the
  -- database has an unexpired approval of it.
  abbrev pub Approved :
      World
      → String
      → CompiledTaskAuthority
      → TaskAuthorityBinding
      → Option Request
      → String
      → Type 0
  Approved w task_id a b exact gate =
      (c : DecisionGateContract) × (contract_of gate a.decision_gate_contracts ≡ some c)
      × (request_fits exact c ≡ true)
      × ((i : ℕ) × (since ≤ i)
          × (any (approves task_id b a.version c gate (env.now i)) w.approvals ≡ true))

  -- A task without an authority, or one whose authority is valid and whose gates are approved.
  abbrev pub Satisfied :
      World → String → Option (List String) → Option Request → Result Validated → Type 0
  Satisfied w task_id required exact found =
      (found ≡ ok none)
      ⊎ ((a : CompiledTaskAuthority) × (b : TaskAuthorityBinding) × (found ≡ ok (some (a, b)))
          × (all (λ g. elem g (gates_of none a)) (gates_of required a) ≡ true)
          × Forall (Approved w task_id a b exact) (gates_of required a))

module _ (env : Env) (w₀ : World) (since : ℕ) (early : since ≤ w₀.ticks) (task_id : String)
    (exact : Option Request) where
  module _ (a : CompiledTaskAuthority) (b : TaskAuthorityBinding) where
    gate_contract-Confirms :
        (gate : String) (found : Option DecisionGateContract)
        → contract_of gate a.decision_gate_contracts ≡ found
        → Confirms w₀
            (Approved env since w₀ task_id a b exact gate)
            (gate_contract_approved env task_id b a.version exact gate found)
    gate_contract-Confirms gate none is = Confirms-no w₀
    gate_contract-Confirms gate (some c) is =
        Confirms-if w₀ (request_fits exact c) _ _
          (λ fits. Confirms-clock w₀ env _ λ i late.
            Confirms-gets w₀
              (λ w. any (approves task_id b a.version c gate (env.now i)) w.approvals)
              λ w same found. (
                c,
                is,
                fits,
                (
                  i,
                  omega (arith, early, late),
                  rw (← ap (λ (x : World). x.approvals) same.0) found,
                ),
              ))
          (λ no. Confirms-no w₀)

    gate-Confirms :
        (gate : String)
        → Confirms w₀
            (Approved env since w₀ task_id a b exact gate)
            (gate_approved env task_id a b exact gate)
    unfolding gate_approved
    gate-Confirms gate =
        gate_contract-Confirms gate (contract_of gate a.decision_gate_contracts) refl

  Satisfied-at-Confirms :
      (required : Option (List String)) (found : Result Validated)
      → Confirms w₀
          (Satisfied env since w₀ task_id required exact found)
          (gates_satisfied_at env task_id required exact found)
  Satisfied-at-Confirms required (err e) = Confirms-no w₀
  Satisfied-at-Confirms required (ok none) = Confirms-yes w₀ (inl refl)
  Satisfied-at-Confirms required (ok (some (a, b))) =
      Confirms-if w₀ (all (λ g. elem g (gates_of none a)) (gates_of required a)) _ _
        (λ known.
          Confirms-map w₀ _ (λ every_one. inr (a, b, refl, known, every_one))
            (Confirms-every w₀ (gate_approved env task_id a b exact) (gates_of required a)
              (gate-Confirms a b)))
        (λ no. Confirms-no w₀)

  validated-reads :
      (w : World)
      → OnlyReads w₀ w
      → validated_task_authority_binding env task_id w
        ≡ validated_task_authority_binding env task_id w₀
  unfolding validated_task_authority_binding
  validated-reads w same = ap (validated_task_authority_binding env task_id) same.0

  pub Satisfied-Confirms :
      (required : Option (List String))
      → Confirms w₀
          (Satisfied env since w₀ task_id required exact
            (validated_task_authority_binding env task_id w₀))
          (required_decision_gates_satisfied env task_id required exact)
  unfolding required_decision_gates_satisfied
  Satisfied-Confirms required =
      Confirms-query w₀ (validated_task_authority_binding env task_id)
        (gates_satisfied_at env task_id required exact)
        λ w same.
          rw (← validated-reads w same)
            (Satisfied-at-Confirms required (validated_task_authority_binding env task_id w))

-- A yes of the decision gates of a task: it has no compiled authority, or a valid one, all the gates
-- that are required are among its contracts, and each has an approval of exactly the contract's
-- request, of this authority and its version, that is unexpired at an instant that the clock shows in
-- or after the call; and nothing was written.
pub gates_are_met :
    (env : Env) (task_id : String) (required : Option (List String)) (exact : Option Request)
    (w w' : World)
    → required_decision_gates_satisfied env task_id required exact w ≡ ok (true, w')
    → OnlyReads w w'
      × Satisfied env w.ticks w task_id required exact
          (validated_task_authority_binding env task_id w)
gates_are_met env task_id required exact w w' h =
    let (reads, told) =
      (Satisfied-Confirms env w w.ticks (omega arith) task_id exact required).confirmed w true w'
        (OnlyReads-Stepping.stay w) h in
    (reads, told refl)
