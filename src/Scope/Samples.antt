-- ===== src/Scope/Samples.antt =====
-- Examples of scopes.
use company_os.Prelude.{any, if◌then◌else◌, ◌==◌, ◌≡◌, refl, ℕ, ◌<◌, String, false, [], ◌∷◌}
use company_os.Types.Values.{Capability, EvidenceState}
use company_os.Types.Specs.{GoalSpec, TaskSpec}
use company_os.Text.Paths.{parts, slashes, has_unsafe}
use company_os.Text.{strip}
use company_os.Scope.{
  TextLibrary, is_dotdot, normalize_scope, covers_base, validate_task_within_goal,
}
use company_os.Scope.Segments.{begins, covers_base_segments}
use company_os.Scope.Containment.{Within, valid_task-Within_goal}
use company_os.Scope.Decoding.{decoded_in, body_of, accepted_scope_is_safe}
use company_os.Samples.{sample_spec}

-- the text functions on lower-case text without escapes
abbrev pub plain_text : TextLibrary
plain_text = record { unquote = λ s. s; lower = λ s. s; casefold = λ s. s }

abbrev pub goal : GoalSpec
goal = record {
  goal_id = "g";
  target_outcome = "o";
  success_evidence_states = EvidenceState.structure ∷ [];
  read_scope = "src/**" ∷ [];
  write_scope = "src/a/**" ∷ [];
  forbidden_scope = "etc" ∷ [];
  allowed_capabilities = Capability.read_local ∷ Capability.write_local ∷ [];
  required_runtime_surfaces = [];
  evaluator_required = false;
  max_iterations_without_evidence = 3;
  provider_budget_minor_units = 0;
  provider_call_limit = 0;
  budget_currency = "USD";
  non_goals = [];
}

abbrev spec : TaskSpec
spec = record sample_spec {
  capabilities = Capability.write_local ∷ [];
  read_scope = "src/ab" ∷ [];
  write_scope = "src/a/x" ∷ [];
}

covers_base_segments_example :
    covers_base "src/a" "src/ab" ≡ begins (parts "src/a") (parts "src/ab")
covers_base_segments_example = covers_base_segments "src/a" "src/ab" refl

valid_task-Within_goal_example : Within plain_text goal spec
unfolding validate_task_within_goal
valid_task-Within_goal_example = valid_task-Within_goal plain_text goal spec refl

-- `unquote` on the texts of the example
abbrev unquote_some : String → String
unquote_some s = if s == "a%252fb" then "a%2fb" else if s == "a%2fb" then "a/b" else s

abbrev percent_text : TextLibrary
percent_text = record { unquote = unquote_some; lower = λ s. s; casefold = λ s. s }

accepted_scope_is_safe_example :
    (raw : String) × (decoded_in percent_text 3 raw ≡ raw)
    × ((k : ℕ) × (k < 20) × (raw ≡ decoded_in percent_text k (slashes (strip " a%252fb "))))
    × (has_unsafe (body_of raw) ≡ false)
    × (any is_dotdot (parts (body_of raw)) ≡ false)
unfolding normalize_scope
accepted_scope_is_safe_example = accepted_scope_is_safe percent_text " a%252fb " "a/b" 3 refl
