-- ===== src/Store/Domain.antt =====
-- store.py: binding a command authority to a trusted service object.
use Prim.Native.Char.{code}
use company_os.Prelude.{
  ℕ, zero, suc, String, Bool, true, false, not, ◌&&◌, ◌||◌, Option, none, some, List, [], ◌∷◌, any,
  select, eqb, leb, if◌then◌else◌, ◌==◌,
}
use company_os.Result.{Result, ok, guard, integrity_error, ◌>>◌}
use company_os.Db.{Binding, AuthorityDomain}

-- An object and the name of its exact type
pub record Owner : Type 0 where
  pub identity : ℕ
  pub class : String

abbrev hex_char : ℕ → Bool
hex_char c = leb b'0' c && leb c b'9' || leb b'a' c && leb c b'f'

hex_run : ℕ → String → Bool
hex_run zero String.[] = true
hex_run zero (String.◌∷◌ c s) = false
hex_run (suc n) String.[] = false
hex_run (suc n) (String.◌∷◌ c s) = hex_char (code c) && hex_run n s

-- re.fullmatch(r"[0-9a-f]{64}", text)
unfoldable pub is_hex_digest : String → Bool
unfolding hex_run
is_hex_digest s = hex_run 64 s

-- `_prune_dead_command_authorities`
abbrev prune : AuthorityDomain → AuthorityDomain
prune d = record d { command_authorities = select (λ b. b.alive) d.command_authorities }

abbrev owns : Owner → List Binding → Bool
owns o bs = any (λ b. b.alive && eqb b.owner o.identity) bs

abbrev pinned : {A : Type 0} → String → List (String × A) → Option A
pinned k [] = none
pinned k ((j, a) ∷ m) = if j == k then some a else pinned k m

abbrev pin : {A : Type 0} → String → A → List (String × A) → List (String × A)
pin k v [] = (k, v) ∷ []
pin k v ((j, a) ∷ m) = if j == k then (k, v) ∷ m else (j, a) ∷ pin k v m

-- the exact class that each handler must have
abbrev core_class : String → Option String
core_class handler =
    if handler == "runtime_kernel"
    then some "RuntimeKernel"
    else if handler == "task_scheduler"
    then some "TaskScheduler"
    else none

abbrev protected_class : String → Option String
protected_class handler =
    if handler == "policy_engine"
    then some "PolicyEngine"
    else if handler == "evidence_registry"
    then some "EvidenceRegistry"
    else if handler == "evaluation_registry"
    then some "EvaluationRegistry"
    else none

abbrev is_class : Option String → String → Bool
is_class none class = false
is_class (some expected) class = class == expected

abbrev bound : Owner → String → String → String → String → AuthorityDomain → ℕ × AuthorityDomain
bound owner handler kind binding_id config_digest d = (
  d.objects,
  record d {
    command_authorities =
        record {
          authority = d.objects;
          handler = handler;
          owner = owner.identity;
          alive = true;
          authority_kind = kind;
          binding_id = binding_id;
          config_digest = config_digest;
        }
        ∷ d.command_authorities;
    objects = suc d.objects;
  },
)

-- `_bind_core_command_authority`; the identifier and the digest are made by the libraries
unfoldable pub bind_core_command_authority :
    Owner
    → String
    → (binding_id config_digest : String) → AuthorityDomain
    → Result (ℕ × AuthorityDomain)
bind_core_command_authority owner handler binding_id config_digest d = do
  guard (is_class (core_class handler) owner.class) integrity_error
  guard (not (owns owner (prune d).command_authorities)) integrity_error
  ok (bound owner handler "core" binding_id config_digest (prune d))

abbrev live_same_handler : String → List Binding → Bool
live_same_handler handler bs =
    any (λ b. b.authority_kind == "protected" && b.handler == handler && b.alive) bs

abbrev agrees : Option String → String → Bool
agrees none digest = true
agrees (some d) digest = d == digest

abbrev same_texts : List String → List String → Bool
same_texts [] [] = true
same_texts (x ∷ xs) (y ∷ ys) = x == y && same_texts xs ys
same_texts _ _ = false

abbrev agrees_types : Option (List String) → List String → Bool
agrees_types none types = true
agrees_types (some ts) types = same_texts ts types

-- `_bind_protected_command_authority`; a type is known by its name
unfoldable pub bind_protected_command_authority :
    Owner
    → String
    → (config_digest : String) (runtime_types : List String) (binding_id : String) → AuthorityDomain
    → Result (ℕ × AuthorityDomain)
unfolding is_hex_digest
bind_protected_command_authority owner handler config_digest runtime_types binding_id d = do
  guard (is_class (protected_class handler) owner.class) integrity_error
  guard (is_hex_digest config_digest) integrity_error
  guard (not (owns owner (prune d).command_authorities)) integrity_error
  guard
      (not (
        handler == "evaluation_registry"
        && live_same_handler handler (prune d).command_authorities))
      integrity_error
  guard (agrees (pinned handler d.protected_handler_configs) config_digest) integrity_error
  guard (agrees_types (pinned handler d.protected_runtime_types) runtime_types) integrity_error
  ok (
      bound owner handler "protected" binding_id config_digest (record (prune d) {
        protected_handler_configs = pin handler config_digest d.protected_handler_configs;
        protected_runtime_types = pin handler runtime_types d.protected_runtime_types;
      }))
