-- ===== src/Scope.antt =====
-- companyos_runtime/scope.py: scopes are normalized texts, and a task stays within its goal.
pub mod Segments
pub mod Containment
pub mod Decoding
pub mod Samples
use Prim.Native.String.{◌++◌ as append_text}
use company_os.Prelude.{
  ℕ, zero, suc, String, Bool, true, false, not, ◌&&◌, ◌||◌, Option, none, some, List, [], ◌∷◌, ◌++◌,
  any, all, ltb, eqb, if◌then◌else◌, ◌==◌,
}
use company_os.Result.{Result, ok, err, contract_error, guard, ◌>>=◌, ◌>>◌}
use company_os.Types.Values.{Capability}
use company_os.Types.Equality.{same_capability}
use company_os.Types.Specs.{RuntimeSurfaceSpec, GoalSpec, TaskSpec}
use company_os.Text.{strip}
use company_os.Text.Paths.{
  starts_with, without_suffix, slashes, has_unsafe, parts, split, split_scheme, lstrip_slash,
  rstrip_slash, normpath, is_drive,
}

-- What scope.py takes from Python's text functions that work on all of Unicode:
-- `urllib.parse.unquote`, `str.lower` and `str.casefold`.
pub record TextLibrary : Type 0 where
  pub unquote : String → String
  pub lower : String → String
  pub casefold : String → String

abbrev pub is_dotdot : String → Bool
is_dotdot s = s == ".."

abbrev pub all_but_recursive : String → Option String
all_but_recursive raw = without_suffix "/**" raw

abbrev pub without : Option String → String → String
without none s = s
without (some t) s = t

abbrev is_some : Option String → Bool
is_some none = false
is_some (some s) = true

-- the comparison of two bases
unfoldable pub covers_base : String → String → Bool
unfolding starts_with
covers_base parent child =
    if parent == child
    then true
    else if parent == "/"
    then starts_with child "/"
    else starts_with child (append_text parent "/")

module _ (lib : TextLibrary) where
  -- the decoding loop, for the number of rounds that are left
  unfoldable pub decode : ℕ → String → Result String
  unfolding slashes
  decode zero raw = err contract_error
  decode (suc rounds) raw =
      let decoded = slashes (lib.unquote raw) in
      let later = decode rounds decoded in if decoded == raw then ok raw else later

  abbrev lower_first : String → String
  lower_first String.[] = String.[]
  lower_first (String.◌∷◌ c s) = append_text (lib.lower (String.◌∷◌ c String.[])) s

  abbrev normalize_uri : String × String → Result String
  normalize_uri (scheme, rest) = do
    guard (not (scheme == "" || rest == "")) contract_error
    ok (
        append_text (lib.lower scheme)
          (append_text "://" (lstrip_slash (normpath (append_text "/" rest)))))

  abbrev normalize_path : String → String
  normalize_path body =
      let normalized = normpath body in
      if is_drive normalized then lower_first normalized else normalized

  abbrev normalize_body : String → Option (String × String) → Result String
  normalize_body body none = ok (normalize_path body)
  normalize_body body (some parts) = normalize_uri parts

  abbrev or_slash : String → String
  or_slash s = if s == "" then "/" else s

  unfoldable pub normalize_scope : String → Result String
  unfolding strip slashes decode without_suffix has_unsafe split split_scheme lstrip_slash
      rstrip_slash normpath is_drive
  normalize_scope value = do
    guard (not (strip value == "")) contract_error
    raw ← decode 20 (slashes (strip value))
    let suffix = all_but_recursive raw
    let body = without suffix raw
    guard (not (has_unsafe body || any is_dotdot (parts body))) contract_error
    normalized ← normalize_body body (split_scheme body)
    ok (append_text (or_slash (rstrip_slash normalized)) (if is_some suffix then "/**" else ""))

  abbrev without_recursive : String → Option String → String
  without_recursive s none = s
  without_recursive s (some t) = rstrip_slash t

  -- a normalized scope without its recursive suffix
  abbrev pub base : String → String
  base s = without_recursive s (all_but_recursive s)

  unfoldable pub scope_covers : String → String → Result Bool
  unfolding normalize_scope covers_base rstrip_slash without_suffix is_drive
  scope_covers allowed candidate = do
    normal_parent ← normalize_scope allowed
    normal_child ← normalize_scope candidate
    let parent = base normal_parent
    let child = base normal_child
    let drives = is_drive parent && is_drive child
    ok (
        covers_base (if drives then lib.casefold parent else parent)
          (if drives then lib.casefold child else child))

  -- `any(…)`, which stops at the first that holds
  abbrev or_later : Bool → Result Bool → Result Bool
  or_later true later = ok true
  or_later false later = later

  unfoldable pub scope_allowed : List String → String → Result Bool
  unfolding scope_covers
  scope_allowed [] candidate = ok false
  scope_allowed (parent ∷ parents) candidate = do
    covered ← scope_covers parent candidate
    or_later covered (scope_allowed parents candidate)

  unfoldable pub scopes_overlap : String → String → Result Bool
  unfolding scope_covers
  scopes_overlap left right = do
    covers ← scope_covers left right
    or_later covers (scope_covers right left)

  -- the pairs that conflict are only counted
  abbrev pub conflicts_with : String → List String → Result Bool
  conflicts_with scope [] = ok false
  conflicts_with scope (denied ∷ forbidden) = do
    overlaps ← scopes_overlap scope denied
    later ← conflicts_with scope forbidden
    ok (overlaps || later)

  abbrev pub conflicts : List String → List String → Result Bool
  conflicts [] forbidden = ok false
  conflicts (scope ∷ scopes) forbidden = do
    here ← conflicts_with scope forbidden
    later ← conflicts scopes forbidden
    ok (here || later)

  -- `_reject_forbidden`
  unfoldable pub reject_forbidden : List String → List String → Result (Unit {0})
  unfolding scopes_overlap
  reject_forbidden scopes forbidden = do
    found ← conflicts scopes forbidden
    guard (not found) contract_error

  -- each scope must have a normal form
  unfoldable pub normalize_all : List String → Result (Unit {0})
  unfolding normalize_scope
  normalize_all [] = ok tt
  normalize_all (value ∷ values) = normalize_scope value >>= λ s. normalize_all values

  abbrev has_capability : Capability → List Capability → Bool
  has_capability c cs = any (same_capability c) cs

  unfoldable pub validate_goal_scope : GoalSpec → Result (Unit {0})
  unfolding normalize_all reject_forbidden
  validate_goal_scope spec = do
    guard
        (not (
          has_capability Capability.provider_cost spec.allowed_capabilities
          && ltb spec.provider_call_limit 1))
        contract_error
    normalize_all (spec.read_scope ++ spec.write_scope ++ spec.forbidden_scope)
    reject_forbidden spec.read_scope spec.forbidden_scope
    reject_forbidden spec.write_scope spec.forbidden_scope

  -- every one of the items is covered; all of them are looked at
  unfoldable pub all_allowed : List String → List String → Result Bool
  unfolding scope_allowed
  all_allowed allowed [] = ok true
  all_allowed allowed (item ∷ items) = do
    covered ← scope_allowed allowed item
    later ← all_allowed allowed items
    ok (covered && later)

abbrev same_texts : List String → List String → Bool
same_texts [] [] = true
same_texts [] (t ∷ ts) = false
same_texts (s ∷ ss) [] = false
same_texts (s ∷ ss) (t ∷ ts) = s == t && same_texts ss ts

abbrev same_flag : Bool → Bool → Bool
same_flag true b = b
same_flag false b = not b

abbrev pub same_surface : RuntimeSurfaceSpec → RuntimeSurfaceSpec → Bool
same_surface a b =
    a.surface_key == b.surface_key
    && a.target_identity == b.target_identity
    && same_texts a.allowed_probes b.allowed_probes
    && eqb a.max_ttl_seconds b.max_ttl_seconds
    && same_flag a.trigger_event_required b.trigger_event_required

-- `{item.surface_key: item for item in surfaces}.get(key)`: the last one under the key
abbrev surface_at : String → List RuntimeSurfaceSpec → Option RuntimeSurfaceSpec
surface_at key [] = none
surface_at key (s ∷ ss) =
    let later = surface_at key ss in
    elim later [ none ↦ (if s.surface_key == key then some s else none) | some t ↦ some t ]

abbrev is_surface : Option RuntimeSurfaceSpec → RuntimeSurfaceSpec → Bool
is_surface none s = false
is_surface (some t) s = same_surface t s

abbrev pub declared : List RuntimeSurfaceSpec → RuntimeSurfaceSpec → Bool
declared surfaces s = is_surface (surface_at s.surface_key surfaces) s

module _ (lib : TextLibrary) where
  unfoldable pub validate_task_within_goal : GoalSpec → TaskSpec → Result (Unit {0})
  unfolding validate_goal_scope normalize_all all_allowed reject_forbidden
  validate_task_within_goal goal task = do
    validate_goal_scope lib goal
    guard (task.goal_id == goal.goal_id) contract_error
    normalize_all lib (task.read_scope ++ task.write_scope ++ task.forbidden_scope)
    guard (all (λ c. any (same_capability c) goal.allowed_capabilities) task.capabilities)
        contract_error
    reads ← all_allowed lib goal.read_scope task.read_scope
    writes ← all_allowed lib goal.write_scope task.write_scope
    guard reads contract_error
    guard writes contract_error
    let forbidden = goal.forbidden_scope ++ task.forbidden_scope
    reject_forbidden lib task.read_scope forbidden
    reject_forbidden lib task.write_scope forbidden
    guard (all (declared goal.required_runtime_surfaces) task.required_runtime_surfaces)
        contract_error
