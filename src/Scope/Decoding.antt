-- ===== src/Scope/Decoding.antt =====
-- The decoding of a scope (scope.py, `normalize_scope`), and what is accepted of its outcome.
use company_os.Prelude.{
  ℕ, zero, suc, ◌<◌, ◌≡◌, refl, inl, inr, ap, ◌∙◌, String, Bool, true, false, not, ◌||◌, any,
  Bool-cases, arith, eq_iff, ◌==◌,
}
use company_os.Result.{Result, ok, contract_error, guard, ◌>>◌, >>=-eq-ok}
use company_os.Text.{strip}
use company_os.Text.Paths.{slashes, has_unsafe, parts}
use company_os.Scope.{TextLibrary, decode, normalize_scope, without, all_but_recursive, is_dotdot}

same_text : (s t : String) → ◌≡◌ {A = Result String} (ok s) (ok t) → t ≡ s
same_text s t h = ground arith

-- the checked part of a decoded scope
abbrev pub body_of : String → String
body_of raw = without (all_but_recursive raw) raw

guard-ok :
    (b : Bool) {A : Type 0} (m : Result A) (a : A)
    → (guard b contract_error >> m) ≡ ok a
    → (b ≡ true) × (m ≡ ok a)
guard-ok b m a h = ground arith

module _ (lib : TextLibrary) where
  -- one round of percent decoding and of turning backslashes
  abbrev pub decoded : String → String
  decoded raw = slashes (lib.unquote raw)

  abbrev pub decoded_in : ℕ → String → String
  decoded_in zero raw = raw
  decoded_in (suc k) raw = decoded_in k (decoded raw)

  -- What the decoding accepts in a number of rounds is the text that comes out of fewer rounds of percent
  -- decoding and of turning backslashes, and another round leaves it as it is.
  decoded_is_stable :
      (rounds : ℕ) (raw s : String)
      → decode lib rounds raw ≡ ok s
      → (decoded s ≡ s) × ((k : ℕ) × (k < rounds) × (s ≡ decoded_in k raw))
  unfolding decode
  decoded_is_stable zero raw s h = cc
  decoded_is_stable (suc rounds) raw s h = elim (Bool-cases (decoded raw == raw)) [
    | inl stable ↦
        let same : s ≡ raw = same_text raw s (ground arith) in
        (ground (arith, (eq_iff _ _).0 stable, same), (0, omega arith, same))
    | inr moved ↦
        let (still, (k, few, reached)) = decoded_is_stable rounds (decoded raw) s (ground arith) in
        (still, (suc k, omega (arith, few), reached))
  ]

  decoded_again : (j : ℕ) (s : String) → decoded s ≡ s → decoded_in j s ≡ s
  decoded_again zero s h = refl
  decoded_again (suc j) s h = ap (decoded_in j) h ∙ decoded_again j s h

  -- A scope that is accepted has passed its checks in a form that no percent encoding hides: stripped and
  -- with its backslashes turned, it becomes in fewer than 20 rounds of decoding a text that any number
  -- of further rounds leaves as it is, and the body of that text has none of the unsafe characters and
  -- no part that is two dots.
  pub accepted_scope_is_safe :
      (value s : String) (further : ℕ)
      → normalize_scope lib value ≡ ok s
      → (raw : String) × (decoded_in further raw ≡ raw)
        × ((k : ℕ) × (k < 20) × (raw ≡ decoded_in k (slashes (strip value))))
        × (has_unsafe (body_of raw) ≡ false)
        × (any is_dotdot (parts (body_of raw)) ≡ false)
  unfolding normalize_scope
  accepted_scope_is_safe value s further h =
      let (some_text, h₁) = guard-ok (not (strip value == "")) _ s h in
      let (raw, ran, h₂) = >>=-eq-ok (decode lib 20 (slashes (strip value))) _ h₁ in
      let (safe, h₃) =
        guard-ok (not (has_unsafe (body_of raw) || any is_dotdot (parts (body_of raw)))) _ s h₂ in
      let (stable, reached) = decoded_is_stable 20 (slashes (strip value)) raw ran in
      (raw, decoded_again further raw stable, reached, ground (arith, safe), ground (arith, safe))
