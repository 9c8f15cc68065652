-- ===== src/Scope/Segments.antt =====
-- The text comparison of scopes (scope.py, `scope_covers`) against their path segments.
use Prim.Native.Char.{Char, code}
use Prim.Native.String.{◌++◌ as append_text}
use text.Mathlib.TextEquality.{Char-path}
use text.Mathlib.TextLemmas.{head-eq_of_cons-eq, tail-eq_of_cons-eq, cons-ne-nil, cons-append}
use company_os.Prelude.{
  ◌≡◌, refl, ap, ap₂, sym, ◌∙◌, String, Bool, true, false, ◌&&◌, ◌||◌, List, [], ◌∷◌, arith, eq_iff,
  if◌then◌else◌, ◌==◌,
}
use company_os.Text.Paths.{is_slash, same_char, starts_with, split, parts}
use company_os.Scope.{covers_base}

-- the segments of one path begin with those of another
abbrev pub begins : List String → List String → Bool
begins [] ys = true
begins (x ∷ xs) [] = false
begins (x ∷ xs) (y ∷ ys) = x == y && begins xs ys

-- equal, or below: character by character
abbrev under : String → String → Bool
under String.[] String.[] = true
under String.[] (String.◌∷◌ d b) = is_slash d
under (String.◌∷◌ c a) String.[] = false
under (String.◌∷◌ c a) (String.◌∷◌ d b) = same_char d c && under a b

cons-inj :
    (c d : Char) (a b : String) → String.◌∷◌ c a ≡ String.◌∷◌ d b → (code d ≡ code c) × (a ≡ b)
cons-inj c d a b h = (ap code (sym (head-eq_of_cons-eq h)), tail-eq_of_cons-eq h)

cons-path : (c d : Char) (a b : String) → code d ≡ code c → a ≡ b → String.◌∷◌ c a ≡ String.◌∷◌ d b
cons-path c d a b h t = ap₂ (λ (e : Char) (s : String). String.◌∷◌ e s) (sym (Char-path d c h)) t

eq_cons :
    (c d : Char) (a b : String) → (String.◌∷◌ c a == String.◌∷◌ d b) ≡ (same_char d c && a == b)
eq_cons c d a b = ground (
  arith,
  eq_iff (String.◌∷◌ c a) (String.◌∷◌ d b),
  eq_iff a b,
  cons-inj c d a b,
  cons-path c d a b,
)

nil_eq_cons : (d : Char) (b : String) → ("" == String.◌∷◌ d b) ≡ false
nil_eq_cons d b =
    ground (arith, eq_iff "" (String.◌∷◌ d b), λ (h : "" ≡ String.◌∷◌ d b). cons-ne-nil d b (sym h))

cons_eq_nil : (d : Char) (b : String) → (String.◌∷◌ d b == "") ≡ false
cons_eq_nil d b = ground (arith, eq_iff (String.◌∷◌ d b) "", cons-ne-nil d b)

no_start : (c : Char) (a : String) → starts_with "" (append_text (String.◌∷◌ c a) "/") ≡ false
unfolding starts_with
no_start c a = ap (starts_with "") (cons-append c a "/")

start_cons :
    (c d : Char) (a b : String)
    → starts_with (String.◌∷◌ d b) (append_text (String.◌∷◌ c a) "/")
      ≡ (same_char d c && starts_with b (append_text a "/"))
unfolding starts_with
start_cons c d a b = ap (starts_with (String.◌∷◌ d b)) (cons-append c a "/")

under-text : (a b : String) → (a == b || starts_with b (append_text a "/")) ≡ under a b
unfolding starts_with
under-text String.[] String.[] = refl
under-text String.[] (String.◌∷◌ d b) = ground (arith, nil_eq_cons d b)
under-text (String.◌∷◌ c a) String.[] = ground (arith, cons_eq_nil c a, no_start c a)
under-text (String.◌∷◌ c a) (String.◌∷◌ d b) =
    ground (arith, eq_cons c d a b, start_cons c d a b, under-text a b)

-- the parts of a text that begins with `c`, from the parts of what follows, by whether `c` is a slash
abbrev cons_parts : Bool → Char → String → List String → List String
cons_parts slash c x xs =
    (if slash then String.[] else String.◌∷◌ c x) ∷ (if slash then x ∷ xs else xs)

begins_nil :
    (slash : Bool) (d : Char) (y : String) (ys : List String)
    → begins ("" ∷ []) (cons_parts slash d y ys) ≡ slash
begins_nil true d y ys = refl
begins_nil false d y ys = ground (arith, nil_eq_cons d y)

begins_end :
    (slash : Bool) (c : Char) (x : String) (xs : List String)
    → begins (cons_parts slash c x xs) ("" ∷ []) ≡ false
begins_end true c x xs = refl
begins_end false c x xs = ground (arith, cons_eq_nil c x)

begins_cons :
    (b₁ b₂ : Bool) (c d : Char) (x y : String) (xs ys : List String)
    → is_slash c ≡ b₁
    → is_slash d ≡ b₂
    → begins (cons_parts b₁ c x xs) (cons_parts b₂ d y ys)
      ≡ (same_char d c && begins (x ∷ xs) (y ∷ ys))
begins_cons true true c d x y xs ys e₁ e₂ = ground arith
begins_cons true false c d x y xs ys e₁ e₂ = ground (arith, nil_eq_cons d y)
begins_cons false true c d x y xs ys e₁ e₂ = ground (arith, cons_eq_nil c x)
begins_cons false false c d x y xs ys e₁ e₂ = ground (arith, eq_cons c d x y)

begins-parts : (a b : String) → begins (parts a) (parts b) ≡ under a b
unfolding split
begins-parts String.[] String.[] = refl
begins-parts String.[] (String.◌∷◌ d b) = begins_nil (is_slash d) d (split b).0 (split b).1
begins-parts (String.◌∷◌ c a) String.[] = begins_end (is_slash c) c (split a).0 (split a).1
begins-parts (String.◌∷◌ c a) (String.◌∷◌ d b) =
    begins_cons (is_slash c) (is_slash d) c d (split a).0 (split b).0 (split a).1 (split b).1 refl
      refl
    ∙ ap (λ t. same_char d c && t) (begins-parts a b)

-- For a parent that is not the root, the text comparison asks whether the segments of the parent are
-- the first segments of the child: a parent never covers a sibling whose name only begins like its own.
pub covers_base_segments :
    (parent child : String)
    → (parent == "/") ≡ false
    → covers_base parent child ≡ begins (parts parent) (parts child)
unfolding covers_base
covers_base_segments parent child not_root =
    ground (arith, begins-parts parent child, under-text parent child)

begins_trans :
    (xs ys zs : List String) → begins xs ys ≡ true → begins ys zs ≡ true → begins xs zs ≡ true
begins_trans [] ys zs h k = refl
begins_trans (x ∷ xs) [] zs h k = ground arith
begins_trans (x ∷ xs) (y ∷ ys) [] h k = ground arith
begins_trans (x ∷ xs) (y ∷ ys) (z ∷ zs) h k =
    ground (arith, eq_iff x y, eq_iff y z, eq_iff x z, begins_trans xs ys zs)

-- Where neither parent is the root, what covers a scope covers all that this scope covers.
pub covers_base_trans :
    (a b c : String)
    → (a == "/") ≡ false
    → (b == "/") ≡ false
    → covers_base a b ≡ true
    → covers_base b c ≡ true
    → covers_base a c ≡ true
covers_base_trans a b c a_below b_below h k =
    covers_base_segments a c a_below
    ∙ begins_trans (parts a) (parts b) (parts c) (sym (covers_base_segments a b a_below) ∙ h)
        (sym (covers_base_segments b c b_below) ∙ k)
