-- ===== src/Text/Paths.antt =====
-- Python's text and `posixpath` functions that companyos_runtime/scope.py applies to a scope.
use Prim.Native.Char.{Char, code}
use Prim.Native.String.{◌++◌ as append_text}
use company_os.Prelude.{
  ℕ, String, Bool, true, false, not, ◌&&◌, ◌||◌, Option, none, some, List, [], ◌∷◌, eqb, leb,
  if◌then◌else◌, ◌==◌,
}

abbrev pub is_slash : Char → Bool
is_slash c = eqb (code c) 47

abbrev pub same_char : Char → Char → Bool
same_char c d = eqb (code c) (code d)

-- `s.startswith(prefix)`
unfoldable pub starts_with : String → String → Bool
starts_with s String.[] = true
starts_with String.[] (String.◌∷◌ c prefix) = false
starts_with (String.◌∷◌ d s) (String.◌∷◌ c prefix) = same_char d c && starts_with s prefix

abbrev cons_option : Char → Option String → Option String
cons_option c none = none
cons_option c (some s) = some (String.◌∷◌ c s)

abbrev first_of : Option String → Option String → Option String
first_of none o = o
first_of (some s) o = some s

-- what stands before the suffix, if `s.endswith(suffix)`, for a suffix that is not empty
unfoldable pub without_suffix : String → String → Option String
without_suffix suffix String.[] = none
without_suffix suffix (String.◌∷◌ c s) =
    first_of (cons_option c (without_suffix suffix s))
      (if String.◌∷◌ c s == suffix then some "" else none)

-- `s.replace("\\", "/")`
unfoldable pub slashes : String → String
slashes String.[] = String.[]
slashes (String.◌∷◌ c s) =
    let rest = slashes s in if eqb (code c) 92 then append_text "/" rest else String.◌∷◌ c rest

-- one of the characters has one of the code points 0, `*`, `?` and `#`
unfoldable pub has_unsafe : String → Bool
has_unsafe String.[] = false
has_unsafe (String.◌∷◌ c s) =
    eqb (code c) 0 || eqb (code c) 42 || eqb (code c) 63 || eqb (code c) 35 || has_unsafe s

-- `s.split("/")`, which is never empty: its first part and the others
unfoldable pub split : String → String × List String
split String.[] = (String.[], [])
split (String.◌∷◌ c s) =
    let rest = split s in
    (
      if is_slash c then String.[] else String.◌∷◌ c rest.0,
      if is_slash c then rest.0 ∷ rest.1 else rest.1,
    )

abbrev pub parts : String → List String
unfolding split
parts s = (split s).0 ∷ (split s).1

-- `s.split("://", 1)`, if `"://" in s`
abbrev scheme_tail : Char → Option (String × String) → Option (String × String)
scheme_tail c none = none
scheme_tail c (some (scheme, rest)) = some (String.◌∷◌ c scheme, rest)

abbrev scheme_here : Char → String → Option (String × String) → Option (String × String)
scheme_here c (String.◌∷◌ d (String.◌∷◌ e s)) later =
    if eqb (code c) 58 && is_slash d && is_slash e then some (String.[], s) else scheme_tail c later
scheme_here c s later = scheme_tail c later

unfoldable pub split_scheme : String → Option (String × String)
split_scheme String.[] = none
split_scheme (String.◌∷◌ c s) = scheme_here c s (split_scheme s)

unfoldable pub lstrip_slash : String → String
lstrip_slash String.[] = String.[]
lstrip_slash (String.◌∷◌ c s) =
    let rest = lstrip_slash s in if is_slash c then rest else String.◌∷◌ c s

unfoldable pub rstrip_slash : String → String
rstrip_slash String.[] = String.[]
rstrip_slash (String.◌∷◌ c s) =
    let rest = rstrip_slash s in if rest == "" && is_slash c then String.[] else String.◌∷◌ c rest

-- `"/".join(xs)`
abbrev join_rest : List String → String
join_rest [] = String.[]
join_rest (x ∷ xs) = append_text "/" (append_text x (join_rest xs))

unfoldable pub join : List String → String
join [] = String.[]
join (x ∷ xs) = append_text x (join_rest xs)

-- The loop of `posixpath.normpath`. `kept` holds the components that were kept, the last one first;
-- `rooted` says that the path begins with a slash.
abbrev drop_last : Bool → List String → List String
drop_last rooted [] = if rooted then [] else ".." ∷ []
drop_last rooted (last ∷ kept) = if last == ".." then ".." ∷ last ∷ kept else kept

abbrev step_part : Bool → String → List String → List String
step_part rooted part kept =
    if part == "" || part == "."
    then kept
    else if part == ".."
    then drop_last rooted kept
    else part ∷ kept

unfoldable pub norm_parts : Bool → List String → List String → List String
norm_parts rooted [] kept = kept
norm_parts rooted (part ∷ rest) kept = norm_parts rooted rest (step_part rooted part kept)

abbrev reversed : List String → List String → List String
reversed [] to = to
reversed (x ∷ xs) to = reversed xs (x ∷ to)

-- two leading slashes are kept, one and more than two become one
unfoldable pub root_of : String → String
unfolding starts_with
root_of s =
    if starts_with s "//" && not (starts_with s "///")
    then "//"
    else if starts_with s "/"
    then "/"
    else ""

-- `posixpath.normpath(s)`
unfoldable pub normpath : String → String
unfolding root_of split norm_parts join
normpath s =
    let root = root_of s in
    let path = append_text root (join (reversed (norm_parts (not (root == "")) (parts s) []) [])) in
    if path == "" then "." else path

abbrev is_letter : ℕ → Bool
is_letter c = leb 65 c && leb c 90 || leb 97 c && leb c 122

-- `re.match("^[A-Za-z]:/", s)`
unfoldable pub is_drive : String → Bool
is_drive (String.◌∷◌ c (String.◌∷◌ d (String.◌∷◌ e s))) =
    is_letter (code c) && eqb (code d) 58 && is_slash e
is_drive s = false
