-- ===== src/Text.antt =====
-- Python's `str.strip` and the checks of text and number arguments that several modules repeat
-- (leases.py `_required_text` and `_positive_int`, integration.py `_text`).
pub mod Paths
use Prim.Native.Char.{code}
use company_os.Prelude.{
  ℕ, ◌<◌, String, Bool, ◌&&◌, ◌||◌, ◌≡◌, leb, eqb, ltb, if◌then◌else◌, ◌==◌, arith, false, List, [],
  ◌∷◌, elem,
}
use company_os.Result.{Error, Result, ok, err, ◌>>=◌}

-- the white space of `str.isspace`
abbrev is_space : ℕ → Bool
is_space c =
    leb 9 c && leb c 13
    || leb 28 c && leb c 32
    || eqb c 133
    || eqb c 160
    || eqb c 5760
    || leb 8192 c && leb c 8202
    || eqb c 8232
    || eqb c 8233
    || eqb c 8239
    || eqb c 8287
    || eqb c 12288

strip_left : String → String
strip_left String.[] = String.[]
strip_left (String.◌∷◌ c s) =
    let rest = strip_left s in if is_space (code c) then rest else String.◌∷◌ c s

strip_right : String → String
strip_right String.[] = String.[]
strip_right (String.◌∷◌ c s) =
    let rest = strip_right s in
    if rest == "" && is_space (code c) then String.[] else String.◌∷◌ c rest

unfoldable pub strip : String → String
unfolding strip_left strip_right
strip s = strip_right (strip_left s)

-- `value.strip()`, refused when it is empty
unfoldable pub required_text : Error → String → Result String
required_text e value = if strip value == "" then err e else ok (strip value)

-- a number below one is refused
unfoldable pub positive : Error → ℕ → Result ℕ
positive e value = if ltb value 1 then err e else ok value

-- What is accepted is the stripped text, and it is not empty.
pub required_text-ok :
    (e : Error) (value t : String)
    → required_text e value ≡ ok t
    → (t ≡ strip value) × ((t == "") ≡ false)
unfolding required_text
required_text-ok e value t h = ground arith

pub positive-ok : (e : Error) (n m : ℕ) → positive e n ≡ ok m → (m ≡ n) × (0 < m)
unfolding positive
positive-ok e n m h = ground arith

-- `tuple(dict.fromkeys(xs))`
abbrev pub distinct_after : List String → List String → List String
distinct_after seen [] = []
distinct_after seen (x ∷ xs) =
    let kept = x ∷ distinct_after (x ∷ seen) xs in
    let dropped = distinct_after seen xs in if elem x seen then dropped else kept

abbrev pub distinct : List String → List String
distinct xs = distinct_after [] xs

-- each of the values is checked
abbrev pub required_texts : Error → List String → Result (List String)
required_texts e [] = ok []
required_texts e (v ∷ vs) = do t ← required_text e v; ts ← required_texts e vs; ok (t ∷ ts)
