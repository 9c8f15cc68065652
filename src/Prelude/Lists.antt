-- ===== src/Prelude/Lists.antt =====
-- Lists as tables: selection, update and lookup by key, with the laws that clients need.
use Prim.Native.Nat.{ℕ, zero, suc, ◌+◌}
use Prim.Native.String.{String}
use mathlib.Core.Path.{◌≡◌, refl}
use mathlib.Core.Bool.{Bool, true, false, ◌&&◌, ◌||◌}
use mathlib.Core.Option.{Option, none, some}
use mathlib.Core.Option
use mathlib.Core.List.{List, [], ◌∷◌, ◌++◌}
use native.Mathlib.Omega.{arith}
use text.Mathlib.Text.{◌==◌}
use text.Mathlib.TextEquality.{eq_iff}
use mathlib.Core.Logic.{inl, inr}
use company_os.Prelude.Tests.{if◌then◌else◌, Bool-cases}

module _ {ℓ} {A : Type ℓ} where
  abbrev pub length : List A → ℕ
  length [] = 0
  length (x ∷ xs) = suc (length xs)

  pub length-append : (xs ys : List A) → length (xs ++ ys) ≡ length xs + length ys
  length-append [] ys = omega arith
  length-append (x ∷ xs) ys = omega (arith, length-append xs ys)

  abbrev pub all : (A → Bool) → List A → Bool
  all p [] = true
  all p (x ∷ xs) = p x && all p xs

  abbrev pub any : (A → Bool) → List A → Bool
  any p [] = false
  any p (x ∷ xs) = p x || any p xs

  -- SELECT … WHERE p
  abbrev pub select : (A → Bool) → List A → List A
  select p [] = []
  select p (x ∷ xs) = let rest = select p xs in if p x then x ∷ rest else rest

  -- fetchone()
  abbrev pub head? : List A → Option A
  head? [] = none
  head? (x ∷ xs) = some x

  -- The first of the selected ones is selected.
  pub head-select : (p : A → Bool) (xs : List A) (a : A) → head? (select p xs) ≡ some a → p a ≡ true
  head-select p [] a h = cc
  head-select p (x ∷ xs) a h = elim (Bool-cases (p x)) [
    | inl yes' ↦ ground arith
    | inr no' ↦ head-select p xs a (ground arith)
  ]

  abbrev pub take : ℕ → List A → List A
  take zero xs = []
  take (suc n) [] = []
  take (suc n) (x ∷ xs) = x ∷ take n xs

  -- UPDATE … SET f WHERE p
  abbrev pub update : (A → Bool) → (A → A) → List A → List A
  update p f [] = []
  update p f (x ∷ xs) = (if p x then f x else x) ∷ update p f xs

  -- What an update makes of the rows that it changes, and what holds of the others, holds of all.
  pub all-update :
      (p : A → Bool) (f : A → A) (q : A → Bool) (xs : List A)
      → ((x : A) → p x ≡ true → q (f x) ≡ true)
      → ((x : A) → p x ≡ false → q x ≡ true)
      → all q (update p f xs) ≡ true
  all-update p f q [] changed kept = refl
  all-update p f q (x ∷ xs) changed kept =
      ground (arith, changed x, kept x, all-update p f q xs changed kept)

-- `x in (…)`
abbrev pub elem : String → List String → Bool
elem x xs = any (λ y. x == y) xs

-- A table whose primary key is the text `key`.
module _ {ℓ} {R : Type ℓ} (key : R → String) where
  unfoldable pub row : String → List R → Option R
  row k [] = none
  row k (r ∷ t) = if key r == k then some r else row k t

  pub row-cons :
      (j : String) (r : R) (t : List R) → row j (r ∷ t) ≡ (if key r == j then some r else row j t)
  unfolding row
  row-cons j r t = refl

  -- The row found under a key has that key.
  pub key-row : (k : String) (t : List R) (r : R) → row k t ≡ some r → key r ≡ k
  unfolding row
  key-row k [] r h = ground arith
  key-row k (x ∷ t) r h = ground (arith, eq_iff (key x) k, key-row k t r)

  -- UPDATE … WHERE key = ? AND p, for an update that keeps the key
  unfoldable pub modify : String → (R → Bool) → (R → R) → List R → List R
  modify k p f [] = []
  modify k p f (r ∷ t) = (if key r == k && p r then f r else r) ∷ modify k p f t

  pub row-modify :
      (k j : String) (p : R → Bool) (f : R → R) (t : List R)
      → ((r : R) → key (f r) ≡ key r)
      → row j (modify k p f t)
        ≡ (if k == j then Option.map (λ r. if p r then f r else r) (row j t) else row j t)
  unfolding row modify
  row-modify k j p f [] same = ground arith
  row-modify k j p f (r ∷ t) same =
      ground
        (arith, same r, eq_iff (key r) k, eq_iff (key r) j, eq_iff k j, row-modify k j p f t same)
