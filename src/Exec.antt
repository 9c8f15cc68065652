-- ===== src/Exec.antt =====
-- A transaction: a computation over the database that may raise. `SQLiteStore.transaction`
-- (companyos_runtime/store.py) rolls back whatever is raised, so an error carries no database.
pub mod Steps
pub mod Returns
pub mod Reads
use company_os.Prelude.{ℕ, suc, String, Bool, true, false, Option, none, some, List, [], ◌∷◌}
use company_os.Result.{Error, Result, ok, err}
use company_os.Db.{World, Env}

abbrev pub Exec : Type 0 → Type 0
Exec A = World → Result (A × World)

module _ {A : Type 0} where
  unfoldable pub pure : A → Exec A
  pure a w = ok (a, w)

  unfoldable pub raise : Error → Exec A
  raise e w = err e

  abbrev lift_at : Result A → Exec A
  lift_at (ok a) w = ok (a, w)
  lift_at (err e) w = err e

  unfoldable pub lift : Result A → Exec A
  lift r w = lift_at r w

  -- a query
  unfoldable pub gets : (World → A) → Exec A
  gets f w = ok (f w, w)

  abbrev or_raise_at : Option A → Error → Exec A
  or_raise_at none e w = err e
  or_raise_at (some a) e w = ok (a, w)

  -- `if row is None: raise e`
  unfoldable pub or_raise : Option A → Error → Exec A
  or_raise o e w = or_raise_at o e w

-- a statement that writes
unfoldable pub change : (World → World) → Exec Unit
change f w = ok (tt, f w)

abbrev assert_at : Bool → Error → Exec Unit
assert_at true e w = ok (tt, w)
assert_at false e w = err e

-- `if not test: raise e`
unfoldable pub assert : Bool → Error → Exec Unit
assert b e w = assert_at b e w

unfoldable pub read_now : Env → Exec ℕ
read_now env w = ok (env.now w.ticks, record w { ticks = suc w.ticks })

unfoldable pub fresh_id : Env → Exec String
fresh_id env w = ok (env.uuid w.ids, record w { ids = suc w.ids })

module _ {A B : Type 0} where
  abbrev continue : Result (A × World) → (A → Exec B) → Result (B × World)
  continue (ok (a, w)) f = f a w
  continue (err e) f = err e

  infixl 5 ◌>>=◌ ◌>>◌
  -- Opening this opens the actions above too.
  unfoldable pub ◌>>=◌ : Exec A → (A → Exec B) → Exec B
  unfolding pure raise lift gets or_raise change assert read_now fresh_id
  ◌>>=◌ m f w = continue (m w) f

  abbrev pub ◌>>◌ : Exec A → Exec B → Exec B
  m >> n = m >>= λ _. n

module _ {A : Type 0} where
  -- `for x in xs: body(x)`
  unfoldable pub each : (A → Exec Unit) → List A → Exec Unit
  unfolding ◌>>=◌
  each body [] = pure tt
  each body (x ∷ xs) = do body x; each body xs

abbrev pub and_then : Bool → Exec Bool → Exec Bool
and_then true rest = rest
and_then false rest = pure false

-- `all(body(x) for x in xs)`, and a loop that returns False at the first x that fails
module _ {A : Type 0} where
  unfoldable pub every : (A → Exec Bool) → List A → Exec Bool
  unfolding ◌>>=◌
  every body [] = pure true
  every body (x ∷ xs) = do passed ← body x; and_then passed (every body xs)
