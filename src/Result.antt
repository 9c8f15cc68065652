-- ===== src/Result.antt =====
-- companyos_runtime/errors.py: the exceptions of the runtime, without their messages, and the result
-- of a function that may raise one. `constraint` is sqlite3.IntegrityError, a violated table
-- constraint; `value_error` and `type_error` are ValueError and TypeError of Python.
use company_os.Prelude.{◌≡◌, refl, ◌⊎◌, inl, inr, Bool, true, false, Option, none, some}

pub data Error : Type 0 where
  contract_error not_found transition_error lease_error authorization_error evidence_error : Error
  freshness_error integrity_error value_error type_error constraint : Error

pub data Result {ℓ} (A : Type ℓ) : Type ℓ where
  err : (raised : Error) → Result A
  ok : (value : A) → Result A

-- `if not test: raise error`
abbrev pub guard : (test : Bool) (error : Error) → Result (Unit {0})
guard false error = err error
guard true error = ok tt

module _ {ℓ} {A : Type ℓ} where
  -- `if row is None: raise error`
  abbrev pub some_or : Option A → Error → Result A
  some_or none error = err error
  some_or (some a) error = ok a

  pub Result-cases : (r : Result A) → ((a : A) × (r ≡ ok a)) ⊎ ((e : Error) × (r ≡ err e))
  Result-cases (ok a) = inl (a, refl)
  Result-cases (err e) = inr (e, refl)

  module _ {κ} {B : Type κ} where
    infixl 5 ◌>>=◌
    abbrev pub ◌>>=◌ : (first : Result A) (next : A → Result B) → Result B
    (err e) >>= next = err e
    (ok a) >>= next = next a

    -- What a chain that succeeded went through.
    pub >>=-eq-ok :
        (m : Result A) (next : A → Result B) {b : B}
        → (m >>= next) ≡ ok b
        → (a : A) × (m ≡ ok a) × (next a ≡ ok b)
    >>=-eq-ok (err e) next h = cc
    >>=-eq-ok (ok a) next h = (a, refl, h)

module _ {ℓ} {B : Type ℓ} where
  infixl 5 ◌>>◌
  abbrev pub ◌>>◌ : (first : Result (Unit {0})) (rest : Result B) → Result B
  first >> rest = first >>= λ _. rest
