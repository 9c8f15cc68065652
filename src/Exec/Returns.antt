-- ===== src/Exec/Returns.antt =====
-- What a transaction returns when it succeeds: `Returns P m` says that its result satisfies `P`.
use company_os.Prelude.{◌≡◌, refl, ap}
use company_os.Result.{Error, Result, ok, err}
use company_os.Db.{World}
use company_os.Exec.{Exec, pure, raise, lift, ◌>>=◌}
use company_os.Exec.Steps.{continue-ok}

pub record Returns {A : Type 0} (P : A → Type 0) (m : Exec A) : Type 0 where
  pub result : (w : World) (a : A) (w' : World) → m w ≡ ok (a, w') → P a

returned_value : {A : Type 0} → A → Result (A × World) → A
returned_value a (ok (b, w)) = b
returned_value a (err e) = a

module _ {A : Type 0} {P : A → Type 0} where
  pub Returns-pure : (a : A) → P a → Returns P (pure a)
  unfolding pure returned_value
  Returns-pure a p = record { result = λ w b w' h. rw (← ap (returned_value a) h) p }

  pub Returns-raise : (e : Error) → Returns P (raise e)
  unfolding raise
  Returns-raise e = record { result = λ w b w' h. cc }

module _ {A B : Type 0} {P : B → Type 0} (m : Exec A) (f : A → Exec B) where
  pub Returns-bind :
      {Q : A → Type 0} → Returns Q m → ((a : A) → Q a → Returns P (f a)) → Returns P (m >>= f)
  unfolding ◌>>=◌
  Returns-bind first rest = record {
    result = λ w b w' h.
        let (a, v, h₁, h₂) = continue-ok (m w) f b w' h in
        (rest a (first.result w a v h₁)).result v b w' h₂;
  }

  -- where the first part's result does not matter
  pub Returns-after : ((a : A) → Returns P (f a)) → Returns P (m >>= f)
  unfolding ◌>>=◌
  Returns-after rest = record {
    result =
        λ w b w' h. let (a, v, h₁, h₂) = continue-ok (m w) f b w' h in (rest a).result v b w' h₂;
  }

-- where the first part is pure
pub Returns-lift :
    {A B : Type 0} {P : B → Type 0} (r : Result A) (f : A → Exec B)
    → ((a : A) → r ≡ ok a → Returns P (f a))
    → Returns P (lift r >>= f)
unfolding ◌>>=◌
Returns-lift (ok a) f rest = record { result = λ w b w' h. (rest a refl).result w b w' h }
Returns-lift (err e) f rest = record { result = λ w b w' h. cc }

-- The same of the result and of the database that is left.
pub record Ends {A : Type 0} (Q : A → World → Type 0) (m : Exec A) : Type 0 where
  pub ended : (w : World) (a : A) (w' : World) → m w ≡ ok (a, w') → Q a w'

pub Ends-after :
    {A B : Type 0} {Q : B → World → Type 0} (m : Exec A) (f : A → Exec B)
    → ((a : A) → Ends Q (f a))
    → Ends Q (m >>= f)
unfolding ◌>>=◌
Ends-after m f rest = record {
  ended = λ w b w' h. let (a, v, h₁, h₂) = continue-ok (m w) f b w' h in (rest a).ended v b w' h₂;
}
