-- ===== src/Exec/Steps.antt =====
-- How a transaction may change the database: `Steps R m` says that whatever `m` does when it
-- succeeds is a step of the relation `R`. One rule for each way to build a transaction.
use company_os.Prelude.{
  suc, ◌≡◌, refl, ap, Bool, true, false, Option, none, some, List, [], ◌∷◌, if◌then◌else◌,
}
use company_os.Result.{Error, Result, ok, err}
use company_os.Db.{World, Env}
use company_os.Exec.{
  Exec, pure, raise, lift, gets, or_raise, change, assert, read_now, fresh_id, ◌>>=◌, continue,
  each,
}

pub record Steps {A : Type 0} (R : World → World → Type 0) (m : Exec A) : Type 0 where
  pub at : (w : World) (a : A) (w' : World) → m w ≡ ok (a, w') → R w w'

-- What a relation must allow for the rules below: doing nothing, two steps in a row, and drawing an
-- instant or an identifier.
pub record Stepping (R : World → World → Type 0) : Type 0 where
  pub stay : (w : World) → R w w
  pub both : (u v w : World) → R u v → R v w → R u w
  pub tick : (w : World) → R w (record w { ticks = suc w.ticks })
  pub draw : (w : World) → R w (record w { ids = suc w.ids })

-- A successful continuation comes from a successful first part.
pub continue-ok :
    {A B : Type 0} (r : Result (A × World)) (f : A → Exec B) (b : B) (w' : World)
    → continue r f ≡ ok (b, w')
    → (a : A) × (v : World) × (r ≡ ok (a, v)) × (f a v ≡ ok (b, w'))
continue-ok (ok (a, v)) f b w' h = (a, v, refl, h)
continue-ok (err e) f b w' h = cc

-- the world of a successful result
result_world : {A : Type 0} → World → Result (A × World) → World
result_world u (ok (a, w)) = w
result_world u (err e) = u

same_world :
    {A : Type 0} (x y : A) (v w : World)
    → ◌≡◌ {A = Result (A × World)} (ok (x, v)) (ok (y, w))
    → v ≡ w
unfolding result_world
same_world x y v w h = ap (result_world v) h

module _ {R : World → World → Type 0} (st : Stepping R) where
  pub Steps-bind :
      {A B : Type 0} (m : Exec A) (f : A → Exec B)
      → Steps R m
      → ((a : A) → Steps R (f a))
      → Steps R (m >>= f)
  unfolding ◌>>=◌
  Steps-bind m f sm sf = record {
    at = λ w b w' h.
        let (a, v, first, second) = continue-ok (m w) f b w' h in
        st.both w v w' (sm.at w a v first) ((sf a).at v b w' second);
  }

  pub Steps-pure : {A : Type 0} (a : A) → Steps R (pure a)
  unfolding pure
  Steps-pure a = record { at = λ w b w' h. rw (← same_world a b w w' h) (st.stay w) }

  pub Steps-gets : {A : Type 0} (f : World → A) → Steps R (gets f)
  unfolding gets
  Steps-gets f = record { at = λ w b w' h. rw (← same_world (f w) b w w' h) (st.stay w) }

  pub Steps-raise : {A : Type 0} (e : Error) → Steps R (raise {A = A} e)
  unfolding raise
  Steps-raise e = record { at = λ w b w' h. cc }

  pub Steps-lift : {A : Type 0} (r : Result A) → Steps R (lift r)
  unfolding lift
  Steps-lift (ok a) = record { at = λ w b w' h. rw (← same_world a b w w' h) (st.stay w) }
  Steps-lift (err e) = record { at = λ w b w' h. cc }

  pub Steps-or_raise : {A : Type 0} (o : Option A) (e : Error) → Steps R (or_raise o e)
  unfolding or_raise
  Steps-or_raise none e = record { at = λ w b w' h. cc }
  Steps-or_raise (some a) e = record { at = λ w b w' h. rw (← same_world a b w w' h) (st.stay w) }

  pub Steps-assert : (b : Bool) (e : Error) → Steps R (assert b e)
  unfolding assert
  Steps-assert true e = record { at = λ w b w' h. rw (← same_world tt b w w' h) (st.stay w) }
  Steps-assert false e = record { at = λ w b w' h. cc }

  pub Steps-read_now : (env : Env) → Steps R (read_now env)
  unfolding read_now
  Steps-read_now env = record {
    at = λ w b w' h. rw (← same_world (env.now w.ticks) b _ w' h) (st.tick w);
  }

  pub Steps-fresh_id : (env : Env) → Steps R (fresh_id env)
  unfolding fresh_id
  Steps-fresh_id env = record {
    at = λ w b w' h. rw (← same_world (env.uuid w.ids) b _ w' h) (st.draw w);
  }

  pub Steps-if :
      {A : Type 0} (b : Bool) (m n : Exec A) → Steps R m → Steps R n → Steps R (if b then m else n)
  Steps-if true m n sm sn = sm
  Steps-if false m n sm sn = sn

  pub Steps-each :
      {A : Type 0} (body : A → Exec Unit) (xs : List A)
      → ((a : A) → Steps R (body a))
      → Steps R (each body xs)
  unfolding each
  Steps-each body [] sb = Steps-pure tt
  Steps-each body (x ∷ xs) sb =
      Steps-bind (body x) (λ _. each body xs) (sb x) (λ _. Steps-each body xs sb)

-- A write is a step when it is one at every world.
pub Steps-change :
    {R : World → World → Type 0} (f : World → World)
    → ((w : World) → R w (f w))
    → Steps R (change f)
unfolding change
Steps-change f step = record { at = λ w b w' h. rw (← same_world tt b (f w) w' h) (step w) }

pub ruleset steps_rules = (
  Steps-bind, Steps-pure, Steps-gets, Steps-raise, Steps-lift, Steps-or_raise, Steps-assert,
  Steps-read_now, Steps-fresh_id, Steps-if, Steps-each,
)

-- After a query the rest may use that its answer is the one of this world.
pub Steps-query :
    {R : World → World → Type 0} {A B : Type 0} (f : World → A) (k : A → Exec B)
    → ((w : World) (b : B) (w' : World) → k (f w) w ≡ ok (b, w') → R w w')
    → Steps R (gets f >>= k)
unfolding ◌>>=◌
Steps-query f k rest = record { at = λ w b w' h. rest w b w' h }

-- A successful block that begins with a pure step.
pub lift-inv :
    {A B : Type 0} (r : Result A) (f : A → Exec B) (w : World) (b : B) (w' : World)
    → (lift r >>= f) w ≡ ok (b, w')
    → (a : A) × (r ≡ ok a) × (f a w ≡ ok (b, w'))
unfolding ◌>>=◌
lift-inv (ok a) f w b w' h = (a, refl, h)
lift-inv (err e) f w b w' h = cc

-- The same for any first step, handing on what it returned: a proof goes through a block by these.
pub after :
    {A B : Type 0} {C : Type 0} (m : Exec A) (f : A → Exec B) (w : World) (b : B) (w' : World)
    → (m >>= f) w ≡ ok (b, w')
    → ((a : A) (v : World) → m w ≡ ok (a, v) → f a v ≡ ok (b, w') → C)
    → C
unfolding ◌>>=◌
after m f w b w' h rest =
    let (a, v, first, second) = continue-ok (m w) f b w' h in rest a v first second

pub after_lift :
    {A B : Type 0} {C : Type 0} (r : Result A) (f : A → Exec B) (w : World) (b : B) (w' : World)
    → (lift r >>= f) w ≡ ok (b, w')
    → ((a : A) → r ≡ ok a → f a w ≡ ok (b, w') → C)
    → C
after_lift r f w b w' h rest = let (a, first, second) = lift-inv r f w b w' h in rest a first second

-- the same for a test and for a row that must be there: these leave the database as it is
pub after_assert :
    {B C : Type 0} (t : Bool) (e : Error) (f : Unit → Exec B) (w : World) (b : B) (w' : World)
    → (assert t e >>= f) w ≡ ok (b, w')
    → (t ≡ true → f tt w ≡ ok (b, w') → C)
    → C
unfolding ◌>>=◌
after_assert true e f w b w' h rest = rest refl h
after_assert false e f w b w' h rest = cc

pub after_found :
    {A B C : Type 0} (o : Option A) (e : Error) (f : A → Exec B) (w : World) (b : B) (w' : World)
    → (or_raise o e >>= f) w ≡ ok (b, w')
    → ((a : A) → o ≡ some a → f a w ≡ ok (b, w') → C)
    → C
unfolding ◌>>=◌
after_found none e f w b w' h rest = cc
after_found (some a) e f w b w' h rest = rest a refl h

pub assert-ok :
    (t : Bool) (e : Error) (w : World) (u : Unit) (v : World) → assert t e w ≡ ok (u, v) → t ≡ true
unfolding assert
assert-ok true e w u v h = refl
assert-ok false e w u v h = cc
