-- ===== src/Exec/Reads.antt =====
-- Computations that only read: what a test has confirmed of the database when it answers yes.
use company_os.Prelude.{
  ℕ, suc, ◌≤◌, ◌∙◌, ◌≡◌, refl, Bool, true, false, List, [], ◌∷◌, arith, if◌then◌else◌,
}
use company_os.Prelude.Forall.{Forall, nil, cons}
use company_os.Result.{Result, ok}
use company_os.Db.{World, Env}
use company_os.Exec.{Exec, pure, gets, read_now, and_then, every, ◌>>=◌}
use company_os.Exec.Steps.{Steps, Stepping, continue-ok}

-- Nothing but the clock and the identifiers moves, and the clock not backwards.
abbrev pub OnlyReads : World → World → Type 0
OnlyReads w w' = (w' ≡ record w { ticks = w'.ticks; ids = w'.ids }) × (w.ticks ≤ w'.ticks)

both_same :
    (u v w : World)
    → v ≡ record u { ticks = v.ticks; ids = v.ids }
    → w ≡ record v { ticks = w.ticks; ids = w.ids }
    → w ≡ record u { ticks = w.ticks; ids = w.ids }
both_same u v w p q = ground arith

pub OnlyReads-Stepping : Stepping OnlyReads
OnlyReads-Stepping = record {
  stay = λ w. (refl, omega arith);
  both = λ u v w p q. (both_same u v w p.0 q.0, omega (arith, p.1, q.1));
  tick = λ w. (refl, omega arith);
  draw = λ w. (refl, omega arith);
}

-- From every database that differs from `w₀` by readings of the clock only, `m` leaves one that does
-- too, and its yes implies `P`.
pub record Confirms (w₀ : World) (P : Type 0) (m : Exec Bool) : Type 0 where
  pub confirmed :
      (w : World) (b : Bool) (w' : World)
      → OnlyReads w₀ w
      → m w ≡ ok (b, w')
      → OnlyReads w₀ w' × (b ≡ true → P)

answered :
    (a b : Bool) (w w' : World)
    → ◌≡◌ {A = Result (Bool × World)} (ok (a, w)) (ok (b, w'))
    → (a ≡ b) × (w' ≡ w)
answered a b w w' h = ground arith

module _ (w₀ : World) where
  pub Confirms-no : {P : Type 0} → Confirms w₀ P (pure false)
  unfolding pure
  Confirms-no = record {
    confirmed = λ w b w' same h. (rw (answered false b w w' h).1 same, λ e. ground arith);
  }

  pub Confirms-yes : {P : Type 0} → P → Confirms w₀ P (pure true)
  unfolding pure
  Confirms-yes p = record {
    confirmed = λ w b w' same h. (rw (answered true b w w' h).1 same, λ e. p);
  }

  -- a query of the tables
  pub Confirms-gets :
      {P : Type 0} (f : World → Bool)
      → ((w : World) → OnlyReads w₀ w → f w ≡ true → P)
      → Confirms w₀ P (gets f)
  unfolding gets
  Confirms-gets f told = record {
    confirmed = λ w b w' same h.
        let there = answered (f w) b w w' h in (rw there.1 same, λ e. told w same (there.0 ∙ e));
  }

  pub Confirms-if :
      {P : Type 0} (c : Bool) (m n : Exec Bool)
      → (c ≡ true → Confirms w₀ P m)
      → (c ≡ false → Confirms w₀ P n)
      → Confirms w₀ P (if c then m else n)
  Confirms-if true m n then_ else_ = then_ refl
  Confirms-if false m n then_ else_ = else_ refl

  pub Confirms-and :
      {P Q : Type 0} (m n : Exec Bool)
      → Confirms w₀ P m
      → (P → Confirms w₀ Q n)
      → Confirms w₀ (P × Q) (m >>= λ passed. and_then passed n)
  unfolding ◌>>=◌ pure
  Confirms-and {P = P} {Q = Q} m n first second = record {
    confirmed = λ w b w' same h.
        let (passed, v, h₁, h₂) = continue-ok (m w) (λ passed. and_then passed n) b w' h in
        let (there, told) = first.confirmed w passed v same h₁ in next passed v there told h₂;
  }
    where
      next :
          {b : Bool} {w' : World} (passed : Bool) (v : World)
          → OnlyReads w₀ v
          → (passed ≡ true → P)
          → and_then passed n v ≡ ok (b, w')
          → OnlyReads w₀ w' × (b ≡ true → P × Q)
      next true v there told h =
          let (last, holds) = (second (told refl)).confirmed v _ _ there h in
          (last, λ e. (told refl, holds e))
      next {b = b} {w' = w'} false v there told h =
          (rw (answered false b v w' h).1 there, λ e. ground arith)

  -- a step before the test that only reads
  pub Confirms-after :
      {P : Type 0} {A : Type 0} (m : Exec A) (f : A → Exec Bool)
      → Steps OnlyReads m
      → ((a : A) → Confirms w₀ P (f a))
      → Confirms w₀ P (m >>= f)
  unfolding ◌>>=◌
  Confirms-after m f reads rest = record {
    confirmed = λ w b w' same h.
        let (a, v, h₁, h₂) = continue-ok (m w) f b w' h in
        (rest a).confirmed v b w' (OnlyReads-Stepping.both w₀ w v same (reads.at w a v h₁)) h₂;
  }

  -- a reading of the clock, which is one from `w₀` on
  pub Confirms-clock :
      {P : Type 0} (env : Env) (f : ℕ → Exec Bool)
      → ((i : ℕ) → w₀.ticks ≤ i → Confirms w₀ P (f (env.now i)))
      → Confirms w₀ P (read_now env >>= f)
  unfolding ◌>>=◌ read_now
  Confirms-clock env f rest = record {
    confirmed = λ w b w' same h.
        (rest w.ticks same.1).confirmed (record w { ticks = suc w.ticks }) b w'
          (OnlyReads-Stepping.both w₀ w _ same (OnlyReads-Stepping.tick w)) h;
  }

  -- a query whose answer the rest uses
  pub Confirms-query :
      {P : Type 0} {A : Type 0} (f : World → A) (k : A → Exec Bool)
      → ((w : World) → OnlyReads w₀ w → Confirms w₀ P (k (f w)))
      → Confirms w₀ P (gets f >>= k)
  unfolding ◌>>=◌
  Confirms-query f k rest = record {
    confirmed = λ w b w' same h. (rest w same).confirmed w b w' same h;
  }

  pub Confirms-map : {P Q : Type 0} (m : Exec Bool) → (P → Q) → Confirms w₀ P m → Confirms w₀ Q m
  Confirms-map m f sure = record {
    confirmed = λ w b w' same h.
        let (there, told) = sure.confirmed w b w' same h in (there, λ e. f (told e));
  }

-- What such a computation confirms at every database, it only reads.
pub Confirms-reads :
    {P : World → Type 0} (m : Exec Bool) → ((w : World) → Confirms w (P w) m) → Steps OnlyReads m
Confirms-reads m sure = record {
  at = λ w b w' h. ((sure w).confirmed w b w' (OnlyReads-Stepping.stay w) h).0;
}

pub Confirms-every :
    {A : Type 0} {P : A → Type 0} (w₀ : World) (body : A → Exec Bool) (xs : List A)
    → ((x : A) → Confirms w₀ (P x) (body x))
    → Confirms w₀ (Forall P xs) (every body xs)
unfolding every
Confirms-every w₀ body [] each_one = Confirms-yes w₀ nil
Confirms-every w₀ body (x ∷ xs) each_one =
    Confirms-map w₀ (body x >>= λ passed. and_then passed (every body xs))
      (λ both. cons x xs both.0 both.1)
      (Confirms-and w₀ (body x) (every body xs) (each_one x)
        λ first. Confirms-every w₀ body xs each_one)
