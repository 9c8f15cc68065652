-- ===== src/Leases/Claims.antt =====
-- When a database is later than another, as to the claims that its leases make (leases.py).
use company_os.Prelude.{
  ◌<◌, ◌≡◌, ◌⊎◌, inl, inr, refl, ap, ◌∙◌, String, Bool, true, false, none, some, ◌∷◌, arith, row,
  modify, row-modify, row-cons, ◌==◌, is_none, Bool-cases, eq_of_==,
}
use company_os.Db.{World}
use company_os.Db.Rows.{Lease}
use company_os.Exec.Steps.{Steps, Stepping, Steps-change, Steps-query, steps_rules, continue-ok}
use company_os.Leases.{lease_key, find_lease}

-- Of two rows of one resource the second has a higher fence, or the same claim: fence, project, task
-- and holder, and it is released if the first one was.
abbrev pub Later : Lease → Lease → Type 0
Later l l' =
    (l.fence < l'.fence)
    ⊎ ((l'.fence ≡ l.fence)
        × (l'.project_id ≡ l.project_id)
        × (l'.task_id ≡ l.task_id)
        × (l'.holder ≡ l.holder)
        × ((is_none l.released_at ≡ true) ⊎ (is_none l'.released_at ≡ false)))

pub record Fenced (w w' : World) : Type 0 where
  pub later :
      (key : String) (l : Lease)
      → find_lease key w ≡ some l
      → (l' : Lease) × (find_lease key w' ≡ some l') × Later l l'

Later-trans : (a b c : Lease) → Later a b → Later b c → Later a c
Later-trans a b c p q = ground arith

pub Later-refl : (a : Lease) → Later a a
Later-refl a = ground arith

pub Fenced-same : (w w' : World) → w'.leases ≡ w.leases → Fenced w w'
Fenced-same w w' same = record {
  later = λ key l found. (l, ap (λ ls. row lease_key key ls) same ∙ found, Later-refl l);
}

pub Fenced-Stepping : Stepping Fenced
Fenced-Stepping = record {
  stay = λ w. Fenced-same w w refl;
  both = λ u v w p q. record {
    later = λ key l found.
        let (l₁, found₁, step₁) = p.later key l found in
        let (l₂, found₂, step₂) = q.later key l₁ found₁ in
        (l₂, found₂, Later-trans l l₁ l₂ step₁ step₂);
  };
  tick = λ w. Fenced-same w _ refl;
  draw = λ w. Fenced-same w _ refl;
}

pub ruleset fenced_rules = (steps_rules, Fenced-Stepping)

-- Changing one resource's row to a later one is a step.
pub Fenced-modify :
    (w : World) (key : String) (p : Lease → Bool) (f : Lease → Lease)
    → ((l : Lease) → lease_key (f l) ≡ lease_key l)
    → ((l : Lease) → find_lease key w ≡ some l → p l ≡ true → Later l (f l))
    → Fenced w (record w { leases = modify lease_key key p f w.leases })
Fenced-modify w key p f same step = record {
  later = λ j l found.
      let changed = row-modify lease_key key j p f w.leases same in
      elim (Bool-cases (key == j)) [
        | inr other ↦ (l, changed ∙ rw (other, found), Later-refl l)
        | inl this ↦ elim (Bool-cases (p l)) [
          | inl yes' ↦
              (f l, changed ∙ rw (this, found, yes'), step l (rw (eq_of_== key j this) found) yes')
          | inr no' ↦ (l, changed ∙ rw (this, found, no'), Later-refl l)
        ]
      ];
}

pub Fenced-insert :
    (w : World) (l : Lease)
    → find_lease l.resource_key w ≡ none
    → Fenced w (record w { leases = l ∷ w.leases })
Fenced-insert w l absent = record {
  later = λ j old found. elim (Bool-cases (l.resource_key == j)) [
    | inr other ↦ (old, row-cons lease_key j l w.leases ∙ rw (other, found), Later-refl old)
    | inl this ↦ absurd (clash j old found (eq_of_== l.resource_key j this))
  ];
}
  where
    clash : (j : String) (old : Lease) → find_lease j w ≡ some old → l.resource_key ≡ j → ⊥
    clash j old found same = cc (absent, found, same)
