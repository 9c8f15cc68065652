-- ===== src/Prelude/Forall.antt =====
-- What holds of every element of a list.
use mathlib.Core.List.{List, [], ◌∷◌}

pub data Forall {A : Type 0} (P : A → Type 0) : List A → Type 0 where
  nil : Forall P []
  cons : (x : A) (xs : List A) → P x → Forall P xs → Forall P (x ∷ xs)
