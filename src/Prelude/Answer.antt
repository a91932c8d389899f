-- ===== src/Prelude/Answer.antt =====
-- A Go result with its error: the value, or the text of the error.
use mathlib.Core.Bool.{Bool, true, false}
use mathlib.Core.List.{List}
use Prim.Native.Nat.{ℕ}

pub data Answer {ℓ} (A : Type ℓ) : Type ℓ where
  good : A → Answer A
  bad : List ℕ → Answer A

abbrev pub is_bad {ℓ} : {A : Type ℓ} → Answer A → Bool
is_bad (good a) = false
is_bad (bad e) = true
