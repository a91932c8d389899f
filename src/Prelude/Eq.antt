-- ===== src/Prelude/Eq.antt =====
-- Equality tests as an interface: `a == b` in the source, at numbers, texts and label tuples.
use Prim.Native.Nat.{ℕ}
use mathlib.Core.Path.{◌≡◌}
use mathlib.Core.Logic.{◌↔◌}
use mathlib.Core.Bool.{Bool, true, false, ◌&&◌}
use mathlib.Core.List.{List, [], ◌∷◌}
use native.Mathlib.Omega.{arith}
use jconfig.Prelude.Tests.{nat_beq}

pub record Equality {ℓ} (A : Type ℓ) : Type ℓ where
  pub equal : A → A → Bool
  pub agrees : (x y : A) → (equal x y ≡ true) ↔ (x ≡ y)

infix 50 ◌==◌
abbrev pub ◌==◌ {ℓ} : {A : Type ℓ} ⦃e : Equality A⦄ → A → A → Bool
◌==◌ ⦃e⦄ = e.equal

pub nat_beq_iff : (a b : ℕ) → (nat_beq a b ≡ true) ↔ (a ≡ b)
nat_beq_iff a b = ground arith

instance abbrev pub nat_equality : Equality ℕ
nat_equality = record { equal = nat_beq; agrees = nat_beq_iff }

module _ {ℓ} {A : Type ℓ} ⦃e : Equality A⦄ where
  unfoldable pub list_beq : List A → List A → Bool
  list_beq [] [] = true
  list_beq (x ∷ xs) (y ∷ ys) = e.equal x y && list_beq xs ys
  list_beq _ _ = false

  pub list_beq_iff : (xs ys : List A) → (list_beq xs ys ≡ true) ↔ (xs ≡ ys)
  unfolding list_beq
  list_beq_iff (x ∷ xs) (y ∷ ys) = ground (arith, list_beq_iff xs ys, e.agrees x y)
  list_beq_iff _ _ = ground arith

instance abbrev pub list_equality {ℓ} : {A : Type ℓ} ⦃e : Equality A⦄ → Equality (List A)
list_equality = record { equal = list_beq; agrees = list_beq_iff }

-- Texts are compared byte by byte. For the list of a tactic, at each pair of texts compared.
pub text_eq : (a b : List ℕ) → (list_beq a b ≡ true) ↔ (a ≡ b)
text_eq a b = list_beq_iff a b
