-- ===== src/Prelude/Keep.antt =====
-- The items that a filtering loop keeps.
use mathlib.Core.Path.{◌≡◌, sym, subst}
use mathlib.Core.Logic.{◌↔◌, ∥∥₁_prop}
use mathlib.Core.Logic.Or
use mathlib.Core.Bool.{Bool, true, false}
use mathlib.Core.List.{List, [], ◌∷◌, Mem, mem-cons, not-mem-nil}
use jconfig.Prelude.Tests.{Bool-cases}
use jconfig.Prelude.Lists.{keep}
use mathlib.Core.Logic.{inl, inr}

module _ {ℓ} {A : Type ℓ} (p : A → Bool) where
  keep_yes : (x : A) (xs : List A) → p x ≡ true → keep p (x ∷ xs) ≡ x ∷ keep p xs
  unfolding keep
  keep_yes x xs e = rw (e, keep)

  keep_no : (x : A) (xs : List A) → p x ≡ false → keep p (x ∷ xs) ≡ keep p xs
  unfolding keep
  keep_no x xs e = rw (e, keep)

  mem_of-keep : (xs : List A) (a : A) → Mem a (keep p xs) → Mem a xs
  mem_of-keep [] a m = unfold keep in m
  mem_of-keep (x ∷ xs) a m = elim (Bool-cases (p x)) [
    | inl e ↦
        Or.elim ∥∥₁_prop (mem-cons.0 (rw (keep_yes x xs e) at m)) (λ h. mem-cons.1 (Or.inl h))
          (λ h. mem-cons.1 (Or.inr (mem_of-keep xs a h)))
    | inr e ↦ mem-cons.1 (Or.inr (mem_of-keep xs a (rw (keep_no x xs e) at m)))
  ]

  test_of-keep : (xs : List A) (a : A) → Mem a (keep p xs) → p a ≡ true
  test_of-keep [] a m = absurd (not-mem-nil {a = a} (mem_of-keep [] a m))
  test_of-keep (x ∷ xs) a m = elim (Bool-cases (p x)) [
    | inl e ↦
        Or.elim (hlevel) (mem-cons.0 (rw (keep_yes x xs e) at m))
          (λ h. subst (λ y. p y ≡ true) (sym h) e) (λ h. test_of-keep xs a h)
    | inr e ↦ test_of-keep xs a (rw (keep_no x xs e) at m)
  ]

  mem-keep_of : (xs : List A) (a : A) → Mem a xs → p a ≡ true → Mem a (keep p xs)
  mem-keep_of [] a m h = absurd (not-mem-nil m)
  mem-keep_of (x ∷ xs) a m h = elim (Bool-cases (p x)) [
    | inl e ↦ rw (keep_yes x xs e) (
        Or.elim ∥∥₁_prop (mem-cons.0 m) (λ k. mem-cons.1 (Or.inl k))
          (λ k. mem-cons.1 (Or.inr (mem-keep_of xs a k h))))
    | inr e ↦ rw (keep_no x xs e) (
        Or.elim ∥∥₁_prop (mem-cons.0 m)
          (λ k. absurd (let k' : p x ≡ true = subst (λ y. p y ≡ true) k h in cc))
          (λ k. mem-keep_of xs a k h))
  ]

  pub mem-keep : (xs : List A) (a : A) → Mem a (keep p xs) ↔ (Mem a xs × (p a ≡ true))
  mem-keep xs a = (λ m. (mem_of-keep xs a m, test_of-keep xs a m), λ m. mem-keep_of xs a m.0 m.1)
