-- ===== src/Strings/Order.antt =====
-- The order of texts, and sorting by a key. Package sort is Go's: insertion sort stands for it.
use jconfig.Prelude.{
  ℕ, ◌+◌, Bool, true, false, ◌&&◌, ◌||◌, List, [], ◌∷◌, ◌≡◌, inl, inr, refl, arith, ◌==◌,
  nat_equality, list_equality, ltb, Bool-cases,
}
use mathlib.Core.List.{Perm}
use mathlib.Core.List.Perm
use jconfig.Strings.Basic.{Text}

-- a < b on strings: byte by byte, a proper prefix first
unfoldable pub text_ltb : Text → Text → Bool
text_ltb s [] = false
text_ltb [] (d ∷ t) = true
text_ltb (c ∷ s) (d ∷ t) = ltb c d || (c == d && text_ltb s t)

module _ {ℓ} {A : Type ℓ} (key : A → Text) where
  unfoldable pub insert_by : A → List A → List A
  unfolding text_ltb
  insert_by a [] = a ∷ []
  insert_by a (x ∷ xs) =
      let rest = insert_by a xs in
      elim (text_ltb (key x) (key a)) [ true ↦ x ∷ rest | false ↦ a ∷ x ∷ xs ]

  -- sort.Slice(s, func(i, j) bool { return key(s[i]) < key(s[j]) })
  unfoldable pub sort_by : List A → List A
  unfolding insert_by
  sort_by [] = []
  sort_by (x ∷ xs) = insert_by x (sort_by xs)

  insert_by_lt :
      (a x : A) (xs : List A)
      → text_ltb (key x) (key a) ≡ true
      → insert_by a (x ∷ xs) ≡ x ∷ insert_by a xs
  unfolding insert_by
  insert_by_lt a x xs e = rw (e, insert_by)

  insert_by_ge :
      (a x : A) (xs : List A) → text_ltb (key x) (key a) ≡ false → insert_by a (x ∷ xs) ≡ a ∷ x ∷ xs
  unfolding insert_by
  insert_by_ge a x xs e = rw (e, insert_by)

  insert_by-perm : (a : A) (xs : List A) → Perm (insert_by a xs) (a ∷ xs)
  insert_by-perm a [] = unfold insert_by in Perm.refl _
  insert_by-perm a (x ∷ xs) = elim (Bool-cases (text_ltb (key x) (key a))) [
    | inl e ↦
        rw (insert_by_lt a x xs e)
          (Perm.trans (Perm.cons x (insert_by-perm a xs)) (Perm.swap a x xs))
    | inr e ↦ rw (insert_by_ge a x xs e) (Perm.refl _)
  ]

  pub sort_by-perm : (xs : List A) → Perm (sort_by xs) xs
  unfolding sort_by
  sort_by-perm [] = Perm.refl _
  sort_by-perm (x ∷ xs) = Perm.trans (insert_by-perm x (sort_by xs)) (Perm.cons x (sort_by-perm xs))

  -- Each key is not above the one behind it.
  abbrev pub IsSorted : List A → Type 0
  IsSorted [] = Unit
  IsSorted (x ∷ []) = Unit
  IsSorted (x ∷ y ∷ ys) = (text_ltb (key y) (key x) ≡ false) × IsSorted (y ∷ ys)

text_ltb_asymm : (s t : Text) → text_ltb s t ≡ true → text_ltb t s ≡ false
unfolding text_ltb
text_ltb_asymm s [] h = cc
text_ltb_asymm [] (d ∷ t) h = refl
text_ltb_asymm (c ∷ s) (d ∷ t) h = ground (arith, text_ltb_asymm s t)

module _ {ℓ} {A : Type ℓ} (key : A → Text) where
  insert_by-IsSorted : (a : A) (xs : List A) → IsSorted key xs → IsSorted key (insert_by key a xs)
  insert_by-IsSorted a [] h = unfold insert_by in tt
  insert_by-IsSorted a (x ∷ []) h = elim (Bool-cases (text_ltb (key x) (key a))) [
    | inl e ↦
        rw (insert_by_lt key a x [] e) (unfold insert_by in (text_ltb_asymm (key x) (key a) e, tt))
    | inr e ↦ rw (insert_by_ge key a x [] e) (e, tt)
  ]
  insert_by-IsSorted a (x ∷ y ∷ ys) h = elim (Bool-cases (text_ltb (key x) (key a))) [
    | inl e ↦ rw (insert_by_lt key a x (y ∷ ys) e) (elim (Bool-cases (text_ltb (key y) (key a))) [
      | inl f ↦
          rw (insert_by_lt key a y ys f)
            (h.0, rw (insert_by_lt key a y ys f) at (insert_by-IsSorted a (y ∷ ys) h.1))
      | inr f ↦ rw (insert_by_ge key a y ys f) (text_ltb_asymm _ _ e, (f, h.1))
    ])
    | inr e ↦ rw (insert_by_ge key a x (y ∷ ys) e) (e, h)
  ]

  pub sort_by-IsSorted : (xs : List A) → IsSorted key (sort_by key xs)
  unfolding sort_by
  sort_by-IsSorted [] = tt
  sort_by-IsSorted (x ∷ xs) = insert_by-IsSorted x (sort_by key xs) (sort_by-IsSorted xs)

module _ {ℓ} {A : Type ℓ} (weight : A → ℕ) where
  -- The sum of the items' weights.
  unfoldable pub weigh : List A → ℕ
  weigh [] = 0
  weigh (x ∷ xs) = weight x + weigh xs

  module _ (key : A → Text) where
    weigh-insert_by : (a : A) (xs : List A) → weigh (insert_by key a xs) ≡ weight a + weigh xs
    unfolding weigh
    weigh-insert_by a [] = unfold insert_by in refl
    weigh-insert_by a (x ∷ xs) = elim (Bool-cases (text_ltb (key x) (key a))) [
      | inl e ↦ rw (insert_by_lt key a x xs e) (omega (arith, weigh-insert_by a xs))
      | inr e ↦ rw (insert_by_ge key a x xs e) refl
    ]

    -- Sorting does not change the sum.
    pub weigh-sort_by : (xs : List A) → weigh (sort_by key xs) ≡ weigh xs
    unfolding weigh sort_by
    weigh-sort_by [] = refl
    weigh-sort_by (x ∷ xs) = omega (arith, weigh-insert_by x (sort_by key xs), weigh-sort_by xs)
