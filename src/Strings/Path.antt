-- ===== src/Strings/Path.antt =====
-- Parts of a text inherit what it does not contain.
use jconfig.Prelude.{
  ℕ, Bool, true, false, [], ◌∷◌, ◌≡◌, inl, inr, refl, arith, nat_equality, list_equality,
  Bool-cases,
}
use jconfig.Strings.Basic.{Text, has_prefix, contains, trim_onto, trim_right, trim_left}

has_prefix-trim_onto :
    (x : Text) (p : ℕ → Bool) (c : ℕ) (r s : Text)
    → ((y : Text) → has_prefix y r ≡ true → has_prefix y s ≡ true)
    → has_prefix x (trim_onto p c r) ≡ true
    → has_prefix x (c ∷ s) ≡ true
unfolding has_prefix
has_prefix-trim_onto [] p c r s f h = refl
has_prefix-trim_onto (b ∷ x) p c [] s f h = ground (arith, f x)
has_prefix-trim_onto (b ∷ x) p c (d ∷ r) s f h = ground (arith, f x)

-- A prefix of the trimmed text is a prefix of the text.
has_prefix-trim_right :
    (p : ℕ → Bool) (s x : Text) → has_prefix x (trim_right p s) ≡ true → has_prefix x s ≡ true
unfolding trim_right
has_prefix-trim_right p [] x h = h
has_prefix-trim_right p (c ∷ s) x h =
    has_prefix-trim_onto x p c (trim_right p s) s (has_prefix-trim_right p s) h

contains-trim_onto :
    (x : Text) (p : ℕ → Bool) (c : ℕ) (r s : Text)
    → ((y : Text) → has_prefix y r ≡ true → has_prefix y s ≡ true)
    → (contains x r ≡ true → contains x s ≡ true)
    → contains x (trim_onto p c r) ≡ true
    → contains x (c ∷ s) ≡ true
unfolding contains
contains-trim_onto x p c [] s f g h =
    ground (arith, has_prefix-trim_onto x p c [] s f, has_prefix_nil)
  where
    has_prefix_nil : has_prefix x [] ≡ true → has_prefix x (c ∷ s) ≡ true
    has_prefix_nil e = go x e
      where
        go : (y : Text) → has_prefix y [] ≡ true → has_prefix y (c ∷ s) ≡ true
        go [] k = unfold has_prefix in refl
        go (b ∷ y) k = unfold has_prefix in cc
contains-trim_onto x p c (d ∷ r) s f g h = ground (arith, has_prefix-trim_onto x p c (d ∷ r) s f)

contains_of_trim_right :
    (p : ℕ → Bool) (s x : Text) → contains x (trim_right p s) ≡ true → contains x s ≡ true
unfolding trim_right
contains_of_trim_right p [] x h = h
contains_of_trim_right p (c ∷ s) x h =
    contains-trim_onto x p c (trim_right p s) s (has_prefix-trim_right p s)
      (contains_of_trim_right p s x) h

pub contains-trim_right :
    (p : ℕ → Bool) (s x : Text) → contains x s ≡ false → contains x (trim_right p s) ≡ false
contains-trim_right p s x h = elim (Bool-cases (contains x (trim_right p s))) [
  | inl e ↦ absurd (let k = contains_of_trim_right p s x e in cc)
  | inr e ↦ e
]

pub contains-trim_left :
    (p : ℕ → Bool) (s x : Text) → contains x s ≡ false → contains x (trim_left p s) ≡ false
unfolding trim_left contains
contains-trim_left p [] x h = h
contains-trim_left p (c ∷ s) x h = ground (arith, contains-trim_left p s x)
