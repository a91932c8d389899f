-- ===== src/Strings/Trim.antt =====
-- What trimming leaves: its ends, and the properties that every part of a text inherits.
use jconfig.Prelude.{ℕ, Bool, true, false, [], ◌∷◌, ◌≡◌, refl, arith, all, ap, ◌∙◌, not, ◌++◌}
use jconfig.Strings.Basic.{Text, trim_onto, trim_right, trim_left}

-- The last byte of a text does not pass the test.
abbrev pub EndsOutside : (ℕ → Bool) → Text → Type 0
EndsOutside p [] = Unit
EndsOutside p (c ∷ []) = p c ≡ false
EndsOutside p (c ∷ d ∷ s) = EndsOutside p (d ∷ s)

abbrev pub StartsOutside : (ℕ → Bool) → Text → Type 0
StartsOutside p [] = Unit
StartsOutside p (c ∷ s) = p c ≡ false

trim_onto-EndsOutside :
    (p : ℕ → Bool) (c : ℕ) (r : Text) → EndsOutside p r → EndsOutside p (trim_onto p c r)
trim_onto-EndsOutside p c [] h = ground arith
trim_onto-EndsOutside p c (d ∷ r) h = h

pub trim_right-EndsOutside : (p : ℕ → Bool) (s : Text) → EndsOutside p (trim_right p s)
unfolding trim_right
trim_right-EndsOutside p [] = tt
trim_right-EndsOutside p (c ∷ s) =
    trim_onto-EndsOutside p c (trim_right p s) (trim_right-EndsOutside p s)

-- A text whose last byte is outside is left alone.
pub trim_right_of_EndsOutside : (p : ℕ → Bool) (s : Text) → EndsOutside p s → trim_right p s ≡ s
unfolding trim_right
trim_right_of_EndsOutside p [] h = refl
trim_right_of_EndsOutside p (c ∷ []) h = ground arith
trim_right_of_EndsOutside p (c ∷ d ∷ s) h = ground (arith, trim_right_of_EndsOutside p (d ∷ s) h)

pub trim_left-StartsOutside : (p : ℕ → Bool) (s : Text) → StartsOutside p (trim_left p s)
unfolding trim_left
trim_left-StartsOutside p [] = tt
trim_left-StartsOutside p (c ∷ s) = ground (arith, trim_left-StartsOutside p s)

pub trim_left-EndsOutside :
    (p q : ℕ → Bool) (s : Text) → EndsOutside q s → EndsOutside q (trim_left p s)
unfolding trim_left
trim_left-EndsOutside p q [] h = tt
trim_left-EndsOutside p q (c ∷ []) h = ground arith
trim_left-EndsOutside p q (c ∷ d ∷ s) h = ground (arith, trim_left-EndsOutside p q (d ∷ s) h)

trim_onto-all :
    (q p : ℕ → Bool) (c : ℕ) (r : Text)
    → q c ≡ true
    → all q r ≡ true
    → all q (trim_onto p c r) ≡ true
unfolding all
trim_onto-all q p c [] h k = ground arith
trim_onto-all q p c (d ∷ r) h k = ground arith

pub trim_right-all : (q p : ℕ → Bool) (s : Text) → all q s ≡ true → all q (trim_right p s) ≡ true
unfolding trim_right all
trim_right-all q p [] h = refl
trim_right-all q p (c ∷ s) h =
    trim_onto-all q p c (trim_right p s) (ground arith) (trim_right-all q p s (ground arith))

pub trim_left-all : (q p : ℕ → Bool) (s : Text) → all q s ≡ true → all q (trim_left p s) ≡ true
unfolding trim_left all
trim_left-all q p [] h = refl
trim_left-all q p (c ∷ s) h = ground (arith, trim_left-all q p s)

-- Trimming a text in two parts.
abbrev pub trim_append : (ℕ → Bool) → Text → Text → Text
trim_append p s [] = trim_right p s
trim_append p s (c ∷ r) = s ++ (c ∷ r)

trim_onto_append :
    (p : ℕ → Bool) (c : ℕ) (s r : Text)
    → trim_onto p c (trim_append p s r) ≡ trim_append p (c ∷ s) r
unfolding trim_right
trim_onto_append p c s [] = refl
trim_onto_append p c [] (d ∷ r) = refl
trim_onto_append p c (x ∷ s) (d ∷ r) = refl

pub trim_right_cons :
    (p : ℕ → Bool) (c : ℕ) (s : Text) → trim_right p (c ∷ s) ≡ trim_onto p c (trim_right p s)
unfolding trim_right
trim_right_cons p c s = refl

pub trim_right-append :
    (p : ℕ → Bool) (s t : Text) → trim_right p (s ++ t) ≡ trim_append p s (trim_right p t)
trim_right-append p [] t = go (trim_right p t)
  where
    go : (r : Text) → r ≡ trim_append p [] r
    go [] = unfold trim_right in refl
    go (c ∷ r) = refl
trim_right-append p (c ∷ s) t =
    trim_right_cons p c (s ++ t)
    ∙ ap (trim_onto p c) (trim_right-append p s t)
    ∙ trim_onto_append p c s (trim_right p t)

pub EndsOutside-of_all : (p : ℕ → Bool) (s : Text) → all (λ c. not (p c)) s ≡ true → EndsOutside p s
unfolding all
EndsOutside-of_all p [] h = tt
EndsOutside-of_all p (c ∷ []) h = ground arith
EndsOutside-of_all p (c ∷ d ∷ s) h = EndsOutside-of_all p (d ∷ s) (ground arith)
