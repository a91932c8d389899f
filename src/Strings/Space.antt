-- ===== src/Strings/Space.antt =====
-- strings.TrimSpace: white space as unicode.IsSpace defines it, in UTF-8, from either end.
use jconfig.Prelude.{
  ℕ, zero, suc, Bool, true, ◌&&◌, ◌||◌, [], ◌∷◌, ◌≡◌, refl, arith, all, all-append, ◌==◌,
  nat_equality, list_equality, leb, if◌then◌else◌,
}
use mathlib.Core.List.{reverse, reverse-append}
use jconfig.Strings.Basic.{Text}

-- One byte of white space: tab, newline, vertical tab, form feed, carriage return and space.
unfoldable pub is_ascii_space : ℕ → Bool
is_ascii_space c = c == 32 || (leb 9 c && leb c 13)

-- U+0085 and U+00A0
is_two_byte_space : ℕ → ℕ → Bool
is_two_byte_space a b = a == 0xC2 && (b == 0x85 || b == 0xA0)

-- U+1680, U+2000 to U+200A, U+2028, U+2029, U+202F, U+205F and U+3000
is_three_byte_space : ℕ → ℕ → ℕ → Bool
is_three_byte_space a b c =
    (a == 0xE1 && b == 0x9A && c == 0x80)
    || (a == 0xE2
        && b == 0x80
        && ((leb 0x80 c && leb c 0x8A) || c == 0xA8 || c == 0xA9 || c == 0xAF))
    || (a == 0xE2 && b == 0x81 && c == 0x9F)
    || (a == 0xE3 && b == 0x80 && c == 0x80)

-- The bytes of the white space at the front of a text, 0 for none; and of a reversed text.
unfoldable pub space_width : Text → ℕ
unfolding is_ascii_space is_two_byte_space is_three_byte_space
space_width [] = 0
space_width (a ∷ []) = if is_ascii_space a then 1 else 0
space_width (a ∷ b ∷ []) = if is_ascii_space a then 1 else if is_two_byte_space a b then 2 else 0
space_width (a ∷ b ∷ c ∷ s) =
    if is_ascii_space a
    then 1
    else if is_two_byte_space a b
    then 2
    else if is_three_byte_space a b c
    then 3
    else 0

unfoldable pub space_width_back : Text → ℕ
unfolding is_ascii_space is_two_byte_space is_three_byte_space
space_width_back [] = 0
space_width_back (a ∷ []) = if is_ascii_space a then 1 else 0
space_width_back (b ∷ a ∷ []) =
    if is_ascii_space b then 1 else if is_two_byte_space a b then 2 else 0
space_width_back (c ∷ b ∷ a ∷ s) =
    if is_ascii_space c
    then 1
    else if is_two_byte_space b c
    then 2
    else if is_three_byte_space a b c
    then 3
    else 0

-- Drops white space from the front, measured by `width`; `k` bytes of it are still to drop.
unfoldable pub drop_space : (Text → ℕ) → Text → ℕ → Text
drop_space width [] k = []
drop_space width (c ∷ s) (suc k) = drop_space width s k
drop_space width (c ∷ s) zero = elim (width (c ∷ s)) [ zero ↦ c ∷ s | suc w ↦ drop_space width s w ]

-- strings.TrimSpace(s)
unfoldable pub trim_space : Text → Text
unfolding drop_space space_width space_width_back
trim_space s = reverse (drop_space space_width_back (reverse (drop_space space_width s 0)) 0)

-- A test that the text passes holds of what is left.
drop_space-all :
    (q : ℕ → Bool) (width : Text → ℕ) (s : Text) (k : ℕ)
    → all q s ≡ true
    → all q (drop_space width s k) ≡ true
unfolding drop_space all
drop_space-all q width [] k h = refl
drop_space-all q width (c ∷ s) (suc k) h = drop_space-all q width s k (ground arith)
drop_space-all q width (c ∷ s) zero h =
    go (λ w. drop_space-all q width s w (ground arith)) (width (c ∷ s))
  where
    go :
        ((w : ℕ) → all q (drop_space width s w) ≡ true)
        → (w : ℕ) → all q (elim w [ zero ↦ c ∷ s | suc w' ↦ drop_space width s w' ]) ≡ true
    go rest zero = h
    go rest (suc w) = rest w

all-reverse : (q : ℕ → Bool) (s : Text) → all q s ≡ true → all q (reverse s) ≡ true
unfolding all
all-reverse q [] h = refl
all-reverse q (c ∷ s) h =
    rw (reverse-append (c ∷ []) s)
      (ground (arith, all-append q (reverse s) (c ∷ []), all-reverse q s))

pub trim_space-all : (q : ℕ → Bool) (s : Text) → all q s ≡ true → all q (trim_space s) ≡ true
unfolding trim_space
trim_space-all q s h =
    all-reverse q _
      (drop_space-all q space_width_back _ 0 (all-reverse q _ (drop_space-all q space_width s 0 h)))

trims :
    trim_space (32 ∷ 0xC2 ∷ 0xA0 ∷ 65 ∷ 32 ∷ 66 ∷ 0xE3 ∷ 0x80 ∷ 0x80 ∷ 10 ∷ []) ≡ 65 ∷ 32 ∷ 66 ∷ []
unfolding trim_space
trims = refl
