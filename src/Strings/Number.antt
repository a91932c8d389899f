-- ===== src/Strings/Number.antt =====
-- strconv.ParseInt(s, 10, 64), `none` for an error
use jconfig.Prelude.{
  ℕ, zero, suc, ◌+◌, ◌-◌, ◌*◌, Bool, true, false, ◌&&◌, [], ◌∷◌, ◌≡◌, refl, Option, none, some,
  ◌==◌, nat_equality, list_equality, ltb, leb, if◌then◌else◌,
}
use jconfig.Prelude.Int.{ℤ, pos, negsuc}
use jconfig.Strings.Basic.{Text}

-- The value of decimal digits after `n`.
unfoldable pub digits : ℕ → Text → Option ℕ
digits n [] = some n
digits n (c ∷ s) =
    let rest = digits (n * 10 + (c - 48)) s in if leb 48 c && leb c 57 then rest else none

-- The limits of int64.
abbrev pub in_range : Bool → Option ℕ → Option ℤ
in_range negative none = none
in_range true (some zero) = some (pos 0)
in_range true (some (suc n)) = if ltb n 9_223_372_036_854_775_808 then some (negsuc n) else none
in_range false (some n) = if ltb n 9_223_372_036_854_775_808 then some (pos n) else none

abbrev pub unsigned : Bool → Text → Option ℤ
unsigned negative [] = none
unsigned negative (c ∷ s) = in_range negative (digits 0 (c ∷ s))

unfoldable pub parse_int : Text → Option ℤ
unfolding digits
parse_int [] = none
parse_int (c ∷ s) =
    if c == b'-'
    then unsigned true s
    else if c == b'+'
    then unsigned false s
    else unsigned false (c ∷ s)

parse_int_tests :
    (parse_int (b'4' ∷ b'2' ∷ []) ≡ some (pos 42))
    × (parse_int (b'-' ∷ b'1' ∷ []) ≡ some (negsuc 0))
    × (parse_int (b'+' ∷ []) ≡ none)
unfolding parse_int
parse_int_tests = (refl, refl, refl)
