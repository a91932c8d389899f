-- ===== src/Config/Duration.antt =====
-- internal/config/duration.go: a duration as it stands in the document.
use jconfig.Prelude.{
  ℕ, ◌+◌, ◌-◌, ◌*◌, ◌/◌, ◌%◌, [], ◌∷◌, ◌++◌, ◌≡◌, ◌↔◌, ◌⊎◌, inl, inr, refl, Option, none, some,
  arith, ◌==◌, nat_equality, list_equality, list_beq, ltb, Bool-cases, if◌then◌else◌,
}
use jconfig.Prelude.Answer.{Answer, good, bad}
use jconfig.Prelude.Int.{ℤ, pos, negsuc, ◌≤ℤ◌, ◌+ℤ◌}
use jconfig.Strings.Basic.{Text, codes}
use jconfig.Strings.Decimal.{decimal}
use jconfig.Strings.Number.{parse_int}
use jconfig.Strings.Format.{quoted}
use jconfig.Config.Types.{Duration, second}

abbrev pub int64_limit : ℕ
int64_limit = 9_223_372_036_854_775_808

abbrev pub int64_size : ℕ
int64_size = 18_446_744_073_709_551_616

-- The int64 with the low 64 bits of a number.
abbrev pub of_bits : ℕ → ℤ
of_bits n = if ltb n int64_limit then pos n else negsuc (int64_size - n - 1)

unfoldable pub wrap_int64 : ℤ → ℤ
wrap_int64 (pos n) = of_bits (n % int64_size)
wrap_int64 (negsuc n) = of_bits (int64_size - 1 - n % int64_size)

-- time.Duration(secs) * time.Second, before it wraps around
abbrev pub in_nanoseconds : ℤ → ℤ
in_nanoseconds (pos n) = pos (n * second)
in_nanoseconds (negsuc n) = negsuc (n * second + (second - 1))

abbrev pub line_text : ℕ → Text
line_text line = codes "line " ++ (decimal line ++ codes ": ")

abbrev pub invalid_duration : ℕ → Text → Text
invalid_duration line s =
    line_text line
    ++ (codes "invalid duration "
        ++ (quoted s ++ codes ": want a value like \"15m\", \"2h30m\" or a number of seconds"))

abbrev pub bare_seconds : ℕ → Text → Option ℤ → Answer Duration
bare_seconds line s none = bad (invalid_duration line s)
bare_seconds line s (some secs) = good (wrap_int64 (in_nanoseconds secs))

abbrev pub duration_or : ℕ → Text → Option ℤ → Answer Duration
duration_or line s (some d) = good d
duration_or line s none = bare_seconds line s (parse_int s)

-- `parse_duration` is time.ParseDuration; a node that is no string has no text.
module _ (parse_duration : Text → Option ℤ) where
  -- UnmarshalYAML
  unfoldable pub unmarshal_duration : ℕ → Option Text → Answer Duration
  unfolding parse_int wrap_int64 decimal
  unmarshal_duration line none =
      bad (line_text line ++ codes "duration must be a string like \"15m\"")
  unmarshal_duration line (some s) =
      if s == [] then good (pos 0) else duration_or line s (parse_duration s)

-- The seconds whose nanoseconds an int64 holds.
abbrev pub IsShort : ℤ → Type 0
IsShort secs = (negsuc 9_223_372_035 ≤ℤ secs) × (secs ≤ℤ pos 9_223_372_036)

wrap_short : (secs : ℤ) → IsShort secs → wrap_int64 (in_nanoseconds secs) ≡ in_nanoseconds secs
unfolding wrap_int64
wrap_short (pos n) h = ground arith
wrap_short (negsuc n) h = ground arith

wrap_long : (secs : ℤ) → wrap_int64 (in_nanoseconds secs) ≡ in_nanoseconds secs → IsShort secs
unfolding wrap_int64
wrap_long (pos n) h = ground arith
wrap_long (negsuc n) h = ground arith

read_bare :
    (parse_duration : Text → Option ℤ) (line : ℕ) (s : Text) (secs : ℤ)
    → parse_duration s ≡ none
    → parse_int s ≡ some secs
    → unmarshal_duration parse_duration line (some s) ≡ good (wrap_int64 (in_nanoseconds secs))
unfolding unmarshal_duration list_beq
read_bare parse_duration line [] secs h k = absurd cc
read_bare parse_duration line (c ∷ s) secs h k = rw (h, k) refl

-- An integer that an int64 holds.
abbrev pub InInt64 : ℤ → Type 0
InInt64 x = (negsuc 9_223_372_036_854_775_807 ≤ℤ x) × (x ≤ℤ pos 9_223_372_036_854_775_807)

-- Two integers that differ by a multiple of 2 ^ 64.
abbrev pub IsCongruent : ℤ → ℤ → Type 0
IsCongruent x y = (k : ℕ) × ((x +ℤ pos (k * int64_size) ≡ y) ⊎ (y +ℤ pos (k * int64_size) ≡ x))

wrap-InInt64 : (x : ℤ) → InInt64 (wrap_int64 x)
unfolding wrap_int64
wrap-InInt64 (pos n) = ground arith
wrap-InInt64 (negsuc n) = ground arith

wrap-IsCongruent : (x : ℤ) → IsCongruent (wrap_int64 x) x
unfolding wrap_int64 ◌+ℤ◌
wrap-IsCongruent (pos n) = elim (Bool-cases (ltb (n % int64_size) int64_limit)) [
  | inl low ↦ (n / int64_size, inl (ground arith))
  | inr high ↦ (n / int64_size + 1, inl (ground arith))
]
wrap-IsCongruent (negsuc n) =
    elim (Bool-cases (ltb (int64_size - 1 - n % int64_size) int64_limit)) [
      | inl low ↦ (n / int64_size + 1, inr (ground arith))
      | inr high ↦ (n / int64_size, inr (ground arith))
    ]

-- A bare number of seconds, which time.ParseDuration does not read, is always accepted: the duration
-- is the one an int64 holds that differs from so many seconds by a multiple of 2 ^ 64 nanoseconds. It
-- is exactly so many seconds if and only if their nanoseconds fit into an int64.
pub unmarshal_duration-exact :
    (parse_duration : Text → Option ℤ) (line : ℕ) (s : Text) (secs : ℤ)
    → parse_duration s ≡ none
    → parse_int s ≡ some secs
    → (d : Duration) × (unmarshal_duration parse_duration line (some s) ≡ good d)
      × InInt64 d
      × IsCongruent d (in_nanoseconds secs)
      × ((d ≡ in_nanoseconds secs) ↔ IsShort secs)
unmarshal_duration-exact parse_duration line s secs h k = (
  wrap_int64 (in_nanoseconds secs),
  read_bare parse_duration line s secs h k,
  wrap-InInt64 (in_nanoseconds secs),
  wrap-IsCongruent (in_nanoseconds secs),
  (wrap_long secs, wrap_short secs),
)
