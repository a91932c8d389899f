-- ===== src/Prelude/Time.antt =====
-- Instants and durations in nanoseconds: package time.
use Prim.Native.Nat.{◌/◌}
use mathlib.Core.Bool.{Bool}
use jconfig.Prelude.Int.{ℤ, pos, negsuc, ltb_ℤ, int_equality}
use jconfig.Prelude.Eq.{◌==◌}

-- Nanoseconds since the Unix epoch.
abbrev pub Time : Type 0
Time = ℤ

abbrev pub Duration : Type 0
Duration = ℤ

-- The zero value of time.Time: the first instant of the year 1.
abbrev pub zero_time : Time
zero_time = negsuc 62_135_596_799_999_999_999

-- t.IsZero()
unfoldable pub is_zero : Time → Bool
is_zero t = t == zero_time

-- t.Unix(): whole seconds, rounded down
unfoldable pub unix : Time → ℤ
unix (pos n) = pos (n / 1_000_000_000)
unix (negsuc n) = negsuc (n / 1_000_000_000)

-- t.After(u)
abbrev pub after : Time → Time → Bool
after t u = ltb_ℤ u t
