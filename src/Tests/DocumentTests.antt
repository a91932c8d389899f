-- ===== src/Tests/DocumentTests.antt =====
-- internal/config: the environment and the durations of a document.
use jconfig.Prelude.{
  [], ◌≡◌, ◌↔◌, refl, Option, none, some, all, ◌==◌, nat_equality, list_equality, list_beq,
  if◌then◌else◌,
}
use jconfig.Prelude.Int.{ℤ, pos, negsuc}
use jconfig.Prelude.Answer.{good, bad}
use jconfig.Strings.Basic.{Text, codes}
use jconfig.Strings.Number.{parse_int}
use jconfig.Config.Host.{Host}
use jconfig.Config.Env.{expand_env}
use jconfig.Config.Env.Escape.{escape, expand_env-escape}
use jconfig.Config.Types.{Duration}
use jconfig.Config.Duration.{
  InInt64, IsCongruent, in_nanoseconds, IsShort, unmarshal_duration, unmarshal_duration-exact,
}

abbrev shell : Host
shell = record {
  home_dir = none;
  account_home = none;
  lookup_env = λ name. if name == codes "USER" then some (codes "ann") else none;
  stat = λ p. good [];
  compile = λ p. bad [];
  decode_base64 = λ s. bad [];
}

expand_env_runs :
    expand_env shell (codes "u: ${USER} h: ${HOST:-a:-b} $${X} ${1} ${")
    ≡ codes "u: ann h: a:-b ${X} ${1} ${"
unfolding expand_env codes list_beq
expand_env_runs = refl

abbrev secret : Text
secret = codes "password: a${USER}$${"

expand_env-escape_example : expand_env shell (escape secret) ≡ secret
expand_env-escape_example = expand_env-escape shell secret (unfold all codes in refl)

abbrev no_unit : Text → Option ℤ
no_unit s = none

abbrev centuries : Text
centuries = codes "9223372037"

-- Three hundred years in seconds are a negative duration.
wraps_around :
    unmarshal_duration no_unit 1 (some centuries) ≡ good (negsuc 9_223_372_036_709_551_615)
unfolding unmarshal_duration codes list_beq
wraps_around = refl

unmarshal_duration-exact_example :
    (d : Duration) × (unmarshal_duration no_unit 1 (some centuries) ≡ good d)
    × InInt64 d
    × IsCongruent d (in_nanoseconds (pos 9_223_372_037))
    × ((d ≡ in_nanoseconds (pos 9_223_372_037)) ↔ IsShort (pos 9_223_372_037))
unmarshal_duration-exact_example =
    unmarshal_duration-exact no_unit 1 centuries (pos 9_223_372_037) refl
      (unfold parse_int codes in refl)
