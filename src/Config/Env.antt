-- ===== src/Config/Env.antt =====
-- internal/config/config.go: expandEnv, and reading the configuration's file.
pub mod Escape
use jconfig.Prelude.{
  ℕ, zero, suc, ◌+◌, ◌-◌, ◌*◌, ◌/◌, ◌%◌, ◌≤◌, ◌<◌, Bool, true, false, not, ◌&&◌, ◌||◌, List, [],
  ◌∷◌, ◌++◌, map, ◌≡◌, ◌≢◌, ◌↔◌, ◌⊎◌, inl, inr, refl, sym, ap, ◌∙◌, Option, none, some, is_some,
  arith, keep, any, all, All, all-append, All-append, All-map, length, take, drop, length-append,
  Equality, ◌==◌, nat_equality, list_equality, list_beq, text_eq, nat_beq, ltb, leb, Bool-cases,
  Option-cases, if◌then◌else◌,
}
use jconfig.Prelude.Answer.{Answer, good, bad}
use jconfig.Strings.Basic.{Text, codes, has_prefix, replace_all}
use jconfig.Strings.Format.{explain}
use jconfig.Config.Types.{Config}
use jconfig.Config.Host.{Host}
use jconfig.Config.Load.{Loaded, load}

-- What stands for an escaped "${" while references are replaced.
abbrev pub nul : ℕ
nul = 0

abbrev pub escape_mark : Text
escape_mark = nul ∷ (codes "JCONFIG_ESCAPED" ++ (nul ∷ []))

abbrev pub dollar_brace : Text
dollar_brace = codes "${"

abbrev pub is_name_start : ℕ → Bool
is_name_start c = (leb b'A' c && leb c b'Z') || (leb b'a' c && leb c b'z') || c == b'_'

abbrev pub is_name_byte : ℕ → Bool
is_name_byte c = is_name_start c || (leb b'0' c && leb c b'9')

-- A match of envRE: the variable's name, its default, which may be empty, and the match's length.
pub record Reference : Type 0 where
  pub name : Text
  pub default_value : Text
  pub size : ℕ

abbrev pub add_default : ℕ → Option Reference → Option Reference
add_default c none = none
add_default c (some r) = some (record r { default_value = c ∷ r.default_value; size = r.size + 1 })

-- The rest of a match from inside the default on.
unfoldable pub match_default : Text → Option Reference
match_default [] = none
match_default (c ∷ s) =
    let rest = match_default s in
    if c == b'}'
    then some (record { name = []; default_value = []; size = 1 })
    else add_default c rest

abbrev pub two_longer : Option Reference → Option Reference
two_longer none = none
two_longer (some r) = some (record r { size = r.size + 2 })

-- What may follow a name: the end, or ":-" and a default.
unfoldable pub match_tail : Text → Option Reference
unfolding match_default
match_tail [] = none
match_tail (c ∷ []) =
    if c == b'}' then some (record { name = []; default_value = []; size = 1 }) else none
match_tail (c ∷ d ∷ s) =
    if c == b'}'
    then some (record { name = []; default_value = []; size = 1 })
    else if c == b':' && d == b'-'
    then two_longer (match_default s)
    else none

abbrev pub add_name : ℕ → Option Reference → Option Reference
add_name c none = none
add_name c (some r) = some (record r { name = c ∷ r.name; size = r.size + 1 })

-- The rest of a match from inside the name on: the name goes as far as it can.
unfoldable pub match_name : Text → Option Reference
unfolding match_tail
match_name [] = none
match_name (c ∷ s) =
    let rest = match_name s in if is_name_byte c then add_name c rest else match_tail (c ∷ s)

unfoldable pub match_body : Text → Option Reference
unfolding match_name
match_body [] = none
match_body (c ∷ s) = if is_name_start c then add_name c (match_name s) else none

-- A match of envRE at the start of a text.
unfoldable pub match_reference : Text → Option Reference
unfolding match_body
match_reference [] = none
match_reference (c ∷ []) = none
match_reference (c ∷ d ∷ s) = if c == b'$' && d == b'{' then two_longer (match_body s) else none

abbrev pub non_empty_or : Text → Option Text → Text
non_empty_or def none = def
non_empty_or def (some v) = if v == [] then def else v

abbrev pub reference_value : Host → Reference → Text
reference_value host r = non_empty_or r.default_value (host.lookup_env r.name)

-- ReplaceAllStringFunc from a position on, when the next `k` bytes belong to a match.
unfoldable pub expand_from : Host → Text → ℕ → Text
unfolding match_reference
expand_from host [] k = []
expand_from host (c ∷ s) (suc k) = expand_from host s k
expand_from host (c ∷ s) zero = elim (match_reference (c ∷ s)) [
  | none ↦ c ∷ expand_from host s 0
  | some r ↦ reference_value host r ++ expand_from host s (r.size - 1)
]

-- expandEnv
unfoldable pub expand_env : Host → Text → Text
unfolding expand_from replace_all
expand_env host s =
    replace_all (expand_from host (replace_all s (codes "$${") escape_mark) 0) escape_mark
      dollar_brace

-- What comes of a configuration file: it cannot be read or decoded, or Load's verdict.
pub data FileLoaded : Type 0 where
  unreadable : Text → FileLoaded
  undecodable : Text → FileLoaded
  examined : Loaded → FileLoaded

module _ (host : Host) (read_file : Text → Answer Text) (decode : Text → Answer Config) where
  abbrev pub decoded : Text → Answer Config → FileLoaded
  decoded path (bad e) = undecodable (explain (codes "parse " ++ path) e)
  decoded path (good cfg) = examined (load host (record cfg { file_path = path }))

  abbrev pub file_read : Text → Answer Text → FileLoaded
  file_read path (bad e) = unreadable (explain (codes "read config") e)
  file_read path (good raw) = decoded path (decode (expand_env host raw))

  -- Load
  unfoldable pub load_from : Text → FileLoaded
  unfolding load expand_env
  load_from path = file_read path (read_file path)
