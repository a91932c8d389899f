-- ===== src/Config/Key.antt =====
-- internal/config/config.go: DecodeKey, the inline private key.
use jconfig.Prelude.{
  ℕ, Bool, not, ◌||◌, [], ◌++◌, keep, ◌==◌, nat_equality, list_equality, if◌then◌else◌,
}
use jconfig.Prelude.Answer.{Answer, good, bad}
use jconfig.Strings.Basic.{Text, codes, contains, has_suffix}
use jconfig.Strings.Space.{trim_space}
use jconfig.Config.Host.{Host}

unfoldable pub ensure_trailing_newline : Text → Text
unfolding has_suffix
ensure_trailing_newline s = if has_suffix s (codes "\n") then s else s ++ codes "\n"

abbrev is_payload_space : ℕ → Bool
is_payload_space c = c == b'\n' || c == b'\r' || c == b' ' || c == b'\t'

-- The replacer that drops the whitespace inside the payload.
unfoldable pub compact : Text → Text
unfolding keep
compact s = keep (λ c. not (is_payload_space c)) s

abbrev pub begin_mark : Text
begin_mark = codes "-----BEGIN"

abbrev pub decoded_key : Answer Text → Answer Text
decoded_key (bad e) = bad (codes "not a PEM block and not valid base64: " ++ e)
decoded_key (good decoded) =
    if not (contains begin_mark decoded)
    then bad (codes "decoded value is not a PEM private key")
    else good (ensure_trailing_newline decoded)

unfoldable pub decode_key : Host → Text → Answer Text
unfolding contains trim_space compact ensure_trailing_newline
decode_key host s =
    let trimmed = trim_space s in
    if trimmed == []
    then bad (codes "empty key")
    else if contains begin_mark trimmed
    then good (ensure_trailing_newline trimmed)
    else decoded_key (host.decode_base64 (compact trimmed))
