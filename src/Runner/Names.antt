-- ===== src/Runner/Names.antt =====
-- internal/runner/runner.go: where a device's configuration lives in the repository.
pub mod Safe
pub mod Files
use jconfig.Prelude.{
  ℕ, ◌+◌, ◌/◌, Bool, ◌||◌, [], ◌∷◌, ◌++◌, arith, ◌==◌, nat_equality, list_equality, if◌then◌else◌,
}
use jconfig.Strings.Basic.{Text, codes, replace_all, trim}
use jconfig.Strings.Space.{trim_space}
use jconfig.Config.Types.{Device}
use jconfig.Config.Vendors.{extension}

abbrev pub dots : Text
dots = b'.' ∷ b'.' ∷ []

abbrev pub underscore : Text
underscore = b'_' ∷ []

-- The cutset ". "
abbrev pub is_dot_or_space : ℕ → Bool
is_dot_or_space c = c == b'.' || c == b' '

unfoldable pub sanitize_name : Text → Text
sanitize_name s =
    let trimmed = trim_space s in
    let no_slash = replace_all trimmed (b'/' ∷ []) underscore in
    let no_backslash = replace_all no_slash (b'\\' ∷ []) underscore in
    trim is_dot_or_space (replace_all no_backslash dots underscore)

abbrev pub or_ungrouped : Text → Text
or_ungrouped group = if group == [] then codes "ungrouped" else group

unfoldable pub repo_path : Text → Device → Text → Text
unfolding sanitize_name
repo_path layout d format =
    let name = sanitize_name d.name ++ extension d.vendor format in
    if layout == codes "group" then or_ungrouped (sanitize_name d.group) ++ (b'/' ∷ name) else name
