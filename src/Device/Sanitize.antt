-- ===== src/Device/Sanitize.antt =====
-- Sanitize: line endings, remove_lines, and a single newline at the end.
pub mod Laws
pub mod Stable
use jconfig.Prelude.{
  ℕ, ◌+◌, Bool, ◌||◌, List, [], ◌∷◌, ◌++◌, arith, any, ◌==◌, nat_equality, list_equality,
  if◌then◌else◌,
}
use jconfig.Strings.Basic.{Text, codes, replace_all, trim_right, split, join}
use jconfig.Config.Types.{Matcher}

abbrev pub is_newline : ℕ → Bool
is_newline c = c == b'\n'

abbrev pub is_blank : ℕ → Bool
is_blank c = c == b' ' || c == b'\t'

abbrev pub newline : Text
newline = b'\n' ∷ []

unfoldable pub normalise : Text → Text
normalise s = replace_all (replace_all s (b'\r' ∷ newline) newline) (b'\r' ∷ []) newline

-- The inner loop over the patterns: a line that one of them matches is dropped.
unfoldable pub matches_any : List Matcher → Text → Bool
unfolding any
matches_any remove l = any (λ re. re l) remove

-- The outer loop over the lines.
unfoldable pub kept_lines : List Matcher → List Text → List Text
unfolding matches_any
kept_lines remove [] = []
kept_lines remove (l ∷ ls) =
    let rest = kept_lines remove ls in
    let line = trim_right is_blank l in if matches_any remove line then rest else line ∷ rest

unfoldable pub ended : Text → Text
ended [] = []
ended (c ∷ s) = (c ∷ s) ++ newline

unfoldable pub sanitize : Text → List Matcher → Text
unfolding normalise kept_lines ended
sanitize s remove =
    let out = kept_lines remove (split b'\n' (normalise s)) in
    ended (trim_right is_newline (join newline out))
