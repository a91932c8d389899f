-- ===== src/Runner/Names/Safe.antt =====
-- Sanitised names as path components.
use jconfig.Prelude.{ℕ, Bool, true, false, [], ◌∷◌, ◌≡◌, refl, all, nat_equality, list_equality}
use jconfig.Strings.Basic.{Text, contains, replace_all, trim_right, trim}
use jconfig.Strings.Space.{trim_space}
use jconfig.Strings.Trim.{
  StartsOutside, EndsOutside, trim_left-StartsOutside, trim_right-EndsOutside,
  trim_left-EndsOutside, trim_left-all, trim_right-all,
}
use jconfig.Strings.Replace.{other_than, replace_all-all, replace_all_byte, replace_all-twice}
use jconfig.Strings.Path.{contains-trim_right, contains-trim_left}
use jconfig.Strings.Lines.{IsFree}
use jconfig.Runner.Names.{dots, underscore, is_dot_or_space, sanitize_name}

-- One component of a path: no separator, no "..", and neither end a dot or a space.
pub record IsComponent (s : Text) : Type 0 where
  pub no_slash : IsFree b'/' s
  pub no_backslash : IsFree b'\\' s
  pub no_dots : contains dots s ≡ false
  pub starts : StartsOutside is_dot_or_space s
  pub ends : EndsOutside is_dot_or_space s

trimmed_all : (q p : ℕ → Bool) (s : Text) → all q s ≡ true → all q (trim p s) ≡ true
unfolding trim
trimmed_all q p s h = trim_left-all q p (trim_right p s) (trim_right-all q p s h)

-- Every sanitised name is a single path component: it holds no slash, no backslash and no "..",
-- and it begins and ends with neither a dot nor a space. It may be empty.
pub sanitize_name-IsComponent : (s : Text) → IsComponent (sanitize_name s)
unfolding sanitize_name
sanitize_name-IsComponent s = record {
  no_slash = trimmed_all _ _ _ (
      replace_all-all (other_than b'/') no_backslash dots underscore (unfold all in refl) (
        replace_all-all (other_than b'/') no_slash (b'\\' ∷ []) underscore (unfold all in refl)
          (replace_all_byte b'/' trimmed underscore (unfold all in refl))));
  no_backslash = trimmed_all _ _ _ (
      replace_all-all (other_than b'\\') no_backslash dots underscore (unfold all in refl)
        (replace_all_byte b'\\' no_slash underscore (unfold all in refl)));
  no_dots =
      unfold trim in
      contains-trim_left is_dot_or_space _ dots (
        contains-trim_right is_dot_or_space clean dots
          (replace_all-twice b'.' b'_' no_backslash refl));
  starts =
      unfold trim in trim_left-StartsOutside is_dot_or_space (trim_right is_dot_or_space clean);
  ends =
      unfold trim in
      trim_left-EndsOutside is_dot_or_space is_dot_or_space (trim_right is_dot_or_space clean)
        (trim_right-EndsOutside is_dot_or_space clean);
}
  where
    trimmed : Text
    trimmed = trim_space s

    no_slash : Text
    no_slash = replace_all trimmed (b'/' ∷ []) underscore

    no_backslash : Text
    no_backslash = replace_all no_slash (b'\\' ∷ []) underscore

    clean : Text
    clean = replace_all no_backslash dots underscore
