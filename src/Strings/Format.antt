-- ===== src/Strings/Format.antt =====
-- What the program asks of package fmt.
use jconfig.Prelude.{◌∷◌, ◌++◌, nat_equality, list_equality}
use jconfig.Strings.Basic.{Text, codes}

-- fmt.Errorf("what: %w", err)
abbrev pub explain : Text → Text → Text
explain what e = what ++ (codes ": " ++ e)

-- fmt's %q of a text that needs no escapes
abbrev pub quoted : Text → Text
quoted s = b'"' ∷ (s ++ codes "\"")
