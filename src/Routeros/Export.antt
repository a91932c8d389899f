-- ===== src/Routeros/Export.antt =====
-- internal/routeros/routeros.go: logging in, the export commands, and what is kept of an export.
-- The regular expressions are written out as the walk that their match makes; strings.ToLower is
-- taken on ASCII.
use jconfig.Prelude.{
  ℕ, zero, suc, ◌+◌, Bool, true, false, not, ◌&&◌, ◌||◌, List, [], ◌∷◌, ◌++◌, map, Option, none,
  some, length, drop, ◌==◌, nat_equality, list_equality, leb, if◌then◌else◌,
}
use jconfig.Prelude.Answer.{Answer, good, bad}
use jconfig.Strings.Basic.{Text, codes, has_prefix, contains, split, join, replace_all}
use jconfig.Strings.Space.{trim_space}
use jconfig.Config.Vendors.{format_verbose, format_terse}
use jconfig.Junos.Xml.{to_lower}

unfoldable pub login : Text → Text
unfolding contains
login user = if contains (codes "+") user then user else user ++ codes "+ct"

abbrev format_flag : Text → Text
format_flag format =
    if format == format_verbose
    then codes " verbose"
    else if format == format_terse
    then codes " terse"
    else []

unfoldable pub export_command : Text → Bool → Text
export_command format sensitive =
    codes "/export" ++ (format_flag format ++ (if sensitive then codes " show-sensitive" else []))

-- The classes of the regular expressions: \s, \d, \w and [a-zA-Z]
abbrev pub is_re_space : ℕ → Bool
is_re_space c = c == 32 || c == 9 || c == 10 || c == 12 || c == 13

abbrev pub is_digit : ℕ → Bool
is_digit c = leb 48 c && leb c 57

abbrev pub is_letter : ℕ → Bool
is_letter c = (leb b'a' c && leb c b'z') || (leb b'A' c && leb c b'Z')

abbrev is_word : ℕ → Bool
is_word c = is_digit c || is_letter c || c == b'_'

-- What is left after the longest run of a class.
unfoldable pub skip_run : (ℕ → Bool) → Text → Text
skip_run p [] = []
skip_run p (c ∷ s) = if p c then skip_run p s else c ∷ s

-- One of a class, and a run of at least one.
abbrev pub one : (ℕ → Bool) → Text → Option Text
one p [] = none
one p (c ∷ s) = if p c then some s else none

abbrev pub run_of : (ℕ → Bool) → Text → Option Text
run_of p [] = none
run_of p (c ∷ s) = if p c then some (skip_run p s) else none

abbrev pub and_then : Option Text → (Text → Option Text) → Option Text
and_then none f = none
and_then (some s) f = f s

abbrev pub literal : Text → Text → Option Text
literal p s = if has_prefix p s then some (drop (length p) s) else none

-- \d{1,2}, \d{2} and \b after a word
abbrev pub one_or_two_digits : Text → Option Text
one_or_two_digits s =
    and_then (one is_digit s) (λ r. some (elim (one is_digit r) [ none ↦ r | some q ↦ q ]))

abbrev pub two_digits : Text → Option Text
two_digits s = and_then (one is_digit s) (one is_digit)

abbrev pub at_boundary : Text → Bool
at_boundary [] = true
at_boundary (c ∷ s) = not (is_word c)

-- bannerRE: ^#\s+\S+\s+\d{1,2}:\d{2}:\d{2}\s+by RouterOS\b. No class can take what the next needs.
unfoldable pub after_banner : Text → Option Text
unfolding skip_run has_prefix
after_banner s = and_then (literal (codes "#") s) (λ a. and_then (run_of is_re_space a) (λ b.
    and_then (run_of (λ c. not (is_re_space c)) b) (λ c. and_then (run_of is_re_space c) (λ d.
      and_then (one_or_two_digits d) (λ e. and_then (literal (codes ":") e) (λ f.
        and_then (two_digits f) (λ g. and_then (literal (codes ":") g) (λ h.
          and_then (two_digits h)
            (λ i. and_then (run_of is_re_space i) (literal (codes "by RouterOS")))))))))))

unfoldable pub is_banner : Text → Bool
unfolding after_banner
is_banner l = elim (after_banner l) [ none ↦ false | some rest ↦ at_boundary rest ]

-- ansiRE: \x1b\[[0-9;]*[a-zA-Z]; the bytes of a match at the front, 0 for none
unfoldable pub ansi_rest : Text → ℕ → ℕ
ansi_rest [] n = 0
ansi_rest (c ∷ s) n =
    let later = ansi_rest s (n + 1) in
    if is_digit c || c == b';' then later else if is_letter c then n + 1 else 0

unfoldable pub ansi_width : Text → ℕ
unfolding ansi_rest
ansi_width [] = 0
ansi_width (a ∷ []) = 0
ansi_width (a ∷ b ∷ s) = if a == 27 && b == b'[' then ansi_rest s 2 else 0

-- The rest of a text when the next `k` bytes belong to a match.
unfoldable pub strip_from : Text → ℕ → Text
unfolding ansi_width
strip_from [] k = []
strip_from (c ∷ s) (suc k) = strip_from s k
strip_from (c ∷ s) zero = elim (ansi_width (c ∷ s)) [
  | zero ↦ c ∷ strip_from s 0
  | suc w ↦ strip_from s w
]

unfoldable pub strip_ansi : Text → Text
unfolding strip_from
strip_ansi s = strip_from s 0

-- The dash in the message, in UTF-8.
abbrev em_dash : Text
em_dash = 0xE2 ∷ 0x80 ∷ 0x94 ∷ []

-- cliError: what one line that is not blank says.
unfoldable pub complaint : Text → Option Text
unfolding has_prefix contains
complaint line =
    let low = map to_lower line in
    if has_prefix (codes "bad command name") low
      || has_prefix (codes "expected end of command") low
      || has_prefix (codes "syntax error") low
      || has_prefix (codes "no such command") low
      || has_prefix (codes "invalid command") low
    then some line
    else if contains (codes "not enough permissions") low
    then some (
        line
        ++ (codes " (does the login's group have the read, ssh and "
            ++ (em_dash
                ++ (codes " for show_sensitive " ++ (em_dash ++ codes " sensitive policies?)")))))
    else none

unfoldable pub complaint_of : List Text → Option Text
unfolding trim_space complaint
complaint_of [] = some (codes "device returned no output")
complaint_of (l ∷ ls) = if trim_space l == [] then complaint_of ls else complaint (trim_space l)

unfoldable pub cli_error : Text → Option Text
unfolding complaint_of split
cli_error text = complaint_of (split b'\n' text)

-- The loop of parseExport over the lines.
unfoldable pub without_banners : List Text → List Text
unfolding is_banner
without_banners [] = []
without_banners (l ∷ ls) = let rest = without_banners ls in if is_banner l then rest else l ∷ rest

abbrev pub lines_of : Text → List Text
lines_of text = split b'\n' (replace_all text (codes "\r\n") (codes "\n"))

abbrev pub export_or : Option Text → Text → Answer Text
export_or (some e) text = bad e
export_or none text = good (join (codes "\n") (without_banners (lines_of text)))

unfoldable pub parse_export : Text → Answer Text
unfolding strip_ansi cli_error without_banners split join replace_all
parse_export out = let text = strip_ansi out in export_or (cli_error text) text
