-- ===== src/Routeros/Stable.antt =====
-- internal/routeros: the exports of a device that did not change.
use jconfig.Prelude.{
  ℕ, Bool, true, false, List, [], ◌∷◌, ◌++◌, ◌≡◌, refl, sym, ap, ◌∙◌, Option, none, some, arith,
  keep, all, All, all-append, ◌==◌, nat_equality, list_equality, if◌then◌else◌,
}
use jconfig.Prelude.Answer.{good}
use jconfig.Strings.Basic.{Text, codes, split, join}
use jconfig.Strings.Lines.{IsFree, split-append}
use jconfig.Strings.Replace.{other_than, replace_all_absent}
use jconfig.Config.Vendors.{supports}
use jconfig.Routeros.Export.{
  ansi_width, strip_from, strip_ansi, is_banner, without_banners, lines_of, cli_error, export_or,
  parse_export,
}
use jconfig.Routeros.Metadata.{key_line, keeps, filter_lines}

no_sequence : (c : ℕ) (s : Text) → (c == 27) ≡ false → ansi_width (c ∷ s) ≡ 0
unfolding ansi_width
no_sequence c [] h = refl
no_sequence c (d ∷ s) h = rw h refl

strip_from_plain : (s : Text) → IsFree 27 s → strip_from s 0 ≡ s
unfolding all strip_from
strip_from_plain [] h = refl
strip_from_plain (c ∷ s) h = one_more c s (ground arith) (strip_from_plain s (ground arith))
  where
    one_more :
        (c : ℕ) (s : Text) → (c == 27) ≡ false → strip_from s 0 ≡ s → strip_from (c ∷ s) 0 ≡ c ∷ s
    one_more c s h k = rw (no_sequence c s h, strip_from) (ap (λ r. c ∷ r) k)

-- Text without escapes and carriage returns.
abbrev pub IsPlain : Text → Type 0
IsPlain s = IsFree 27 s × IsFree 13 s

IsFree-line :
    (b : ℕ) (l rest : Text)
    → (b'\n' == b) ≡ false
    → IsFree b l
    → IsFree b rest
    → IsFree b (l ++ (b'\n' ∷ rest))
IsFree-line b l rest n h k =
    all-append (other_than b) l (b'\n' ∷ rest) ∙ (unfold all in ground arith)

good_inj : {a b : Text} → good a ≡ good b → a ≡ b
good_inj h = cc

lines_of_plain : (s : Text) → IsFree 13 s → lines_of s ≡ split b'\n' s
unfolding codes
lines_of_plain s h = ap (split b'\n') (replace_all_absent 13 s (codes "\n") (codes "\n") h)

without_first :
    (l : Text) (ls : List Text) → is_banner l ≡ true → without_banners (l ∷ ls) ≡ without_banners ls
unfolding without_banners
without_first l ls h = rw h refl

export_kept :
    (o : Option Text) (text c : Text)
    → export_or o text ≡ good c
    → c ≡ join (codes "\n") (without_banners (lines_of text))
export_kept (some e) text c h = absurd cc
export_kept none text c h = sym (good_inj h)

parse_plain :
    (text c : Text)
    → IsPlain text
    → parse_export text ≡ good c
    → c ≡ join (codes "\n") (without_banners (split b'\n' text))
unfolding parse_export strip_ansi
parse_plain text c (no_escape, no_return) h =
    let same = strip_from_plain text no_escape in
    let h' : export_or (cli_error text) text ≡ good c = rw same at h in
    export_kept (cli_error text) text c h'
    ∙ ap (λ ls. join (codes "\n") (without_banners ls)) (lines_of_plain text no_return)

-- What is kept of an export whose first line is a banner does not depend on the banner.
kept_of :
    (l rest c : Text)
    → is_banner l ≡ true
    → IsFree b'\n' l
    → IsPlain l
    → IsPlain rest
    → parse_export (l ++ (b'\n' ∷ rest)) ≡ good c
    → c ≡ join (codes "\n") (without_banners (split b'\n' rest))
kept_of l rest c banner line hl hr h =
    parse_plain (l ++ (b'\n' ∷ rest)) c
      (IsFree-line 27 l rest refl hl.0 hr.0, IsFree-line 13 l rest refl hl.1 hr.1) h
    ∙ ap (λ ls. join (codes "\n") (without_banners ls)) (split-append b'\n' l rest line)
    ∙ ap (join (codes "\n")) (without_first l (split b'\n' rest) banner)

-- Two exports without escapes and carriage returns that differ only in the banner of their first
-- line, as two fetches of an unchanged device do, are stored as the same text if both are accepted.
pub parse_export-same :
    (l m rest c d : Text)
    → is_banner l ≡ true
    → is_banner m ≡ true
    → IsFree b'\n' l
    → IsFree b'\n' m
    → IsPlain l
    → IsPlain m
    → IsPlain rest
    → parse_export (l ++ (b'\n' ∷ rest)) ≡ good c
    → parse_export (m ++ (b'\n' ∷ rest)) ≡ good d
    → c ≡ d
parse_export-same l m rest c d bl bm ll lm hl hm hr h k =
    kept_of l rest c bl ll hl hr h ∙ sym (kept_of m rest d bm lm hm hr k)

-- Whether a line is no key line, or one with a listed key.
abbrev pub IsListed : List Text → Option (Text × Text) → Type 0
IsListed keys none = Unit
IsListed keys (some (k, v)) = supports keys k ≡ true

IsListed-of :
    (keys : List Text) (keep : Bool) (l : Text) (o : Option (Text × Text))
    → keeps keys keep l o ≡ true
    → IsListed keys o
IsListed-of keys keep l none h = tt
IsListed-of keys keep l (some (k, v)) h = h

-- No line with a key that is not listed gets into the header.
pub filter_lines-IsListed :
    (keys : List Text) (keep : Bool) (ls : List Text)
    → All (λ l. IsListed keys (key_line l)) (filter_lines keys keep ls)
unfolding filter_lines
filter_lines-IsListed keys keep [] = tt
filter_lines-IsListed keys keep (l ∷ ls) =
    go (keeps keys keep l (key_line l)) refl
      (filter_lines-IsListed keys (keeps keys keep l (key_line l)) ls)
  where
    go :
        (b : Bool)
        → keeps keys keep l (key_line l) ≡ b
        → All
            (λ l. IsListed keys (key_line l))
            (filter_lines keys (keeps keys keep l (key_line l)) ls)
        → All
            (λ l. IsListed keys (key_line l))
            (if b
              then l ∷ filter_lines keys (keeps keys keep l (key_line l)) ls
              else filter_lines keys (keeps keys keep l (key_line l)) ls)
    go true e rest = (IsListed-of keys keep l (key_line l) e, rest)
    go false e rest = rest
