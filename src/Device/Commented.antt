-- ===== src/Device/Commented.antt =====
-- The lines of the header block (Header, CommentBlock).
use jconfig.Prelude.{
  Bool, true, false, ◌&&◌, List, [], ◌∷◌, ◌++◌, ◌≡◌, inl, inr, refl, arith, all, All, ◌==◌,
  nat_equality, list_equality, Bool-cases,
}
use jconfig.Strings.Basic.{Text, codes, trim_onto, replace_all, trim_right, split}
use jconfig.Strings.Space.{trim_space}
use jconfig.Strings.Lines.{IsFree, split-IsFree}
use jconfig.Strings.Trim.{trim_right-all}
use jconfig.Device.Sanitize.{is_newline, is_blank}
use jconfig.Device.Result.{comment_line, comment_lines, comment_block, header_text}

-- Every line begins with "#" and a newline ends it; the flag says that a line begins here.
unfoldable pub commented : Bool → Text → Bool
commented true [] = true
commented true (c ∷ s) = c == b'#' && commented false s
commented false [] = false
commented false (c ∷ s) = commented (c == b'\n') s

commented-append :
    (start : Bool) (s t : Text)
    → commented start s ≡ true
    → commented true t ≡ true
    → commented start (s ++ t) ≡ true
unfolding commented
commented-append true [] t h k = k
commented-append false [] t h k = cc
commented-append true (c ∷ s) t h k = ground (arith, commented-append false s t)
commented-append false (c ∷ s) t h k = commented-append (c == b'\n') s t h k

commented_rest : (s : Text) → IsFree b'\n' s → commented false (s ++ (b'\n' ∷ [])) ≡ true
unfolding commented all
commented_rest [] h = refl
commented_rest (c ∷ s) h = ground (arith, commented_rest s)

trim_hash : (s : Text) → (t : Text) × (trim_right is_blank (b'#' ∷ s) ≡ b'#' ∷ t)
unfolding trim_right
trim_hash s = go (trim_right is_blank s)
  where
    go : (r : Text) → (t : Text) × (trim_onto is_blank b'#' r ≡ b'#' ∷ t)
    go [] = ([], refl)
    go (c ∷ r) = (c ∷ r, refl)

comment_line-commented : (l : Text) → IsFree b'\n' l → commented true (comment_line l) ≡ true
comment_line-commented l h =
    unfold codes in go (trim_hash (b' ' ∷ l)) (trim_right-all _ is_blank (b'#' ∷ b' ' ∷ l) free)
  where
    free : IsFree b'\n' (b'#' ∷ b' ' ∷ l)
    free = unfold all in ground arith

    go :
        ((t : Text) × (trim_right is_blank (b'#' ∷ b' ' ∷ l) ≡ b'#' ∷ t))
        → IsFree b'\n' (trim_right is_blank (b'#' ∷ b' ' ∷ l))
        → commented true (trim_right is_blank (b'#' ∷ b' ' ∷ l) ++ (b'\n' ∷ [])) ≡ true
    go (t, e) k = rw e (unfold commented in commented_rest t (unfold all in ground arith))

comment_lines-commented :
    (ls : List Text) → All (IsFree b'\n') ls → commented true (comment_lines ls) ≡ true
unfolding comment_lines
comment_lines-commented [] h = unfold commented in refl
comment_lines-commented (l ∷ ls) h =
    commented-append true (comment_line l) (comment_lines ls) (comment_line-commented l h.0)
      (comment_lines-commented ls h.1)

comment_block-commented : (s : Text) → commented true (comment_block s) ≡ true
unfolding comment_block
comment_block-commented s =
    let body = trim_right is_newline (replace_all s (codes "\r\n") (codes "\n")) in
    elim (Bool-cases (trim_space body == [])) [
      | inl e ↦ rw e (unfold commented in refl)
      | inr e ↦ rw e (comment_lines-commented (split b'\n' body) (split-IsFree b'\n' body))
    ]

-- The header is made of whole lines, each of which begins with "#", whatever the device printed.
pub header_text-commented : (blocks : List Text) → commented true (header_text blocks) ≡ true
unfolding header_text
header_text-commented [] = unfold commented in refl
header_text-commented (block ∷ blocks) =
    commented-append true (comment_block block) (header_text blocks) (comment_block-commented block)
      (header_text-commented blocks)
