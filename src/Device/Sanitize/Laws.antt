-- ===== src/Device/Sanitize/Laws.antt =====
-- What Sanitize returns.
use jconfig.Prelude.{
  false, List, [], ◌∷◌, ◌++◌, ◌≡◌, ◌≢◌, ◌⊎◌, inl, inr, refl, ap, all, All, append-cons-ne-nil,
  nat_equality, list_equality, Bool-cases,
}
use jconfig.Strings.Basic.{Text, trim_onto, replace_all, trim_right, split, join}
use jconfig.Strings.Trim.{
  EndsOutside, EndsOutside-of_all, trim_right-EndsOutside, trim_right_of_EndsOutside,
  trim_right-all, trim_right-append, trim_append, trim_right_cons,
}
use jconfig.Strings.Replace.{replace_all_byte, replace_all_absent}
use jconfig.Strings.Lines.{IsFree, split-IsFree, split_all, join_cons}
use jconfig.Config.Types.{Matcher}
use jconfig.Device.Sanitize.{
  is_newline, is_blank, newline, normalise, matches_any, kept_lines, ended, sanitize,
}

-- A line that Sanitize lets through.
pub record IsCleanLine (remove : List Matcher) (l : Text) : Type 0 where
  pub one_line : IsFree b'\n' l
  pub no_return : IsFree b'\r' l
  pub no_trailing_blank : EndsOutside is_blank l
  pub not_removed : matches_any remove l ≡ false

-- A text of clean lines, not empty, whose last line is not empty.
pub record IsBody (remove : List Matcher) (body : Text) : Type 0 where
  pub first : Text
  pub others : List Text
  pub clean : All (IsCleanLine remove) (first ∷ others)
  pub joined : body ≡ join newline (first ∷ others)
  pub nonempty : body ≢ []

-- Nothing, or a body that a single newline ends.
abbrev pub IsTidy : List Matcher → Text → Type 0
IsTidy remove out =
    (out ≡ [])
    ⊎ ((body : Text) × IsBody remove body × EndsOutside is_newline body × (out ≡ body ++ newline))

normalise-IsFree : (s : Text) → IsFree b'\r' (normalise s)
unfolding normalise all
normalise-IsFree s = replace_all_byte b'\r' (replace_all s (b'\r' ∷ newline) newline) newline refl

pub normalise_of_IsFree : (s : Text) → IsFree b'\r' s → normalise s ≡ s
unfolding normalise
normalise_of_IsFree s h =
    rw (replace_all_absent b'\r' s newline newline h) (replace_all_absent b'\r' s [] newline h)

module _ (remove : List Matcher) where
  trimmed-IsCleanLine :
      (l : Text)
      → IsFree b'\n' l
      → IsFree b'\r' l
      → matches_any remove (trim_right is_blank l) ≡ false
      → IsCleanLine remove (trim_right is_blank l)
  trimmed-IsCleanLine l h k m = record {
    one_line = trim_right-all _ is_blank l h;
    no_return = trim_right-all _ is_blank l k;
    no_trailing_blank = trim_right-EndsOutside is_blank l;
    not_removed = m;
  }

  kept_lines-clean :
      (ls : List Text)
      → All (IsFree b'\n') ls
      → All (IsFree b'\r') ls
      → All (IsCleanLine remove) (kept_lines remove ls)
  unfolding kept_lines
  kept_lines-clean [] h k = tt
  kept_lines-clean (l ∷ ls) h k = elim (Bool-cases (matches_any remove (trim_right is_blank l))) [
    | inl e ↦ rw (e, kept_lines) (kept_lines-clean ls h.1 k.1)
    | inr e ↦ rw (e, kept_lines) (trimmed-IsCleanLine l h.0 k.0 e, kept_lines-clean ls h.1 k.1)
  ]

  pub kept_lines_of_clean :
      (ls rest : List Text)
      → All (IsCleanLine remove) ls
      → kept_lines remove (ls ++ rest) ≡ ls ++ kept_lines remove rest
  unfolding kept_lines
  kept_lines_of_clean [] rest h = refl
  kept_lines_of_clean (l ∷ ls) rest h =
      rw (trim_right_of_EndsOutside is_blank l h.0.no_trailing_blank, h.0.not_removed, kept_lines)
        (ap (◌∷◌ l) (kept_lines_of_clean ls rest h.1))

-- What trim_right makes of joined clean lines: nothing, or a body.
abbrev IsTrimmed : List Matcher → Text → Type 0
IsTrimmed remove t = (t ≡ []) ⊎ IsBody remove t

newline_free-EndsOutside : (l : Text) → IsFree b'\n' l → EndsOutside is_newline l
newline_free-EndsOutside l h = EndsOutside-of_all is_newline l h

module _ (remove : List Matcher) where
  trim-line : (l : Text) → IsCleanLine remove l → IsTrimmed remove (trim_right is_newline l)
  trim-line l h =
      rw (trim_right_of_EndsOutside is_newline l (newline_free-EndsOutside l h.one_line)) (go l h)
    where
      go : (k : Text) → IsCleanLine remove k → IsTrimmed remove k
      go [] h' = inl refl
      go (c ∷ k) h' = inr (record {
        first = c ∷ k;
        others = [];
        clean = (h', tt);
        joined = unfold join in refl;
        nonempty = cc;
      })

  IsBody-cons :
      (l r : Text) → IsCleanLine remove l → IsBody remove r → IsBody remove (l ++ (b'\n' ∷ r))
  IsBody-cons l r h b = record {
    first = l;
    others = b.first ∷ b.others;
    clean = (h, b.clean);
    joined = unfold join in ap (λ t. l ++ (b'\n' ∷ t)) b.joined;
    nonempty = λ e. append-cons-ne-nil l b'\n' r e;
  }

  trim_append-IsTrimmed :
      (l t : Text)
      → IsCleanLine remove l
      → IsTrimmed remove t
      → IsTrimmed remove (trim_append is_newline l (trim_onto is_newline b'\n' t))
  trim_append-IsTrimmed l [] h k = trim-line l h
  trim_append-IsTrimmed l (c ∷ t) h (inl e) = absurd (cc)
  trim_append-IsTrimmed l (c ∷ t) h (inr b) = inr (IsBody-cons l (c ∷ t) h b)

  trim-join :
      (ls : List Text)
      → All (IsCleanLine remove) ls
      → IsTrimmed remove (trim_right is_newline (join newline ls))
  trim-join [] h = inl (unfold join trim_right in refl)
  trim-join (l ∷ []) h = unfold join in trim-line l h.0
  trim-join (l ∷ m ∷ ls) h = rw (join_cons b'\n' l m ls) (
      rw (trim_right-append is_newline l (b'\n' ∷ join newline (m ∷ ls))) (
        rw (trim_right_cons is_newline b'\n' (join newline (m ∷ ls))) (
          trim_append-IsTrimmed l (trim_right is_newline (join newline (m ∷ ls))) h.0
            (trim-join (m ∷ ls) h.1))))

  ended-IsTidy :
      (t : Text) → EndsOutside is_newline t → IsTrimmed remove t → IsTidy remove (ended t)
  ended-IsTidy t n (inl e) = inl (rw e (unfold ended in refl))
  ended-IsTidy [] n (inr b) = absurd (b.nonempty refl)
  ended-IsTidy (c ∷ t) n (inr b) = inr (c ∷ t, b, n, unfold ended in refl)

-- Whatever a device sends and whatever the patterns are, the sanitised text is empty, or it is
-- a text of lines joined by newlines, the last of which is not empty, and one more newline. No
-- line holds a carriage return, ends in a blank, or is matched by a pattern.
pub sanitize-IsTidy : (s : Text) (remove : List Matcher) → IsTidy remove (sanitize s remove)
unfolding sanitize
sanitize-IsTidy s remove =
    let parts = split b'\n' (normalise s) in
    ended-IsTidy remove _
      (trim_right-EndsOutside is_newline (join newline (kept_lines remove parts)))
      (trim-join remove (kept_lines remove parts) (
        kept_lines-clean remove parts (split-IsFree b'\n' (normalise s))
          (split_all _ b'\n' (normalise s) (normalise-IsFree s))))
