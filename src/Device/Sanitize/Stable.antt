-- ===== src/Device/Sanitize/Stable.antt =====
-- Sanitize, on its own results.
use jconfig.Prelude.{
  true, false, List, [], ◌∷◌, ◌++◌, ◌≡◌, ◌≢◌, inl, inr, refl, ◌∙◌, arith, all, All, all-append,
  All-map, all_cons, nat_equality, list_equality, Bool-cases,
}
use mathlib.Core.List.{append-nil}
use jconfig.Strings.Basic.{Text, replace_all, trim_right, split, join}
use jconfig.Strings.Trim.{EndsOutside, trim_right_of_EndsOutside, trim_right-append}
use jconfig.Strings.Replace.{other_than}
use jconfig.Strings.Lines.{IsFree, split-join_ended, join_concat_nil}
use jconfig.Config.Types.{Matcher}
use jconfig.Device.Sanitize.{is_newline, newline, matches_any, kept_lines, ended, sanitize}
use jconfig.Device.Sanitize.Laws.{
  IsCleanLine, IsBody, IsTidy, normalise_of_IsFree, kept_lines_of_clean, sanitize-IsTidy,
}

trim_right-newline : (s : Text) → trim_right is_newline (s ++ newline) ≡ trim_right is_newline s
trim_right-newline s = rw (trim_right-append is_newline s newline) (unfold trim_right in refl)

module _ (remove : List Matcher) where
  body-no_return :
      (l : Text) (ls : List Text)
      → All (IsCleanLine remove) (l ∷ ls)
      → IsFree b'\r' (join newline (l ∷ ls))
  unfolding join
  body-no_return l [] h = h.0.no_return
  body-no_return l (m ∷ ls) h = ground (
    arith,
    all-append (other_than b'\r') l (b'\n' ∷ join newline (m ∷ ls)),
    h.0.no_return,
    body-no_return m ls h.1,
    all_cons (other_than b'\r') b'\n' (join newline (m ∷ ls)),
  )

  -- The last part of the split is empty. A pattern may drop it, and the newline comes back.
  last_part :
      (l : Text) (ls : List Text)
      → EndsOutside is_newline (join newline (l ∷ ls))
      → trim_right is_newline (join newline ((l ∷ ls) ++ kept_lines remove ([] ∷ [])))
        ≡ join newline (l ∷ ls)
  last_part l ls n = elim (Bool-cases (matches_any remove [])) [
    | inl e ↦
        rw (kept_last_none e) (rw (append-nil (l ∷ ls)) (trim_right_of_EndsOutside is_newline _ n))
    | inr e ↦ rw (kept_last e) (
        rw (join_concat_nil b'\n' l ls) (
          trim_right-newline (join newline (l ∷ ls))
          ∙ trim_right_of_EndsOutside is_newline (join newline (l ∷ ls)) n))
  ]
    where
      kept_last_none : matches_any remove [] ≡ true → kept_lines remove ([] ∷ []) ≡ []
      kept_last_none e = unfold kept_lines trim_right in ground arith

      kept_last : matches_any remove [] ≡ false → kept_lines remove ([] ∷ []) ≡ [] ∷ []
      kept_last e = unfold kept_lines trim_right in ground arith

  ended_of_nonempty : (t : Text) → t ≢ [] → ended t ≡ t ++ newline
  unfolding ended
  ended_of_nonempty [] h = absurd (h refl)
  ended_of_nonempty (c ∷ t) h = refl

  sanitize-ended :
      (l : Text) (ls : List Text)
      → All (IsCleanLine remove) (l ∷ ls)
      → EndsOutside is_newline (join newline (l ∷ ls))
      → join newline (l ∷ ls) ≢ []
      → sanitize (join newline (l ∷ ls) ++ newline) remove ≡ join newline (l ∷ ls) ++ newline
  unfolding sanitize
  sanitize-ended l ls h n k =
      let free = All-map (λ x c. c.one_line) (l ∷ ls) h in
      rw (normalise_of_IsFree (join newline (l ∷ ls) ++ newline) no_return) (
        rw (split-join_ended b'\n' l ls free) (
          rw (kept_lines_of_clean remove (l ∷ ls) ([] ∷ []) h)
            (rw (last_part l ls n) (ended_of_nonempty (join newline (l ∷ ls)) k))))
    where
      no_return : IsFree b'\r' (join newline (l ∷ ls) ++ newline)
      no_return =
          rw (all-append (other_than b'\r') (join newline (l ∷ ls)) newline)
            (rw (body-no_return l ls h) (unfold all in refl))

-- Sanitising a sanitised text, with the same patterns, changes nothing: a configuration that
-- differs in line endings, trailing blanks and trailing empty lines only is not a change.
pub sanitize_idem :
    (s : Text) (remove : List Matcher) → sanitize (sanitize s remove) remove ≡ sanitize s remove
sanitize_idem s remove = tidy_fixed (sanitize s remove) (sanitize-IsTidy s remove)
  where
    body_fixed :
        (body : Text)
        → IsBody remove body
        → EndsOutside is_newline body
        → sanitize (body ++ newline) remove ≡ body ++ newline
    body_fixed body b n = rw b.joined (
        sanitize-ended remove b.first b.others b.clean (rw b.joined at n)
          (λ e. b.nonempty (b.joined ∙ e)))

    tidy_fixed : (t : Text) → IsTidy remove t → sanitize t remove ≡ t
    tidy_fixed t (inl e) = rw e (unfold sanitize split trim_right join replace_all in ground arith)
    tidy_fixed t (inr (body, b, n, e)) = rw e (body_fixed body b n)
