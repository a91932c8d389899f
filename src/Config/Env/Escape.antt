-- ===== src/Config/Env/Escape.antt =====
-- internal/config/config.go: expandEnv on a document whose "${" are all doubled.
use jconfig.Prelude.{
  ℕ, Bool, true, false, not, ◌&&◌, [], ◌∷◌, ◌++◌, ◌≡◌, ◌⊎◌, inl, inr, refl, ap, ◌∙◌, none, arith,
  all, ◌==◌, nat_equality, list_equality, Bool-cases, if◌then◌else◌,
}
use jconfig.Strings.Basic.{Text, codes, has_prefix, replace_from, replace_all}
use jconfig.Config.Host.{Host}
use jconfig.Config.Env.{nul, escape_mark, dollar_brace, match_reference, expand_from, expand_env}

-- Writing a text so that expandEnv leaves it: every "${" becomes "$${".
unfoldable pub escape : Text → Text
unfolding replace_all
escape s = replace_all s dollar_brace (codes "$${")

abbrev is_open : ℕ → ℕ → Bool
is_open c d = c == b'$' && d == b'{'

-- The text with every "${" replaced by `new`.
unfoldable marked : Text → Text → Text
marked new [] = []
marked new (c ∷ []) = c ∷ []
marked new (c ∷ d ∷ s) =
    let after = marked new s in
    let later = marked new (d ∷ s) in if is_open c d then new ++ after else c ∷ later

-- No byte of the text is the one that marks an escape.
abbrev pub IsFreeOfNul : Text → Type 0
IsFreeOfNul s = all (λ c. not (c == nul)) s ≡ true

open_parts : (c d : ℕ) → is_open c d ≡ true → (c ≡ b'$') × (d ≡ b'{')
open_parts c d h = ground arith

prefix_open : (c d : ℕ) (s : Text) → has_prefix dollar_brace (c ∷ d ∷ s) ≡ is_open c d
unfolding has_prefix codes
prefix_open c d s = ground arith

-- A byte at which no occurrence starts stays.
replace_from-skips :
    (old new : Text) (c : ℕ) (s : Text)
    → has_prefix old (c ∷ s) ≡ false
    → replace_from old new (c ∷ s) 0 ≡ c ∷ replace_from old new s 0
unfolding replace_from
replace_from-skips old new c s h = rw (h, replace_from) refl

replace_all-marked : (new s : Text) → replace_from dollar_brace new s 0 ≡ marked new s
unfolding replace_from marked has_prefix codes
replace_all-marked new [] = refl
replace_all-marked new (c ∷ []) = ground arith
replace_all-marked new (c ∷ d ∷ s) = elim (Bool-cases (is_open c d)) [
  | inl opened ↦
      let (dollar, brace) = open_parts c d opened in
      rw (dollar, brace) (ap (λ t. new ++ t) (replace_all-marked new s))
  | inr other ↦ rw other (
      replace_from-skips dollar_brace new c (d ∷ s) (prefix_open c d s ∙ other)
      ∙ ap (λ t. c ∷ t) (replace_all-marked new (d ∷ s)))
]

module _ (n : ℕ) (new : Text) (no_brace : (n == b'{') ≡ false) where
  marked_head :
      (d : ℕ) (s : Text)
      → (d == b'{') ≡ false
      → has_prefix (codes "{") (marked (n ∷ new) (d ∷ s)) ≡ false
  unfolding marked has_prefix codes
  marked_head d [] h = ground arith
  marked_head d (e ∷ s) h = ground arith

  unheaded :
      (c d : ℕ) (s : Text)
      → is_open c d ≡ false
      → ((d == b'{') ≡ true) ⊎ ((d == b'{') ≡ false)
      → has_prefix dollar_brace (c ∷ marked (n ∷ new) (d ∷ s)) ≡ false
  unfolding has_prefix codes
  unheaded c d s h (inl brace) = ground arith
  unheaded c d s h (inr other) = let head = marked_head d s other in ground arith

  -- No "${" stands at the front of what is marked.
  marked_unopened :
      (s : Text)
      → ((t : Text) → has_prefix dollar_brace ((n ∷ new) ++ t) ≡ false)
      → has_prefix dollar_brace (marked (n ∷ new) s) ≡ false
  unfolding marked has_prefix codes
  marked_unopened [] h = refl
  marked_unopened (c ∷ []) h = ground arith
  marked_unopened (c ∷ d ∷ s) h = elim (Bool-cases (is_open c d)) [
    | inl opened ↦ rw opened (h (marked (n ∷ new) s))
    | inr other ↦ rw other (unheaded c d s other (Bool-cases (d == b'{')))
  ]

-- The second replacement of the "${" that the first one left.
mark_twice :
    (s : Text)
    → replace_from (codes "$${") escape_mark (marked (codes "$${") s) 0 ≡ marked escape_mark s
unfolding replace_from marked has_prefix codes
mark_twice [] = refl
mark_twice (c ∷ []) = ground arith
mark_twice (c ∷ d ∷ s) = elim (Bool-cases (is_open c d)) [
  | inl opened ↦ rw opened (ap (λ t. escape_mark ++ t) (mark_twice s))
  | inr other ↦
      let later = marked_unopened b'$' (codes "${") refl (d ∷ s) (λ t. refl) in
      rw other (
        replace_from-skips (codes "$${") escape_mark c (marked (codes "$${") (d ∷ s)) (ground arith)
        ∙ ap (λ t. c ∷ t) (mark_twice (d ∷ s)))
]

no_reference : (s : Text) → has_prefix dollar_brace s ≡ false → match_reference s ≡ none
unfolding match_reference has_prefix codes
no_reference [] h = refl
no_reference (c ∷ []) h = refl
no_reference (c ∷ d ∷ s) h = ground arith

module _ (host : Host) where
  expand_skips :
      (c : ℕ) (s : Text)
      → has_prefix dollar_brace (c ∷ s) ≡ false
      → expand_from host (c ∷ s) 0 ≡ c ∷ expand_from host s 0
  unfolding expand_from
  expand_skips c s h = rw (no_reference (c ∷ s) h, expand_from) refl

  expand_passes :
      (p s : Text)
      → all (λ c. not (c == b'$')) p ≡ true
      → expand_from host (p ++ s) 0 ≡ p ++ expand_from host s 0
  unfolding all has_prefix codes
  expand_passes [] s h = refl
  expand_passes (c ∷ p) s h =
      expand_skips c (p ++ s) (ground arith) ∙ ap (λ t. c ∷ t) (expand_passes p s (ground arith))

  expand_marked : (s : Text) → expand_from host (marked escape_mark s) 0 ≡ marked escape_mark s
  unfolding marked expand_from has_prefix codes
  expand_marked [] = refl
  expand_marked (c ∷ []) = expand_skips c [] (ground arith)
  expand_marked (c ∷ d ∷ s) = elim (Bool-cases (is_open c d)) [
    | inl opened ↦ rw opened (
        expand_passes escape_mark (marked escape_mark s) (unfold all in refl)
        ∙ ap (λ t. escape_mark ++ t) (expand_marked s))
    | inr other ↦ rw other (
        expand_skips c (marked escape_mark (d ∷ s)) (
          unheaded nul (codes "JCONFIG_ESCAPED" ++ (nul ∷ [])) refl c d s other
            (Bool-cases (d == b'{')))
        ∙ ap (λ t. c ∷ t) (expand_marked (d ∷ s)))
  ]

nul_parts : (c : ℕ) (s : Text) → IsFreeOfNul (c ∷ s) → ((c == nul) ≡ false) × IsFreeOfNul s
unfolding all
nul_parts c s h = ground arith

no_mark : (c : ℕ) (s : Text) → (c == nul) ≡ false → has_prefix escape_mark (c ∷ s) ≡ false
unfolding has_prefix
no_mark c s h = ground arith

-- The marks are taken back, since the text holds none.
unmark :
    (s : Text) → IsFreeOfNul s → replace_from escape_mark dollar_brace (marked escape_mark s) 0 ≡ s
unfolding marked replace_from has_prefix codes all
unmark [] h = refl
unmark (c ∷ []) h = ground arith
unmark (c ∷ d ∷ s) h =
    let (other_byte, rest) = nul_parts c (d ∷ s) h in
    let (second, after) = nul_parts d s rest in
    elim (Bool-cases (is_open c d)) [
      | inl opened ↦
          let (dollar, brace) = open_parts c d opened in
          rw opened (ap (λ t. dollar_brace ++ t) (unmark s after) ∙ (rw (dollar, brace) refl))
      | inr other ↦ rw other (
          replace_from-skips escape_mark dollar_brace c (marked escape_mark (d ∷ s))
            (no_mark c (marked escape_mark (d ∷ s)) other_byte)
          ∙ ap (λ t. c ∷ t) (unmark (d ∷ s) rest))
    ]

-- A document in which every "${" is doubled to "$${" expands to the document itself, whatever the
-- environment, if it holds no NUL byte.
pub expand_env-escape : (host : Host) (s : Text) → IsFreeOfNul s → expand_env host (escape s) ≡ s
unfolding expand_env escape replace_all
expand_env-escape host s h =
    rw (replace_all-marked (codes "$${") s, mark_twice s, expand_marked host s) (unmark s h)
