-- ===== src/Strings/Replace.antt =====
-- What strings.ReplaceAll leaves behind.
use jconfig.Prelude.{
  ℕ, zero, suc, ◌-◌, Bool, true, false, not, [], ◌∷◌, ◌≡◌, inl, inr, refl, arith, all, all-append,
  length, ◌==◌, nat_equality, Bool-cases,
}
use jconfig.Strings.Basic.{Text, has_prefix, contains, replace_from, replace_all}

abbrev pub other_than : ℕ → ℕ → Bool
other_than b c = not (c == b)

-- A test that the text and the replacement pass holds of the result.
replace_from-all :
    (q : ℕ → Bool) (old new s : Text) (k : ℕ)
    → all q new ≡ true
    → all q s ≡ true
    → all q (replace_from old new s k) ≡ true
unfolding replace_from all
replace_from-all q old new [] k n h = refl
replace_from-all q old new (c ∷ s) (suc k) n h = replace_from-all q old new s k n (ground arith)
replace_from-all q old new (c ∷ s) zero n h = elim (Bool-cases (has_prefix old (c ∷ s))) [
  | inl found ↦
      rw (found, replace_from)
        (ground (
          arith,
          all-append q new (replace_from old new s (length old - 1)),
          replace_from-all q old new s (length old - 1) n,
        ))
  | inr absent ↦ rw (absent, replace_from) (ground (arith, replace_from-all q old new s 0 n))
]

pub replace_all-all :
    (q : ℕ → Bool) (s old new : Text)
    → all q new ≡ true
    → all q s ≡ true
    → all q (replace_all s old new) ≡ true
unfolding replace_all
replace_all-all q s old new = replace_from-all q old new s 0

-- Replacing one byte by a text without it removes it.
replace_from_byte :
    (b : ℕ) (new s : Text)
    → all (other_than b) new ≡ true
    → all (other_than b) (replace_from (b ∷ []) new s 0) ≡ true
unfolding replace_from has_prefix all
replace_from_byte b new [] n = refl
replace_from_byte b new (c ∷ s) n = ground (
  arith,
  all-append (other_than b) new (replace_from (b ∷ []) new s 0),
  replace_from_byte b new s n,
)

pub replace_all_byte :
    (b : ℕ) (s new : Text)
    → all (other_than b) new ≡ true
    → all (other_than b) (replace_all s (b ∷ []) new) ≡ true
unfolding replace_all
replace_all_byte b s new = replace_from_byte b new s

-- Nothing is replaced where the first byte of `old` does not occur.
replace_from_absent :
    (b : ℕ) (rest new s : Text) → all (other_than b) s ≡ true → replace_from (b ∷ rest) new s 0 ≡ s
unfolding replace_from has_prefix all
replace_from_absent b rest new [] h = refl
replace_from_absent b rest new (c ∷ s) h = ground (arith, replace_from_absent b rest new s)

pub replace_all_absent :
    (b : ℕ) (s rest new : Text) → all (other_than b) s ≡ true → replace_all s (b ∷ rest) new ≡ s
unfolding replace_all
replace_all_absent b s rest new = replace_from_absent b rest new s

abbrev pub twice : ℕ → Text
twice b = b ∷ b ∷ []

replace_from_other :
    (b d : ℕ) (new s : Text)
    → (d == b) ≡ false
    → replace_from (twice b) new (d ∷ s) 0 ≡ d ∷ replace_from (twice b) new s 0
unfolding replace_from has_prefix
replace_from_other b d new s h = ground arith

contains-cons_other :
    (b c : ℕ) (r : Text)
    → (c == b) ≡ false
    → contains (twice b) r ≡ false
    → contains (twice b) (c ∷ r) ≡ false
unfolding contains has_prefix
contains-cons_other b c r h k = ground arith

contains-cons_cons :
    (b c d : ℕ) (r : Text)
    → (d == b) ≡ false
    → contains (twice b) (d ∷ r) ≡ false
    → contains (twice b) (c ∷ d ∷ r) ≡ false
unfolding contains has_prefix
contains-cons_cons b c d r h k = ground arith

-- Replacing a doubled byte by another byte leaves no doubled one.
replace_from-twice :
    (b n : ℕ) (s : Text)
    → (n == b) ≡ false
    → contains (twice b) (replace_from (twice b) (n ∷ []) s 0) ≡ false
replace_from-twice b n [] h = unfold replace_from contains has_prefix in refl
replace_from-twice b n (c ∷ []) h = unfold replace_from contains has_prefix in ground arith
replace_from-twice b n (c ∷ d ∷ s) h = elim (Bool-cases (c == b)) [
  | inl e ↦ elim (Bool-cases (d == b)) [
    | inl e' ↦ rw (pair e e') (contains-cons_other b n _ h (replace_from-twice b n s h))
    | inr o ↦ rw (single e o) (
        contains-cons_cons b c d _ o
          (rw (replace_from_other b d (n ∷ []) s o) at (replace_from-twice b n (d ∷ s) h)))
  ]
  | inr o ↦
      rw (replace_from_other b c (n ∷ []) (d ∷ s) o)
        (contains-cons_other b c _ o (replace_from-twice b n (d ∷ s) h))
]
  where
    pair :
        (c == b) ≡ true
        → (d == b) ≡ true
        → replace_from (twice b) (n ∷ []) (c ∷ d ∷ s) 0 ≡ n ∷ replace_from (twice b) (n ∷ []) s 0
    pair e e' = unfold replace_from has_prefix in ground arith

    single :
        (c == b) ≡ true
        → (d == b) ≡ false
        → replace_from (twice b) (n ∷ []) (c ∷ d ∷ s) 0
          ≡ c ∷ d ∷ replace_from (twice b) (n ∷ []) s 0
    single e o = unfold replace_from has_prefix in ground arith

pub replace_all-twice :
    (b n : ℕ) (s : Text)
    → (n == b) ≡ false
    → contains (twice b) (replace_all s (twice b) (n ∷ [])) ≡ false
unfolding replace_all
replace_all-twice b n s = replace_from-twice b n s
