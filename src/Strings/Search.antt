-- ===== src/Strings/Search.antt =====
-- Searching: what a search of a text says of a search of a longer one.
use jconfig.Prelude.{
  ℕ, zero, suc, ◌+◌, ◌≤◌, true, false, [], ◌∷◌, ◌++◌, ◌≡◌, inl, inr, refl, sym, ap, ◌∙◌, Option,
  none, some, arith, length, drop, nat_equality, list_equality, text_eq, Bool-cases,
}
use jconfig.Strings.Basic.{Text, has_prefix, has_suffix, index, shift}

pub has_prefix-append : (p s t : Text) → has_prefix p s ≡ true → has_prefix p (s ++ t) ≡ true
unfolding has_prefix
has_prefix-append [] s t h = refl
has_prefix-append (b ∷ p) (c ∷ s) t h = ground (arith, has_prefix-append p s t)
has_prefix-append (b ∷ p) [] t h = absurd cc

has_prefix-append_false :
    (p s t : Text) → length p ≤ length s → has_prefix p s ≡ false → has_prefix p (s ++ t) ≡ false
unfolding has_prefix
has_prefix-append_false [] s t k h = absurd cc
has_prefix-append_false (b ∷ p) [] t k h = absurd (omega arith)
has_prefix-append_false (b ∷ p) (c ∷ s) t k h = ground (arith, has_prefix-append_false p s t)

pub shift_zero : (o : Option ℕ) → shift 0 o ≡ o
shift_zero none = refl
shift_zero (some i) = ap some (omega arith)

shift-suc : (k : ℕ) (o : Option ℕ) → shift 1 (shift k o) ≡ shift (suc k) o
shift-suc k none = refl
shift-suc k (some i) = ap some (omega arith)

shift-none : (k : ℕ) (o : Option ℕ) → shift k o ≡ none → o ≡ none
shift-none k none h = refl
shift-none k (some i) h = absurd cc

has_prefix-fits : (p s : Text) → has_prefix p s ≡ true → length p ≤ length s
unfolding has_prefix
has_prefix-fits [] s h = omega arith
has_prefix-fits (b ∷ p) [] h = absurd cc
has_prefix-fits (b ∷ p) (c ∷ s) h = ground (arith, has_prefix-fits p s)

pub shift-some :
    (k i : ℕ) (o : Option ℕ) → shift k o ≡ some i → (j : ℕ) × (o ≡ some j) × (i ≡ k + j)
shift-some k i none h = absurd cc
shift-some k i (some j) h = (j, refl, cc)

pub index_at :
    (p : Text) (c : ℕ) (s : Text) → has_prefix p (c ∷ s) ≡ true → index p (c ∷ s) ≡ some 0
unfolding index
index_at p c s h = rw h refl

pub index_past :
    (p : Text) (c : ℕ) (s : Text)
    → has_prefix p (c ∷ s) ≡ false
    → index p (c ∷ s) ≡ shift 1 (index p s)
unfolding index
index_past p c s h = rw h refl

pub index-fits : (p s : Text) (i : ℕ) → index p s ≡ some i → i + length p ≤ length s
index-fits [] [] i h =
    unfold index has_prefix in (let zero_at : some 0 ≡ some i = h in ground arith)
index-fits (b ∷ p) [] i h = unfold index has_prefix in absurd (let k : none ≡ some i = h in cc)
index-fits p (c ∷ s) i h = elim (Bool-cases (has_prefix p (c ∷ s))) [
  | inl e ↦
      let at : some 0 ≡ some i = sym (index_at p c s e) ∙ h in
      let fits = has_prefix-fits p (c ∷ s) e in ground arith
  | inr n ↦
      let (j, e, same) = shift-some 1 i (index p s) (sym (index_past p c s n) ∙ h) in
      let fits = index-fits p s j e in omega arith
]

-- What is found in a text is found at the same place when more follows.
pub index-append : (p s t : Text) (i : ℕ) → index p s ≡ some i → index p (s ++ t) ≡ some i
index-append [] [] [] i h = h
index-append [] [] (c ∷ t) i h = unfold index has_prefix in h
index-append (b ∷ p) [] t i h = unfold index has_prefix in absurd (let k : none ≡ some i = h in cc)
index-append p (c ∷ s) t i h = elim (Bool-cases (has_prefix p (c ∷ s))) [
  | inl e ↦ index_at p c (s ++ t) (has_prefix-append p (c ∷ s) t e) ∙ sym (index_at p c s e) ∙ h
  | inr n ↦
      let (j, e, same) = shift-some 1 i (index p s) (sym (index_past p c s n) ∙ h) in
      let fits = index-fits p s j e in
      let miss = has_prefix-append_false p (c ∷ s) t (omega arith) n in
      rw (index_past p c (s ++ t) miss, index-append p s t j e) (ap some (sym same))
]

-- After a search that found nothing, a later one of the grown text may skip every position from
-- which the whole of `p` was already in the text.
pub index_skip :
    (p s t : Text) (k : ℕ)
    → 1 ≤ length p
    → index p s ≡ none
    → k + length p ≤ length s + 1
    → index p (s ++ t) ≡ shift k (index p (drop k (s ++ t)))
index_skip p s t zero n h k = sym (shift_zero (index p (s ++ t)))
index_skip p [] t (suc k) n h le = absurd (omega arith)
index_skip p (c ∷ s) t (suc k) n h le = elim (Bool-cases (has_prefix p (c ∷ s))) [
  | inl e ↦ absurd (let found = sym (index_at p c s e) ∙ h in cc)
  | inr m ↦
      let miss = has_prefix-append_false p (c ∷ s) t (omega arith) m in
      let later = shift-none 1 (index p s) (sym (index_past p c s m) ∙ h) in
      rw (index_past p c (s ++ t) miss, index_skip p s t k n later (omega arith))
        (shift-suc k (index p (drop k (s ++ t))))
]

pub suffix_self : (p : Text) → has_suffix p p ≡ true
unfolding has_suffix
suffix_self [] = ground (arith, text_eq [] [])
suffix_self (c ∷ p) = ground (arith, text_eq (c ∷ p) (c ∷ p))

pub has_suffix-append : (s p : Text) → has_suffix (s ++ p) p ≡ true
unfolding has_suffix
has_suffix-append [] p = suffix_self p
has_suffix-append (c ∷ s) p = ground (arith, has_suffix-append s p)

pub has_suffix-cons : (c : ℕ) (s p : Text) → has_suffix s p ≡ true → has_suffix (c ∷ s) p ≡ true
unfolding has_suffix
has_suffix-cons c s p h = ground arith

pub some_inj : {a b : ℕ} → some a ≡ some b → a ≡ b
some_inj h = cc

pub add_one : (j : ℕ) → 1 + j ≡ suc j
add_one j = omega arith

-- What is found stands where it was found.
pub index_here : (p s : Text) (i : ℕ) → index p s ≡ some i → has_prefix p (drop i s) ≡ true
index_here [] [] zero h = unfold has_prefix in refl
index_here [] [] (suc i) h = unfold has_prefix in refl
index_here (b ∷ p) [] i h = unfold index has_prefix in absurd (let k : none ≡ some i = h in cc)
index_here p (c ∷ s) i h = elim (Bool-cases (has_prefix p (c ∷ s))) [
  | inl e ↦ let at : some 0 ≡ some i = sym (index_at p c s e) ∙ h in rw (← (some_inj at)) e
  | inr n ↦
      let (j, e, same) = shift-some 1 i (index p s) (sym (index_past p c s n) ∙ h) in
      rw (same ∙ add_one j) (index_here p s j e)
]
