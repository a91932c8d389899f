-- ===== src/Junos/Element.antt =====
-- internal/junos/xmlutil.go: what rawElement cuts out.
use jconfig.Prelude.{
  ℕ, zero, suc, ◌+◌, ◌-◌, ◌≤◌, Bool, true, false, ◌&&◌, [], ◌∷◌, ◌++◌, ◌≡◌, ◌⊎◌, inl, inr, refl,
  sym, ap, ◌∙◌, Option, none, some, arith, any, length, take, drop, ◌==◌, nat_equality,
  list_equality, ltb, Bool-cases, Option-cases, if◌then◌else◌,
}
use mathlib.Core.Path.{ap₂}
use jconfig.Strings.Basic.{Text, codes, has_prefix, index, has_suffix, shift}
use jconfig.Strings.Search.{suffix_self, has_suffix-cons, index_here, shift-some, some_inj, add_one}
use jconfig.Junos.Xml.{
  last_index, opens, opening, self_closed, closed, closed_at, close_tag_of, raw_element, ends_name,
}

-- What may follow the name in an opening tag.
abbrev pub name_ends : Text
name_ends = codes "> \t\n\r/"

-- An opening tag begins the text: the name is all of the tag's name, not the start of a longer one.
abbrev pub StartsTag : Text → Text → Type 0
StartsTag local s =
    (c : ℕ) × (rest : Text) × (s ≡ (b'<' ∷ local) ++ (c ∷ rest))
    × (any (λ x. x == c) name_ends ≡ true)

-- An element that stands in the text as it is returned, begins with an opening tag of just this name
-- there, and ends with the closing tag or a self-closing one.
pub record IsElement (s local e : Text) : Type 0 where
  pub before : Text
  pub after : Text
  pub verbatim : s ≡ before ++ (e ++ after)
  pub opened : StartsTag local (e ++ after)
  pub closes : (has_suffix e (close_tag_of local) ≡ true) ⊎ (has_suffix e (codes "/>") ≡ true)

take-drop : (n : ℕ) (s : Text) → take n s ++ drop n s ≡ s
take-drop zero s = refl
take-drop (suc n) [] = refl
take-drop (suc n) (c ∷ s) = ap (λ r. c ∷ r) (take-drop n s)

drop-drop : (i k n : ℕ) (s : Text) → n ≡ i + k → drop k (drop i s) ≡ drop n s
drop-drop zero k n s e = ap (λ m. drop m s) (omega (arith, e))
drop-drop (suc i) k zero s e = absurd (omega (arith, e))
drop-drop (suc i) zero (suc n) [] e = refl
drop-drop (suc i) (suc k) (suc n) [] e = refl
drop-drop (suc i) k (suc n) (c ∷ s) e = drop-drop i k n s (omega (arith, e))

take_nil : (n : ℕ) → take {A = ℕ} n [] ≡ []
take_nil zero = refl
take_nil (suc n) = refl

take_prefix : (p s : Text) → has_prefix p s ≡ true → take (length p) s ≡ p
unfolding has_prefix
take_prefix [] s h = refl
take_prefix (b ∷ p) [] h = absurd cc
take_prefix (b ∷ p) (c ∷ s) h =
    let rest : has_prefix p s ≡ true = ground arith in
    let same : b ≡ c = ground arith in rw (take_prefix p s rest) (ap (λ x. x ∷ p) (sym same))

-- The part up to the end of an occurrence ends with it.
take-ends :
    (p s : Text) (k n : ℕ)
    → n ≡ k + length p
    → has_prefix p (drop k s) ≡ true
    → has_suffix (take n s) p ≡ true
take-ends p s zero n e h =
    let whole : n ≡ length p = omega (arith, e) in rw (whole, take_prefix p s h) (suffix_self p)
take-ends [] [] (suc k) n e h = rw (take_nil n) (suffix_self [])
take-ends (b ∷ p) [] (suc k) n e h = absurd (no_prefix b p h)
  where
    no_prefix : (b : ℕ) (p : Text) → has_prefix (b ∷ p) [] ≡ true → ⊥
    no_prefix b p k = unfold has_prefix in cc
take-ends p (c ∷ s) (suc k) zero e h = absurd (omega arith)
take-ends p (c ∷ s) (suc k) (suc n) e h =
    has_suffix-cons c (take n s) p (take-ends p s k n (omega arith) h)

opening_at :
    (tag : Text) (c : ℕ) (s : Text) → opens tag (c ∷ s) ≡ true → opening tag (c ∷ s) ≡ some 0
unfolding opening
opening_at tag c s h = rw h refl

opening_past :
    (tag : Text) (c : ℕ) (s : Text)
    → opens tag (c ∷ s) ≡ false
    → opening tag (c ∷ s) ≡ shift 1 (opening tag s)
unfolding opening
opening_past tag c s h = rw h refl

prefix_rest : (p s : Text) → has_prefix p s ≡ true → s ≡ p ++ drop (length p) s
unfolding has_prefix
prefix_rest [] s h = refl
prefix_rest (b ∷ p) [] h = absurd cc
prefix_rest (b ∷ p) (c ∷ s) h =
    let rest : has_prefix p s ≡ true = ground arith in
    let same : c ≡ b = ground arith in ap₂ (λ x y. x ∷ y) same (prefix_rest p s rest)

opens-StartsTag : (local s : Text) → opens (b'<' ∷ local) s ≡ true → StartsTag local s
unfolding opens
opens-StartsTag local s h =
    let tag = b'<' ∷ local in
    let (prefix, ends) = both_true (has_prefix tag s) (ends_name (drop (length tag) s)) h in
    go (drop (length tag) s) (prefix_rest tag s prefix) ends
  where
    both_true : (a b : Bool) → (a && b) ≡ true → (a ≡ true) × (b ≡ true)
    both_true a b h = ground arith

    go : (r : Text) → s ≡ (b'<' ∷ local) ++ r → ends_name r ≡ true → StartsTag local s
    go [] e k = absurd cc
    go (c ∷ r) e k = (c, r, e, unfold any codes in ground arith)

no_opening : (tag : Text) (i : ℕ) → opening tag [] ≡ some i → ⊥
unfolding opening
no_opening tag i h = cc

opening_here :
    (local s : Text) (i : ℕ) → opening (b'<' ∷ local) s ≡ some i → StartsTag local (drop i s)
opening_here local [] i h = absurd (no_opening (b'<' ∷ local) i h)
opening_here local (c ∷ s) i h =
    let tag = b'<' ∷ local in
    elim (Bool-cases (opens tag (c ∷ s))) [
      | inl e ↦
          let at : some 0 ≡ some i = sym (opening_at tag c s e) ∙ h in
          rw (← (some_inj at)) (opens-StartsTag local (c ∷ s) e)
      | inr n ↦
          let (j, e, same) = shift-some 1 i (opening tag s) (sym (opening_past tag c s n) ∙ h) in
          rw (same ∙ add_one j) (opening_here local s j e)
    ]

last_later :
    (p : Text) (c : ℕ) (s : Text) (j : ℕ)
    → last_index p s ≡ some j
    → last_index p (c ∷ s) ≡ some (suc j)
unfolding last_index
last_later p c s j h = rw h refl

last_now :
    (p : Text) (c : ℕ) (s : Text)
    → last_index p s ≡ none
    → last_index p (c ∷ s) ≡ (if has_prefix p (c ∷ s) then some 0 else none)
unfolding last_index
last_now p c s h = rw h refl

if_some : (b : Bool) (i : ℕ) → (if b then some 0 else none) ≡ some i → (b ≡ true) × (i ≡ 0)
if_some true i h = (refl, cc)
if_some false i h = absurd cc

last_index_nil : (p : Text) → last_index p [] ≡ (if has_prefix p [] then some 0 else none)
unfolding last_index
last_index_nil p = refl

last_index_here : (p s : Text) (i : ℕ) → last_index p s ≡ some i → has_prefix p (drop i s) ≡ true
last_index_here p [] i h =
    let (e, zero_at) = if_some (has_prefix p []) i (sym (last_index_nil p) ∙ h) in rw zero_at e
last_index_here p (c ∷ s) i h = elim (Option-cases (last_index p s)) [
  | inl n ↦
      let (e, zero_at) = if_some (has_prefix p (c ∷ s)) i (sym (last_now p c s n) ∙ h) in
      rw zero_at e
  | inr (j, e) ↦
      let same : some (suc j) ≡ some i = sym (last_later p c s j e) ∙ h in
      rw (← (some_inj same)) (last_index_here p s j e)
]

-- The text that `take` cuts from position `start`.
cut-IsElement :
    (s local p : Text) (start k n : ℕ)
    → (p ≡ close_tag_of local) ⊎ (p ≡ codes "/>")
    → StartsTag local (drop start s)
    → n ≡ k + length p
    → has_prefix p (drop k (drop start s)) ≡ true
    → IsElement s local (take n (drop start s))
cut-IsElement s local p start k n kind opened e h = record {
  before = take start s;
  after = drop n (drop start s);
  verbatim = sym (rw (take-drop n (drop start s)) (take-drop start s));
  opened = rw (take-drop n (drop start s)) opened;
  closes = by_kind kind;
}
  where
    by_kind :
        (p ≡ close_tag_of local) ⊎ (p ≡ codes "/>")
        → (has_suffix (take n (drop start s)) (close_tag_of local) ≡ true)
          ⊎ (has_suffix (take n (drop start s)) (codes "/>") ≡ true)
    by_kind (inl same) = inl (rw same at (take-ends p (drop start s) k n e h))
    by_kind (inr same) = inr (rw same at (take-ends p (drop start s) k n e h))

slash_length : length (codes "/>") ≡ 2
unfolding codes
slash_length = refl

text_inj : {a b : Text} → some a ≡ some b → a ≡ b
text_inj h = cc

self_closed-IsElement :
    (s local : Text) (start : ℕ) (o : Option ℕ) (e : Text)
    → StartsTag local (drop start s)
    → index (codes "/>") (drop start s) ≡ o
    → self_closed (drop start s) o ≡ some e
    → IsElement s local e
self_closed-IsElement s local start none e opened at h = absurd cc
self_closed-IsElement s local start (some i) e opened at h = rw (← (text_inj h)) (
    cut-IsElement s local (codes "/>") start i (i + 2) (inr refl) opened (rw slash_length refl)
      (index_here (codes "/>") (drop start s) i at))

closed-IsElement :
    (s local : Text) (start : ℕ) (o : Option ℕ) (e : Text)
    → StartsTag local (drop start s)
    → last_index (close_tag_of local) s ≡ o
    → closed (close_tag_of local) s start o ≡ some e
    → IsElement s local e
closed-IsElement s local start none e opened at h =
    self_closed-IsElement s local start (index (codes "/>") (drop start s)) e opened refl h
closed-IsElement s local start (some end) e opened at h =
    let tag = close_tag_of local in
    elim (Bool-cases (ltb end start)) [
      | inl lt ↦
          self_closed-IsElement s local start (index (codes "/>") (drop start s)) e opened refl
            (rw lt at h)
      | inr ge ↦
          let cut : some (take (end + length tag - start) (drop start s)) ≡ some e = rw ge at h in
          let after : start ≤ end = ground arith in
          rw (← (text_inj cut)) (
            cut-IsElement s local tag start (end - start) (end + length tag - start) (inl refl)
              opened (omega arith)
              (rw (drop-drop start (end - start) end s (omega arith))
                (last_index_here tag s end at)))
    ]

-- What rawElement returns stands in the text as it is, begins with an opening tag of just this name,
-- and ends with its closing tag or a self-closing one.
pub raw_element-IsElement : (s local e : Text) → raw_element s local ≡ some e → IsElement s local e
unfolding raw_element
raw_element-IsElement s local e h = go (opening (b'<' ∷ local) s) refl h
  where
    go :
        (o : Option ℕ)
        → opening (b'<' ∷ local) s ≡ o
        → closed_at (close_tag_of local) s o ≡ some e
        → IsElement s local e
    go none at k = absurd cc
    go (some start) at k =
        closed-IsElement s local start (last_index (close_tag_of local) s) e
          (opening_here local s start at) refl k
