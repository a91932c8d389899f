-- ===== src/Strings/Lines.antt =====
-- Splitting and joining undo one another.
use jconfig.Prelude.{
  ℕ, Bool, true, false, List, [], ◌∷◌, ◌++◌, ◌≡◌, ◌≢◌, refl, ap, sym, ◌∙◌, arith, all, All, ◌==◌,
  nat_equality,
}
use jconfig.Strings.Basic.{Text, split, cons_head, join}
use mathlib.Core.List.{append_assoc}
use jconfig.Strings.Replace.{other_than}

abbrev pub IsFree : ℕ → Text → Type 0
IsFree b l = all (other_than b) l ≡ true

pub split_ne_nil : (b : ℕ) (s : Text) → split b s ≢ []
unfolding split
split_ne_nil b [] h = cc
split_ne_nil b (c ∷ s) h = ground (arith, split_ne_nil b s)

cons_head-All :
    (b c : ℕ) (ls : List Text)
    → (c == b) ≡ false
    → All (IsFree b) ls
    → All (IsFree b) (cons_head c ls)
unfolding all
cons_head-All b c [] h k = (ground arith, tt)
cons_head-All b c (l ∷ ls) h k = (ground arith, k.1)

-- The parts hold no separator.
pub split-IsFree : (b : ℕ) (s : Text) → All (IsFree b) (split b s)
unfolding split all
split-IsFree b [] = (refl, tt)
split-IsFree b (c ∷ s) = ground (arith, cons_head-All b c (split b s), split-IsFree b s)

pub split-append : (b : ℕ) (l s : Text) → IsFree b l → split b (l ++ (b ∷ s)) ≡ l ∷ split b s
unfolding split all
split-append b [] s h = ground arith
split-append b (c ∷ l) s h = ground (arith, split-append b l s)

split_of_IsFree : (b : ℕ) (l : Text) → IsFree b l → split b l ≡ l ∷ []
unfolding split all
split_of_IsFree b [] h = refl
split_of_IsFree b (c ∷ l) h = ground (arith, split_of_IsFree b l)

-- Parts with no separator come back from the joined text.
pub split-join :
    (b : ℕ) (l : Text) (ls : List Text)
    → All (IsFree b) (l ∷ ls)
    → split b (join (b ∷ []) (l ∷ ls)) ≡ l ∷ ls
unfolding join
split-join b l [] h = split_of_IsFree b l h.0
split-join b l (m ∷ ls) h =
    split-append b l (join (b ∷ []) (m ∷ ls)) h.0 ∙ ap (◌∷◌ l) (split-join b m ls h.1)

-- The same for a text that the separator ends: the last part is empty.
pub split-join_ended :
    (b : ℕ) (l : Text) (ls : List Text)
    → All (IsFree b) (l ∷ ls)
    → split b (join (b ∷ []) (l ∷ ls) ++ (b ∷ [])) ≡ (l ∷ ls) ++ ([] ∷ [])
unfolding join
split-join_ended b l [] h = split-append b l [] h.0 ∙ (unfold split in refl)
split-join_ended b l (m ∷ ls) h =
    ap (split b) (append_assoc l (b ∷ join (b ∷ []) (m ∷ ls)) (b ∷ []))
    ∙ split-append b l (join (b ∷ []) (m ∷ ls) ++ (b ∷ [])) h.0
    ∙ ap (◌∷◌ l) (split-join_ended b m ls h.1)

-- A test that the text passes holds of every part.
cons_head-all :
    (q : ℕ → Bool) (c : ℕ) (ls : List Text)
    → q c ≡ true
    → All (λ l. all q l ≡ true) ls
    → All (λ l. all q l ≡ true) (cons_head c ls)
unfolding all
cons_head-all q c [] h k = (ground arith, tt)
cons_head-all q c (l ∷ ls) h k = (ground arith, k.1)

pub split_all :
    (q : ℕ → Bool) (b : ℕ) (s : Text) → all q s ≡ true → All (λ l. all q l ≡ true) (split b s)
unfolding split all
split_all q b [] h = (refl, tt)
split_all q b (c ∷ s) h = ground (arith, cons_head-all q c (split b s), split_all q b s)

pub join_cons :
    (b : ℕ) (l m : Text) (ls : List Text)
    → join (b ∷ []) (l ∷ m ∷ ls) ≡ l ++ (b ∷ join (b ∷ []) (m ∷ ls))
unfolding join
join_cons b l m ls = refl

-- An empty last part is a separator at the end.
pub join_concat_nil :
    (b : ℕ) (l : Text) (ls : List Text)
    → join (b ∷ []) ((l ∷ ls) ++ ([] ∷ [])) ≡ join (b ∷ []) (l ∷ ls) ++ (b ∷ [])
unfolding join
join_concat_nil b l [] = refl
join_concat_nil b l (m ∷ ls) =
    ap (λ t. l ++ (b ∷ t)) (join_concat_nil b m ls)
    ∙ sym (append_assoc l (b ∷ join (b ∷ []) (m ∷ ls)) (b ∷ []))
