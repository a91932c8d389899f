-- ===== src/Strings/Basic.antt =====
-- Texts, prefixes, searching, trimming, replacing and splitting.
use Prim.Native.Char.{code}
use Prim.Native.String.{String}
use jconfig.Prelude.{
  ℕ, zero, suc, ◌+◌, ◌-◌, Bool, true, false, ◌&&◌, ◌||◌, List, [], ◌∷◌, ◌++◌, Option, none, some,
  ◌==◌, nat_equality, list_equality, length, if◌then◌else◌,
}

abbrev pub Text : Type 0
Text = List ℕ

-- A literal. The bytes of a text are its code points, since every literal here is ASCII.
unfoldable pub codes : String → Text
codes String.[] = []
codes (String.◌∷◌ c s) = code c ∷ codes s

-- strings.HasPrefix(s, p)
unfoldable pub has_prefix : Text → Text → Bool
has_prefix [] s = true
has_prefix (b ∷ p) [] = false
has_prefix (b ∷ p) (c ∷ s) = b == c && has_prefix p s

-- strings.HasSuffix(s, p)
unfoldable pub has_suffix : Text → Text → Bool
has_suffix [] p = p == []
has_suffix (c ∷ s) p = let later = has_suffix s p in p == c ∷ s || later

-- strings.Contains(s, sub)
unfoldable pub contains : Text → Text → Bool
unfolding has_prefix
contains sub [] = has_prefix sub []
contains sub (c ∷ s) = has_prefix sub (c ∷ s) || contains sub s

-- A position counted from `k` bytes earlier.
abbrev pub shift : ℕ → Option ℕ → Option ℕ
shift k none = none
shift k (some i) = some (k + i)

-- strings.Index(s, sub), `none` for -1
unfoldable pub index : Text → Text → Option ℕ
unfolding has_prefix
index sub [] = if has_prefix sub [] then some 0 else none
index sub (c ∷ s) =
    let later = index sub s in if has_prefix sub (c ∷ s) then some 0 else shift 1 later

-- The rest of a ReplaceAll, when the next `k` bytes belong to an occurrence already replaced.
unfoldable pub replace_from : Text → Text → Text → ℕ → Text
unfolding has_prefix
replace_from old new [] k = []
replace_from old new (c ∷ s) (suc k) = replace_from old new s k
replace_from old new (c ∷ s) zero = elim (has_prefix old (c ∷ s)) [
  | true ↦ new ++ replace_from old new s (length old - 1)
  | false ↦ c ∷ replace_from old new s 0
]

-- strings.ReplaceAll(s, old, new) for a nonempty `old`
unfoldable pub replace_all : Text → Text → Text → Text
unfolding replace_from
replace_all s old new = replace_from old new s 0

abbrev pub trim_onto : (ℕ → Bool) → ℕ → Text → Text
trim_onto p c [] = if p c then [] else c ∷ []
trim_onto p c (d ∷ r) = c ∷ d ∷ r

-- strings.TrimRight, strings.TrimLeft and strings.Trim, with the cutset as a test
unfoldable pub trim_right : (ℕ → Bool) → Text → Text
trim_right p [] = []
trim_right p (c ∷ s) = trim_onto p c (trim_right p s)

unfoldable pub trim_left : (ℕ → Bool) → Text → Text
trim_left p [] = []
trim_left p (c ∷ s) = if p c then trim_left p s else c ∷ s

unfoldable pub trim : (ℕ → Bool) → Text → Text
unfolding trim_left trim_right
trim p s = trim_left p (trim_right p s)

-- strings.Split(s, sep) for a separator of one byte; there is always a part
abbrev pub cons_head : ℕ → List Text → List Text
cons_head c [] = (c ∷ []) ∷ []
cons_head c (l ∷ ls) = (c ∷ l) ∷ ls

unfoldable pub split : ℕ → Text → List Text
split sep [] = [] ∷ []
split sep (c ∷ s) = let parts = split sep s in if c == sep then [] ∷ parts else cons_head c parts

-- strings.Join(parts, sep)
unfoldable pub join : Text → List Text → Text
join sep [] = []
join sep (l ∷ []) = l
join sep (l ∷ m ∷ ls) = l ++ (sep ++ join sep (m ∷ ls))

-- Lines, each with the newline that ends it.
abbrev pub printed : List String → Text
printed [] = []
printed (l ∷ ls) = codes l ++ (b'\n' ∷ printed ls)
