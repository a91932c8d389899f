-- ===== src/Strings/Clean.antt =====
-- path/filepath on Unix: Clean and Join, for the paths that the configuration names.
use jconfig.Prelude.{
  Bool, false, not, ◌||◌, List, [], ◌∷◌, ◌≡◌, refl, keep, ◌==◌, reverse_onto, nat_equality,
  list_equality, list_beq, if◌then◌else◌,
}
use jconfig.Strings.Basic.{Text, codes, split, join}

abbrev pub is_rooted : Text → Bool
is_rooted [] = false
is_rooted (c ∷ s) = c == b'/'

-- What ".." does to the elements kept so far, the last of them first.
abbrev pub up : Bool → List Text → List Text
up rooted [] = if rooted then [] else codes ".." ∷ []
up rooted (e ∷ kept) = if e == codes ".." then codes ".." ∷ e ∷ kept else kept

-- One element of the path: "" and "." are dropped.
unfoldable pub step : Bool → Text → List Text → List Text
step rooted e kept =
    if e == [] || e == codes "." then kept else if e == codes ".." then up rooted kept else e ∷ kept

unfoldable pub elements : Bool → List Text → List Text → List Text
unfolding step
elements rooted kept [] = kept
elements rooted kept (e ∷ es) = elements rooted (step rooted e kept) es

-- filepath.Clean
unfoldable pub clean : Text → Text
unfolding elements split join
clean p =
    let path = join (codes "/") (reverse_onto (elements (is_rooted p) [] (split b'/' p)) []) in
    if is_rooted p then b'/' ∷ path else if path == [] then codes "." else path

-- filepath.Join: the elements that are not empty, with a slash between them
abbrev pub joined : List Text → Text
joined [] = []
joined (e ∷ es) = clean (join (codes "/") (e ∷ es))

unfoldable pub join_path : List Text → Text
unfolding clean keep join
join_path es = joined (keep (λ e. not (e == [])) es)

clean_tests :
    (clean (codes "/home//me/./x/../.ssh/") ≡ codes "/home/me/.ssh")
    × (clean (codes "../a/..") ≡ codes "..")
    × (join_path (codes "/root" ∷ codes "/keys" ∷ []) ≡ codes "/root/keys")
unfolding clean join_path codes list_beq
clean_tests = (refl, refl, refl)
