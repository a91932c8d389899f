-- ===== src/Prelude/Dict.antt =====
-- Go's maps as association lists. A map's order of iteration is not specified in Go: a theorem
-- about a loop over a map holds for the entries in any order.
use mathlib.Core.Path.{◌≡◌, refl}
use mathlib.Core.Bool.{Bool, true, false}
use mathlib.Core.Option.{Option, none, some}
use mathlib.Core.List.{List, [], ◌∷◌}
use native.Mathlib.Omega.{arith}
use jconfig.Prelude.Tests.{if◌then◌else◌}
use jconfig.Prelude.Eq.{Equality, ◌==◌}

abbrev pub Dict {ℓ κ} : Type ℓ → Type κ → Type (ℓ ⊔ κ)
Dict K V = List (K × V)

module _ {ℓ κ} {K : Type ℓ} {V : Type κ} ⦃e : Equality K⦄ where
  -- v, ok := m[k]
  unfoldable pub get : K → Dict K V → Option V
  get k [] = none
  get k ((j, v) ∷ m) = if j == k then some v else get k m

  -- m[k] = v
  unfoldable pub put : K → V → Dict K V → Dict K V
  put k v [] = (k, v) ∷ []
  put k v ((j, w) ∷ m) = if j == k then (k, v) ∷ m else (j, w) ∷ put k v m

  -- Deletes the entries whose key passes the test.
  unfoldable pub remove_if : (K → Bool) → Dict K V → Dict K V
  remove_if p [] = []
  remove_if p ((j, v) ∷ m) =
      let rest = remove_if p m in elim (p j) [ true ↦ rest | false ↦ (j, v) ∷ rest ]

  pub get-put :
      (k j : K) (v : V) (m : Dict K V) → get j (put k v m) ≡ (if k == j then some v else get j m)
  unfolding get put
  get-put k j v [] = refl
  get-put k j v ((i, w) ∷ m) =
      ground (arith, e.agrees k j, e.agrees i k, e.agrees i j, get-put k j v m)

  pub get-put_self : (k : K) (v : V) (m : Dict K V) → get k (put k v m) ≡ some v
  get-put_self k v m = ground (arith, get-put k k v m, e.agrees k k)

  pub get-remove_if :
      (p : K → Bool) (k : K) (m : Dict K V)
      → get k (remove_if p m) ≡ (if p k then none else get k m)
  unfolding get remove_if
  get-remove_if p k [] = ground arith
  get-remove_if p k ((j, v) ∷ m) = ground (arith, e.agrees j k, get-remove_if p k m)
