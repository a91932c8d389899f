-- ===== src/Config/Precedence.antt =====
-- Which value wins when the defaults block is merged into a device.
use jconfig.Prelude.{
  [], ◌∷◌, ◌≡◌, inl, inr, refl, ◌∙◌, Option, none, some, ◌==◌, nat_equality, list_equality, text_eq,
  Bool-cases, if◌then◌else◌,
}
use jconfig.Prelude.Dict.{Dict, get, put, get-put}
use jconfig.Strings.Basic.{Text}
use jconfig.Config.Defaults.{merge_labels}

-- The first of two values that there is.
abbrev pub first : Option Text → Option Text → Option Text
first none b = b
first (some v) b = some v

first_none : (o : Option Text) → o ≡ first o none
first_none none = refl
first_none (some v) = refl

merge_step :
    (k j v : Text) (dst : Dict Text Text) (def : Option Text) (o : Option Text)
    → get k dst ≡ o
    → first (get j (elim o [ none ↦ put k v dst | some w ↦ dst ])) def
      ≡ first (get j dst) (if k == j then some v else def)
merge_step k j v dst def none h = elim (Bool-cases (k == j)) [
  | inl e ↦
      rw (get-put k j v dst, e)
        (let same : get j dst ≡ none = rw (← (text_eq k j).0 e) h in rw same refl)
  | inr n ↦ rw (get-put k j v dst, n) refl
]
merge_step k j v dst def (some w) h = elim (Bool-cases (k == j)) [
  | inl e ↦ let same : get j dst ≡ some w = rw (← (text_eq k j).0 e) h in rw (e, same) refl
  | inr n ↦ rw n refl
]

-- A label of the device wins over the same label of the defaults block, and no label is lost.
pub merge_labels-get :
    (dst def : Dict Text Text) (j : Text)
    → get j (merge_labels dst def) ≡ first (get j dst) (get j def)
unfolding merge_labels
merge_labels-get dst [] j = unfold get in first_none (get j dst)
merge_labels-get dst ((k, v) ∷ def) j =
    merge_labels-get (elim (get k dst) [ none ↦ put k v dst | some w ↦ dst ]) def j
    ∙ merge_step k j v dst (get j def) (get k dst) refl
    ∙ (unfold get in refl)
