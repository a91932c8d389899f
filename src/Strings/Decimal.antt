-- ===== src/Strings/Decimal.antt =====
-- fmt's %d of a number: its decimal digits, and that strconv.ParseInt reads them back.
use jconfig.Prelude.{
  ℕ, zero, suc, ◌+◌, ◌*◌, ◌/◌, ◌%◌, ◌<◌, [], ◌∷◌, ◌≡◌, inl, inr, ap, ◌∙◌, some, arith, nat_equality,
  list_equality, ltb, Bool-cases, if◌then◌else◌,
}
use jconfig.Prelude.Int.{ℤ, pos, negsuc}
use jconfig.Strings.Basic.{Text}
use jconfig.Strings.Number.{digits}

-- The digits of `n` before `acc`; every digit takes one of the fuel, and `n + 1` is enough.
unfoldable pub digits_onto : ℕ → ℕ → Text → Text
digits_onto zero n acc = acc
digits_onto (suc fuel) n acc =
    let rest = digits_onto fuel (n / 10) ((48 + n % 10) ∷ acc) in
    if ltb n 10 then (48 + n) ∷ acc else rest

unfoldable pub decimal : ℕ → Text
unfolding digits_onto
decimal n = digits_onto (n + 1) n []

unfoldable pub decimal_ℤ : ℤ → Text
unfolding decimal
decimal_ℤ (pos n) = decimal n
decimal_ℤ (negsuc n) = b'-' ∷ decimal (n + 1)

digits_cons : (m d : ℕ) (acc : Text) → d < 10 → digits m ((48 + d) ∷ acc) ≡ digits (m * 10 + d) acc
unfolding digits
digits_cons m d acc h = ground arith

digits-onto :
    (fuel n : ℕ) (acc : Text) → n < fuel → digits 0 (digits_onto fuel n acc) ≡ digits n acc
unfolding digits_onto
digits-onto zero n acc h = absurd (omega arith)
digits-onto (suc fuel) n acc h = elim (Bool-cases (ltb n 10)) [
  | inl small ↦ rw small (ground (arith, digits_cons 0 n acc))
  | inr large ↦ rw large (
      digits-onto fuel (n / 10) ((48 + n % 10) ∷ acc) (ground arith)
      ∙ digits_cons (n / 10) (n % 10) acc (omega arith)
      ∙ ap (λ m. digits m acc) (omega arith))
]

-- The digits are read back.
pub digits-decimal : (n : ℕ) → digits 0 (decimal n) ≡ some n
unfolding decimal digits
digits-decimal n = digits-onto (n + 1) n [] (omega arith)
