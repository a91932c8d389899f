-- ===== src/Config/KeyForm.antt =====
-- What a decoded key looks like.
use jconfig.Prelude.{
  true, false, [], ◌∷◌, ◌++◌, ◌≡◌, ◌⊎◌, inl, inr, refl, arith, ◌==◌, nat_equality, list_equality,
  Bool-cases,
}
use jconfig.Prelude.Answer.{Answer, good, bad}
use jconfig.Strings.Basic.{Text, codes, has_prefix, contains, has_suffix}
use jconfig.Strings.Space.{trim_space}
use jconfig.Strings.Search.{has_prefix-append, has_suffix-append}
use jconfig.Config.Host.{Host}
use jconfig.Config.Key.{ensure_trailing_newline, begin_mark, decoded_key, decode_key, compact}

contains_nil : (s : Text) → contains [] s ≡ true
unfolding contains has_prefix
contains_nil [] = refl
contains_nil (c ∷ s) = refl

contains-append : (p s t : Text) → contains p s ≡ true → contains p (s ++ t) ≡ true
unfolding contains has_prefix
contains-append [] [] t h = contains_nil t
contains-append (b ∷ p) [] t h = absurd cc
contains-append p (c ∷ s) t h = ground (arith, contains-append p s t, has_prefix-append p (c ∷ s) t)

-- A key in the form that the SSH library reads.
pub record IsPem (k : Text) : Type 0 where
  pub marked : contains begin_mark k ≡ true
  pub ended : has_suffix k (codes "\n") ≡ true

ensure-IsPem : (s : Text) → contains begin_mark s ≡ true → IsPem (ensure_trailing_newline s)
unfolding ensure_trailing_newline
ensure-IsPem s h = elim (Bool-cases (has_suffix s (codes "\n"))) [
  | inl e ↦ rw e (record { marked = h; ended = e })
  | inr e ↦ rw e (record {
    marked = contains-append begin_mark s (codes "\n") h;
    ended = has_suffix-append s (codes "\n");
  })
]

good_inj : {a b : Text} → good a ≡ good b → a ≡ b
good_inj h = cc

decoded_key-IsPem : (o : Answer Text) (k : Text) → decoded_key o ≡ good k → IsPem k
decoded_key-IsPem (bad e) k h = absurd cc
decoded_key-IsPem (good s) k h = elim (Bool-cases (contains begin_mark s)) [
  | inl e ↦
      let same : good (ensure_trailing_newline s) ≡ good k = rw e at h in
      rw (← (good_inj same)) (ensure-IsPem s e)
  | inr n ↦
      absurd (
        let wrong : bad (codes "decoded value is not a PEM private key") ≡ good k = rw n at h in cc)
]

-- Whatever base64 decoding returns: a key that DecodeKey accepts holds the mark of a PEM block and
-- ends in a newline, also if it was given without one or in base64.
pub decode_key-IsPem : (host : Host) (s k : Text) → decode_key host s ≡ good k → IsPem k
unfolding decode_key
decode_key-IsPem host s k h =
    go (Bool-cases (trim_space s == [])) (Bool-cases (contains begin_mark (trim_space s)))
  where
    go :
        ((trim_space s == []) ≡ true) ⊎ ((trim_space s == []) ≡ false)
        → (contains begin_mark (trim_space s) ≡ true) ⊎ (contains begin_mark (trim_space s) ≡ false)
        → IsPem k
    go (inl e) c = absurd (let wrong : bad (codes "empty key") ≡ good k = rw e at h in cc)
    go (inr n) (inl c) =
        let same : good (ensure_trailing_newline (trim_space s)) ≡ good k = rw (n, c) at h in
        rw (← (good_inj same)) (ensure-IsPem (trim_space s) c)
    go (inr n) (inr c) =
        decoded_key-IsPem (host.decode_base64 (compact (trim_space s))) k (rw (n, c) at h)
