-- ===== src/Rostest/Account.antt =====
-- The flags that the driver puts behind a login name, and the account that the device reads off it.
use jconfig.Prelude.{
  ℕ, suc, ◌+◌, Bool, true, false, ◌&&◌, [], ◌∷◌, ◌++◌, ◌≡◌, refl, sym, ap, ◌∙◌, Option, none, some,
  arith, take, ◌==◌, nat_equality, list_equality, if◌then◌else◌,
}
use jconfig.Strings.Basic.{Text, codes, has_prefix, contains, index, shift}
use jconfig.Routeros.Export.{login}
use jconfig.Rostest.Server.{account, before}

-- What stands before the first byte `b` of a text.
abbrev up_to : ℕ → Text → Text
up_to b [] = []
up_to b (c ∷ s) = if b == c then [] else c ∷ up_to b s

account-up_to : (user : Text) → account user ≡ up_to b'+' user
unfolding account index has_prefix codes
account-up_to [] = refl
account-up_to (c ∷ s) = by_test (b'+' == c) (account-up_to s)
  where
    by_shift : (o : Option ℕ) → before (c ∷ s) (shift 1 o) ≡ c ∷ before s o
    by_shift none = refl
    by_shift (some i) = let next : 1 + i ≡ suc i = omega arith in ap (λ n. take n (c ∷ s)) next

    by_test :
        (here : Bool)
        → before s (index (b'+' ∷ []) s) ≡ up_to b'+' s
        → before (c ∷ s) (if here && true then some 0 else shift 1 (index (b'+' ∷ []) s))
          ≡ (if here then [] else c ∷ up_to b'+' s)
    by_test true e = refl
    by_test false e = by_shift (index (b'+' ∷ []) s) ∙ ap (λ x. c ∷ x) e

up_to-append : (s : Text) → up_to b'+' (s ++ codes "+ct") ≡ up_to b'+' s
unfolding codes
up_to-append [] = refl
up_to-append (c ∷ s) = ap (λ x. if b'+' == c then [] else c ∷ x) (up_to-append s)

-- Whatever the user name, with flags of its own or without, the account that the device
-- authenticates is the same with the driver's flags as without them.
pub account-login : (user : Text) → account (login user) ≡ account user
unfolding login
account-login user = by_test (contains (codes "+") user)
  where
    by_test : (b : Bool) → account (if b then user else user ++ codes "+ct") ≡ account user
    by_test true = refl
    by_test false =
        account-up_to (user ++ codes "+ct") ∙ up_to-append user ∙ sym (account-up_to user)
