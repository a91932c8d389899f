-- ===== src/Store/Remote/RefSpec.antt =====
-- How git reads the reference specification of a push.
use jconfig.Prelude.{
  Bool, true, false, [], ◌∷◌, ◌++◌, ◌≡◌, refl, ap, ◌∙◌, arith, all, ◌==◌, nat_equality,
  list_equality, if◌then◌else◌,
}
use jconfig.Strings.Basic.{Text, codes}
use jconfig.Strings.Lines.{IsFree}

-- How git reads a reference specification: "+" first to force it, the source, ":", the destination.
unfoldable pub spec_forced : Text → Bool
spec_forced [] = false
spec_forced (c ∷ s) = c == b'+'

unfoldable pub spec_body : Text → Text
spec_body [] = []
spec_body (c ∷ s) = if c == b'+' then s else c ∷ s

unfoldable pub before_colon : Text → Text
before_colon [] = []
before_colon (c ∷ s) = let rest = before_colon s in if c == b':' then [] else c ∷ rest

unfoldable pub after_colon : Text → Text
after_colon [] = []
after_colon (c ∷ s) = let rest = after_colon s in if c == b':' then s else rest

-- A reference without what a specification is read by.
pub record IsPlainRef (ref : Text) : Type 0 where
  pub no_colon : IsFree b':' ref
  pub no_plus : spec_forced ref ≡ false

before_colon-append :
    (ref rest : Text) → IsFree b':' ref → before_colon (ref ++ (b':' ∷ rest)) ≡ ref
unfolding before_colon all
before_colon-append [] rest h = refl
before_colon-append (c ∷ ref) rest h = ground (arith, before_colon-append ref rest)

after_colon-append : (ref rest : Text) → IsFree b':' ref → after_colon (ref ++ (b':' ∷ rest)) ≡ rest
unfolding after_colon all
after_colon-append [] rest h = refl
after_colon-append (c ∷ ref) rest h = ground (arith, after_colon-append ref rest)

plain_start :
    (ref rest : Text)
    → spec_forced ref ≡ false
    → (spec_forced (ref ++ (b':' ∷ rest)) ≡ false)
      × (spec_body (ref ++ (b':' ∷ rest)) ≡ ref ++ (b':' ∷ rest))
unfolding spec_forced spec_body
plain_start [] rest h = (refl, refl)
plain_start (c ∷ ref) rest h = (h, ground arith)

-- A specification that pushes `source` onto `destination`, forced or not.
pub record PushesOnto (source destination : Text) (force : Bool) (spec : Text) : Type 0 where
  pub forced : spec_forced spec ≡ force
  pub from : before_colon (spec_body spec) ≡ source
  pub onto : after_colon (spec_body spec) ≡ destination

pub ref_spec-PushesOnto :
    (source destination : Text) (force : Bool)
    → IsPlainRef source
    → PushesOnto source destination force
        ((if force then codes "+" else []) ++ (source ++ (b':' ∷ destination)))
unfolding codes
ref_spec-PushesOnto source destination true plain = record {
  forced = unfold spec_forced in refl;
  from = unfold spec_body in before_colon-append source destination plain.no_colon;
  onto = unfold spec_body in after_colon-append source destination plain.no_colon;
}
ref_spec-PushesOnto source destination false plain =
    let (start, body) = plain_start source destination plain.no_plus in
    record {
      forced = start;
      from = ap before_colon body ∙ before_colon-append source destination plain.no_colon;
      onto = ap after_colon body ∙ after_colon-append source destination plain.no_colon;
    }
