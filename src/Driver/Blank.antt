-- ===== src/Driver/Blank.antt =====
-- What the check that ends every round of the loop over the formats makes sure of.
use jconfig.Prelude.{
  Bool, true, false, [], ◌++◌, ◌≡◌, ◌≢◌, refl, ◌==◌, nat_equality, list_equality, if◌then◌else◌,
}
use jconfig.Strings.Format.{quoted}
use jconfig.Strings.Basic.{Text, codes}
use jconfig.Strings.Space.{trim_space}
use jconfig.Device.Result.{Error, plain, staged, stage_parse, Fetched, ok, failed}
use jconfig.Prelude.Answer.{Answer, good, bad}
use jconfig.Driver.Loop.{content, refused, unless_blank, parsed}

content_inj : {a b : Text} → content a ≡ content b → a ≡ b
content_inj h = cc

pub refused≢content : {e : Error} {c : Text} → refused e ≢ content c
refused≢content h = cc

pub unless_blank-content :
    (what text c : Text) → unless_blank what text ≡ content c → (trim_space c == []) ≡ false
unless_blank-content what text c h = go (trim_space text == []) refl h
  where
    go :
        (b : Bool)
        → (trim_space text == []) ≡ b
        → (if b
            then refused (
                staged stage_parse
                  (plain (what ++ codes ": device returned an empty configuration")))
            else content text)
          ≡ content c
        → (trim_space c == []) ≡ false
    go true e k = absurd (refused≢content k)
    go false e k = rw (← (content_inj k)) e

pub parsed-content :
    (cmd : Text) (a : Answer Text) (c : Text)
    → parsed cmd a ≡ content c
    → (trim_space c == []) ≡ false
parsed-content cmd (bad e) c h = absurd (refused≢content h)
parsed-content cmd (good text) c h = unless_blank-content (quoted cmd) text c h

pub ok_inj : {a b : Fetched} → ok a ≡ ok b → a ≡ b
ok_inj h = cc

pub failed≢ok : {e : Error} {a : Fetched} → failed e ≢ ok a
failed≢ok h = cc
