-- ===== src/Driver/Loop.antt =====
-- The loop over a device's formats, as internal/junos/ssh.go, netconf.go and
-- internal/routeros/routeros.go write it: the first format that cannot be fetched ends it.
use jconfig.Prelude.{
  Bool, true, false, ◌||◌, List, [], ◌∷◌, ◌++◌, ◌≡◌, ◌≢◌, inl, inr, refl, sym, ap, ◌∙◌, Option,
  some, any, ◌==◌, nat_equality, list_equality, Bool-cases, if◌then◌else◌,
}
use jconfig.Prelude.Dict.{Dict, get, put, get-put}
use jconfig.Strings.Format.{quoted}
use jconfig.Strings.Basic.{Text, codes}
use jconfig.Strings.Space.{trim_space}
use jconfig.Config.Vendors.{supports}
use jconfig.Config.Types.{Device}
use jconfig.Device.Result.{Error, plain, staged, stage_parse, Fetched}
use jconfig.Prelude.Answer.{Answer, good, bad}
use jconfig.Prelude.Int.{pos}
use jconfig.Prelude.Time.{zero_time}

-- What became of one format.
pub data Asked : Type 0 where
  content : Text → Asked
  refused : Error → Asked

pub data Configs : Type 0 where
  complete : Dict Text Text → Configs
  stopped : Error → Configs

-- The output of a command on an SSH connection, or its error.
pub data Output : Type 0 where
  output : Text → Output
  lost : Error → Output

-- The connection that internal/sshx makes: dialling with a login name, running a command, closing.
pub record Peer (S : Type 0) : Type 0 where
  pub dial : S → Device → Text → Option Error × S
  pub run : S → Text → Output × S
  pub close : S → S

-- The check that ends every round.
abbrev pub unless_blank : Text → Text → Asked
unless_blank what text =
    if trim_space text == []
    then refused
        (staged stage_parse (plain (what ++ codes ": device returned an empty configuration")))
    else content text

abbrev pub parsed : Text → Answer Text → Asked
parsed cmd (bad e) = refused (staged stage_parse (plain (quoted cmd ++ (codes ": " ++ e))))
parsed cmd (good text) = unless_blank (quoted cmd) text

-- The result before anything is fetched, with the configurations that the loop leaves.
abbrev pub empty_result : Dict Text Text → Fetched
empty_result configs = record {
  configs = configs;
  hostname = [];
  model = [];
  os_version = [];
  header_blocks = [];
  last_commit = zero_time;
  last_commit_by = [];
  took = pos 0;
}

-- What is known of one format after the loop.
abbrev pub FormatKept : Text → Bool → Dict Text Text → Dict Text Text → Type 0
FormatKept f true configs out = (c : Text) × (get f out ≡ some c) × ((trim_space c == []) ≡ false)
FormatKept f false configs out = get f out ≡ get f configs

complete_inj : {a b : Dict Text Text} → complete a ≡ complete b → a ≡ b
complete_inj h = cc

module _ {S : Type 0} (ask : S → Text → Asked × S) where
  unfoldable pub fetch_formats : S → List Text → Dict Text Text → Configs × S
  fetch_formats s [] configs = (complete configs, s)
  fetch_formats s (f ∷ fs) configs = elim (ask s f).0 [
    | content c ↦ fetch_formats (ask s f).1 fs (put f c configs)
    | refused e ↦ (stopped e, (ask s f).1)
  ]

  -- No round keeps a blank configuration.
  abbrev pub KeepsNoBlank : Type 0
  KeepsNoBlank = (s : S) (f c : Text) → (ask s f).0 ≡ content c → (trim_space c == []) ≡ false

  pub fetched_one :
      (s : S) (f c : Text) (fs : List Text) (configs : Dict Text Text)
      → (ask s f).0 ≡ content c
      → fetch_formats s (f ∷ fs) configs ≡ fetch_formats (ask s f).1 fs (put f c configs)
  unfolding fetch_formats
  fetched_one s f c fs configs h = rw (h, fetch_formats) refl

  refused_one :
      (s : S) (f : Text) (e : Error) (fs : List Text) (configs out : Dict Text Text)
      → (ask s f).0 ≡ refused e
      → (fetch_formats s (f ∷ fs) configs).0 ≢ complete out
  unfolding fetch_formats
  refused_one s f e fs configs out h k =
      absurd (let no_more : stopped e ≡ complete out = rw (h, fetch_formats) at k in cc)

  -- If the loop goes through, the first format was fetched and the rest of the loop went through.
  went_on :
      (s : S) (f : Text) (fs : List Text) (configs out : Dict Text Text)
      → (fetch_formats s (f ∷ fs) configs).0 ≡ complete out
      → (c : Text) × ((ask s f).0 ≡ content c)
        × ((fetch_formats (ask s f).1 fs (put f c configs)).0 ≡ complete out)
  went_on s f fs configs out h = go (ask s f).0 refl
    where
      go :
          (a : Asked)
          → (ask s f).0 ≡ a
          → (c : Text) × ((ask s f).0 ≡ content c)
            × ((fetch_formats (ask s f).1 fs (put f c configs)).0 ≡ complete out)
      go (content c) e = (c, e, sym (ap (λ r. r.0) (fetched_one s f c fs configs e)) ∙ h)
      go (refused x) e = absurd (refused_one s f x fs configs out e h)

  fetch_formats-kept :
      (s : S) (fs : List Text) (configs out : Dict Text Text) (f c : Text)
      → KeepsNoBlank
      → get f configs ≡ some c
      → (trim_space c == []) ≡ false
      → (fetch_formats s fs configs).0 ≡ complete out
      → FormatKept f true configs out
  fetch_formats-kept s [] configs out f c k h n e =
      let same : complete configs ≡ complete out = unfold fetch_formats in e in
      (c, ap (get f) (sym (complete_inj same)) ∙ h, n)
  fetch_formats-kept s (g ∷ fs) configs out f c k h n e =
      let (c', asked, later) = went_on s g fs configs out e in
      elim (Bool-cases (g == f)) [
        | inl same ↦
            fetch_formats-kept (ask s g).1 fs (put g c' configs) out f c' k
              (get-put g f c' configs ∙ (rw same refl)) (k s g c' asked) later
        | inr other ↦
            fetch_formats-kept (ask s g).1 fs (put g c' configs) out f c k
              (get-put g f c' configs ∙ (rw other h)) n later
      ]

  first_or_later :
      (g : Text) (fs : List Text) (configs out : Dict Text Text) (f c : Text)
      → (trim_space c == []) ≡ false
      → (s : S) → KeepsNoBlank
      → (fetch_formats s fs (put g c configs)).0 ≡ complete out
      → FormatKept f (supports fs f) (put g c configs) out
      → FormatKept f (supports (g ∷ fs) f) configs out
  unfolding supports any
  first_or_later g fs configs out f c n s k later rest = go (supports fs f) (g == f) refl refl rest
    where
      go :
          (b d : Bool)
          → supports fs f ≡ b
          → (g == f) ≡ d
          → FormatKept f b (put g c configs) out
          → FormatKept f (d || b) configs out
      go true true eb ed r = r
      go true false eb ed r = r
      go false true eb ed r =
          fetch_formats-kept s fs (put g c configs) out f c k (get-put g f c configs ∙ (rw ed refl))
            n later
      go false false eb ed r = r ∙ get-put g f c configs ∙ (rw ed refl)

  -- If the loop goes through, every requested format has a configuration that is not blank, and the
  -- others are as before.
  pub fetch_formats-FormatKept :
      (s : S) (fs : List Text) (configs out : Dict Text Text) (f : Text)
      → KeepsNoBlank
      → (fetch_formats s fs configs).0 ≡ complete out
      → FormatKept f (supports fs f) configs out
  fetch_formats-FormatKept s [] configs out f k e =
      unfold supports any fetch_formats in
      (let same : complete configs ≡ complete out = e in ap (get f) (sym (complete_inj same)))
  fetch_formats-FormatKept s (g ∷ fs) configs out f k e =
      let (c, asked, later) = went_on s g fs configs out e in
      let rest = fetch_formats-FormatKept (ask s g).1 fs (put g c configs) out f k later in
      first_or_later g fs configs out f c (k s g c asked) (ask s g).1 k later rest
