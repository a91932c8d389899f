-- ===== src/Junos/Fetch.antt =====
-- internal/junos: what a successful fetch over the SSH CLI brings.
use jconfig.Prelude.{
  zero, suc, false, [], ◌≡◌, refl, sym, ap, ◌∙◌, Option, none, some, ◌==◌, nat_equality,
  list_equality,
}
use jconfig.Prelude.Int.{ℤ, pos, negsuc}
use jconfig.Prelude.Time.{Time}
use jconfig.Strings.Number.{parse_int}
use jconfig.Strings.Basic.{Text, codes}
use jconfig.Strings.Space.{trim_space}
use jconfig.Config.Types.{Device}
use jconfig.Config.Vendors.{supports}
use jconfig.Device.Result.{Error, Fetched, ok}
use jconfig.Driver.Loop.{
  content, Configs, complete, stopped, Output, output, lost, Peer, empty_result, fetch_formats,
  fetch_formats-FormatKept, FormatKept, KeepsNoBlank,
}
use jconfig.Driver.Blank.{parsed-content, refused≢content, ok_inj, failed≢ok}
use jconfig.Junos.Xml.{Xml, SoftwareInformation, CommitEntry}
use jconfig.Junos.Metadata.{
  Clock, apply_version, with_version, apply_commit, with_commit, or_date, parsed_date, best_commit,
  history_of,
}
use jconfig.Junos.Cli.{
  answered, parse_cli_config, cli_config_command, ask_cli, describe, described, when_output,
  on_connection, fetch_ssh,
}

answered-content :
    (xml : Xml) (format : Text) (o : Output) (c : Text)
    → answered xml format o ≡ content c
    → (trim_space c == []) ≡ false
answered-content xml format (lost e) c h = absurd (refused≢content h)
answered-content xml format (output out) c h =
    parsed-content (cli_config_command format) (parse_cli_config xml format out) c h

-- The metadata leaves the configurations.
pub apply_version-configs :
    (xml : Xml) (res : Fetched) (raw : Text) → (apply_version xml res raw).configs ≡ res.configs
unfolding apply_version
apply_version-configs xml res raw = go (xml.software_information raw)
  where
    go : (o : Option SoftwareInformation) → (with_version o res).configs ≡ res.configs
    go none = refl
    go (some si) = refl

parsed_date-configs : (o : Option Time) (res : Fetched) → (parsed_date o res).configs ≡ res.configs
parsed_date-configs none res = refl
parsed_date-configs (some t) res = refl

or_date-configs :
    (clock : Clock) (h : CommitEntry) (o : Option ℤ) (res : Fetched)
    → (or_date clock h o res).configs ≡ res.configs
or_date-configs clock h (some (pos (suc n))) res = refl
or_date-configs clock h (some (pos zero)) res =
    parsed_date-configs (clock.parse_time (trim_space h.date_time)) res
or_date-configs clock h (some (negsuc n)) res =
    parsed_date-configs (clock.parse_time (trim_space h.date_time)) res
or_date-configs clock h none res =
    parsed_date-configs (clock.parse_time (trim_space h.date_time)) res

pub apply_commit-configs :
    (xml : Xml) (clock : Clock) (res : Fetched) (raw : Text)
    → (apply_commit xml clock res raw).configs ≡ res.configs
unfolding apply_commit
apply_commit-configs xml clock res raw =
    go (best_commit none (history_of (xml.commit_information raw)))
  where
    go : (o : Option CommitEntry) → (with_commit clock o res).configs ≡ res.configs
    go none = refl
    go (some h) =
        or_date-configs clock h (parse_int (trim_space h.seconds))
          (record res { last_commit_by = trim_space h.user })

when_output-configs :
    (o : Output) (f : Text → Fetched → Fetched) (res : Fetched)
    → ((out : Text) → (f out res).configs ≡ res.configs)
    → (when_output o f res).configs ≡ res.configs
when_output-configs (lost e) f res h = refl
when_output-configs (output out) f res h = h out

module _ {S : Type 0} (peer : Peer S) (xml : Xml) (clock : Clock) where
  ask_cli-KeepsNoBlank : KeepsNoBlank (ask_cli peer xml clock)
  unfolding ask_cli
  ask_cli-KeepsNoBlank s f c h = answered-content xml f (peer.run s (cli_config_command f)).0 c h

  describe-configs :
      (s : S) (res : Fetched) → (describe peer xml clock s res).0.configs ≡ res.configs
  unfolding describe
  describe-configs s res =
      let (version, s1) = peer.run s (codes "show version | display xml | no-more") in
      let (commit, s2) = peer.run s1 (codes "show system commit | display xml | no-more") in
      let known = when_output version (λ out r. apply_version xml r out) res in
      when_output-configs commit (λ out r. apply_commit xml clock r out) known
        (apply_commit-configs xml clock known)
      ∙ when_output-configs version (λ out r. apply_version xml r out) res
          (apply_version-configs xml res)

  described-configs :
      (x : Configs × S) (res : Fetched)
      → (described peer xml clock x).0 ≡ ok res
      → x.0 ≡ complete res.configs
  described-configs (stopped e, s) res h = absurd (failed≢ok h)
  described-configs (complete configs, s) res h =
      ap complete (sym (describe-configs s (empty_result configs)) ∙ ap (λ r. r.configs) (ok_inj h))

  on_connection-FormatKept :
      (d : Device) (r : Option Error × S) (res : Fetched) (f : Text)
      → (on_connection peer xml clock d r).0 ≡ ok res
      → FormatKept f (supports d.formats f) [] res.configs
  on_connection-FormatKept d (some e, s) res f h = absurd (failed≢ok h)
  on_connection-FormatKept d (none, s) res f h =
      fetch_formats-FormatKept (ask_cli peer xml clock) s d.formats [] res.configs f
        ask_cli-KeepsNoBlank
        (described-configs (fetch_formats (ask_cli peer xml clock) s d.formats []) res h)

  -- If a fetch over the SSH CLI succeeds, each requested format has a configuration that is not
  -- blank, and no other format has one.
  pub fetch_ssh-FormatKept :
      (d : Device) (s s' : S) (res : Fetched) (f : Text)
      → fetch_ssh peer xml clock d s ≡ (ok res, s')
      → FormatKept f (supports d.formats f) [] res.configs
  unfolding fetch_ssh
  fetch_ssh-FormatKept d s s' res f h =
      on_connection-FormatKept d (peer.dial s d d.username) res f (ap (λ r. r.0) h)
