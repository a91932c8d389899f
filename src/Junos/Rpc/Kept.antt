-- ===== src/Junos/Rpc/Kept.antt =====
-- internal/junos: what a successful fetch brings, over NETCONF and over either transport.
use jconfig.Prelude.{
  false, [], ◌≡◌, inl, inr, refl, sym, ap, ◌∙◌, Option, none, some, ◌==◌, nat_equality,
  list_equality, Bool-cases,
}
use jconfig.Prelude.Answer.{Answer, good, bad}
use jconfig.Strings.Basic.{Text, codes}
use jconfig.Strings.Space.{trim_space}
use jconfig.Config.Types.{Device}
use jconfig.Config.Vendors.{supports, transport_netconf}
use jconfig.Device.Result.{Error, Fetched, ok}
use jconfig.Driver.Loop.{
  content, Configs, complete, stopped, Peer, empty_result, fetch_formats, fetch_formats-FormatKept,
  FormatKept, KeepsNoBlank,
}
use jconfig.Driver.Blank.{unless_blank-content, refused≢content, ok_inj, failed≢ok}
use jconfig.Junos.Xml.{Xml}
use jconfig.Junos.Metadata.{Clock, apply_version, apply_commit}
use jconfig.Junos.Fetch.{apply_version-configs, apply_commit-configs, fetch_ssh-FormatKept}
use jconfig.Junos.Session.{Wire, Session, rpc, open_netconf}
use jconfig.Junos.Rpc.{
  netconf_config_rpc, parse_netconf_config, asked_for, parsed_reply, answered, when_reply,
  ask_netconf, describe_netconf, described, on_session, on_connection, fetch_netconf,
  fetch_transport,
}

parsed_reply-content :
    (format : Text) (a : Answer Text) (c : Text)
    → parsed_reply format a ≡ content c
    → (trim_space c == []) ≡ false
parsed_reply-content format (bad e) c h = absurd (refused≢content h)
parsed_reply-content format (good text) c h = unless_blank-content (asked_for format) text c h

answered-content :
    (xml : Xml) (format : Text) (a : Answer Text) (c : Text)
    → answered xml format a ≡ content c
    → (trim_space c == []) ≡ false
answered-content xml format (bad e) c h = absurd (refused≢content h)
answered-content xml format (good reply) c h =
    parsed_reply-content format (parse_netconf_config xml format reply) c h

when_reply-configs :
    (a : Answer Text) (f : Text → Fetched → Fetched) (res : Fetched)
    → ((reply : Text) → (f reply res).configs ≡ res.configs)
    → (when_reply a f res).configs ≡ res.configs
when_reply-configs (bad e) f res h = refl
when_reply-configs (good reply) f res h = h reply

module _ {S : Type 0} (peer : Peer S) (wire : Wire S) (xml : Xml) (clock : Clock) where
  ask_netconf-KeepsNoBlank : KeepsNoBlank (ask_netconf peer wire xml clock)
  unfolding ask_netconf
  ask_netconf-KeepsNoBlank s f c h =
      answered-content xml f (rpc wire xml s (netconf_config_rpc f)).0 c h

  describe_netconf-configs :
      (s : Session S) (res : Fetched)
      → (describe_netconf peer wire xml clock s res).0.configs ≡ res.configs
  unfolding describe_netconf
  describe_netconf-configs s res =
      let (version, s1) = rpc wire xml s (codes "<get-software-information/>") in
      let (commit, s2) = rpc wire xml s1 (codes "<get-commit-information/>") in
      let known = when_reply version (λ out r. apply_version xml r out) res in
      when_reply-configs commit (λ out r. apply_commit xml clock r out) known
        (apply_commit-configs xml clock known)
      ∙ when_reply-configs version (λ out r. apply_version xml r out) res
          (apply_version-configs xml res)

  described-configs :
      (x : Configs × Session S) (res : Fetched)
      → (described peer wire xml clock x).0 ≡ ok res
      → x.0 ≡ complete res.configs
  described-configs (stopped e, s) res h = absurd (failed≢ok h)
  described-configs (complete configs, s) res h =
      ap complete
        (sym (describe_netconf-configs s (empty_result configs)) ∙ ap (λ r. r.configs) (ok_inj h))

  on_session-FormatKept :
      (d : Device) (r : Answer (Session S) × S) (res : Fetched) (f : Text)
      → (on_session peer wire xml clock d r).0 ≡ ok res
      → FormatKept f (supports d.formats f) [] res.configs
  on_session-FormatKept d (bad e, w) res f h = absurd (failed≢ok h)
  on_session-FormatKept d (good s, w) res f h =
      fetch_formats-FormatKept (ask_netconf peer wire xml clock) s d.formats [] res.configs f
        ask_netconf-KeepsNoBlank
        (described-configs (fetch_formats (ask_netconf peer wire xml clock) s d.formats []) res h)

  on_connection-FormatKept :
      (d : Device) (r : Option Error × S) (res : Fetched) (f : Text)
      → (on_connection peer wire xml clock d r).0 ≡ ok res
      → FormatKept f (supports d.formats f) [] res.configs
  on_connection-FormatKept d (some e, s) res f h = absurd (failed≢ok h)
  on_connection-FormatKept d (none, s) res f h =
      on_session-FormatKept d (open_netconf wire xml s) res f h

  fetch_netconf-FormatKept :
      (d : Device) (s : S) (res : Fetched) (f : Text)
      → (fetch_netconf peer wire xml clock d s).0 ≡ ok res
      → FormatKept f (supports d.formats f) [] res.configs
  unfolding fetch_netconf
  fetch_netconf-FormatKept d s res f h =
      on_connection-FormatKept d (peer.dial s d d.username) res f h

  -- If a fetch of a Junos device succeeds, over the SSH CLI or over NETCONF, each requested format
  -- has a configuration that is not blank, and no other format has one.
  pub fetch_transport-FormatKept :
      (d : Device) (s s' : S) (res : Fetched) (f : Text)
      → fetch_transport peer wire xml clock d s ≡ (ok res, s')
      → FormatKept f (supports d.formats f) [] res.configs
  unfolding fetch_transport
  fetch_transport-FormatKept d s s' res f h = elim (Bool-cases (d.transport == transport_netconf)) [
    | inl netconf ↦ fetch_netconf-FormatKept d s res f (ap (λ r. r.0) (rw netconf at h))
    | inr cli ↦ fetch_ssh-FormatKept peer xml clock d s s' res f (rw cli at h)
  ]
