-- ===== src/Junos/Rpc.antt =====
-- internal/junos/netconf.go: fetching over NETCONF; internal/junos/junos.go: Fetch.
pub mod Kept
pub mod Closing
use jconfig.Prelude.{
  ℕ, zero, suc, ◌+◌, ◌-◌, ◌*◌, ◌/◌, ◌%◌, ◌≤◌, ◌<◌, Bool, true, false, not, ◌&&◌, ◌||◌, List, [],
  ◌∷◌, ◌++◌, map, ◌≡◌, ◌≢◌, ◌↔◌, ◌⊎◌, inl, inr, refl, sym, ap, ◌∙◌, Option, none, some, is_some,
  arith, keep, any, all, All, all-append, All-append, All-map, length, take, drop, length-append,
  Equality, ◌==◌, nat_equality, list_equality, list_beq, text_eq, nat_beq, ltb, leb, Bool-cases,
  Option-cases, if◌then◌else◌,
}
use jconfig.Prelude.Answer.{Answer, good, bad}
use jconfig.Prelude.Int.{ℤ}
use jconfig.Strings.Basic.{Text, codes}
use jconfig.Strings.Format.{explain}
use jconfig.Config.Types.{Device}
use jconfig.Config.Vendors.{format_set, format_xml, transport_netconf}
use jconfig.Device.Result.{
  Error, plain, staged, stage_connect, stage_fetch, stage_parse, Fetched, Outcome, ok, failed,
}
use jconfig.Device.Result as Result
use jconfig.Driver.Loop.{
  Asked, refused, Configs, complete, stopped, Peer, unless_blank, empty_result, fetch_formats,
}
use jconfig.Junos.Xml.{Xml, raw_element, snippet}
use jconfig.Junos.Metadata.{Clock, apply_version, apply_commit}
use jconfig.Junos.Cli.{element_or, header_commands, fetch_ssh}
use jconfig.Junos.Session.{Wire, Session, rpc, open_netconf, close_netconf}

-- netconfConfigRPC
unfoldable pub netconf_config_rpc : Text → Text
netconf_config_rpc format =
    if format == format_set
    then codes "<get-configuration database=\"committed\" format=\"set\"/>"
    else if format == format_xml
    then codes "<get-configuration database=\"committed\"/>"
    else codes "<get-configuration database=\"committed\" format=\"text\"/>"

-- parseNETCONFConfig
unfoldable pub parse_netconf_config : Xml → Text → Text → Answer Text
unfolding raw_element snippet
parse_netconf_config xml format reply =
    if format == format_set
    then xml.element_text reply (codes "configuration-set")
    else if format == format_xml
    then element_or reply (raw_element reply (codes "configuration"))
    else xml.element_text reply (codes "configuration-text")

abbrev pub asked_for : Text → Text
asked_for format = codes "get-configuration format=" ++ format

abbrev pub parsed_reply : Text → Answer Text → Asked
parsed_reply format (bad e) = refused (staged stage_parse (plain (explain (asked_for format) e)))
parsed_reply format (good text) = unless_blank (asked_for format) text

abbrev pub answered : Xml → Text → Answer Text → Asked
answered xml format (bad e) = refused (staged stage_fetch (plain (explain (asked_for format) e)))
answered xml format (good reply) = parsed_reply format (parse_netconf_config xml format reply)

abbrev pub when_reply : Answer Text → (Text → Fetched → Fetched) → Fetched → Fetched
when_reply (bad e) f res = res
when_reply (good reply) f res = f reply res

abbrev pub text_or_empty : Answer Text → Text
text_or_empty (bad e) = []
text_or_empty (good text) = text

abbrev pub output_of : Xml → Answer Text → Answer Text
output_of xml (bad e) = bad e
output_of xml (good reply) = xml.element_text reply (codes "output")

module _ {S : Type 0} (peer : Peer S) (wire : Wire S) (xml : Xml) (clock : Clock) where
  -- One round of the loop over the formats.
  unfoldable pub ask_netconf : Session S → Text → Asked × Session S
  unfolding netconf_config_rpc parse_netconf_config rpc
  ask_netconf s format =
      let (reply, s') = rpc wire xml s (netconf_config_rpc format) in
      (answered xml format reply, s')

  -- commandText
  unfoldable pub command_text : Session S → Text → Answer Text × Session S
  unfolding rpc
  command_text s cmd =
      let (reply, s') =
        rpc wire xml s (codes "<command format=\"text\">" ++ (cmd ++ codes "</command>")) in
      (output_of xml reply, s')

  unfoldable pub netconf_blocks : Session S → List Text → List Text × Session S
  unfolding command_text
  netconf_blocks s [] = ([], s)
  netconf_blocks s (cmd ∷ cmds) =
      let (out, s') = command_text s cmd in
      let (blocks, s'') = netconf_blocks s' cmds in (text_or_empty out ∷ blocks, s'')

  -- What is best effort: the version, the last commit and the header.
  unfoldable pub describe_netconf : Session S → Fetched → Fetched × Session S
  unfolding apply_version apply_commit netconf_blocks rpc
  describe_netconf s res =
      let (version, s1) = rpc wire xml s (codes "<get-software-information/>") in
      let (commit, s2) = rpc wire xml s1 (codes "<get-commit-information/>") in
      let (blocks, s3) = netconf_blocks s2 header_commands in
      let known = when_reply version (λ out r. apply_version xml r out) res in
      let dated = when_reply commit (λ out r. apply_commit xml clock r out) known in
      (record dated { header_blocks = dated.header_blocks ++ blocks }, s3)

  abbrev pub described : Configs × Session S → Outcome × Session S
  described (stopped e, s) = (failed e, s)
  described (complete configs, s) =
      let (res, s') = describe_netconf s (empty_result configs) in (ok res, s')

  -- The session is closed before the connection.
  abbrev pub on_session : Device → Answer (Session S) × S → Outcome × S
  on_session d (bad e, w) = (failed (staged stage_connect (plain e)), peer.close w)
  on_session d (good s, w) =
      let (outcome, s') = described (fetch_formats ask_netconf s d.formats []) in
      (outcome, peer.close (close_netconf wire xml s'))

  abbrev pub on_connection : Device → Option Error × S → Outcome × S
  on_connection d (some e, s) = (failed e, s)
  on_connection d (none, s) = on_session d (open_netconf wire xml s)

  -- fetchNETCONF
  unfoldable pub fetch_netconf : Device → S → Outcome × S
  unfolding fetch_formats ask_netconf describe_netconf open_netconf close_netconf
  fetch_netconf d s = on_connection d (peer.dial s d d.username)

  -- The function that Fetch gives to device.Run.
  unfoldable pub fetch_transport : Device → S → Outcome × S
  unfolding fetch_netconf fetch_ssh
  fetch_transport d s =
      if d.transport == transport_netconf then fetch_netconf d s else fetch_ssh peer xml clock d s

  -- Fetch, with the time that it took
  unfoldable pub fetch : Device → ℤ → S → Outcome × S
  unfolding fetch_transport Result.run
  fetch d took s = let (outcome, s') = fetch_transport d s in (Result.run d took outcome, s')
