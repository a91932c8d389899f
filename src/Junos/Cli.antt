-- ===== src/Junos/Cli.antt =====
-- internal/junos/ssh.go: fetching over the SSH CLI.
use jconfig.Prelude.{
  ◌||◌, List, [], ◌∷◌, ◌++◌, map, Option, none, some, ◌==◌, nat_equality, list_equality,
  if◌then◌else◌,
}
use jconfig.Prelude.Answer.{Answer, good, bad}
use jconfig.Strings.Basic.{Text, codes, has_prefix, contains, split}
use jconfig.Strings.Space.{trim_space}
use jconfig.Config.Types.{Device}
use jconfig.Config.Vendors.{format_set, format_xml}
use jconfig.Device.Result.{Error, staged, stage_fetch, Fetched, Outcome, ok, failed}
use jconfig.Driver.Loop.{
  Asked, refused, Configs, complete, stopped, Output, output, lost, Peer, parsed, empty_result,
  fetch_formats,
}
use jconfig.Junos.Xml.{Xml, check_rpc_error, raw_element, snippet, to_lower}
use jconfig.Junos.Metadata.{Clock, apply_version, apply_commit}

-- cliTextError: what one line that is not blank says. strings.ToLower is taken on ASCII.
unfoldable pub banner : Text → Option Text
unfolding has_prefix contains
banner line =
    let low = map to_lower line in
    if has_prefix (codes "error:") low
    then some line
    else if contains (codes "unknown command") low
        || contains (codes "syntax error") low
        || contains (codes "permission denied") low
    then some (line ++ codes " (is the login class allowed to run \"show configuration\"?)")
    else none

unfoldable pub banner_of : List Text → Option Text
unfolding trim_space banner
banner_of [] = some (codes "device returned no output")
banner_of (l ∷ ls) = if trim_space l == [] then banner_of ls else banner (trim_space l)

unfoldable pub cli_text_error : Text → Option Text
unfolding banner_of split
cli_text_error out = banner_of (split b'\n' out)

abbrev pub text_unless : Option Text → Text → Text
text_unless none out = out
text_unless (some e) out = []

unfoldable pub cli_text : Text → Text
unfolding cli_text_error
cli_text out = text_unless (cli_text_error out) out

unfoldable pub cli_config_command : Text → Text
cli_config_command format =
    if format == format_set
    then codes "show configuration | display set | no-more"
    else if format == format_xml
    then codes "show configuration | display xml | no-more"
    else codes "show configuration | no-more"

abbrev pub answer_unless : Option Text → Answer Text → Answer Text
answer_unless none a = a
answer_unless (some e) a = bad e

abbrev pub element_or : Text → Option Text → Answer Text
element_or out none = bad (codes "no <configuration> element in reply: " ++ snippet out)
element_or out (some raw) = good raw

unfoldable pub parse_cli_config : Xml → Text → Text → Answer Text
unfolding check_rpc_error raw_element snippet cli_text_error
parse_cli_config xml format out =
    if format == format_xml
    then answer_unless (check_rpc_error xml out)
        (element_or out (raw_element out (codes "configuration")))
    else answer_unless (cli_text_error out) (good out)

abbrev pub answered : Xml → Text → Output → Asked
answered xml format (lost e) = refused (staged stage_fetch e)
answered xml format (output out) =
    parsed (cli_config_command format) (parse_cli_config xml format out)

-- The commands of the header block.
abbrev pub header_commands : List Text
header_commands =
    codes "show version"
    ∷ codes "show chassis hardware"
    ∷ codes "show system license"
    ∷ codes "show virtual-chassis"
    ∷ []

abbrev pub block_of : Output → Text
block_of (lost e) = []
block_of (output out) = cli_text out

abbrev pub when_output : Output → (Text → Fetched → Fetched) → Fetched → Fetched
when_output (lost e) f res = res
when_output (output out) f res = f out res

module _ {S : Type 0} (peer : Peer S) (xml : Xml) (clock : Clock) where
  -- One round of the loop over the formats.
  unfoldable pub ask_cli : S → Text → Asked × S
  unfolding cli_config_command parse_cli_config
  ask_cli s format =
      let (out, s') = peer.run s (cli_config_command format) in (answered xml format out, s')

  unfoldable pub header_blocks_of : S → List Text → List Text × S
  unfolding cli_text
  header_blocks_of s [] = ([], s)
  header_blocks_of s (cmd ∷ cmds) =
      let (out, s') = peer.run s (cmd ++ codes " | no-more") in
      let (blocks, s'') = header_blocks_of s' cmds in (block_of out ∷ blocks, s'')

  -- What is best effort: the version, the last commit and the header.
  unfoldable pub describe : S → Fetched → Fetched × S
  unfolding apply_version apply_commit header_blocks_of
  describe s res =
      let (version, s1) = peer.run s (codes "show version | display xml | no-more") in
      let (commit, s2) = peer.run s1 (codes "show system commit | display xml | no-more") in
      let (blocks, s3) = header_blocks_of s2 header_commands in
      let known = when_output version (λ out r. apply_version xml r out) res in
      let dated = when_output commit (λ out r. apply_commit xml clock r out) known in
      (record dated { header_blocks = dated.header_blocks ++ blocks }, s3)

  abbrev pub described : Configs × S → Outcome × S
  described (stopped e, s) = (failed e, s)
  described (complete configs, s) =
      let (res, s') = describe s (empty_result configs) in (ok res, s')

  abbrev pub on_connection : Device → Option Error × S → Outcome × S
  on_connection d (some e, s) = (failed e, s)
  on_connection d (none, s) =
      let (outcome, s') = described (fetch_formats ask_cli s d.formats []) in
      (outcome, peer.close s')

  -- fetchSSH
  unfoldable pub fetch_ssh : Device → S → Outcome × S
  unfolding fetch_formats ask_cli describe
  fetch_ssh d s = on_connection d (peer.dial s d d.username)
