-- ===== src/Junostest/Server.antt =====
-- internal/junostest/server.go: the state of the stand-in device, its answers to logins and to
-- commands.
use jconfig.Prelude.{
  ℕ, Bool, not, ◌&&◌, [], ◌∷◌, ◌++◌, ◌==◌, nat_equality, list_equality, if◌then◌else◌,
}
use jconfig.Strings.Basic.{Text, codes, has_prefix, contains, printed}
use jconfig.Strings.Space.{trim_space}
use jconfig.Junostest.Canned.{
  user, pass, text_config, set_config, xml_config, version_xml, version_text, inventory_text,
  license_text, virtual_chassis_text, commit_xml,
}

pub record Server : Type 0 where
  pub fail_command : Text
  pub no_netconf : Bool
  pub text_override : Text

unfoldable pub set_fail_command : Text → Server → Server
set_fail_command cmd f = record f { fail_command = cmd }

unfoldable pub set_no_netconf : Bool → Server → Server
set_no_netconf v f = record f { no_netconf = v }

unfoldable pub set_text : Text → Server → Server
set_text s f = record f { text_override = s }

-- text
unfoldable pub served_text : Server → Text
served_text f = if not (f.text_override == []) then f.text_override else text_config

-- The two callbacks of serve: whether the login is let in.
unfoldable pub password_callback : Text → Text → Bool
password_callback name secret = name == user && secret == pass

unfoldable pub public_key_callback : Text → Bool
public_key_callback name = name == user

abbrev pub xml_document : Text
xml_document =
    printed (
      "<?xml version=\"1.0\" encoding=\"us-ascii\"?>"
      ∷ "<rpc-reply xmlns:junos=\"http://xml.juniper.net/junos/21.4R0/junos\">" ∷ [])
    ++ (xml_config ++ codes "\n</rpc-reply>")

-- The switch of runCommand.
unfoldable pub command_output : Server → Text → Text
unfolding has_prefix contains served_text
command_output f cmd =
    if has_prefix (codes "show configuration | display set") cmd
    then set_config
    else if has_prefix (codes "show configuration | display xml") cmd
    then xml_document
    else if has_prefix (codes "show configuration") cmd
    then served_text f
    else if has_prefix (codes "show version") cmd && contains (codes "display xml") cmd
    then version_xml
    else if has_prefix (codes "show version") cmd
    then version_text
    else if has_prefix (codes "show system commit") cmd
    then commit_xml
    else if has_prefix (codes "show chassis hardware") cmd
    then inventory_text
    else if has_prefix (codes "show system license") cmd
    then license_text
    else if has_prefix (codes "show virtual-chassis") cmd
    then virtual_chassis_text
    else codes "error: unknown command: " ++ (cmd ++ codes "\n")

abbrev pub output_trimmed : Server → Text → Text × ℕ
output_trimmed f cmd =
    if not (f.fail_command == []) && contains f.fail_command cmd
    then (codes "error: syntax error, expecting <command>\n", 0)
    else (command_output f cmd, 0)

-- runCommand
unfoldable pub run_command : Server → Text → Text × ℕ
unfolding trim_space command_output contains
run_command f cmd = output_trimmed f (trim_space cmd)
