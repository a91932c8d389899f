-- ===== src/Rostest/Server.antt =====
-- internal/rostest/server.go: the state of the stand-in device, its answers to logins, to commands
-- and to the requests of a session. A request other than exec is one thing here.
use jconfig.Prelude.{
  ℕ, Bool, true, false, not, ◌&&◌, List, [], ◌∷◌, ◌++◌, Option, none, some, take, ◌==◌,
  nat_equality, list_equality, if◌then◌else◌,
}
use jconfig.Strings.Basic.{Text, codes, contains, index, replace_all}
use jconfig.Strings.Space.{trim_space}
use jconfig.Rostest.Canned.{
  user_name, pass_word, export_body, sensitive_body, terse_body, verbose_body, with_banner,
  resource_text, routerboard_text, license_text, identity_text,
}

pub record Server : Type 0 where
  pub fail_command : Text
  pub export_override : Text
  pub logins : List Text

unfoldable pub set_fail_command : Text → Server → Server
set_fail_command cmd f = record f { fail_command = cmd }

unfoldable pub set_export : Text → Server → Server
set_export s f = record f { export_override = s }

unfoldable pub record_login : Text → Server → Server
record_login user f = record f { logins = f.logins ++ (user ∷ []) }

-- export
unfoldable pub compact_export : Server → Text
compact_export f =
    if not (f.export_override == []) then f.export_override else with_banner export_body

abbrev pub before : Text → Option ℕ → Text
before user none = user
before user (some i) = take i user

-- account: the login name up to its flags.
unfoldable pub account : Text → Text
unfolding index
account user = before user (index (codes "+") user)

-- The two callbacks of serve: whether the login is let in, and the login is on record.
unfoldable pub password_callback : Text → Text → Server → Bool × Server
unfolding record_login account
password_callback user pass f =
    (account user == user_name && pass == pass_word, record_login user f)

unfoldable pub public_key_callback : Text → Server → Bool × Server
unfolding record_login account
public_key_callback user f = (account user == user_name, record_login user f)

abbrev pub bad_command : Text → Text
bad_command cmd = codes "bad command name " ++ (cmd ++ codes " (line 1 column 1)\n")

-- The switch of runCommand on the command without its flag.
unfoldable pub answer : Server → Text → Bool → Text → Text
unfolding compact_export
answer f cmd sensitive base =
    if base == codes "/export"
    then if sensitive then with_banner sensitive_body else compact_export f
    else if base == codes "/export verbose"
    then with_banner verbose_body
    else if base == codes "/export terse"
    then with_banner terse_body
    else if base == codes "/system resource print"
    then resource_text
    else if base == codes "/system routerboard print"
    then routerboard_text
    else if base == codes "/system license print"
    then license_text
    else if base == codes "/system identity print"
    then identity_text
    else bad_command cmd

abbrev pub show_sensitive_flag : Text
show_sensitive_flag = codes "show-sensitive"

abbrev pub answer_trimmed : Server → Text → Text × ℕ
answer_trimmed f cmd =
    if not (f.fail_command == []) && contains f.fail_command cmd then (bad_command cmd, 0) else (
      answer f cmd (contains show_sensitive_flag cmd)
          (trim_space (replace_all cmd show_sensitive_flag [])),
      0,
    )

-- runCommand
unfoldable pub run_command : Server → Text → Text × ℕ
unfolding trim_space contains replace_all answer
run_command f cmd = answer_trimmed f (trim_space cmd)

pub data ChannelRequest : Type 0 where
  exec : Text → ChannelRequest
  other : ChannelRequest

-- What a session sends back.
pub data Sent : Type 0 where
  reply : Bool → Sent
  wrote : Text → Sent
  exited : ℕ → Sent
  channel_closed : Sent

-- handleSession: the first exec request is answered, and ends the session.
unfoldable pub handle_session : Server → List ChannelRequest → List Sent
unfolding run_command
handle_session f [] = []
handle_session f (other ∷ reqs) = reply false ∷ handle_session f reqs
handle_session f (exec cmd ∷ reqs) =
    let (out, code) = run_command f cmd in
    reply true ∷ wrote out ∷ exited code ∷ channel_closed ∷ []
