-- ===== src/Tests/JunostestTests.antt =====
-- internal/junostest: runs, and the theorem at a concrete device.
use jconfig.Prelude.{
  true, false, List, [], ◌∷◌, ◌≡◌, refl, some, All, nat_equality, list_equality, list_beq,
}
use jconfig.Strings.Basic.{Text, codes}
use jconfig.Junos.Netconf.{received, nothing}
use jconfig.Junostest.Canned.{version_text, set_config}
use jconfig.Junostest.Server.{
  Server, set_fail_command, set_no_netconf, set_text, run_command, password_callback,
  public_key_callback,
}
use jconfig.Junostest.Netconf.{
  exec, subsystem, other, reply, wrote, exited, channel_closed, escape, wrap_reply, framed_next,
  netconf_loop, handle_session, server_hello,
}
use jconfig.Junostest.Message.{IsOneMessage, netconf_loop-IsOneMessage}

-- A device whose configuration holds what ends a message.
abbrev stand_in : Server
stand_in =
    set_text (codes "a]]>]]>b\n")
      (record { fail_command = []; no_netconf = false; text_override = [] })

abbrev client : List Text
client =
    codes "<hello/>"
    ∷ codes "<rpc><get-configuration format=\"text\"/></rpc>"
    ∷ codes "<rpc><close-session/></rpc>"
    ∷ codes "<rpc><get-configuration/></rpc>"
    ∷ []

escape_runs : escape (codes "a]]>&<") ≡ codes "a]]&gt;&amp;&lt;"
unfolding escape codes
escape_runs = refl

loop_runs :
    netconf_loop stand_in client
    ≡ server_hello
      ∷ wrap_reply (codes "<configuration-text>a]]&gt;]]&gt;b\n</configuration-text>")
      ∷ wrap_reply (codes "<ok/>")
      ∷ []
unfolding netconf_loop codes wrap_reply set_text list_beq
loop_runs = refl

-- A delimiter cut in two by the reads, and the start of the next message.
next_runs :
    framed_next (codes "ab]]>") (nothing ∷ received b']' (codes "]>cd") ∷ nothing ∷ [])
    ≡ some (codes "ab", (codes "cd", nothing ∷ []))
unfolding framed_next codes
next_runs = refl

command_runs : run_command stand_in (codes " show version | no-more ") ≡ (version_text, 0)
unfolding run_command codes set_text list_beq
command_runs = refl

failing_runs :
    run_command (set_fail_command (codes "version") stand_in) (codes "show version")
    ≡ (codes "error: syntax error, expecting <command>\n", 0)
unfolding run_command codes set_text set_fail_command list_beq
failing_runs = refl

-- Without NETCONF the subsystem is refused, and the session goes on.
session_runs :
    handle_session (set_no_netconf true stand_in) client (
      other
      ∷ subsystem (codes "netconf")
      ∷ exec (codes "show configuration | display set | no-more")
      ∷ [])
    ≡ reply false ∷ reply false ∷ reply true ∷ wrote set_config ∷ exited 0 ∷ channel_closed ∷ []
unfolding handle_session codes set_text set_no_netconf list_beq
session_runs = refl

login_runs :
    (password_callback (codes "backup") (codes "s3cret") ≡ true)
    × (public_key_callback (codes "backup+ct") ≡ false)
unfolding password_callback public_key_callback codes list_beq
login_runs = (refl, refl)

netconf_loop-IsOneMessage_example : All IsOneMessage (netconf_loop stand_in client)
netconf_loop-IsOneMessage_example = netconf_loop-IsOneMessage stand_in client
