-- ===== src/Junostest/Netconf.antt =====
-- internal/junostest/server.go: the answers of the stand-in device to NETCONF messages and to the
-- requests of a session.
use jconfig.Prelude.{
  ℕ, ◌+◌, Bool, true, false, not, ◌||◌, List, [], ◌∷◌, ◌++◌, map, Option, none, some, length, take,
  drop, ◌==◌, nat_equality, list_equality, if◌then◌else◌,
}
use jconfig.Strings.Basic.{Text, codes, contains, index, printed}
use jconfig.Junos.Netconf.{delimiter, ReadEvent, received, nothing, fault}
use jconfig.Junostest.Canned.{
  set_config, xml_config, version_xml, version_text, inventory_text, license_text,
  virtual_chassis_text, commit_xml,
}
use jconfig.Junostest.Server.{Server, served_text, run_command}

-- escape, with the replacer of xmlEscape
abbrev pub escape_byte : ℕ → Text
escape_byte c =
    if c == b'&'
    then codes "&amp;"
    else if c == b'<'
    then codes "&lt;"
    else if c == b'>'
    then codes "&gt;"
    else c ∷ []

unfoldable pub escape : Text → Text
escape [] = []
escape (c ∷ s) = escape_byte c ++ escape s

unfoldable pub wrap_reply : Text → Text
wrap_reply body =
    codes "<?xml version=\"1.0\" encoding=\"UTF-8\"?>\n"
    ++ (codes "<rpc-reply xmlns:junos=\"http://xml.juniper.net/junos/21.4R0/junos\">"
        ++ (body ++ codes "</rpc-reply>\n]]>]]>\n"))

abbrev pub server_hello : Text
server_hello = printed (
    "<?xml version=\"1.0\" encoding=\"UTF-8\"?>"
    ∷ "<hello xmlns=\"urn:ietf:params:xml:ns:netconf:base:1.0\">" ∷ "<capabilities>"
    ∷ "<capability>urn:ietf:params:netconf:base:1.0</capability>"
    ∷ "<capability>http://xml.juniper.net/netconf/junos/1.0</capability>" ∷ "</capabilities>"
    ∷ "<session-id>42</session-id>" ∷ "</hello>" ∷ "]]>]]>" ∷ [])

unfoldable pub configuration_body : Server → Text → Text
unfolding contains escape served_text
configuration_body f msg =
    if contains (codes "format=\"set\"") msg
    then codes "<configuration-set>" ++ (escape set_config ++ codes "</configuration-set>")
    else if contains (codes "format=\"text\"") msg
    then codes "<configuration-text>" ++ (escape (served_text f) ++ codes "</configuration-text>")
    else xml_config

unfoldable pub operational_text : Text → Text
unfolding contains
operational_text msg =
    if contains (codes "show version") msg
    then version_text
    else if contains (codes "show chassis hardware") msg
    then inventory_text
    else if contains (codes "show system license") msg
    then license_text
    else if contains (codes "show virtual-chassis") msg
    then virtual_chassis_text
    else []

-- What the loop writes for a message that is neither a hello nor the end of the session.
unfoldable pub rpc_reply : Server → Text → Text
unfolding contains wrap_reply escape configuration_body operational_text
rpc_reply f msg =
    if contains (codes "<get-configuration") msg
    then wrap_reply (configuration_body f msg)
    else if contains (codes "<get-software-information") msg
    then version_xml ++ codes "\n]]>]]>\n"
    else if contains (codes "<get-commit-information") msg
    then commit_xml ++ codes "\n]]>]]>\n"
    else if contains (codes "<command") msg
    then wrap_reply (codes "<output>" ++ (escape (operational_text msg) ++ codes "</output>"))
    else wrap_reply (
        codes "<rpc-error><error-severity>error</error-severity>"
        ++ codes "<error-message>unsupported rpc</error-message></rpc-error>")

-- framed.next: the next message, what is buffered behind it and the Reads not asked for yet, or
-- nothing if the connection ends first.
abbrev pub framed_at :
    Option ℕ
    → Text
    → List ReadEvent
    → Option (Text × (Text × List ReadEvent))
    → Option (Text × (Text × List ReadEvent))
framed_at none buffer events later = later
framed_at (some i) buffer events later =
    some (take i buffer, (drop (i + length delimiter) buffer, events))

unfoldable pub framed_next : Text → List ReadEvent → Option (Text × (Text × List ReadEvent))
unfolding index
framed_next buffer [] = framed_at (index delimiter buffer) buffer [] none
framed_next buffer (received c s ∷ events) =
    let later = framed_next (buffer ++ (c ∷ s)) events in
    framed_at (index delimiter buffer) buffer (received c s ∷ events) later
framed_next buffer (nothing ∷ events) =
    let later = framed_next buffer events in
    framed_at (index delimiter buffer) buffer (nothing ∷ events) later
framed_next buffer (fault reason e ∷ events) =
    framed_at (index delimiter buffer) buffer (fault reason e ∷ events) none

-- The rounds of netconfLoop over the messages of the client, and what each writes.
unfoldable pub netconf_rounds : Server → List Text → List Text
unfolding contains rpc_reply wrap_reply
netconf_rounds f [] = []
netconf_rounds f (msg ∷ msgs) =
    let rest = netconf_rounds f msgs in
    if contains (codes "<hello") msg
    then rest
    else if contains (codes "<close-session") msg
    then wrap_reply (codes "<ok/>") ∷ []
    else rpc_reply f msg ∷ rest

unfoldable pub netconf_loop : Server → List Text → List Text
unfolding netconf_rounds
netconf_loop f msgs = server_hello ∷ netconf_rounds f msgs

pub data SessionRequest : Type 0 where
  exec : Text → SessionRequest
  subsystem : Text → SessionRequest
  other : SessionRequest

-- What a session sends back.
pub data SessionEvent : Type 0 where
  reply : Bool → SessionEvent
  wrote : Text → SessionEvent
  exited : ℕ → SessionEvent
  channel_closed : SessionEvent

abbrev pub ended_with : ℕ → List SessionEvent
ended_with code = exited code ∷ channel_closed ∷ []

-- handleSession: the first command, or the NETCONF subsystem unless it is refused, ends it. `msgs`
-- are the messages that next takes from the client.
unfoldable pub handle_session : Server → List Text → List SessionRequest → List SessionEvent
unfolding run_command netconf_loop
handle_session f msgs [] = []
handle_session f msgs (other ∷ reqs) = reply false ∷ handle_session f msgs reqs
handle_session f msgs (subsystem name ∷ reqs) =
    let rest = handle_session f msgs reqs in
    if not (name == codes "netconf") || f.no_netconf
    then reply false ∷ rest
    else reply true ∷ (map wrote (netconf_loop f msgs) ++ ended_with 0)
handle_session f msgs (exec cmd ∷ reqs) =
    let (out, code) = run_command f cmd in reply true ∷ wrote out ∷ ended_with code
