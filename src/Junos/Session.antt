-- ===== src/Junos/Session.antt =====
-- internal/junos/netconf.go: a NETCONF session over an SSH connection: opening it, one RPC, closing.
use jconfig.Prelude.{ℕ, ◌+◌, List, [], ◌∷◌, ◌++◌, Option, none, some, nat_equality, list_equality}
use jconfig.Prelude.Answer.{Answer, good, bad}
use jconfig.Strings.Basic.{Text, codes}
use jconfig.Strings.Decimal.{decimal}
use jconfig.Strings.Format.{explain}
use jconfig.Junos.Netconf.{
  delimiter, max_message_size, ReadEvent, ReadError, exceeds_limit, context_done, closed_by_device,
  truncated, read_failed, ReadResult, message, broken, waiting, read,
}
use jconfig.Junos.Xml.{Xml, check_rpc_error}

-- The streams of an SSH session. `arriving` are the results of the Reads that return from now on,
-- and `left` leaves those that were not asked for. A Read that would wait for ever fails when the
-- context ends, because the watcher closes the socket: `context_end` is the context's error then.
pub record Wire (S : Type 0) : Type 0 where
  pub new_session : S → Option Text × S
  pub stdin_pipe : S → Option Text × S
  pub stdout_pipe : S → Option Text × S
  pub request_subsystem : S → Text → Option Text × S
  pub set_deadline : S → S
  pub write : S → Text → Option Text × S
  pub arriving : S → List ReadEvent
  pub left : S → List ReadEvent → S
  pub context_end : S → Text
  pub close_stdin : S → S
  pub close_session : S → S

-- netconfSession: the number of the last message and what was read ahead, beside the streams.
pub record Session (S : Type 0) : Type 0 where
  pub msg_id : ℕ
  pub buffer : Text
  pub wire : S

-- The end of the message stream's text, as it is written.
abbrev pub framed : Text → Text
framed body = body ++ (b'\n' ∷ (delimiter ++ codes "\n"))

abbrev pub client_hello : Text
client_hello =
    codes "<?xml version=\"1.0\" encoding=\"UTF-8\"?>\n"
    ++ (codes "<hello xmlns=\"urn:ietf:params:xml:ns:netconf:base:1.0\">\n  <capabilities>\n"
        ++ (codes "    <capability>urn:ietf:params:netconf:base:1.0</capability>\n"
            ++ framed (codes "  </capabilities>\n</hello>")))

unfoldable pub rpc_text : ℕ → Text → Text
unfolding decimal
rpc_text id body =
    framed (codes "<rpc message-id=\"" ++ (decimal id ++ (codes "\">" ++ (body ++ codes "</rpc>"))))

-- The texts of read's errors.
unfoldable pub read_error_text : ReadError → Text
unfolding decimal
read_error_text exceeds_limit =
    codes "reply exceeds " ++ (decimal max_message_size ++ codes " bytes")
read_error_text (context_done reason) = reason
read_error_text closed_by_device = codes "connection closed by device"
read_error_text (truncated n) =
    codes "truncated reply (" ++ (decimal n ++ codes " bytes, no delimiter)")
read_error_text (read_failed e) = e

-- A reply whose errors are none is the reply.
abbrev pub unless_error : Option Text → Text → Answer Text
unless_error none reply = good reply
unless_error (some e) reply = bad e

module _ {S : Type 0} (wire : Wire S) (xml : Xml) where
  abbrev pub read_answer : S → ReadResult → Answer Text
  read_answer s (message m) = good m
  read_answer s (broken e) = bad (read_error_text e)
  read_answer s waiting = bad (wire.context_end s)

  -- read, on the session
  unfoldable pub read_message : Session S → Answer Text × Session S
  unfolding read read_error_text
  read_message s =
      let r = read s.buffer (wire.arriving s.wire) in
      let s' = wire.left s.wire r.events in
      (read_answer s' r.result, record s { buffer = r.buffer; wire = s' })

  abbrev pub reply_of : Answer Text × Session S → Answer Text × Session S
  reply_of (bad e, s) = (bad (explain (codes "read reply") e), s)
  reply_of (good reply, s) = (unless_error (check_rpc_error xml reply) reply, s)

  abbrev pub after_send : Session S → Option Text × S → Answer Text × Session S
  after_send s (some e, w) = (bad (explain (codes "send rpc") e), record s { wire = w })
  after_send s (none, w) = reply_of (read_message (record s { wire = w }))

  -- rpc
  unfoldable pub rpc : Session S → Text → Answer Text × Session S
  unfolding rpc_text read_message check_rpc_error
  rpc s body =
      let id = s.msg_id + 1 in
      after_send (record s { msg_id = id })
        (wire.write (wire.set_deadline s.wire) (rpc_text id body))

  abbrev pub greeted : Session S → Option Text × S → Answer (Session S) × S
  greeted s (some e, w) = (bad (explain (codes "send client hello") e), w)
  greeted s (none, w) = (good (record s { wire = w }), w)

  abbrev pub on_hello : Answer Text × Session S → Answer (Session S) × S
  on_hello (bad e, s) = (bad (explain (codes "read server hello") e), s.wire)
  on_hello (good hello, s) = greeted s (wire.write s.wire client_hello)

  abbrev pub on_subsystem : Option Text × S → Answer (Session S) × S
  on_subsystem (some e, w) = (
    bad (
        codes "request netconf subsystem: "
        ++ (e ++ codes " (is \"set system services netconf ssh\" configured?)")),
    wire.close_session w,
  )
  on_subsystem (none, w) = on_hello (read_message (record { msg_id = 0; buffer = []; wire = w }))

  abbrev pub on_stdout : Option Text × S → Answer (Session S) × S
  on_stdout (some e, w) = (bad (explain (codes "stdout pipe") e), wire.close_session w)
  on_stdout (none, w) = on_subsystem (wire.request_subsystem w (codes "netconf"))

  abbrev pub on_stdin : Option Text × S → Answer (Session S) × S
  on_stdin (some e, w) = (bad (explain (codes "stdin pipe") e), wire.close_session w)
  on_stdin (none, w) = on_stdout (wire.stdout_pipe w)

  abbrev pub on_session : Option Text × S → Answer (Session S) × S
  on_session (some e, w) = (bad (explain (codes "open session") e), w)
  on_session (none, w) = on_stdin (wire.stdin_pipe w)

  -- openNETCONF
  unfoldable pub open_netconf : S → Answer (Session S) × S
  unfolding read_message
  open_netconf w = on_session (wire.new_session w)

  -- Close
  unfoldable pub close_netconf : Session S → S
  close_netconf s =
      let said =
        wire.write s.wire (framed (codes "<rpc message-id=\"end\"><close-session/></rpc>")) in
      wire.close_session (wire.close_stdin said.1)
