-- ===== src/Tests/NetconfTests.antt =====
-- internal/sshx and NETCONF: a device that answers every message with the same reply.
use jconfig.Prelude.{
  Bool, true, false, List, [], ◌∷◌, ◌++◌, ◌≡◌, refl, sym, ap, ◌∙◌, Option, none, some, arith,
  nat_equality, list_equality, list_beq,
}
use mathlib.Core.List.{append_assoc}
use jconfig.Prelude.Answer.{good, bad}
use jconfig.Strings.Basic.{Text, codes, index}
use jconfig.Config.Types.{Device}
use jconfig.Config.Vendors.{format_text, transport_netconf, supports}
use jconfig.Device.Result.{Error, Fetched, Outcome, ok, failed}
use jconfig.Driver.Loop.{Peer, FormatKept, empty_result}
use jconfig.Junos.Netconf.{delimiter, ReadEvent, received, nothing, fault}
use jconfig.Junos.Delivery.{sent, faultless}
use jconfig.Junos.Xml.{Xml}
use jconfig.Junos.Metadata.{Clock}
use jconfig.Junos.Session.{Wire, Session, rpc}
use jconfig.Junos.Exchange.{Answers, InSync, IsAnswered, rpc-IsAnswered}
use jconfig.Junos.Rpc.{fetch_transport}
use jconfig.Junos.Rpc.Kept.{fetch_transport-FormatKept}
use jconfig.Junos.Rpc.Closing.{fetch-closes}
use jconfig.Routeros.Fetch.{fetch_routeros}
use jconfig.Sshx.Ssh.{Ssh, succeeded}
use jconfig.Sshx.Dial.{dial, ssh_peer}
use jconfig.Sshx.Stages.{Blame, dial-Blame}
use jconfig.Sshx.Closed.{SocketLaws, ssh_peer-ClosesSockets}
use jconfig.Tests.Samples.{device}
use jconfig.Tests.ConfigTests.{host}

-- What the device has sent and nobody has read, and whether the socket is open.
record Line : Type 0 where
  queue : List ReadEvent
  socket : Bool

abbrev reply : Text
reply = codes "<rpc-reply/>"

abbrev tail : Text
tail = codes "\n"

abbrev wire : Wire Line
wire = record {
  new_session = λ s. (none, s);
  stdin_pipe = λ s. (none, s);
  stdout_pipe = λ s. (none, s);
  request_subsystem = λ s name. (none, s);
  set_deadline = λ s. s;
  write = λ s text. (
    none,
    record s {
      queue = s.queue ++ (received b'<' (codes "rpc-reply/>" ++ (delimiter ++ tail)) ∷ []);
    },
  );
  arriving = λ s. s.queue;
  left = λ s events. record s { queue = events };
  context_end = λ s. codes "context deadline exceeded";
  close_stdin = λ s. s;
  close_session = λ s. s;
}

sent-append : (xs ys : List ReadEvent) → faultless xs ≡ true → sent (xs ++ ys) ≡ sent xs ++ sent ys
unfolding sent faultless
sent-append [] ys h = refl
sent-append (received c s ∷ xs) ys h =
    ap (λ t. (c ∷ s) ++ t) (sent-append xs ys h) ∙ sym (append_assoc (c ∷ s) (sent xs) (sent ys))
sent-append (nothing ∷ xs) ys h = sent-append xs ys h
sent-append (fault x e ∷ xs) ys h = absurd cc

faultless-append :
    (xs ys : List ReadEvent)
    → faultless xs ≡ true
    → faultless ys ≡ true
    → faultless (xs ++ ys) ≡ true
unfolding faultless
faultless-append [] ys h k = k
faultless-append (received c s ∷ xs) ys h k = faultless-append xs ys h k
faultless-append (nothing ∷ xs) ys h k = faultless-append xs ys h k
faultless-append (fault x e ∷ xs) ys h k = absurd cc

answers : Answers wire (λ id body. reply) tail
unfolding codes
answers = record {
  kept = λ s events. refl;
  accepted = λ s id body. refl;
  answered = λ s id body h. (
    faultless-append s.queue _ h (unfold faultless in refl),
    sent-append s.queue _ h ∙ ap (λ t. sent s.queue ++ t) (unfold sent in refl),
  );
  framed = λ id body. unfold index in refl;
  small = λ id body. omega arith;
}

abbrev xml : Xml
xml = record {
  software_information = λ raw. none;
  commit_information = λ raw. none;
  error_element = λ raw name. none;
  element_text = λ raw name. good raw;
}

abbrev clock : Clock
clock = record { parse_time = λ s. none }

abbrev started : Session Line
started = record { msg_id = 2; buffer = tail; wire = record { queue = []; socket = true } }

started-InSync : InSync wire tail started
unfolding sent faultless codes
started-InSync = record { unread = refl; no_fault = refl }

rpc-IsAnswered_example :
    IsAnswered wire xml
      (λ id body. reply)
      tail
      answers
      (tail ++ reply)
      3
      (rpc wire xml started (codes "<get-software-information/>"))
rpc-IsAnswered_example =
    rpc-IsAnswered wire xml (λ id body. reply) tail answers started
      (codes "<get-software-information/>") started-InSync

-- An SSH library that connects to every device that offers a password.
abbrev lib : Ssh Line
lib = record {
  read_file = λ s path. bad (codes "no such file");
  parse_private_key = λ pem passphrase. none;
  new_database = λ s path. none;
  database_algorithms = λ s path a. [];
  dial_tcp = λ s a. (none, record s { socket = true; queue = [] });
  set_deadline = λ s. s;
  handshake = λ s a cc.
      (none, record s { queue = received b'<' (codes "hello/>" ++ (delimiter ++ tail)) ∷ [] });
  close_client = λ s. s;
  close_socket = λ s. record s { socket = false };
  new_session = λ s. (none, s);
  run_session = λ s cmd. (succeeded (codes "output"), s);
  close_session = λ s. s;
  context_error = λ s. none;
}

abbrev away : Line
away = record { queue = []; socket = false }

abbrev netconf_device : Device
netconf_device = record device { transport = transport_netconf }

abbrev unarmed : Device
unarmed = record device { password = [] }

abbrev is_open : Line → Bool
is_open s = s.socket

socket_laws : SocketLaws host lib is_open
socket_laws = record { not_dialled = λ s a e h k. absurd cc; shut = λ s. refl }

abbrev peer : Peer Line
peer = ssh_peer host lib

abbrev error_of : Option Error → Error
error_of none = Error.plain []
error_of (some e) = e

abbrev failure : Error
failure = error_of (dial host lib away unarmed (codes "backup")).0

failure_runs : dial host lib away unarmed (codes "backup") ≡ (some failure, away)
unfolding dial codes list_beq
failure_runs = refl

dial-Blame_example : Blame host lib away unarmed (codes "backup") failure
dial-Blame_example = dial-Blame host lib away away unarmed (codes "backup") failure failure_runs

fetch-closes_example :
    (is_open (fetch_transport peer wire xml clock netconf_device away).1 ≡ false)
    × (is_open (fetch_routeros peer netconf_device away).1 ≡ false)
fetch-closes_example =
    fetch-closes is_open peer (ssh_peer-ClosesSockets host lib is_open socket_laws) wire xml clock
      netconf_device away refl

abbrev result_of : Outcome × Line → Fetched
result_of (ok res, s) = res
result_of (failed e, s) = empty_result []

abbrev fetched : Fetched
fetched = result_of (fetch_transport peer wire xml clock netconf_device away)

abbrev after : Line
after = (fetch_transport peer wire xml clock netconf_device away).1

fetch_runs : fetch_transport peer wire xml clock netconf_device away ≡ (ok fetched, after)
unfolding fetch_transport ssh_peer codes list_beq
fetch_runs = refl

fetch_transport-FormatKept_example :
    FormatKept format_text (supports netconf_device.formats format_text) [] fetched.configs
fetch_transport-FormatKept_example =
    fetch_transport-FormatKept peer wire xml clock netconf_device away after fetched format_text
      fetch_runs
