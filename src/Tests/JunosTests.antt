-- ===== src/Tests/JunosTests.antt =====
-- internal/junos: runs, and the theorems at concrete inputs.
use jconfig.Prelude.{
  ℕ, ◌+◌, ◌≤◌, true, List, [], ◌∷◌, ◌++◌, ◌≡◌, refl, none, some, arith, length, nat_equality,
  list_equality, list_beq,
}
use jconfig.Prelude.Dict.{put}
use jconfig.Prelude.Int.{pos}
use jconfig.Prelude.Answer.{bad}
use jconfig.Strings.Basic.{Text, codes, index}
use jconfig.Config.Vendors.{format_text}
use jconfig.Device.Result.{Fetched, Outcome, ok, failed}
use jconfig.Driver.Loop.{output, Peer}
use jconfig.Junos.Netconf.{delimiter, max_message_size, ReadEvent, received, nothing, message, read}
use jconfig.Junos.Framing.{read_whole, read-whole}
use jconfig.Junos.Delivery.{sent, faultless, IsDelivered, read-IsDelivered}
use jconfig.Junos.Xml.{Xml, CommitEntry, raw_element}
use jconfig.Junos.Element.{IsElement, raw_element-IsElement}
use jconfig.Junos.Metadata.{Clock, best_commit}
use jconfig.Junos.Cli.{fetch_ssh}
use jconfig.Tests.Samples.{device}

-- Two messages, cut in the middle of the first delimiter.
abbrev reads : List ReadEvent
reads = received b'a' (codes "b]]>") ∷ nothing ∷ received b']' (codes "]>cd") ∷ []

read_runs :
    read [] reads ≡ record { result = message (codes "ab"); buffer = codes "cd"; events = [] }
unfolding read codes
read_runs = refl

read-whole_example : read [] reads ≡ read_whole [] reads
read-whole_example = read-whole [] reads

first_end : index delimiter (codes "ab" ++ delimiter) ≡ some (length (codes "ab"))
unfolding index codes
first_end = refl

faultless-reads : faultless reads ≡ true
unfolding faultless
faultless-reads = refl

sent-reads : sent reads ≡ codes "ab" ++ (delimiter ++ codes "cd")
unfolding sent codes
sent-reads = refl

reads_small : length ([] ++ sent reads) ≤ max_message_size
unfolding sent codes
reads_small = omega arith

read-IsDelivered_example : IsDelivered (codes "ab") (codes "cd") (read [] reads)
read-IsDelivered_example =
    read-IsDelivered (codes "ab") (codes "cd") first_end [] reads faultless-reads reads_small
      sent-reads

abbrev reply : Text
reply = codes "<rpc><configuration-text/><configuration a=\"1\">x</configuration></rpc>"

element_runs :
    raw_element reply (codes "configuration")
    ≡ some (codes "<configuration a=\"1\">x</configuration>")
unfolding raw_element codes
element_runs = refl

raw_element-IsElement_example :
    IsElement reply (codes "configuration") (codes "<configuration a=\"1\">x</configuration>")
raw_element-IsElement_example =
    raw_element-IsElement reply (codes "configuration")
      (codes "<configuration a=\"1\">x</configuration>") element_runs

abbrev entry : ℕ → Text → CommitEntry
entry n user = record {
  sequence_number = pos n;
  user = user;
  seconds = codes "1700000000";
  date_time = [];
}

abbrev history : List CommitEntry
history = entry 2 (codes "b") ∷ entry 1 (codes "a") ∷ []

history_runs : best_commit none history ≡ some (entry 1 (codes "a"))
unfolding best_commit codes
history_runs = refl

-- A device that answers every command with the same text, and no XML.
abbrev echo : Peer ℕ
echo = record {
  dial = λ n d user. (none, n + 1);
  run = λ n cmd. (output (codes "system {\n}\n"), n + 1);
  close = λ n. n;
}

abbrev no_xml : Xml
no_xml = record {
  software_information = λ raw. none;
  commit_information = λ raw. some history;
  error_element = λ raw name. none;
  element_text = λ raw name. bad [];
}

abbrev no_clock : Clock
no_clock = record { parse_time = λ s. none }

abbrev result_of : Outcome × ℕ → Fetched
result_of (ok res, n) = res
result_of (failed e, n) = record {
  configs = [];
  hostname = [];
  model = [];
  os_version = [];
  header_blocks = [];
  last_commit = pos 0;
  last_commit_by = [];
  took = pos 0;
}

abbrev fetched : Fetched
fetched = result_of (fetch_ssh echo no_xml no_clock device 0)

-- Dialling, one format, the version, the commit and four blocks.
fetch_runs : fetch_ssh echo no_xml no_clock device 0 ≡ (ok fetched, 8)
unfolding fetch_ssh codes list_beq
fetch_runs = refl

fetched_runs :
    (fetched.last_commit ≡ pos 1_700_000_000_000_000_000)
    × (fetched.last_commit_by ≡ codes "a")
    × (fetched.configs ≡ (format_text, codes "system {\n}\n") ∷ [])
unfolding fetch_ssh codes list_beq put
fetched_runs = (refl, refl, refl)
