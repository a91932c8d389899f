-- ===== src/Junos/Netconf.antt =====
-- internal/junos/netconf.go: reading one message of a NETCONF session. What the device sends is the
-- sequence of results of the session's Read; a search starts where the last one could not have
-- seen a whole delimiter.
use jconfig.Prelude.{
  ℕ, ◌+◌, ◌-◌, List, [], ◌∷◌, ◌++◌, Option, none, some, length, take, drop, nat_equality,
  list_equality, ltb, if◌then◌else◌,
}
use jconfig.Strings.Basic.{Text, codes, index}

abbrev pub delimiter : Text
delimiter = codes "]]>]]>"

abbrev pub max_message_size : ℕ
max_message_size = 268_435_456

-- The errors of io.Reader that the loop tells apart.
pub data IoError : Type 0 where
  eof : IoError
  other : Text → IoError

-- One result of Read: some bytes, nothing, or an error and what ctx.Err() is then.
pub data ReadEvent : Type 0 where
  received : ℕ → Text → ReadEvent
  nothing : ReadEvent
  fault : Option Text → IoError → ReadEvent

pub data ReadError : Type 0 where
  exceeds_limit : ReadError
  context_done : Text → ReadError
  closed_by_device : ReadError
  truncated : ℕ → ReadError
  read_failed : Text → ReadError

-- `waiting` stands for a Read that has not returned yet.
pub data ReadResult : Type 0 where
  message : Text → ReadResult
  broken : ReadError → ReadResult
  waiting : ReadResult

-- What a read leaves: its result, the buffer, and the results of Read not asked for yet.
pub record ReadState : Type 0 where
  pub result : ReadResult
  pub buffer : Text
  pub events : List ReadEvent

abbrev pub io_failure : Text → Option Text → IoError → ReadError
io_failure buffer (some reason) e = context_done reason
io_failure [] none eof = closed_by_device
io_failure (c ∷ s) none eof = truncated (length (c ∷ s))
io_failure buffer none (other e) = read_failed e

-- Where the next search may start: only the last few bytes can hold a partial delimiter.
abbrev pub advance : ℕ → Text → ℕ
advance searched buffer =
    if ltb (searched + length delimiter) (length buffer + 1)
    then length buffer + 1 - length delimiter
    else searched

abbrev pub split_message : ℕ → Text → List ReadEvent → ReadState
split_message end buffer events = record {
  result = message (take end buffer);
  buffer = drop (end + length delimiter) buffer;
  events = events;
}

abbrev pub stopped : ReadError → Text → List ReadEvent → ReadState
stopped e buffer events = record { result = broken e; buffer = buffer; events = events }

-- The size guard after bytes were appended; `rest` is what the loop goes on to.
abbrev pub guarded : Text → List ReadEvent → ReadState → ReadState
guarded grown events rest =
    if ltb max_message_size (length grown) then stopped exceeds_limit grown events else rest

-- A delimiter found at `idx` from where the search started ends the read.
abbrev pub or_found : ℕ → Option ℕ → Text → List ReadEvent → ReadState → ReadState
or_found searched none buffer events later = later
or_found searched (some idx) buffer events later = split_message (searched + idx) buffer events

unfoldable pub read_from : ℕ → Text → List ReadEvent → ReadState
unfolding index
read_from searched buffer [] =
    or_found searched (index delimiter (drop searched buffer)) buffer []
      (record { result = waiting; buffer = buffer; events = [] })
read_from searched buffer (received c s ∷ events) =
    let grown = buffer ++ (c ∷ s) in
    let rest = read_from (advance searched buffer) grown events in
    or_found searched (index delimiter (drop searched buffer)) buffer (received c s ∷ events)
      (guarded grown events rest)
read_from searched buffer (nothing ∷ events) =
    let rest = read_from (advance searched buffer) buffer events in
    or_found searched (index delimiter (drop searched buffer)) buffer (nothing ∷ events) rest
read_from searched buffer (fault ctx e ∷ events) =
    or_found searched (index delimiter (drop searched buffer)) buffer (fault ctx e ∷ events)
      (stopped (io_failure buffer ctx e) buffer events)

unfoldable pub read : Text → List ReadEvent → ReadState
unfolding read_from
read buffer events = read_from 0 buffer events
