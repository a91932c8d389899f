-- ===== src/Junostest/Reading.antt =====
-- internal/junostest/server.go, the type framed, against the reading of internal/junos/netconf.go.
use jconfig.Prelude.{
  ℕ, ◌+◌, Bool, true, false, List, [], ◌∷◌, ◌++◌, ◌≡◌, ◌≢◌, ap, Option, none, some, length, drop,
  nat_equality, list_equality, ltb, if◌then◌else◌,
}
use jconfig.Strings.Basic.{Text, index}
use jconfig.Junos.Netconf.{
  delimiter, ReadEvent, received, nothing, fault, message, waiting, ReadState, guarded, read,
  max_message_size, stopped, exceeds_limit,
}
use jconfig.Junos.Framing.{read_whole, read-whole, when_found}
use jconfig.Junostest.Netconf.{framed_at, framed_next}

-- What one reading takes, the other takes too, and both leave the same behind it.
Follows : ReadState → Option (Text × (Text × List ReadEvent)) → Type 0
Follows r o = (m : Text) → r.result ≡ message m → o ≡ some (m, (r.buffer, r.events))

message_inj : {a b : Text} → message a ≡ message b → a ≡ b
message_inj h = cc

waiting≢message : {m : Text} → waiting ≢ message m
waiting≢message h = absurd cc

found-Follows :
    (o : Option ℕ) (buffer : Text) (events : List ReadEvent) (r : ReadState)
    (later : Option (Text × (Text × List ReadEvent)))
    → Follows r later
    → Follows (when_found o buffer events r) (framed_at o buffer events later)
unfolding Follows
found-Follows none buffer events r later h m e = h m e
found-Follows (some i) buffer events r later h m e =
    ap (λ t. some (t, (drop (i + length delimiter) buffer, events))) (message_inj e)

guarded-Follows :
    (grown : Text) (events : List ReadEvent) (r : ReadState)
    (later : Option (Text × (Text × List ReadEvent)))
    → Follows r later
    → Follows (guarded grown events r) later
unfolding Follows
guarded-Follows grown events r later h = by_test (ltb max_message_size (length grown))
  where
    by_test :
        (b : Bool) (m : Text)
        → (if b then stopped exceeds_limit grown events else r).result ≡ message m
        → later
          ≡ some (
            m,
            (
              (if b then stopped exceeds_limit grown events else r).buffer,
              (if b then stopped exceeds_limit grown events else r).events,
            ),
          )
    by_test true m e = absurd cc
    by_test false m e = h m e

read_whole-Follows :
    (buffer : Text) (events : List ReadEvent)
    → Follows (read_whole buffer events) (framed_next buffer events)
unfolding read_whole framed_next
read_whole-Follows buffer [] =
    found-Follows (index delimiter buffer) buffer [] _ none (unfold Follows in λ m e. absurd cc)
read_whole-Follows buffer (received c s ∷ events) =
    found-Follows (index delimiter buffer) buffer (received c s ∷ events) _ _ (
      guarded-Follows (buffer ++ (c ∷ s)) events _ _
        (read_whole-Follows (buffer ++ (c ∷ s)) events))
read_whole-Follows buffer (nothing ∷ events) =
    found-Follows (index delimiter buffer) buffer (nothing ∷ events) _ _
      (read_whole-Follows buffer events)
read_whole-Follows buffer (fault reason x ∷ events) =
    found-Follows (index delimiter buffer) buffer (fault reason x ∷ events) _ none
      (unfold Follows in λ m e. absurd cc)

-- A message that the driver's read takes from a stream is the one that the stand-in's reading takes
-- from it, and they leave the same buffered and unread.
pub framed_next-read :
    (buffer : Text) (events : List ReadEvent) (m : Text)
    → (read buffer events).result ≡ message m
    → framed_next buffer events
      ≡ some (m, ((read buffer events).buffer, (read buffer events).events))
framed_next-read buffer events m =
    rw (read-whole buffer events) (unfold Follows in read_whole-Follows buffer events m)
