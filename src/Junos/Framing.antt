-- ===== src/Junos/Framing.antt =====
-- internal/junos/netconf.go: reading messages, against a reading that searches the whole buffer.
use jconfig.Prelude.{
  ℕ, ◌+◌, ◌-◌, List, [], ◌∷◌, ◌++◌, ◌≡◌, inl, inr, refl, sym, ap, ◌∙◌, Option, none, some, arith,
  length, drop, nat_equality, list_equality, ltb, Bool-cases,
}
use mathlib.Core.List.{append-nil, append_assoc}
use jconfig.Strings.Basic.{Text, codes, index, shift}
use jconfig.Strings.Search.{index_skip, shift_zero}
use jconfig.Junos.Netconf.{
  delimiter, ReadEvent, received, nothing, fault, waiting, ReadState, io_failure, advance,
  split_message, stopped, guarded, or_found, read_from, read,
}

abbrev pub when_found : Option ℕ → Text → List ReadEvent → ReadState → ReadState
when_found none buffer events later = later
when_found (some idx) buffer events later = split_message idx buffer events

-- The reference: after every Read, the whole buffer is searched.
unfoldable pub read_whole : Text → List ReadEvent → ReadState
unfolding index
read_whole buffer [] =
    when_found (index delimiter buffer) buffer []
      (record { result = waiting; buffer = buffer; events = [] })
read_whole buffer (received c s ∷ events) =
    let grown = buffer ++ (c ∷ s) in
    let rest = read_whole grown events in
    when_found (index delimiter buffer) buffer (received c s ∷ events) (guarded grown events rest)
read_whole buffer (nothing ∷ events) =
    let rest = read_whole buffer events in
    when_found (index delimiter buffer) buffer (nothing ∷ events) rest
read_whole buffer (fault ctx e ∷ events) =
    when_found (index delimiter buffer) buffer (fault ctx e ∷ events)
      (stopped (io_failure buffer ctx e) buffer events)

-- Nothing is lost by not searching the first `searched` bytes, whatever is appended.
Skips : ℕ → Text → Type 0
Skips searched buffer =
    (t : Text)
    → index delimiter (buffer ++ t) ≡ shift searched (index delimiter (drop searched (buffer ++ t)))

length-delimiter : length delimiter ≡ 6
unfolding codes
length-delimiter = refl

Skips-append :
    (searched : ℕ) (buffer u : Text) → Skips searched buffer → Skips searched (buffer ++ u)
unfolding Skips
Skips-append searched buffer u h t = rw (append_assoc buffer u t) (h (u ++ t))

Skips-now :
    (searched : ℕ) (buffer : Text)
    → Skips searched buffer
    → index delimiter buffer ≡ shift searched (index delimiter (drop searched buffer))
unfolding Skips
Skips-now searched buffer h = let k = h [] in rw (append-nil buffer) at k

-- After a search without success, the search may start where `advance` says.
Skips-advance :
    (searched : ℕ) (buffer : Text)
    → Skips searched buffer
    → index delimiter buffer ≡ none
    → Skips (advance searched buffer) buffer
unfolding Skips
Skips-advance searched buffer h miss t =
    elim (Bool-cases (ltb (searched + length delimiter) (length buffer + 1))) [
      | inl e ↦ rw e (
          index_skip delimiter buffer t (length buffer + 1 - length delimiter)
            (rw length-delimiter (omega arith)) miss (ground arith))
      | inr n ↦ rw n (h t)
    ]

Skips-zero : (buffer : Text) → Skips 0 buffer
unfolding Skips
Skips-zero buffer t = sym (shift_zero (index delimiter (buffer ++ t)))

-- The two loops agree if what they do after a search without success agrees.
or_found_agree :
    (searched : ℕ) (o : Option ℕ) (buffer : Text) (events : List ReadEvent) (x y : ReadState)
    → (shift searched o ≡ none → x ≡ y)
    → or_found searched o buffer events x ≡ when_found (shift searched o) buffer events y
or_found_agree searched none buffer events x y h = h refl
or_found_agree searched (some idx) buffer events x y h = refl

read_from_whole :
    (searched : ℕ) (buffer : Text) (events : List ReadEvent)
    → Skips searched buffer
    → read_from searched buffer events ≡ read_whole buffer events
unfolding read_from read_whole
read_from_whole searched buffer [] h = rw (Skips-now searched buffer h) (
    or_found_agree searched (index delimiter (drop searched buffer)) buffer []
      (record { result = waiting; buffer = buffer; events = [] }) _ (λ k. refl))
read_from_whole searched buffer (received c s ∷ events) h = rw (Skips-now searched buffer h) (
    or_found_agree searched (index delimiter (drop searched buffer)) buffer (received c s ∷ events)
      _ _
      (λ miss. ap (guarded (buffer ++ (c ∷ s)) events) (
        read_from_whole (advance searched buffer) (buffer ++ (c ∷ s)) events (
          Skips-append (advance searched buffer) buffer (c ∷ s)
            (Skips-advance searched buffer h (Skips-now searched buffer h ∙ miss))))))
read_from_whole searched buffer (nothing ∷ events) h = rw (Skips-now searched buffer h) (
    or_found_agree searched (index delimiter (drop searched buffer)) buffer (nothing ∷ events) _ _
      (λ miss.
        read_from_whole (advance searched buffer) buffer events
          (Skips-advance searched buffer h (Skips-now searched buffer h ∙ miss))))
read_from_whole searched buffer (fault ctx e ∷ events) h = rw (Skips-now searched buffer h) (
    or_found_agree searched (index delimiter (drop searched buffer)) buffer (fault ctx e ∷ events)
      (stopped (io_failure buffer ctx e) buffer events) _ (λ k. refl))

-- Whatever the device sends and however it is cut into reads, a read that searches only from where
-- a delimiter could still be found returns and leaves what one that searches the whole buffer does.
pub read-whole :
    (buffer : Text) (events : List ReadEvent) → read buffer events ≡ read_whole buffer events
unfolding read
read-whole buffer events = read_from_whole 0 buffer events (Skips-zero buffer)
