-- ===== src/Junos/Delivery.antt =====
-- internal/junos/netconf.go: the messages of a session, however they are cut into reads.
use jconfig.Prelude.{
  ℕ, zero, suc, ◌+◌, ◌≤◌, Bool, true, false, List, [], ◌∷◌, ◌++◌, ◌≡◌, ◌≢◌, refl, sym, ap, ◌∙◌,
  Option, none, some, arith, length, take, drop, length-append, nat_equality, list_equality, ltb,
}
use mathlib.Core.List.{append-nil, append_assoc}
use jconfig.Strings.Basic.{Text, index}
use jconfig.Strings.Search.{index-append, index-fits}
use jconfig.Junos.Netconf.{
  delimiter, max_message_size, ReadEvent, received, nothing, fault, message, ReadState,
  split_message, read,
}
use jconfig.Junos.Framing.{read_whole, read-whole, when_found}

-- The bytes that reads deliver, up to a failure.
unfoldable pub sent : List ReadEvent → Text
sent [] = []
sent (received c s ∷ events) = (c ∷ s) ++ sent events
sent (nothing ∷ events) = sent events
sent (fault ctx e ∷ events) = []

unfoldable pub faultless : List ReadEvent → Bool
faultless [] = true
faultless (received c s ∷ events) = faultless events
faultless (nothing ∷ events) = faultless events
faultless (fault ctx e ∷ events) = false

-- A read that returned `msg` and left exactly `rest`, buffered or still to be read.
pub record IsDelivered (msg rest : Text) (r : ReadState) : Type 0 where
  pub taken : r.result ≡ message msg
  pub left : r.buffer ++ sent r.events ≡ rest
  pub clean : faultless r.events ≡ true

take_part : (n : ℕ) (s t : Text) → n ≤ length s → take n (s ++ t) ≡ take n s
take_part zero s t h = refl
take_part (suc n) [] t h = absurd (omega arith)
take_part (suc n) (c ∷ s) t h = ap (λ r. c ∷ r) (take_part n s t (omega arith))

drop_part : (n : ℕ) (s t : Text) → n ≤ length s → drop n (s ++ t) ≡ drop n s ++ t
drop_part zero s t h = refl
drop_part (suc n) [] t h = absurd (omega arith)
drop_part (suc n) (c ∷ s) t h = drop_part n s t (omega arith)

take_whole : (s t : Text) → take (length s) (s ++ t) ≡ s
take_whole [] t = refl
take_whole (c ∷ s) t = ap (λ r. c ∷ r) (take_whole s t)

drop_whole : (s t : Text) → drop (length s) (s ++ t) ≡ t
drop_whole [] t = refl
drop_whole (c ∷ s) t = drop_whole s t

-- The message whose delimiter was found is the one that was sent.
found :
    (msg rest buffer : Text) (events : List ReadEvent) (i : ℕ)
    → faultless events ≡ true
    → index delimiter (msg ++ delimiter) ≡ some (length msg)
    → buffer ++ sent events ≡ msg ++ (delimiter ++ rest)
    → index delimiter buffer ≡ some i
    → IsDelivered msg rest (split_message i buffer events)
found msg rest buffer events i ok first whole at = record {
  taken = ap message (
      sym (take_part i buffer (sent events) (omega (arith, fits)))
      ∙ ap (take i) whole
      ∙ (rw same (take_whole msg (delimiter ++ rest))));
  left =
      sym (drop_part (i + length delimiter) buffer (sent events) fits)
      ∙ ap (drop (i + length delimiter)) (whole ∙ sym (append_assoc msg delimiter rest))
      ∙ rw (same, ← (length-append msg delimiter)) (drop_whole (msg ++ delimiter) rest);
  clean = ok;
}
  where
    fits : i + length delimiter ≤ length buffer
    fits = index-fits delimiter buffer i at

    some_inj : {a b : ℕ} → some a ≡ some b → a ≡ b
    some_inj h = cc

    same : i ≡ length msg
    same = some_inj (
        sym (index-append delimiter buffer (sent events) i at)
        ∙ ap (index delimiter) (whole ∙ sym (append_assoc msg delimiter rest))
        ∙ index-append delimiter (msg ++ delimiter) rest (length msg) first)

module _ (msg rest : Text) (first : index delimiter (msg ++ delimiter) ≡ some (length msg)) where
  -- One round: a delimiter in the buffer ends the read, otherwise what follows has to deliver.
  round :
      (o : Option ℕ) (buffer : Text) (events : List ReadEvent) (later : ReadState)
      → index delimiter buffer ≡ o
      → faultless events ≡ true
      → buffer ++ sent events ≡ msg ++ (delimiter ++ rest)
      → (index delimiter buffer ≡ none → IsDelivered msg rest later)
      → IsDelivered msg rest (when_found o buffer events later)
  round none buffer events later e ok whole h = h e
  round (some i) buffer events later e ok whole h = found msg rest buffer events i ok first whole e

  -- The whole stream has a delimiter.
  ends : (buffer : Text) → buffer ≡ msg ++ (delimiter ++ rest) → index delimiter buffer ≢ none
  ends buffer whole miss = absurd (
      let at = index-append delimiter (msg ++ delimiter) rest (length msg) first in
      let here : index delimiter buffer ≡ some (length msg) =
        ap (index delimiter) (whole ∙ sym (append_assoc msg delimiter rest)) ∙ at in
      cc)

  fits_limit :
      (grown t : Text)
      → length (grown ++ t) ≤ max_message_size
      → ltb max_message_size (length grown) ≡ false
  fits_limit grown t h = let sum = length-append grown t in ground arith

  read_whole-IsDelivered :
      (buffer : Text) (events : List ReadEvent)
      → faultless events ≡ true
      → length (buffer ++ sent events) ≤ max_message_size
      → buffer ++ sent events ≡ msg ++ (delimiter ++ rest)
      → IsDelivered msg rest (read_whole buffer events)
  unfolding read_whole sent faultless
  read_whole-IsDelivered buffer [] ok small whole =
      round (index delimiter buffer) buffer [] _ refl (unfold faultless in refl) whole
        (λ miss. absurd (ends buffer (sym (append-nil buffer) ∙ whole) miss))
  read_whole-IsDelivered buffer (received c s ∷ events) ok small whole =
      round (index delimiter buffer) buffer (received c s ∷ events) _ refl ok whole (λ miss.
        rw
          (fits_limit (buffer ++ (c ∷ s)) (sent events)
            (rw (append_assoc buffer (c ∷ s) (sent events)) small))
          (read_whole-IsDelivered (buffer ++ (c ∷ s)) events ok
            (rw (append_assoc buffer (c ∷ s) (sent events)) small)
            (append_assoc buffer (c ∷ s) (sent events) ∙ whole)))
  read_whole-IsDelivered buffer (nothing ∷ events) ok small whole =
      round (index delimiter buffer) buffer (nothing ∷ events) _ refl ok whole
        (λ miss. read_whole-IsDelivered buffer events ok small whole)
  read_whole-IsDelivered buffer (fault ctx e ∷ events) ok small whole = absurd cc

  -- If what is buffered and what will be read is a message, a delimiter and more, no read fails
  -- before, and the limit is kept, then a read returns that message and leaves exactly the rest,
  -- however the bytes are cut into reads.
  pub read-IsDelivered :
      (buffer : Text) (events : List ReadEvent)
      → faultless events ≡ true
      → length (buffer ++ sent events) ≤ max_message_size
      → buffer ++ sent events ≡ msg ++ (delimiter ++ rest)
      → IsDelivered msg rest (read buffer events)
  read-IsDelivered buffer events ok small whole =
      rw (read-whole buffer events) (read_whole-IsDelivered buffer events ok small whole)
