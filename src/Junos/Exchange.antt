-- ===== src/Junos/Exchange.antt =====
-- internal/junos/netconf.go: the RPCs of a session, one after the other.
use jconfig.Prelude.{
  ℕ, ◌+◌, ◌≤◌, true, List, ◌++◌, ◌≡◌, refl, sym, ap, ◌∙◌, Option, none, some, length, nat_equality,
  list_equality,
}
use mathlib.Core.List.{append_assoc}
use jconfig.Prelude.Answer.{Answer, good}
use jconfig.Strings.Basic.{Text, index}
use jconfig.Junos.Netconf.{delimiter, max_message_size, ReadEvent, read}
use jconfig.Junos.Delivery.{sent, faultless, IsDelivered, read-IsDelivered}
use jconfig.Junos.Xml.{Xml, check_rpc_error}
use jconfig.Junos.Session.{Wire, Session, rpc_text, unless_error, read_message, after_send, rpc}

module _ {S : Type 0} (wire : Wire S) where
  -- What a device that keeps to the protocol promises: it answers the message `id` with `reply id
  -- body`, a delimiter and `tail`, which devices put before the next message. No reply holds a
  -- delimiter or is larger than the limit.
  pub record Answers (reply : ℕ → Text → Text) (tail : Text) : Type 0 where
    pub kept : (s : S) (events : List ReadEvent) → wire.arriving (wire.left s events) ≡ events
    pub accepted :
        (s : S) (id : ℕ) (body : Text)
        → (wire.write (wire.set_deadline s) (rpc_text id body)).0 ≡ none
    pub answered :
        (s : S) (id : ℕ) (body : Text)
        → faultless (wire.arriving s) ≡ true
        → let events = wire.arriving (wire.write (wire.set_deadline s) (rpc_text id body)).1 in
          (faultless events ≡ true)
          × (sent events ≡ sent (wire.arriving s) ++ (reply id body ++ (delimiter ++ tail)))
    pub framed :
        (id : ℕ) (body : Text)
        → index delimiter ((tail ++ reply id body) ++ delimiter)
          ≡ some (length (tail ++ reply id body))
    pub small :
        (id : ℕ) (body : Text)
        → length ((tail ++ reply id body) ++ (delimiter ++ tail)) ≤ max_message_size

  -- Nothing but the `tail` of the last message is unread.
  pub record InSync (tail : Text) (s : Session S) : Type 0 where
    pub unread : s.buffer ++ sent (wire.arriving s.wire) ≡ tail
    pub no_fault : faultless (wire.arriving s.wire) ≡ true

module _ {S : Type 0} (wire : Wire S) (xml : Xml) (reply : ℕ → Text → Text) (tail : Text)
    (laws : Answers wire reply tail) where
  -- An RPC that was answered with `text`, and the session in step with the device again.
  pub record IsAnswered (text : Text) (id : ℕ) (r : Answer Text × Session S) : Type 0 where
    pub result : r.0 ≡ unless_error (check_rpc_error xml text) text
    pub numbered : r.1.msg_id ≡ id
    pub in_sync : InSync wire tail r.1

  -- The session after a read.
  abbrev after_read : Session S → Session S
  after_read s =
      let r = read s.buffer (wire.arriving s.wire) in
      record s { buffer = r.buffer; wire = wire.left s.wire r.events }

  read_delivered :
      (s : Session S) (msg : Text)
      → IsDelivered msg tail (read s.buffer (wire.arriving s.wire))
      → read_message wire xml s ≡ (good msg, after_read s)
  unfolding read_message
  read_delivered s msg d = rw d.taken refl

  after_read-InSync :
      (s : Session S) (msg : Text)
      → IsDelivered msg tail (read s.buffer (wire.arriving s.wire))
      → InSync wire tail (after_read s)
  after_read-InSync s msg d =
      let kept = laws.kept s.wire (read s.buffer (wire.arriving s.wire)).events in
      record { unread = rw kept d.left; no_fault = rw kept d.clean }

  -- The next message of a stream in step, once a reply was appended to it.
  delivered :
      (s : Session S) (id : ℕ) (body : Text) (w : S)
      → InSync wire tail s
      → faultless (wire.arriving w) ≡ true
      → sent (wire.arriving w)
        ≡ sent (wire.arriving s.wire) ++ (reply id body ++ (delimiter ++ tail))
      → IsDelivered (tail ++ reply id body) tail (read s.buffer (wire.arriving w))
  delivered s id body w h ok e =
      let stream : s.buffer ++ sent (wire.arriving w)
          ≡ (tail ++ reply id body) ++ (delimiter ++ tail) =
        ap (λ t. s.buffer ++ t) e
        ∙ sym (
            append_assoc s.buffer (sent (wire.arriving s.wire))
              (reply id body ++ (delimiter ++ tail)))
        ∙ ap (λ t. t ++ (reply id body ++ (delimiter ++ tail))) h.unread
        ∙ sym (append_assoc tail (reply id body) (delimiter ++ tail)) in
      read-IsDelivered (tail ++ reply id body) tail (laws.framed id body) s.buffer (wire.arriving w)
        ok (rw stream (laws.small id body)) stream

  -- A session in step with the device gets, to each RPC, the device's reply to this very message,
  -- or the error that the reply reports, and is in step again. Message numbers go up by one.
  pub rpc-IsAnswered :
      (s : Session S) (body : Text)
      → InSync wire tail s
      → IsAnswered (tail ++ reply (s.msg_id + 1) body) (s.msg_id + 1) (rpc wire xml s body)
  unfolding rpc
  rpc-IsAnswered s body h =
      let id = s.msg_id + 1 in
      let (ok, e) = laws.answered s.wire id body h.no_fault in
      sent_and_read (record s { msg_id = id })
        (wire.write (wire.set_deadline s.wire) (rpc_text id body)) (laws.accepted s.wire id body)
        (delivered s id body (wire.write (wire.set_deadline s.wire) (rpc_text id body)).1 h ok e)
    where
      sent_and_read :
          (t : Session S) (o : Option Text × S)
          → o.0 ≡ none
          → IsDelivered (tail ++ reply (s.msg_id + 1) body) tail (read t.buffer (wire.arriving o.1))
          → IsAnswered (tail ++ reply (s.msg_id + 1) body) t.msg_id (after_send wire xml t o)
      sent_and_read t (some x, w) q d = absurd cc
      sent_and_read t (none, w) q d = rw (read_delivered (record t { wire = w }) _ d) (record {
        result = refl;
        numbered = refl;
        in_sync = after_read-InSync (record t { wire = w }) _ d;
      })
