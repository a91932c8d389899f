-- ===== src/Junostest/Message.antt =====
-- internal/junostest/server.go: the framing of what the NETCONF loop writes.
use jconfig.Prelude.{
  ℕ, Bool, true, false, not, ◌&&◌, List, [], ◌∷◌, ◌++◌, ◌≡◌, refl, sym, ap, some, arith, all, All,
  length, ◌==◌, nat_equality, list_equality, if◌then◌else◌,
}
use mathlib.Core.List.{append_assoc}
use jconfig.Strings.Basic.{Text, codes, has_prefix, contains, index}
use jconfig.Strings.Lines.{IsFree}
use jconfig.Strings.Search.{add_one}
use jconfig.Junos.Netconf.{delimiter}
use jconfig.Junostest.Canned.{set_config, xml_config, version_xml, commit_xml}
use jconfig.Junostest.Server.{Server, served_text}
use jconfig.Junostest.Netconf.{
  escape_byte, escape, wrap_reply, configuration_body, operational_text, rpc_reply, netconf_rounds,
  netconf_loop,
}

-- No ">" follows a "]", and no "]" ends the text; the flag says that a "]" stands before it.
unfoldable pub tame : Bool → Text → Bool
tame prev [] = not prev
tame prev (c ∷ s) = not (prev && c == b'>') && tame (c == b']') s

tame-append :
    (p : Bool) (s t : Text) → tame p s ≡ true → tame false t ≡ true → tame p (s ++ t) ≡ true
unfolding tame
tame-append true [] t h k = absurd cc
tame-append false [] t h k = k
tame-append p (c ∷ s) t h k = ground (arith, tame-append (c == b']') s t)

-- A text without ">" and a tag behind it.
tame-tag :
    (p : Bool) (s t : Text)
    → IsFree b'>' s
    → tame false (b'<' ∷ t) ≡ true
    → tame p (s ++ (b'<' ∷ t)) ≡ true
unfolding tame all
tame-tag p [] t h k = ground arith
tame-tag p (c ∷ s) t h k = ground (arith, tame-tag (c == b']') s t)

IsFree-append : (s t : Text) → IsFree b'>' s → IsFree b'>' t → IsFree b'>' (s ++ t)
unfolding all
IsFree-append [] t h k = k
IsFree-append (c ∷ s) t h k = ground (arith, IsFree-append s t)

escape_byte-IsFree : (c : ℕ) → IsFree b'>' (escape_byte c)
unfolding all codes
escape_byte-IsFree c = ground arith

escape-IsFree : (s : Text) → IsFree b'>' (escape s)
unfolding escape
escape-IsFree [] = unfold all in refl
escape-IsFree (c ∷ s) =
    IsFree-append (escape_byte c) (escape s) (escape_byte-IsFree c) (escape-IsFree s)

-- In a tame text no delimiter begins, even with one behind it.
starts_none :
    (p : Bool) (c : ℕ) (s : Text)
    → tame p (c ∷ s) ≡ true
    → has_prefix delimiter (c ∷ (s ++ delimiter)) ≡ false
unfolding tame has_prefix codes
starts_none p c [] h = ground arith
starts_none p c (d ∷ []) h = ground arith
starts_none p c (d ∷ e ∷ s) h = ground arith

index-tame :
    (p : Bool) (s : Text) → tame p s ≡ true → index delimiter (s ++ delimiter) ≡ some (length s)
unfolding index
index-tame p [] h = unfold has_prefix codes in refl
index-tame p (c ∷ s) h =
    rw (starts_none p c s h)
      (rw (index-tame (c == b']') s (unfold tame in ground arith)) (ap some (add_one (length s))))

-- One message: a delimiter ends it, no other is before that, and a newline is behind.
pub record IsOneMessage (r : Text) : Type 0 where
  pub message : Text
  pub ended : r ≡ message ++ (delimiter ++ codes "\n")
  pub first_end : index delimiter (message ++ delimiter) ≡ some (length message)

abbrev before_end : Text
before_end = codes "</rpc-reply>\n"

wrap_reply-IsOneMessage :
    (body : Text) → tame false (body ++ before_end) ≡ true → IsOneMessage (wrap_reply body)
unfolding wrap_reply
wrap_reply-IsOneMessage body h = record {
  message = head ++ (body ++ before_end);
  ended =
      unfold codes in
      ap (λ t. head ++ t) (sym (append_assoc body before_end (delimiter ++ codes "\n")));
  first_end =
      index-tame false (head ++ (body ++ before_end))
        (tame-append false head (body ++ before_end) (unfold tame codes in refl) h);
}
  where
    head : Text
    head =
        codes "<?xml version=\"1.0\" encoding=\"UTF-8\"?>\n"
        ++ codes "<rpc-reply xmlns:junos=\"http://xml.juniper.net/junos/21.4R0/junos\">"

-- A literal between the tags of the reply.
literal-IsOneMessage : (body : Text) → tame false body ≡ true → IsOneMessage (wrap_reply body)
literal-IsOneMessage body h =
    wrap_reply-IsOneMessage body (tame-append false body before_end h (unfold tame codes in refl))

-- An escaped text between two tags.
escaped-IsOneMessage :
    (start s finish : Text)
    → tame false start ≡ true
    → tame false (b'<' ∷ (finish ++ before_end)) ≡ true
    → IsOneMessage (wrap_reply (start ++ (escape s ++ (b'<' ∷ finish))))
escaped-IsOneMessage start s finish h k =
    wrap_reply-IsOneMessage (start ++ (escape s ++ (b'<' ∷ finish))) (
      rw (append_assoc start (escape s ++ (b'<' ∷ finish)) before_end) (
        rw (append_assoc (escape s) (b'<' ∷ finish) before_end) (
          tame-append false start (escape s ++ (b'<' ∷ (finish ++ before_end))) h
            (tame-tag false (escape s) (finish ++ before_end) (escape-IsFree s) k))))

-- A document that the device sends as it is.
document-IsOneMessage :
    (document : Text)
    → tame false (document ++ codes "\n") ≡ true
    → IsOneMessage (document ++ codes "\n]]>]]>\n")
document-IsOneMessage document h = record {
  message = document ++ codes "\n";
  ended = unfold codes in sym (append_assoc document (codes "\n") (delimiter ++ codes "\n"));
  first_end = index-tame false (document ++ codes "\n") h;
}

choose-IsOneMessage :
    (b : Bool) (x y : Text) → IsOneMessage x → IsOneMessage y → IsOneMessage (if b then x else y)
choose-IsOneMessage true x y h k = h
choose-IsOneMessage false x y h k = k

choose_body :
    (b : Bool) (x y : Text)
    → IsOneMessage (wrap_reply x)
    → IsOneMessage (wrap_reply y)
    → IsOneMessage (wrap_reply (if b then x else y))
choose_body true x y h k = h
choose_body false x y h k = k

configuration-IsOneMessage :
    (f : Server) (msg : Text) → IsOneMessage (wrap_reply (configuration_body f msg))
unfolding configuration_body codes
configuration-IsOneMessage f msg =
    choose_body _ _ _
      (escaped-IsOneMessage (codes "<configuration-set>") set_config (codes "/configuration-set>")
        (unfold tame in refl) (unfold tame in refl))
      (choose_body _ _ _
        (escaped-IsOneMessage (codes "<configuration-text>") (served_text f)
          (codes "/configuration-text>") (unfold tame in refl) (unfold tame in refl))
        (literal-IsOneMessage xml_config (unfold tame in refl)))

rpc_reply-IsOneMessage : (f : Server) (msg : Text) → IsOneMessage (rpc_reply f msg)
unfolding rpc_reply codes
rpc_reply-IsOneMessage f msg = choose-IsOneMessage _ _ _ (configuration-IsOneMessage f msg) (
    choose-IsOneMessage _ _ _ (document-IsOneMessage version_xml (unfold tame in refl)) (
      choose-IsOneMessage _ _ _ (document-IsOneMessage commit_xml (unfold tame in refl)) (
        choose-IsOneMessage _ _ _
          (escaped-IsOneMessage (codes "<output>") (operational_text msg) (codes "/output>")
            (unfold tame in refl) (unfold tame in refl))
          (literal-IsOneMessage
            (codes "<rpc-error><error-severity>error</error-severity>"
              ++ codes "<error-message>unsupported rpc</error-message></rpc-error>")
            (unfold tame in refl)))))

netconf_rounds-IsOneMessage :
    (f : Server) (msgs : List Text) → All IsOneMessage (netconf_rounds f msgs)
unfolding netconf_rounds
netconf_rounds-IsOneMessage f [] = tt
netconf_rounds-IsOneMessage f (msg ∷ msgs) =
    by_tests (contains (codes "<hello") msg) (contains (codes "<close-session") msg)
      (netconf_rounds-IsOneMessage f msgs)
  where
    by_tests :
        (hello finish : Bool)
        → All IsOneMessage (netconf_rounds f msgs)
        → All IsOneMessage (
            if hello
            then netconf_rounds f msgs
            else if finish
            then wrap_reply (codes "<ok/>") ∷ []
            else rpc_reply f msg ∷ netconf_rounds f msgs)
    by_tests true finish rest = rest
    by_tests false true rest =
        (literal-IsOneMessage (codes "<ok/>") (unfold tame codes in refl), tt)
    by_tests false false rest = (rpc_reply-IsOneMessage f msg, rest)

-- Whatever configuration the stand-in serves and whatever it is sent, everything that it writes in a
-- NETCONF session is one message: a delimiter and a newline end it, and no delimiter begins before.
pub netconf_loop-IsOneMessage :
    (f : Server) (msgs : List Text) → All IsOneMessage (netconf_loop f msgs)
unfolding netconf_loop
netconf_loop-IsOneMessage f msgs = (
  record {
    message =
        codes
          "<?xml version=\"1.0\" encoding=\"UTF-8\"?>\n<hello xmlns=\"urn:ietf:params:xml:ns:netconf:base:1.0\">\n<capabilities>\n<capability>urn:ietf:params:netconf:base:1.0</capability>\n<capability>http://xml.juniper.net/netconf/junos/1.0</capability>\n</capabilities>\n<session-id>42</session-id>\n</hello>\n";
    ended = unfold codes in refl;
    first_end = unfold index has_prefix codes in refl;
  },
  netconf_rounds-IsOneMessage f msgs,
)
