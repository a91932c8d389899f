-- ===== src/Sshx/Closed.antt =====
-- internal/sshx/sshx.go: the socket when dialling fails, and after Close.
use jconfig.Prelude.{
  Bool, false, List, ◌≡◌, inl, inr, refl, Option, none, some, nat_equality, list_equality,
  Bool-cases,
}
use jconfig.Prelude.Answer.{Answer, good, bad}
use jconfig.Strings.Basic.{Text}
use jconfig.Config.Types.{Device, skip_host_key_check}
use jconfig.Config.Host.{Host}
use jconfig.Device.Result.{Error}
use jconfig.Driver.Loop.{Peer}
use jconfig.Sshx.Ssh.{AuthMethod, HandshakeError, ClientConfig, Ssh}
use jconfig.Sshx.Dial.{
  auth_methods, shaken, on_socket, connect, checked, with_methods, dial, close, ssh_peer,
}

-- What a connection promises to the drivers: `open_at s` tells whether its socket is open.
pub record ClosesSockets {S : Type 0} (open_at : S → Bool) (peer : Peer S) : Type 0 where
  pub failed_dial :
      (s : S) (d : Device) (login : Text) (e : Error)
      → open_at s ≡ false
      → (peer.dial s d login).0 ≡ some e
      → open_at (peer.dial s d login).1 ≡ false
  pub closed : (s : S) → open_at (peer.close s) ≡ false

module _ {S : Type 0} (host : Host) (lib : Ssh S) (open_at : S → Bool) where
  -- A dial that fails opens no socket, and a socket that is closed is not open.
  pub record SocketLaws : Type 0 where
    pub not_dialled :
        (s : S) (a e : Text)
        → open_at s ≡ false
        → (lib.dial_tcp s a).0 ≡ some e
        → open_at (lib.dial_tcp s a).1 ≡ false
    pub shut : (s : S) → open_at (lib.close_socket s) ≡ false

  -- If there is an error, the socket is not open.
  abbrev ShutOnError : Option Error × S → Type 0
  ShutOnError (none, s) = Unit
  ShutOnError (some e, s) = open_at s ≡ false

  shaken-ShutOnError :
      SocketLaws → (d : Device) (o : Option HandshakeError × S) → ShutOnError (shaken host lib d o)
  shaken-ShutOnError laws d (none, s) = tt
  shaken-ShutOnError laws d (some h, s) = laws.shut s

  on_socket-ShutOnError :
      SocketLaws
      → (d : Device) (cc : ClientConfig) (o : Option Text × S)
      → ((e : Text) → o.0 ≡ some e → open_at o.1 ≡ false)
      → ShutOnError (on_socket host lib d cc o)
  on_socket-ShutOnError laws d cc (some e, s) h = h e refl
  on_socket-ShutOnError laws d cc (none, s) h = shaken-ShutOnError laws d _

  connect-ShutOnError :
      SocketLaws
      → (s : S) (d : Device) (cc : ClientConfig) → open_at s ≡ false
      → ShutOnError (connect host lib s d cc)
  connect-ShutOnError laws s d cc h =
      on_socket-ShutOnError laws d cc _ (λ e k. laws.not_dialled s _ e h k)

  checked-ShutOnError :
      SocketLaws
      → (s : S) (d : Device) (login : Text) (methods : List AuthMethod) (o : Option Text)
      → open_at s ≡ false
      → ShutOnError (checked host lib s d login methods o)
  checked-ShutOnError laws s d login methods (some e) h = h
  checked-ShutOnError laws s d login methods none h = connect-ShutOnError laws s d _ h

  with_methods-ShutOnError :
      SocketLaws
      → (s : S) (d : Device) (login : Text) (o : Answer (List AuthMethod)) → open_at s ≡ false
      → ShutOnError (with_methods host lib s d login o)
  with_methods-ShutOnError laws s d login (bad e) h = h
  with_methods-ShutOnError laws s d login (good methods) h =
      elim (Bool-cases (skip_host_key_check d)) [
        | inl skip ↦ rw skip (connect-ShutOnError laws s d _ h)
        | inr check ↦ rw check (checked-ShutOnError laws s d login methods _ h)
      ]

  on_error : (o : Option Error × S) (e : Error) → ShutOnError o → o.0 ≡ some e → open_at o.1 ≡ false
  on_error (none, s) e h k = absurd cc
  on_error (some x, s) e h k = h

  -- A Dial that fails leaves no socket open, and neither does Close.
  pub ssh_peer-ClosesSockets : SocketLaws → ClosesSockets open_at (ssh_peer host lib)
  unfolding ssh_peer dial close
  ssh_peer-ClosesSockets laws = record {
    failed_dial = λ s d login e h k.
        on_error (with_methods host lib s d login (auth_methods host lib s d)) e
          (with_methods-ShutOnError laws s d login (auth_methods host lib s d) h) k;
    closed = λ s. laws.shut (lib.close_client s);
  }
