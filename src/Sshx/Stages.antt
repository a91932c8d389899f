-- ===== src/Sshx/Stages.antt =====
-- internal/sshx/sshx.go: the stages of the errors of Dial.
use jconfig.Prelude.{
  true, false, List, ◌≡◌, ◌⊎◌, inl, inr, refl, ap, Option, none, some, arith, nat_equality,
  list_equality, Bool-cases,
}
use jconfig.Prelude.Answer.{Answer, good, bad}
use jconfig.Strings.Basic.{Text, codes, contains}
use jconfig.Config.Types.{Device, skip_host_key_check}
use jconfig.Config.Host.{Host}
use jconfig.Device.Result.{Error, stage_of, stage_auth, stage_connect}
use jconfig.Sshx.Ssh.{AuthMethod, HandshakeError, ClientConfig, Ssh}
use jconfig.Sshx.Dial.{
  addr, denies_login, classify_handshake_error, auth_methods, shaken, on_socket, connect, checked,
  with_methods, dial,
}

-- The device answered the handshake of the dialling with this error: the socket was opened, and the
-- handshake was made on it, for this login.
pub record HandshakeFails {S : Type 0} (lib : Ssh S) (s : S) (d : Device) (login : Text)
    (h : HandshakeError) : Type 0 where
  pub opened : S
  pub after : S
  pub config : ClientConfig
  pub for_login : config.user ≡ login
  pub dialled : lib.dial_tcp s (addr d) ≡ (none, opened)
  pub answered : lib.handshake (lib.set_deadline opened) (addr d) config ≡ (some h, after)

-- An error that says that the device let none of the offered methods in.
abbrev pub Denies : Text → Type 0
Denies text =
    (contains (codes "unable to authenticate") text ≡ true)
    ⊎ (contains (codes "no supported methods remain") text ≡ true)

-- Why dialling failed, and the stage of its error for that.
pub data Blame {S : Type 0} (host : Host) (lib : Ssh S) (s : S) (d : Device) (login : Text)
    (e : Error) : Type 0 where
  no_credentials :
      (why : Text)
      → auth_methods host lib s d ≡ bad why
      → stage_of e ≡ stage_auth
      → Blame host lib s d login e
  no_known_hosts :
      (why : Text)
      → skip_host_key_check d ≡ false
      → lib.new_database s d.known_hosts ≡ some why
      → stage_of e ≡ stage_connect
      → Blame host lib s d login e
  not_reached :
      (why : Text) (after : S)
      → lib.dial_tcp s (addr d) ≡ (some why, after)
      → stage_of e ≡ stage_connect
      → Blame host lib s d login e
  login_denied :
      (h : HandshakeError)
      → HandshakeFails lib s d login h
      → h.host_unknown ≡ false
      → h.host_key_changed ≡ false
      → Denies h.text
      → stage_of e ≡ stage_auth
      → Blame host lib s d login e
  host_refused :
      (h : HandshakeError)
      → HandshakeFails lib s d login h
      → (h.host_unknown ≡ true) ⊎ (h.host_key_changed ≡ true)
      → stage_of e ≡ stage_connect
      → Blame host lib s d login e
  handshake_broken :
      (h : HandshakeError)
      → HandshakeFails lib s d login h
      → ¬ Denies h.text
      → stage_of e ≡ stage_connect
      → Blame host lib s d login e

denied_of : (text : Text) → denies_login text ≡ true → Denies text
denied_of text h = elim (Bool-cases (contains (codes "unable to authenticate") text)) [
  | inl here ↦ inl here
  | inr other ↦ inr (rw other at h)
]

not_denied : (text : Text) → denies_login text ≡ false → ¬ Denies text
not_denied text h (inl e) = let clash : true ≡ false = rw e at h in cc
not_denied text h (inr e) = absurd (ground arith)

-- An error of a dialling, if there is one, is blamed on something.
abbrev Blamed : {S : Type 0} → Host → Ssh S → S → Device → Text → Option Error → Type 0
Blamed host lib s d login none = Unit
Blamed host lib s d login (some e) = Blame host lib s d login e

module _ {S : Type 0} (host : Host) (lib : Ssh S) (s : S) (d : Device) (login : Text) where
  classify-Blame :
      (h : HandshakeError)
      → HandshakeFails lib s d login h
      → Blame host lib s d login (classify_handshake_error d h)
  unfolding classify_handshake_error stage_of
  classify-Blame h f = elim (Bool-cases h.host_unknown) [
    | inl unknown ↦ rw unknown (host_refused h f (inl unknown) refl)
    | inr known ↦ elim (Bool-cases h.host_key_changed) [
      | inl changed ↦ rw (known, changed) (host_refused h f (inr changed) refl)
      | inr same ↦ elim (Bool-cases (denies_login h.text)) [
        | inl denied ↦
            rw (known, same, denied) (login_denied h f known same (denied_of h.text denied) refl)
        | inr other ↦ rw (known, same, other) (handshake_broken h f (not_denied h.text other) refl)
      ]
    ]
  ]

  shaken-Blamed :
      (opened : S) (config : ClientConfig)
      → config.user ≡ login
      → lib.dial_tcp s (addr d) ≡ (none, opened)
      → (o : Option HandshakeError × S)
      → lib.handshake (lib.set_deadline opened) (addr d) config ≡ o
      → Blamed host lib s d login (shaken host lib d o).0
  shaken-Blamed opened config for_login dialled (none, after) q = tt
  shaken-Blamed opened config for_login dialled (some h, after) q = classify-Blame h (record {
    opened = opened;
    after = after;
    config = config;
    for_login = for_login;
    dialled = dialled;
    answered = q;
  })

  on_socket-Blamed :
      (config : ClientConfig)
      → config.user ≡ login
      → (o : Option Text × S) → lib.dial_tcp s (addr d) ≡ o
      → Blamed host lib s d login (on_socket host lib d config o).0
  unfolding stage_of
  on_socket-Blamed config for_login (some e, after) q = not_reached e after q refl
  on_socket-Blamed config for_login (none, opened) q =
      shaken-Blamed opened config for_login q _ refl

  connect-Blamed :
      (config : ClientConfig)
      → config.user ≡ login
      → Blamed host lib s d login (connect host lib s d config).0
  connect-Blamed config for_login = on_socket-Blamed config for_login _ refl

  checked-Blamed :
      (methods : List AuthMethod)
      → skip_host_key_check d ≡ false
      → (o : Option Text) → lib.new_database s d.known_hosts ≡ o
      → Blamed host lib s d login (checked host lib s d login methods o).0
  unfolding stage_of
  checked-Blamed methods check (some e) q = no_known_hosts e check q refl
  checked-Blamed methods check none q = connect-Blamed _ refl

  with_methods-Blamed :
      (o : Answer (List AuthMethod))
      → auth_methods host lib s d ≡ o
      → Blamed host lib s d login (with_methods host lib s d login o).0
  unfolding stage_of
  with_methods-Blamed (bad e) q = no_credentials e q refl
  with_methods-Blamed (good methods) q = elim (Bool-cases (skip_host_key_check d)) [
    | inl skip ↦ rw skip (connect-Blamed _ refl)
    | inr check ↦ rw check (checked-Blamed methods check _ refl)
  ]

module _ {S : Type 0} (host : Host) (lib : Ssh S) where
  -- An error of Dial has the stage auth if there were no usable credentials, or if the handshake that
  -- was made on the opened socket was denied the login after the host key had been accepted. It has
  -- the stage connect if the known hosts could not be read, the socket could not be opened, or the
  -- handshake failed for the host key or for any other reason than a denied login. There is no other
  -- way to an error.
  pub dial-Blame :
      (s s' : S) (d : Device) (login : Text) (e : Error)
      → dial host lib s d login ≡ (some e, s')
      → Blame host lib s d login e
  unfolding dial
  dial-Blame s s' d login e h =
      rw (ap (λ r. r.0) h) at
        (with_methods-Blamed host lib s d login (auth_methods host lib s d) refl)

  -- Without usable credentials nothing is dialled.
  pub dial-untouched :
      (s : S) (d : Device) (login why : Text)
      → auth_methods host lib s d ≡ bad why
      → (dial host lib s d login).1 ≡ s
  unfolding dial
  dial-untouched s d login why h = rw h refl
