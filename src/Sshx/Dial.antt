-- ===== src/Sshx/Dial.antt =====
-- internal/sshx/sshx.go: credentials, Dial, Run and Close.
use jconfig.Prelude.{
  Bool, not, ◌&&◌, ◌||◌, List, [], ◌∷◌, ◌++◌, Option, none, some, ◌==◌, nat_equality, list_equality,
  if◌then◌else◌,
}
use jconfig.Prelude.Answer.{Answer, good, bad}
use jconfig.Strings.Format.{explain, quoted}
use jconfig.Strings.Basic.{Text, codes, contains}
use jconfig.Strings.Space.{trim_space}
use jconfig.Strings.Decimal.{decimal_ℤ}
use jconfig.Config.Types.{Device, skip_host_key_check}
use jconfig.Config.Host.{Host}
use jconfig.Config.Key.{decode_key}
use jconfig.Device.Result.{Error, plain, staged, wrapped, stage_auth, stage_connect}
use jconfig.Driver.Loop.{Output, output, lost, Peer}
use jconfig.Sshx.Ssh.{
  AuthMethod, public_keys, password, keyboard_interactive, HostKeyCallback, accept_any, in_database,
  ClientConfig, HandshakeError, Finished, succeeded, broke, Ssh,
}

-- Device.Addr
unfoldable pub addr : Device → Text
unfolding decimal_ℤ
addr d = d.host ++ (b':' ∷ decimal_ℤ d.port)

-- The keyboard-interactive callback: every question is answered with the password.
unfoldable pub answer_all : Text → List Text → List Text
answer_all secret [] = []
answer_all secret (q ∷ questions) = secret ∷ answer_all secret questions

-- A private key and the label of where it came from.
pub data PrivateKey : Type 0 where
  key_from : Text → Text → PrivateKey
  no_key : Text → PrivateKey

-- classifyHandshakeError
abbrev pub denies_login : Text → Bool
denies_login text =
    contains (codes "unable to authenticate") text
    || contains (codes "no supported methods remain") text

unfoldable pub classify_handshake_error : Device → HandshakeError → Error
unfolding addr contains
classify_handshake_error d e =
    if e.host_unknown
    then staged stage_connect (
        wrapped
          (codes "host key for " ++ (addr d ++ (codes " not in " ++ (d.known_hosts ++ codes ": "))))
          (plain e.text))
    else if e.host_key_changed
    then staged stage_connect (
        wrapped (codes "host key for " ++ (addr d ++ codes " CHANGED, refusing to connect: "))
          (plain e.text))
    else if denies_login e.text
    then staged stage_auth (plain e.text)
    else staged stage_connect (plain e.text)

module _ {S : Type 0} (host : Host) (lib : Ssh S) where
  abbrev pub decoded_inline : Answer Text → PrivateKey
  decoded_inline (bad e) = no_key (explain (codes "key") e)
  decoded_inline (good pem) = key_from pem (codes "key")

  abbrev pub read_key_file : Text → Answer Text → PrivateKey
  read_key_file path (bad e) = no_key (explain (codes "read key_file") e)
  read_key_file path (good pem) = key_from pem (codes "key_file " ++ path)

  -- privateKey
  unfoldable pub private_key : S → Device → PrivateKey
  unfolding decode_key
  private_key s d =
      if not (d.key == [])
      then decoded_inline (decode_key host d.key)
      else read_key_file d.key_file (lib.read_file s d.key_file)

  abbrev pub signer : Text → Text → Text → Option Text → Answer (List AuthMethod)
  signer pem source passphrase none = good (public_keys pem passphrase ∷ [])
  signer pem source passphrase (some e) = bad (codes "parse " ++ explain source e)

  abbrev pub with_signer : Device → PrivateKey → Answer (List AuthMethod)
  with_signer d (no_key e) = bad e
  with_signer d (key_from pem source) =
      signer pem source d.key_passphrase (lib.parse_private_key pem d.key_passphrase)

  abbrev pub password_methods : Device → List AuthMethod
  password_methods d =
      if d.password == []
      then []
      else password d.password ∷ keyboard_interactive (answer_all d.password) ∷ []

  abbrev pub some_methods : List AuthMethod → Answer (List AuthMethod)
  some_methods [] = bad (codes "no usable credentials")
  some_methods (m ∷ methods) = good (m ∷ methods)

  abbrev pub with_password : Device → Answer (List AuthMethod) → Answer (List AuthMethod)
  with_password d (bad e) = bad e
  with_password d (good methods) = some_methods (methods ++ password_methods d)

  -- authMethods
  unfoldable pub auth_methods : S → Device → Answer (List AuthMethod)
  unfolding private_key answer_all
  auth_methods s d =
      with_password d
        (if d.key == [] && d.key_file == [] then good [] else with_signer d (private_key s d))

  -- The algorithms that are offered: the device's, or those of the keys on file.
  abbrev pub offered : S → Device → List Text
  offered s d =
      if d.host_key_algorithms == []
      then lib.database_algorithms s d.known_hosts (addr d)
      else d.host_key_algorithms

  abbrev pub client_config :
      Device → Text → List AuthMethod → List Text → HostKeyCallback → ClientConfig
  client_config d login auth algorithms callback = record {
    user = login;
    auth = auth;
    host_key_algorithms = algorithms;
    timeout = d.timeout;
    key_exchanges = d.kex_algorithms;
    ciphers = d.ciphers;
    macs = d.macs;
    host_key_callback = callback;
  }

  abbrev pub shaken : Device → Option HandshakeError × S → Option Error × S
  shaken d (none, s) = (none, s)
  shaken d (some e, s) = (some (classify_handshake_error d e), lib.close_socket s)

  abbrev pub on_socket : Device → ClientConfig → Option Text × S → Option Error × S
  on_socket d cc (some e, s) = (some (staged stage_connect (plain e)), s)
  on_socket d cc (none, s) = shaken d (lib.handshake (lib.set_deadline s) (addr d) cc)

  abbrev pub connect : S → Device → ClientConfig → Option Error × S
  connect s d cc = on_socket d cc (lib.dial_tcp s (addr d))

  abbrev pub checked : S → Device → Text → List AuthMethod → Option Text → Option Error × S
  checked s d login auth (some e) =
      (some (staged stage_connect (plain (codes "known_hosts " ++ explain d.known_hosts e))), s)
  checked s d login auth none =
      connect s d (client_config d login auth (offered s d) (in_database d.known_hosts))

  abbrev pub with_methods : S → Device → Text → Answer (List AuthMethod) → Option Error × S
  with_methods s d login (bad e) = (some (staged stage_auth (plain e)), s)
  with_methods s d login (good auth) =
      if skip_host_key_check d
      then connect s d (client_config d login auth d.host_key_algorithms accept_any)
      else checked s d login auth (lib.new_database s d.known_hosts)

  -- Dial
  unfoldable pub dial : S → Device → Text → Option Error × S
  unfolding auth_methods addr skip_host_key_check classify_handshake_error
  dial s d login = with_methods s d login (auth_methods s d)

  abbrev pub run_error : Text → Text → Text → Option Text → Text
  run_error cmd e msg (some reason) = reason
  run_error cmd e msg none =
      if msg == [] then explain (quoted cmd) e else explain (quoted cmd) (explain e msg)

  abbrev pub ran : Text → Finished × S → Output × S
  ran cmd (succeeded out, s) = (output out, lib.close_session s)
  ran cmd (broke e stderr, s) = (
    lost (plain (run_error cmd e (trim_space stderr) (lib.context_error s))),
    lib.close_session s,
  )

  abbrev pub in_session : Text → Option Text × S → Output × S
  in_session cmd (some e, s) = (lost (plain (explain (codes "open session") e)), s)
  in_session cmd (none, s) = ran cmd (lib.run_session s cmd)

  -- Run
  unfoldable pub run : S → Text → Output × S
  unfolding trim_space
  run s cmd = in_session cmd (lib.new_session (lib.set_deadline s))

  -- Close
  unfoldable pub close : S → S
  close s = lib.close_socket (lib.close_client s)

  -- The connection as the drivers use it.
  unfoldable pub ssh_peer : Peer S
  unfolding dial run close
  ssh_peer = record { dial = dial; run = run; close = close }
