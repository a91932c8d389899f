-- ===== src/Sshx/Ssh.antt =====
-- internal/sshx/sshx.go: what it asks of the socket, of golang.org/x/crypto/ssh and of knownhosts,
-- as operations on a state. A context's deadline and end are part of what they answer.
use jconfig.Prelude.{Bool, List, Option, nat_equality, list_equality}
use jconfig.Prelude.Answer.{Answer}
use jconfig.Strings.Basic.{Text}
use jconfig.Config.Types.{Duration}

-- The ways to authenticate that the code offers: a parsed key, a password, and the answers to the
-- questions of a keyboard-interactive prompt.
pub data AuthMethod : Type 0 where
  public_keys : Text → Text → AuthMethod
  password : Text → AuthMethod
  keyboard_interactive : (List Text → List Text) → AuthMethod

-- How the host key is checked: not at all, or against a file of known hosts.
pub data HostKeyCallback : Type 0 where
  accept_any : HostKeyCallback
  in_database : Text → HostKeyCallback

pub record ClientConfig : Type 0 where
  pub user : Text
  pub auth : List AuthMethod
  pub host_key_algorithms : List Text
  pub timeout : Duration
  pub key_exchanges : List Text
  pub ciphers : List Text
  pub macs : List Text
  pub host_key_callback : HostKeyCallback

-- The error of a handshake, with what knownhosts says of it.
pub record HandshakeError : Type 0 where
  pub host_unknown : Bool
  pub host_key_changed : Bool
  pub text : Text

-- A command in a session: its output, or its error and what it wrote to stderr.
pub data Finished : Type 0 where
  succeeded : Text → Finished
  broke : Text → Text → Finished

pub record Ssh (S : Type 0) : Type 0 where
  pub read_file : S → Text → Answer Text
  -- ssh.ParsePrivateKey, or ParsePrivateKeyWithPassphrase for a passphrase that is not empty
  pub parse_private_key : Text → Text → Option Text
  pub new_database : S → Text → Option Text
  pub database_algorithms : S → Text → Text → List Text
  pub dial_tcp : S → Text → Option Text × S
  pub set_deadline : S → S
  pub handshake : S → Text → ClientConfig → Option HandshakeError × S
  pub close_client : S → S
  pub close_socket : S → S
  pub new_session : S → Option Text × S
  pub run_session : S → Text → Finished × S
  pub close_session : S → S
  pub context_error : S → Option Text
