-- ===== src/Config/Types.antt =====
-- internal/config/config.go: the records that the YAML document is decoded into. A pointer is an
-- `Option`, an int an integer, a duration a count of nanoseconds.
use jconfig.Prelude.{
  ℕ, Bool, true, false, not, List, [], Option, none, some, keep, ◌==◌, nat_equality, list_equality,
}
use jconfig.Prelude.Int.{ℤ}
use jconfig.Prelude.Dict.{Dict}
use jconfig.Strings.Basic.{Text}

-- A compiled regular expression, as the test that MatchString makes of a line.
abbrev pub Matcher : Type 0
Matcher = Text → Bool

abbrev pub Duration : Type 0
Duration = ℤ

abbrev pub second : ℕ
second = 1_000_000_000

pub record Scheduler : Type 0 where
  pub interval : Duration
  pub concurrency : ℤ
  pub jitter : Duration
  pub run_on_start : Option Bool
  pub scan_interval : Duration
  pub retry_interval : Duration

pub record Push : Type 0 where
  pub enabled : Bool
  pub remote : Text
  pub url : Text
  pub branch : Text
  pub key_file : Text
  pub key : Text
  pub key_passphrase : Text
  pub known_hosts : Text
  pub insecure_ignore_host_key : Bool
  pub username : Text
  pub password : Text
  pub timeout : Duration
  pub force : Bool

pub record Repo : Type 0 where
  pub path : Text
  pub branch : Text
  pub layout : Text
  pub author_name : Text
  pub author_email : Text
  pub commit_prefix : Text
  pub clone_init : Option Bool
  pub push : Push

pub record Device : Type 0 where
  pub name : Text
  pub host : Text
  pub port : ℤ
  pub vendor : Text
  pub transport : Text
  pub username : Text
  pub password : Text
  pub key_file : Text
  pub key : Text
  pub key_passphrase : Text
  pub known_hosts : Text
  pub insecure_ignore_host_key : Option Bool
  pub host_key_algorithms : List Text
  pub kex_algorithms : List Text
  pub ciphers : List Text
  pub macs : List Text
  pub group : Text
  pub formats : List Text
  pub interval : Duration
  pub timeout : Duration
  pub enabled : Option Bool
  pub header : Option Bool
  pub show_sensitive : Option Bool
  pub remove_lines : List Text
  pub labels : Dict Text Text
  pub remove_re : List Matcher

pub record Config : Type 0 where
  pub listen : Text
  pub management_listen : Option Text
  pub log_level : Text
  pub log_format : Text
  pub metrics_path : Text
  pub scheduler : Scheduler
  pub repo : Repo
  pub defaults : Device
  pub devices : List Device
  pub file_path : Text

-- The value behind a pointer to a bool, or what a nil one stands for.
abbrev pub bool_or : Bool → Option Bool → Bool
bool_or d none = d
bool_or d (some b) = b

unfoldable pub clone_on_init : Repo → Bool
clone_on_init r = bool_or true r.clone_init

unfoldable pub is_enabled : Device → Bool
is_enabled d = bool_or true d.enabled

unfoldable pub header_enabled : Device → Bool
header_enabled d = bool_or true d.header

unfoldable pub sensitive_shown : Device → Bool
sensitive_shown d = bool_or false d.show_sensitive

unfoldable pub skip_host_key_check : Device → Bool
skip_host_key_check d = bool_or false d.insecure_ignore_host_key

unfoldable pub management_addr : Config → Text
management_addr c = elim c.management_listen [ none ↦ [] | some a ↦ a ]

unfoldable pub management_enabled : Config → Bool
unfolding management_addr
management_enabled c = not (management_addr c == [])

unfoldable pub enabled_devices : Config → List Device
unfolding is_enabled
enabled_devices c = keep is_enabled c.devices
