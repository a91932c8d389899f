-- ===== src/Config/Defaults.antt =====
-- internal/config/config.go: the built-in defaults, and the merge of the defaults block into a
-- device. Precedence: device field > defaults block > built-in.
use jconfig.Prelude.{
  ◌*◌, true, not, ◌&&◌, List, [], ◌∷◌, Option, none, some, ◌==◌, nat_equality, list_equality,
  if◌then◌else◌,
}
use jconfig.Prelude.Int.{ℤ, pos, leb_ℤ, int_equality}
use jconfig.Prelude.Dict.{Dict, get, put}
use jconfig.Strings.Basic.{Text, codes, has_prefix}
use jconfig.Strings.Clean.{join_path}
use jconfig.Config.Host.{Host}
use jconfig.Config.Types.{second, Scheduler, Push, Repo, Device, Config, skip_host_key_check}
use jconfig.Config.Vendors.{vendors, vendor_junos, transport_ssh, VendorInfo}

-- setStr, and the same tests on numbers, pointers and slices: the value, or the default if unset
unfoldable pub set_str : Text → Text → Text
set_str dst def = if dst == [] then def else dst

unfoldable pub set_int : ℤ → ℤ → ℤ
set_int dst def = if dst == pos 0 then def else dst

abbrev pub set_opt {ℓ} : {A : Type ℓ} → Option A → Option A → Option A
set_opt none def = def
set_opt (some b) def = some b

abbrev pub set_list {ℓ} : {A : Type ℓ} → List A → List A → List A
set_list [] def = def
set_list (x ∷ xs) def = x ∷ xs

-- The home directory that expandUser uses: an unset one falls back to the account's.
abbrev pub usable_home : Option Text → Option Text → Option Text
usable_home none account = account
usable_home (some []) account = account
usable_home (some (c ∷ s)) account = some (c ∷ s)

abbrev pub below_home : Text → Text → Option Text → Text
below_home p rest none = p
below_home p rest (some home) = join_path (home ∷ rest ∷ [])

unfoldable pub expand_user : Host → Text → Text
unfolding has_prefix
expand_user host [] = []
expand_user host (c ∷ rest) =
    let p = c ∷ rest in
    if not (c == b'~')
    then p
    else if not (rest == []) && not (has_prefix (codes "~/") p)
    then p
    else below_home p rest (usable_home host.home_dir host.account_home)

unfoldable pub default_known_hosts : Host → Text
default_known_hosts host = elim host.home_dir [
  | none ↦ []
  | some home ↦
      (if home == [] then [] else join_path (home ∷ codes ".ssh" ∷ codes "known_hosts" ∷ []))
]

-- (*Config).applyBuiltinDefaults, part by part
unfoldable pub default_push : Host → Text → Push → Push
unfolding set_str set_int
default_push host branch p = record p {
  remote = set_str p.remote (codes "origin");
  branch = set_str p.branch branch;
  key_file = expand_user host p.key_file;
  known_hosts = expand_user host p.known_hosts;
  timeout = set_int p.timeout (pos (120 * second));
}

unfoldable pub default_repo : Host → Repo → Repo
unfolding default_push
default_repo host r =
    let branch = set_str r.branch (codes "main") in
    record r {
      branch = branch;
      layout = set_str r.layout (codes "flat");
      author_name = set_str r.author_name (codes "jconfig");
      author_email = set_str r.author_email (codes "jconfig@localhost");
      path = expand_user host r.path;
      push = default_push host branch r.push;
    }

unfoldable pub default_scheduler : Scheduler → Scheduler
unfolding set_int
default_scheduler s = record s {
  interval = set_int s.interval (pos (3_600 * second));
  concurrency = (if leb_ℤ s.concurrency (pos 0) then pos 8 else s.concurrency);
  scan_interval = set_int s.scan_interval (pos (15 * second));
  run_on_start = set_opt s.run_on_start (some true);
}

unfoldable pub default_config : Host → Config → Config
unfolding default_repo default_scheduler
default_config host c = record c {
  listen = set_str c.listen (codes ":9639");
  management_listen = set_opt c.management_listen (some (codes "127.0.0.1:9640"));
  log_level = set_str c.log_level (codes "info");
  log_format = set_str c.log_format (codes "text");
  metrics_path = set_str c.metrics_path (codes "/metrics");
  repo = default_repo host c.repo;
  scheduler = default_scheduler c.scheduler;
}

-- What the vendor's entry of the table fills: a port the map lacks reads as 0.
abbrev pub port_of : Option ℤ → ℤ
port_of none = pos 0
port_of (some n) = n

abbrev pub vendor_defaults : Option VendorInfo → Device → Device
vendor_defaults none d = d
vendor_defaults (some v) d = record d {
  port = set_int d.port (port_of (get d.transport v.default_ports));
  formats = set_list d.formats v.default_formats;
}

-- (*Device).applyBuiltinDefaults
unfoldable pub default_device : Host → Scheduler → Device → Device
unfolding set_str set_int expand_user default_known_hosts vendors
default_device host s d =
    let named = record d {
      vendor = set_str d.vendor vendor_junos;
      transport = set_str d.transport transport_ssh;
    } in
    let served = vendor_defaults (get named.vendor vendors) named in
    let hosts =
      if served.known_hosts == [] && not (skip_host_key_check served)
      then default_known_hosts host
      else served.known_hosts in
    record served {
      interval = set_int served.interval s.interval;
      timeout = set_int served.timeout (pos (120 * second));
      known_hosts = expand_user host hosts;
      key_file = expand_user host served.key_file;
    }

-- The loop over the labels of the defaults block.
unfoldable pub merge_labels : Dict Text Text → Dict Text Text → Dict Text Text
merge_labels dst [] = dst
merge_labels dst ((k, v) ∷ def) =
    merge_labels (elim (get k dst) [ none ↦ put k v dst | some w ↦ dst ]) def

-- mergeDevice
unfoldable pub merge_device : Device → Device → Device
unfolding set_str set_int merge_labels
merge_device dst def = record dst {
  host = set_str dst.host def.host;
  vendor = set_str dst.vendor def.vendor;
  transport = set_str dst.transport def.transport;
  username = set_str dst.username def.username;
  password = set_str dst.password def.password;
  key_file = set_str dst.key_file def.key_file;
  key = set_str dst.key def.key;
  key_passphrase = set_str dst.key_passphrase def.key_passphrase;
  known_hosts = set_str dst.known_hosts def.known_hosts;
  group = set_str dst.group def.group;
  port = set_int dst.port def.port;
  insecure_ignore_host_key = set_opt dst.insecure_ignore_host_key def.insecure_ignore_host_key;
  enabled = set_opt dst.enabled def.enabled;
  header = set_opt dst.header def.header;
  show_sensitive = set_opt dst.show_sensitive def.show_sensitive;
  host_key_algorithms = set_list dst.host_key_algorithms def.host_key_algorithms;
  kex_algorithms = set_list dst.kex_algorithms def.kex_algorithms;
  ciphers = set_list dst.ciphers def.ciphers;
  macs = set_list dst.macs def.macs;
  formats = set_list dst.formats def.formats;
  interval = set_int dst.interval def.interval;
  timeout = set_int dst.timeout def.timeout;
  remove_lines = set_list dst.remove_lines def.remove_lines;
  labels = merge_labels dst.labels def.labels;
}
