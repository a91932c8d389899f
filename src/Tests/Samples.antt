-- ===== src/Tests/Samples.antt =====
-- Sample data for the tests.
use jconfig.Prelude.{ℕ, ◌+◌, true, false, [], ◌∷◌, map, none, some, nat_equality, list_equality}
use jconfig.Prelude.Int.{pos}
use jconfig.Prelude.Time.{Time, zero_time}
use jconfig.Strings.Basic.{Text, codes}
use jconfig.Config.Types.{Config, Device, Scheduler, Push, Repo}
use jconfig.Config.Vendors.{vendor_junos, transport_ssh, format_text}
use jconfig.Device.Result.{Fetched}
use jconfig.Metrics.{new}
use jconfig.Prelude.Answer.{good}
use jconfig.Store.Api.{StoreApi}
use jconfig.Runner.Types.{fresh, Runner, Readings}

abbrev pub device : Device
device = record {
  name = codes "mx1";
  host = codes "10.0.0.1";
  port = pos 22;
  vendor = vendor_junos;
  transport = transport_ssh;
  username = codes "backup";
  password = codes "secret";
  key_file = [];
  key = [];
  key_passphrase = [];
  known_hosts = [];
  insecure_ignore_host_key = some true;
  host_key_algorithms = [];
  kex_algorithms = [];
  ciphers = [];
  macs = [];
  group = codes "core";
  formats = format_text ∷ [];
  interval = pos 3600;
  timeout = pos 120;
  enabled = none;
  header = none;
  show_sensitive = none;
  remove_lines = [];
  labels = [];
  remove_re = [];
}

abbrev pub scheduler : Scheduler
scheduler = record {
  interval = pos 3600;
  concurrency = pos 8;
  jitter = pos 0;
  run_on_start = some true;
  scan_interval = pos 15;
  retry_interval = pos 300;
}

abbrev pub push : Push
push = record {
  enabled = false;
  remote = codes "origin";
  url = [];
  branch = codes "main";
  key_file = [];
  key = [];
  key_passphrase = [];
  known_hosts = [];
  insecure_ignore_host_key = false;
  username = [];
  password = [];
  timeout = pos 120;
  force = false;
}

abbrev pub repo : Repo
repo = record {
  path = codes "/var/lib/jconfig";
  branch = codes "main";
  layout = codes "flat";
  author_name = codes "jconfig";
  author_email = codes "jconfig@localhost";
  commit_prefix = [];
  clone_init = none;
  push = push;
}

abbrev pub config : Config
config = record {
  listen = codes ":9639";
  management_listen = some [];
  log_level = codes "info";
  log_format = codes "text";
  metrics_path = codes "/metrics";
  scheduler = scheduler;
  repo = repo;
  defaults = device;
  devices = device ∷ [];
  file_path = codes "jconfig.yml";
}

-- A repository that counts its commits.
abbrev pub counting : StoreApi ℕ
counting = record {
  commit = λ n req. (
    good (record { changed = true; hash = codes "abc"; files = map (λ e. e.0) req.files }),
    n + 1,
  );
  head_commit = λ n. good (pos n, codes "abc");
  dirty = λ n. good false;
  push = λ n. (good true, n);
  unpushed = λ n. (good n, n);
}

abbrev pub no_time : Time → Text
no_time t = []

abbrev pub readings : Readings
readings = record {
  start = pos 10;
  elapsed = pos 2;
  now = pos 12;
  commit_time = pos 11;
  git_time = pos 11;
}

abbrev pub fetched : Fetched
fetched = record {
  configs = (format_text, codes "version 21.4;\r\nsystem {  \r\n}\r\n\r\n") ∷ [];
  hostname = codes "mx1";
  model = codes "mx480";
  os_version = codes "21.4";
  header_blocks = codes "Model: mx480\n" ∷ [] ∷ [];
  last_commit = zero_time;
  last_commit_by = [];
  took = pos 0;
}

abbrev pub runner : Runner ℕ
runner = record {
  store = 0;
  metrics = new;
  cfg = config;
  states = (device.name, fresh device.name) ∷ [];
  busy = false;
}
