-- ===== src/Runner/Types.antt =====
-- internal/runner/runner.go: the status of a device, the outcome of a backup and of a run.
use jconfig.Prelude.{ℕ, Bool, false, List, [], Option, none, nat_equality, list_equality}
use jconfig.Prelude.Dict.{Dict}
use jconfig.Prelude.Int.{pos}
use jconfig.Prelude.Time.{Time, Duration}
use jconfig.Strings.Basic.{Text}
use jconfig.Config.Types.{Config}
use jconfig.Metrics.{Metrics}

pub record State : Type 0 where
  pub name : Text
  pub host : Text
  pub group : Text
  pub vendor : Text
  pub transport : Text
  pub enabled : Bool
  pub interval : Duration
  pub hostname : Text
  pub model : Text
  pub os_version : Text
  pub last_attempt : Option Time
  pub last_success : Option Time
  pub last_changed : Option Time
  pub next_run : Option Time
  pub last_error : Text
  pub last_stage : Text
  pub failures : ℕ
  pub last_commit : Text
  pub device_commit : Option Time
  pub device_commit_by : Text
  pub duration : Duration
  pub running : Bool

-- &State{Name: name}
abbrev pub fresh : Text → State
fresh n = record {
  name = n;
  host = [];
  group = [];
  vendor = [];
  transport = [];
  enabled = false;
  interval = pos 0;
  hostname = [];
  model = [];
  os_version = [];
  last_attempt = none;
  last_success = none;
  last_changed = none;
  next_run = none;
  last_error = [];
  last_stage = [];
  failures = 0;
  last_commit = [];
  device_commit = none;
  device_commit_by = [];
  duration = pos 0;
  running = false;
}

pub record DeviceResult : Type 0 where
  pub device : Text
  pub succeeded : Bool
  pub changed : Bool
  pub commit : Text
  pub stage : Text
  pub error : Text
  pub duration : Duration

pub record RunSummary : Type 0 where
  pub started : Time
  pub duration : Duration
  pub total : ℕ
  pub succeeded : ℕ
  pub failed : ℕ
  pub changed : ℕ
  pub pushed : Bool
  pub push_error : Text
  pub devices : List DeviceResult

-- The runner: the repository, the collectors, the configuration, the table of devices, and
-- whether a run holds runMu.
pub record Runner (S : Type 0) : Type 0 where
  pub store : S
  pub metrics : Metrics
  pub cfg : Config
  pub states : Dict Text State
  pub busy : Bool

-- What the clock shows in one backup: its start, the time it took, the time of the result, and
-- the times stamped on the commit and on the git operation.
pub record Readings : Type 0 where
  pub start : Time
  pub elapsed : Duration
  pub now : Time
  pub commit_time : Time
  pub git_time : Time
