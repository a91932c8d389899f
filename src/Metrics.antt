-- ===== src/Metrics.antt =====
-- internal/metrics/metrics.go: the collectors and their updates. A vector maps label values to a
-- value: a gauge to an integer (a timestamp in seconds, a duration in nanoseconds), a counter to a
-- number, a histogram to the durations observed. Each per-device vector has `device` as first label.
pub mod Laws
pub mod Health
use jconfig.Prelude.{
  ℕ, ◌+◌, Bool, true, false, List, [], ◌∷◌, ◌++◌, none, some, arith, ◌==◌, nat_equality,
  list_equality,
}
use jconfig.Prelude.Int.{ℤ, pos, negsuc}
use jconfig.Prelude.Dict.{Dict, get, put, remove_if}
use jconfig.Prelude.Time.{Time, Duration, unix}
use jconfig.Strings.Basic.{Text, codes}

abbrev pub result_success : Text
result_success = codes "success"

abbrev pub result_failure : Text
result_failure = codes "failure"

abbrev pub op_commit : Text
op_commit = codes "commit"

abbrev pub op_push : Text
op_push = codes "push"

abbrev pub op_status : Text
op_status = codes "status"

abbrev pub op_open : Text
op_open = codes "open"

abbrev pub Labels : Type 0
Labels = List Text

abbrev pub Vec : Type 0 → Type 0
Vec V = Dict Labels V

pub record Metrics : Type 0 where
  pub build_info : Vec ℤ
  pub config_load : Vec ℤ
  pub device_info : Vec ℤ
  pub backup_success : Vec ℤ
  pub backup_last_attempt : Vec ℤ
  pub backup_last_success : Vec ℤ
  pub backup_last_duration : Vec ℤ
  pub backup_last_error : Vec ℤ
  pub consecutive_failures : Vec ℤ
  pub config_bytes : Vec ℤ
  pub config_lines : Vec ℤ
  pub config_last_changed : Vec ℤ
  pub device_last_commit : Vec ℤ
  pub device_last_commit_by : Vec ℤ
  pub git_last_error : Vec ℤ
  pub backup_total : Vec ℕ
  pub backup_errors : Vec ℕ
  pub config_changed_total : Vec ℕ
  pub git_operations : Vec ℕ
  pub git_commits_total : Vec ℕ
  pub run_total : Vec ℕ
  pub backup_duration : Vec (List Duration)
  pub git_last_commit : ℤ
  pub git_last_push : ℤ
  pub git_push_enabled : ℤ
  pub git_push_success : ℤ
  pub git_unpushed_commits : ℤ
  pub git_repo_dirty : ℤ
  pub run_last : ℤ
  pub run_duration : ℤ
  pub run_in_progress : ℤ
  pub devices_total : ℤ
  pub devices_enabled : ℤ
  pub devices_failing : ℤ

-- New: no series yet, and every plain gauge at 0.
unfoldable pub new : Metrics
new = record {
  build_info = [];
  config_load = [];
  device_info = [];
  backup_success = [];
  backup_last_attempt = [];
  backup_last_success = [];
  backup_last_duration = [];
  backup_last_error = [];
  consecutive_failures = [];
  config_bytes = [];
  config_lines = [];
  config_last_changed = [];
  device_last_commit = [];
  device_last_commit_by = [];
  git_last_error = [];
  backup_total = [];
  backup_errors = [];
  config_changed_total = [];
  git_operations = [];
  git_commits_total = [];
  run_total = [];
  backup_duration = [];
  git_last_commit = pos 0;
  git_last_push = pos 0;
  git_push_enabled = pos 0;
  git_push_success = pos 0;
  git_unpushed_commits = pos 0;
  git_repo_dirty = pos 0;
  run_last = pos 0;
  run_duration = pos 0;
  run_in_progress = pos 0;
  devices_total = pos 0;
  devices_enabled = pos 0;
  devices_failing = pos 0;
}

-- v.WithLabelValues(labels).Inc() and .Observe(d)
unfoldable pub inc : Labels → Vec ℕ → Vec ℕ
inc labels v = put labels (elim (get labels v) [ none ↦ 1 | some n ↦ n + 1 ]) v

unfoldable pub observe : Labels → Duration → Vec (List Duration) → Vec (List Duration)
observe labels d v = put labels (elim (get labels v) [ none ↦ d ∷ [] | some ds ↦ ds ++ (d ∷ []) ]) v

-- Whether the label values begin with this device.
unfoldable pub of_device : Text → Labels → Bool
of_device device [] = false
of_device device (label ∷ labels) = label == device

-- v.DeletePartialMatch(Labels{"device": device})
unfoldable pub delete_device : {V : Type 0} → Text → Vec V → Vec V
unfolding of_device
delete_device device v = remove_if (of_device device) v

-- Bool
unfoldable pub bool_value : Bool → ℤ
bool_value true = pos 1
bool_value false = pos 0

unfoldable pub set_build_info : Text → Text → Text → Metrics → Metrics
set_build_info version commit go_version m = record m {
  build_info = put (version ∷ commit ∷ go_version ∷ []) (pos 1) m.build_info;
}

unfoldable pub observe_attempt : Text → Time → Metrics → Metrics
observe_attempt device at m = record m {
  backup_last_attempt = put (device ∷ []) (unix at) m.backup_last_attempt;
}

unfoldable pub observe_success : Text → Time → Duration → Metrics → Metrics
observe_success device at dur m = record m {
  backup_success = put (device ∷ []) (pos 1) m.backup_success;
  backup_last_success = put (device ∷ []) (unix at) m.backup_last_success;
  backup_last_duration = put (device ∷ []) dur m.backup_last_duration;
  backup_duration = observe (device ∷ []) dur m.backup_duration;
  backup_total = inc (device ∷ result_success ∷ []) m.backup_total;
  consecutive_failures = put (device ∷ []) (pos 0) m.consecutive_failures;
  backup_last_error = delete_device device m.backup_last_error;
}

unfoldable pub observe_failure : Text → Text → Duration → ℕ → Metrics → Metrics
observe_failure device stage dur consecutive m = record m {
  backup_success = put (device ∷ []) (pos 0) m.backup_success;
  backup_last_duration = put (device ∷ []) dur m.backup_last_duration;
  backup_duration = observe (device ∷ []) dur m.backup_duration;
  backup_total = inc (device ∷ result_failure ∷ []) m.backup_total;
  backup_errors = inc (device ∷ stage ∷ []) m.backup_errors;
  consecutive_failures = put (device ∷ []) (pos consecutive) m.consecutive_failures;
  backup_last_error = put (device ∷ stage ∷ []) (pos 1) (delete_device device m.backup_last_error);
}

-- ObserveGit; `failed` says that the error is not nil.
unfoldable pub observe_git : Text → Bool → Time → Metrics → Metrics
observe_git op true now m = record m {
  git_operations = inc (op ∷ result_failure ∷ []) m.git_operations;
  git_last_error = put (op ∷ []) (unix now) m.git_last_error;
}
observe_git op false now m = record m {
  git_operations = inc (op ∷ result_success ∷ []) m.git_operations;
}

unfoldable pub forget_device : Text → Metrics → Metrics
forget_device device m = record m {
  device_info = delete_device device m.device_info;
  backup_success = delete_device device m.backup_success;
  backup_last_attempt = delete_device device m.backup_last_attempt;
  backup_last_success = delete_device device m.backup_last_success;
  backup_last_duration = delete_device device m.backup_last_duration;
  backup_duration = delete_device device m.backup_duration;
  backup_total = delete_device device m.backup_total;
  backup_errors = delete_device device m.backup_errors;
  backup_last_error = delete_device device m.backup_last_error;
  consecutive_failures = delete_device device m.consecutive_failures;
  config_bytes = delete_device device m.config_bytes;
  config_lines = delete_device device m.config_lines;
  config_changed_total = delete_device device m.config_changed_total;
  config_last_changed = delete_device device m.config_last_changed;
  device_last_commit = delete_device device m.device_last_commit;
  device_last_commit_by = delete_device device m.device_last_commit_by;
  git_commits_total = delete_device device m.git_commits_total;
}
